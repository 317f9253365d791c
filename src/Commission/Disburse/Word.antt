-- ===== src/Commission/Disburse/Word.antt =====
-- A pass takes Payments at its word, and nothing else moves a payout row.
use devops_g_9_tillflow.Base.{
  ℕ, ◌<◌, String, ◌≡◌, refl, ◌⊎◌, inl, inr, some, List, [], ◌∷◌, Bool-cases, Option-cases,
}
use devops_g_9_tillflow.Base.Table.{In}
use devops_g_9_tillflow.Base.Table.Update.{Rowwise-In}
use devops_g_9_tillflow.Commission.Tables.{LedgerState, LedgerRow, Db}
use devops_g_9_tillflow.Commission.Common.{Reply, classify_payout_response, terminal_payments_state}
use devops_g_9_tillflow.Commission.Disburse.{
  handle_outcome, Call, Check, stops_pass, send_rows, send_due_payouts, reconcile_row,
  reconcile_rows, reconcile_requested_payouts,
}
use devops_g_9_tillflow.Commission.Disburse.Moves.{
  rank, Moved, DbMoved, DbMoved-refl, DbMoved-trans, bump_backoff-Moved,
}
use devops_g_9_tillflow.Commission.Disburse.Pass.{
  Allows, TellsOf, handle_outcome-Moved, reconcile_state-Moved,
}

-- Payments answered the POST for a row of this id so that it may become `t`.
abbrev pub Answered : (LedgerRow → Call) → String → LedgerState → Type 0
Answered create_payout id t =
    (row : LedgerRow) × (row.id ≡ id)
    × ((status : ℕ) × (r : Reply) × ((create_payout row).response ≡ some (status, r))
        × Allows status r t)

-- Payments holds a record, under this id, that says `t`.
abbrev pub Checked : (LedgerRow → Check) → String → LedgerState → Type 0
Checked check id t =
    (row : LedgerRow) × (row.id ≡ id) × ((r : Reply) × ((check row).payment ≡ some r) × TellsOf r t)

module _ (held_label : String → String) (create_payout : LedgerRow → Call) where
  pub send_rows-Moved :
      (rows : List LedgerRow) (d : Db)
      → DbMoved (Answered create_payout) d (send_rows held_label create_payout rows d).2
  unfolding send_rows
  send_rows-Moved [] d = DbMoved-refl (Answered create_payout) d
  send_rows-Moved (row ∷ rows) d = elim (Option-cases (create_payout row).response) [
    | inl e ↦ rw (e, send_rows) (DbMoved-refl (Answered create_payout) d)
    | inr ((status, r), e) ↦
        let now = (create_payout row).now in
        let o = classify_payout_response status r in
        let one =
          handle_outcome-Moved (Answered create_payout) now row held_label status r d o refl
            (λ t a. (row, refl, (status, r, e, a))) in
        let next = handle_outcome held_label now row r o d in
        elim (Bool-cases (stops_pass o)) [
          | inl s ↦ rw (e, s, send_rows) one
          | inr s ↦
              rw (e, s, send_rows)
                (DbMoved-trans (Answered create_payout) d next _ one (send_rows-Moved rows next))
        ]
  ]

module _ (check : LedgerRow → Check) where
  reconcile_row-Moved :
      (row : LedgerRow) (d : Db) → DbMoved (Checked check) d (reconcile_row (check row) row d).1
  unfolding reconcile_row
  reconcile_row-Moved row d = elim (Option-cases (check row).payment) [
    | inl e ↦ rw (e, reconcile_row) (bump_backoff-Moved (Checked check) (check row).now row d)
    | inr (r, e) ↦
        rw (e, reconcile_row)
          (reconcile_state-Moved (Checked check) (check row).now row r d
            (terminal_payments_state r.state) refl (λ t a. (row, refl, (r, e, a))))
  ]

  pub reconcile_rows-Moved :
      (rows : List LedgerRow) (d : Db) → DbMoved (Checked check) d (reconcile_rows check rows d).1
  unfolding reconcile_rows
  reconcile_rows-Moved [] d = DbMoved-refl (Checked check) d
  reconcile_rows-Moved (row ∷ rows) d =
      DbMoved-trans (Checked check) d (reconcile_row (check row) row d).1 _
        (reconcile_row-Moved row d) (reconcile_rows-Moved rows (reconcile_row (check row) row d).1)

-- The row is the same payout, for the same amount and under the same key, and its state is the same or
-- one of a higher rank that `Word` accounts for.
abbrev pub Followed : (String → LedgerState → Type 0) → LedgerRow → Db → Type 0
Followed Word p e =
    (q : LedgerRow) × In q e.payout_ledger
    × (q.id ≡ p.id)
    × (q.amount_minor ≡ p.amount_minor)
    × (q.idempotency_key ≡ p.idempotency_key)
    × ((q.state ≡ p.state) ⊎ ((rank p.state < rank q.state) × Word p.id q.state))

Moved-Followed :
    (Word : String → LedgerState → Type 0) (p : LedgerRow) (d e : Db)
    → DbMoved Word d e
    → In p d.payout_ledger
    → Followed Word p e
Moved-Followed Word p d e h m =
    let r = Rowwise-In (Moved Word) d.payout_ledger e.payout_ledger h.rows m in
    (r.0, r.1, r.2.id, r.2.amount, r.2.key, r.2.goes)

-- After send_due_payouts, whatever Payments answers, each payout row is still there for the same amount
-- and under the same key, and its state is as it was, or went on because Payments answered the request
-- for a row of its id: to SUCCEEDED only on a reply with the state SUCCEEDED, to FAILED only on one with
-- the state FAILED or on a status 422, and to REQUESTED only on a status 200 or 201 or on a 409 that
-- says payout_already_requested.
pub sending_needs_an_answer :
    (held_label : String → String) (create_payout : LedgerRow → Call) (d : Db) (p : LedgerRow)
    → In p d.payout_ledger
    → Followed (Answered create_payout) p (send_due_payouts held_label create_payout d).1
unfolding send_due_payouts
sending_needs_an_answer held_label create_payout d p m =
    Moved-Followed (Answered create_payout) p d _ (send_rows-Moved held_label create_payout _ d) m

-- After reconcile_requested_payouts, whatever Payments answers, each payout row is still there for the
-- same amount and under the same key, and its state is as it was, or went on because Payments holds a
-- record for a row of its id that says SUCCEEDED or FAILED, whichever the state now is.
pub reconciling_needs_a_record :
    (check : LedgerRow → Check) (now : ℕ) (d : Db) (p : LedgerRow)
    → In p d.payout_ledger
    → Followed (Checked check) p (reconcile_requested_payouts check now d).1
unfolding reconcile_requested_payouts
reconciling_needs_a_record check now d p m =
    Moved-Followed (Checked check) p d _ (reconcile_rows-Moved check _ d) m
