-- ===== src/Commission/Disburse/Pass.antt =====
-- What an answer of Payments, and a whole pass, do to the payout rows.
use devops_g_9_tillflow.Base.{
  ℕ, String, ◌≡◌, refl, ◌⊎◌, inl, inr, Option, none, some, arith, eq_iff, Bool-cases,
}
use devops_g_9_tillflow.Commission.Tables.{LedgerState, LedgerRow, Db, same_state}
use devops_g_9_tillflow.Commission.Common.{
  Reply, PayoutOutcome, created, already_requested, in_flight_retry_next_run, conflict_needs_review,
  held, payouts_disabled, rejected, classify_payout_response, terminal_payments_state,
}
use devops_g_9_tillflow.Commission.Disburse.{
  set_requested, set_settled, set_verdict, update_row, is_failure, record_accepted, record_held,
  handle_outcome, record_verdict, reconcile_state,
}
use devops_g_9_tillflow.Commission.Disburse.Moves.{
  rank, DbMoved, DbMoved-refl, update_row-Moved, Moved-to, bump_backoff-Moved, anomaly-Moved,
}

-- The text by which Payments names a terminal state.
terminal_text :
    (s : String) {t : LedgerState}
    → terminal_payments_state s ≡ some t
    → ((t ≡ LedgerState.succeeded) × (s ≡ "SUCCEEDED"))
      ⊎ ((t ≡ LedgerState.failed) × (s ≡ "FAILED"))
unfolding terminal_payments_state
terminal_text s {t} h = ground (arith, eq_iff s "SUCCEEDED", eq_iff s "FAILED")

-- What an answer allows a row to become.
abbrev pub Allows : ℕ → Reply → LedgerState → Type 0
Allows status r LedgerState.planned = ⊥
Allows status r LedgerState.requested =
    (status ≡ 200) ⊎ ((status ≡ 201) ⊎ ((status ≡ 409) × (r.error ≡ "payout_already_requested")))
Allows status r LedgerState.succeeded = r.state ≡ "SUCCEEDED"
Allows status r LedgerState.failed = (r.state ≡ "FAILED") ⊎ (status ≡ 422)

-- What the record that Payments holds tells of a payout.
abbrev pub TellsOf : Reply → LedgerState → Type 0
TellsOf r LedgerState.succeeded = r.state ≡ "SUCCEEDED"
TellsOf r LedgerState.failed = r.state ≡ "FAILED"
TellsOf r _ = ⊥

told :
    (r : Reply) (t : LedgerState)
    → ((t ≡ LedgerState.succeeded) × (r.state ≡ "SUCCEEDED"))
      ⊎ ((t ≡ LedgerState.failed) × (r.state ≡ "FAILED"))
    → (rank t ≡ 2) × TellsOf r t
told r t (inl (e, s)) = rw e (refl, s)
told r t (inr (e, s)) = rw e (refl, s)

TellsOf-Allows : (status : ℕ) (r : Reply) (t : LedgerState) → TellsOf r t → Allows status r t
TellsOf-Allows status r LedgerState.succeeded h = h
TellsOf-Allows status r LedgerState.failed h = inl h
TellsOf-Allows status r LedgerState.planned h = absurd h
TellsOf-Allows status r LedgerState.requested h = absurd h

created-Allows :
    (status : ℕ) (r : Reply)
    → classify_payout_response status r ≡ created
    → Allows status r LedgerState.requested
unfolding classify_payout_response
created-Allows status r h = ground (arith, eq_iff r.error "payout_already_requested")

already_requested-Allows :
    (status : ℕ) (r : Reply)
    → classify_payout_response status r ≡ already_requested
    → Allows status r LedgerState.requested
unfolding classify_payout_response
already_requested-Allows status r h = ground (arith, eq_iff r.error "payout_already_requested")

held-Allows :
    (status : ℕ) (r : Reply) (error : String)
    → classify_payout_response status r ≡ held error
    → status ≡ 422
unfolding classify_payout_response
held-Allows status r error h = ground arith

module _ (Says : String → LedgerState → Type 0) (now : ℕ) (row : LedgerRow) where
  settle-Moved :
      (t : LedgerState) (id : Option String) (reason : Option String) (d : Db)
      → rank t ≡ 2
      → Says row.id t
      → DbMoved Says d (update_row row.id LedgerState.planned (set_settled t id reason now) d)
  settle-Moved t id reason d k s =
      update_row-Moved Says row.id LedgerState.planned (set_settled t id reason now) d
        (λ q i e. Moved-to Says q _ row.id i e (omega arith) s (refl, refl, refl, refl, refl, refl))

  accepted-Moved :
      (status : ℕ) (r : Reply) (d : Db) (o : Option LedgerState)
      → terminal_payments_state r.state ≡ o
      → Allows status r LedgerState.requested
      → ((t : LedgerState) → Allows status r t → Says row.id t)
      → DbMoved Says d (record_accepted now row r o d)
  unfolding record_accepted
  accepted-Moved status r d none e a says =
      update_row-Moved Says row.id LedgerState.planned (set_requested r.disbursement_id now) d
        (λ q i f.
          Moved-to Says q _ row.id i f (omega arith) (says LedgerState.requested a)
            (refl, refl, refl, refl, refl, refl))
  accepted-Moved status r d (some t) e a says =
      let k = told r t (terminal_text r.state e) in
      let m =
        settle-Moved t r.disbursement_id r.failure_reason d k.0
          (says t (TellsOf-Allows status r t k.1)) in
      elim (Bool-cases (is_failure t)) [
        | inl f ↦ rw f (anomaly-Moved Says _ _ now row d _ m)
        | inr f ↦ rw f m
      ]

  pub handle_outcome-Moved :
      (held_label : String → String) (status : ℕ) (r : Reply) (d : Db) (o : PayoutOutcome)
      → classify_payout_response status r ≡ o
      → ((t : LedgerState) → Allows status r t → Says row.id t)
      → DbMoved Says d (handle_outcome held_label now row r o d)
  unfolding handle_outcome record_held
  handle_outcome-Moved l status r d created e says =
      accepted-Moved status r d _ refl (created-Allows status r e) says
  handle_outcome-Moved l status r d already_requested e says =
      accepted-Moved status r d _ refl (already_requested-Allows status r e) says
  handle_outcome-Moved l status r d in_flight_retry_next_run e says = DbMoved-refl Says d
  handle_outcome-Moved l status r d payouts_disabled e says =
      anomaly-Moved Says _ _ now row d d (DbMoved-refl Says d)
  handle_outcome-Moved l status r d (held error) e says = anomaly-Moved Says _ _ now row d _ (
      update_row-Moved Says row.id LedgerState.planned
        (set_verdict LedgerState.failed (some (l error)) now) d
        (λ q i f.
          Moved-to Says q _ row.id i f (omega arith)
            (says LedgerState.failed (inr (held-Allows status r error e)))
            (refl, refl, refl, refl, refl, refl)))
  handle_outcome-Moved l status r d conflict_needs_review e says =
      anomaly-Moved Says _ _ now row d d (DbMoved-refl Says d)
  handle_outcome-Moved l status r d (rejected n) e says =
      anomaly-Moved Says _ _ now row d d (DbMoved-refl Says d)

  verdict-Moved :
      (reason : Option String) (t : LedgerState) (d : Db)
      → rank t ≡ 2
      → Says row.id t
      → DbMoved Says d (record_verdict now row reason t d)
  unfolding record_verdict
  verdict-Moved reason t d k s =
      let m =
        update_row-Moved Says row.id LedgerState.requested (set_verdict t reason now) d (λ q i e.
          Moved-to Says q _ row.id i e (omega arith) s (refl, refl, refl, refl, refl, refl)) in
      elim (Bool-cases (same_state t LedgerState.succeeded)) [
        | inl f ↦ rw f m
        | inr f ↦ rw f (anomaly-Moved Says _ _ now row d _ m)
      ]

  pub reconcile_state-Moved :
      (r : Reply) (d : Db) (o : Option LedgerState)
      → terminal_payments_state r.state ≡ o
      → ((t : LedgerState) → TellsOf r t → Says row.id t)
      → DbMoved Says d (reconcile_state now row r.failure_reason o d).1
  unfolding reconcile_state
  reconcile_state-Moved r d none e says = bump_backoff-Moved Says now row d
  reconcile_state-Moved r d (some t) e says =
      let k = told r t (terminal_text r.state e) in
      verdict-Moved r.failure_reason t d k.0 (says t k.1)
