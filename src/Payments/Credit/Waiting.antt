-- ===== src/Payments/Credit/Waiting.antt =====
-- Reconciling and sweeping while the provider decides nothing.
use devops_g_9_tillflow.Base.{
  ℕ, String, ◌≡◌, refl, ap, subst, ◌⊎◌, inl, inr, true, false, Bool-cases, Option-cases, List, [],
  ◌∷◌, ◌||◌, arith,
}
use devops_g_9_tillflow.Base.Table.{rows_where, sum_of}
use devops_g_9_tillflow.Base.Table.Update.{sum_of-Rowwise}
use devops_g_9_tillflow.Payments.States.{PaymentState, is_terminal, same_state}
use devops_g_9_tillflow.Payments.Tables.{Outcome, PaymentStatus, PaymentRow, Db}
use devops_g_9_tillflow.Payments.Tx.{Error, Result, Result-cases, after}
use devops_g_9_tillflow.Payments.Service.{
  Settings, QueryAnswer, status, timeout, unknown_reference, Answer, Reply, replied, escaped,
}
use devops_g_9_tillflow.Payments.Collect.Reconcile.{
  inconclusive, reply_inconclusive, is_unknown_outcome, reconcile_status, reconcile_row,
  payment_named, reconcile_payment, sweep_tx, Counts, reconcile_all, tally, is_due, sweep,
}
use devops_g_9_tillflow.Payments.Quiet.{is_succeeded}
use devops_g_9_tillflow.Payments.Ledger.{moved_by}
use devops_g_9_tillflow.Payments.Credit.{collected}
use devops_g_9_tillflow.Payments.Waiting.{
  IsOpen, Waited, WaitedDb, WaitedDb-refl, WaitedDb-trans, inconclusive-OnlyWaits,
  sweep_tx-OnlyWaits,
}

-- An answer with no decision: a timeout, an unknown reference, or a status that says UNKNOWN.
abbrev pub Undecided : QueryAnswer → Type 0
Undecided (status s) = s.outcome ≡ Outcome.unknown
Undecided timeout = Unit
Undecided unknown_reference = Unit

Answer-cases :
    (a : QueryAnswer)
    → Undecided a
    → (a ≡ timeout)
      ⊎ ((a ≡ unknown_reference)
          ⊎ ((s : PaymentStatus) × (a ≡ status s) × (is_unknown_outcome s.outcome ≡ true)))
unfolding is_unknown_outcome
Answer-cases timeout u = inl refl
Answer-cases unknown_reference u = inr (inl refl)
Answer-cases (status s) u = inr (inr (s, refl, ap is_unknown_outcome u))

reply_inconclusive-Waited :
    (cfg : Settings) (now : ℕ) (id reason : String) (d : Db)
    → WaitedDb d (reply_inconclusive cfg now id reason d).1
unfolding reply_inconclusive
reply_inconclusive-Waited cfg now id reason d = elim (Result-cases (inconclusive cfg now id d)) [
  | inl (a, e, q) ↦
      rw (q, reply_inconclusive)
        (subst (λ (r : Result PaymentState). WaitedDb d (after r)) q
          ((inconclusive-OnlyWaits cfg now id).at d))
  | inr (x, e, q) ↦ rw (q, reply_inconclusive) (WaitedDb-refl d)
]

reconcile_status-Waited :
    (cfg : Settings) (now : ℕ) (id : String) (s : PaymentStatus) (d : Db)
    → is_unknown_outcome s.outcome ≡ true
    → WaitedDb d (reconcile_status cfg now id s d).1
unfolding reconcile_status
reconcile_status-Waited cfg now id s d u =
    rw u (reply_inconclusive-Waited cfg now id "still_unknown" d)

Reply-cases : (a : Answer) → ((x : Error) × (a ≡ escaped x)) ⊎ ((r : Reply) × (a ≡ replied r))
Reply-cases (escaped x) = inl (x, refl)
Reply-cases (replied r) = inr (r, refl)

module _ (cfg : Settings) (now : ℕ) (query : String → QueryAnswer) where
  module _ (silent : (ref : String) → Undecided (query ref)) where
    reconcile_row-Waited :
        (row : PaymentRow) (d : Db) → WaitedDb d (reconcile_row cfg now row query d).1
    unfolding reconcile_row
    reconcile_row-Waited row d =
        elim (Bool-cases (
          same_state row.state PaymentState.unknown
          || same_state row.state PaymentState.needs_review)) [
            | inr no_query ↦ rw no_query (WaitedDb-refl d)
            | inl asks ↦ rw asks (elim (Option-cases row.provider_ref) [
              | inl n ↦ rw n (reply_inconclusive-Waited cfg now row.payment_id _ d)
              | inr (ref, e) ↦ rw e (elim (Answer-cases (query ref) (silent ref)) [
                | inl a ↦ rw a (reply_inconclusive-Waited cfg now row.payment_id _ d)
                | inr (inl a) ↦ rw a (reply_inconclusive-Waited cfg now row.payment_id _ d)
                | inr (inr (s, a, u)) ↦ rw a (reconcile_status-Waited cfg now row.payment_id s d u)
              ])
            ])
          ]

    reconcile_payment-Waited :
        (ident : String) (d : Db) → WaitedDb d (reconcile_payment cfg now ident query d).1
    unfolding reconcile_payment
    reconcile_payment-Waited ident d = elim (Option-cases (payment_named ident d)) [
      | inl n ↦ rw (n, reconcile_payment) (WaitedDb-refl d)
      | inr (row, e) ↦ rw (e, reconcile_payment) (reconcile_row-Waited row d)
    ]

    reconcile_all-Waited :
        (rows : List PaymentRow) (n : Counts) (d : Db)
        → WaitedDb d (reconcile_all cfg now rows query n d).1
    unfolding reconcile_all
    reconcile_all-Waited [] n d = WaitedDb-refl d
    reconcile_all-Waited (row ∷ rows) n d =
        let h = reconcile_payment-Waited row.payment_id d in
        elim (Reply-cases (reconcile_payment cfg now row.payment_id query d).0) [
          | inl (x, e) ↦ rw (e, reconcile_all) h
          | inr (r, e) ↦
              rw (e, reconcile_all)
                (WaitedDb-trans d _ _ h (reconcile_all-Waited rows (tally (replied r) n) _))
        ]

    sweep-Waited : (d : Db) → WaitedDb d (sweep cfg now query d).1
    unfolding sweep
    sweep-Waited d = elim (Result-cases (sweep_tx cfg now d)) [
      | inr (x, e, q) ↦ rw (q, sweep) (WaitedDb-refl d)
      | inl (a, e, q) ↦
          let h =
            subst (λ (r : Result (ℕ × ℕ)). WaitedDb d (after r)) q
              ((sweep_tx-OnlyWaits cfg now).at d) in
          rw (q, sweep)
            (WaitedDb-trans d e _ h
              (reconcile_all-Waited (rows_where (is_due cfg now) e.payments) _ e))
    ]

waited_success :
    (s t : PaymentState)
    → (t ≡ s) ⊎ ((is_terminal s ≡ false) × IsOpen t)
    → is_succeeded t ≡ is_succeeded s
unfolding is_succeeded is_terminal
waited_success s t (inl e) = ap is_succeeded e
waited_success s t (inr (l, inl o)) = ground arith
waited_success s t (inr (l, inr o)) = ground arith

collected-Waited : (p q : PaymentRow) → Waited p q → collected q ≡ collected p
unfolding moved_by
collected-Waited p q h = rw (waited_success p.state q.state h.goes, h.amount) refl

sum_of-WaitedDb :
    (d e : Db) → WaitedDb d e → sum_of collected e.payments ≡ sum_of collected d.payments
sum_of-WaitedDb d e h =
    sum_of-Rowwise Waited collected collected-Waited d.payments e.payments h.rows

-- If the provider decides nothing, since each query for a reference times out, does not know it or
-- answers that the outcome is unknown, then reconcile_payment and a whole sweep, however they end,
-- leave the ledger and the sum of the amounts that were collected as they are, and every payment keeps
-- its place in the table, its id and its amount; its state stays, or goes from one that is not
-- terminal to UNKNOWN or NEEDS_REVIEW. So waiting makes no payment SUCCEEDED, DECLINED or EXPIRED.
pub waiting_decides_nothing :
    (cfg : Settings) (now : ℕ) (query : String → QueryAnswer) (ident : String) (d : Db)
    → ((ref : String) → Undecided (query ref))
    → WaitedDb d (reconcile_payment cfg now ident query d).1
      × WaitedDb d (sweep cfg now query d).1
      × sum_of collected (reconcile_payment cfg now ident query d).1.payments
        ≡ sum_of collected d.payments
      × sum_of collected (sweep cfg now query d).1.payments ≡ sum_of collected d.payments
waiting_decides_nothing cfg now query ident d silent =
    let r = reconcile_payment-Waited cfg now query silent ident d in
    let s = sweep-Waited cfg now query silent d in
    (r, s, sum_of-WaitedDb d _ r, sum_of-WaitedDb d _ s)
