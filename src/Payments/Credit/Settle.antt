-- ===== src/Payments/Credit/Settle.antt =====
-- `_apply_outcome` of payments.py keeps the books balanced, also where it applies a success.
use devops_g_9_tillflow.Base.{
  ℕ, String, ◌≡◌, refl, sym, ◌∙◌, subst, ap, inl, inr, true, false, Bool, Option, List, ◌∷◌, arith,
  Bool-cases, ◌⊎◌,
}
use devops_g_9_tillflow.Base.Table.{In, any_where}
use devops_g_9_tillflow.Payments.States.{PaymentState, is_terminal, same_state}
use devops_g_9_tillflow.Payments.Tables.{
  Outcome, DeclineReason, PaymentRow, EventType, payment_credit, Db,
}
use devops_g_9_tillflow.Payments.Tx.{
  ok, raised, illegal_transition, pure, Result-cases, >>=-ok, ◌>>◌,
}
use devops_g_9_tillflow.Payments.Schema.{ledger_clash}
use devops_g_9_tillflow.Payments.Common.{provider}
use devops_g_9_tillflow.Payments.Store.{ledger}
use devops_g_9_tillflow.Payments.Store.Payment.{Field, transition, update_payments}
use devops_g_9_tillflow.Payments.Service.{Applied, applied}
use devops_g_9_tillflow.Payments.Collect.Outcomes.{
  outcome_fields, settle, after_transition, apply_outcome, target_of, try_transition, conclude,
  event, log_illegal, contradiction,
}
use devops_g_9_tillflow.Payments.Quiet.{quiet_frame, IsQuiet, is_succeeded}
use devops_g_9_tillflow.Payments.Tx.Keeps.{Keeps-on_illegal, Keeps-if, Keeps-pure, Keeps-bind}
use devops_g_9_tillflow.Payments.Quiet.Statements.{transition-IsQuiet, AllKeepRef}
use devops_g_9_tillflow.Payments.Quiet.Service.{
  quiet_rules, after_transition-IsQuiet, log_illegal-IsQuiet, event-IsQuiet,
  move_to_unknown-IsQuiet,
}
use devops_g_9_tillflow.Payments.Credit.{payments_read, Balanced}
use devops_g_9_tillflow.Payments.Credit.Advance.{
  Advanced, Advanced-trans, quiet_ok, transition_rows,
}
use devops_g_9_tillflow.Payments.Credit.Success.{Transitioned, transition-ok}
use devops_g_9_tillflow.Payments.Ledger.Write.{Written, ledger-Written}
use devops_g_9_tillflow.Payments.Credit.Settled.{credit_is_free, Balanced-success}

outcome_fields_keep :
    (t : PaymentState) (reason : Option DeclineReason) (receipt raw : Option String)
    → AllKeepRef (outcome_fields t reason receipt raw)
unfolding outcome_fields
outcome_fields_keep PaymentState.succeeded reason receipt raw = (tt, (tt, tt))
outcome_fields_keep PaymentState.declined reason receipt raw = (tt, (tt, tt))
outcome_fields_keep _ reason receipt raw = (tt, tt)

try_transition-IsQuiet :
    (now : ℕ) (p : PaymentRow) (t : PaymentState) (fs : List Field)
    → AllKeepRef fs
    → is_succeeded t ≡ false
    → IsQuiet (try_transition now p t fs)
unfolding try_transition
try_transition-IsQuiet now p t fs k u = search (quiet_rules, Keeps-on_illegal, transition-IsQuiet)

conclude-IsQuiet :
    (now : ℕ) (p : PaymentRow) (t : PaymentState) (receipt : Option String) (moved : Bool)
    → is_succeeded t ≡ false
    → IsQuiet (conclude now p t receipt moved)
unfolding conclude
conclude-IsQuiet now p t receipt true u = after_transition-IsQuiet now p t receipt u
conclude-IsQuiet now p t receipt false u = log_illegal-IsQuiet now p _

-- Without a success, or on a terminal payment, `settle` is quiet.
pub settle-IsQuiet :
    (now : ℕ) (p : PaymentRow) (t : PaymentState) (reason : Option DeclineReason)
    (receipt raw : Option String)
    → (is_succeeded t ≡ false) ⊎ (is_terminal p.state ≡ true)
    → IsQuiet (settle now p t reason receipt raw)
unfolding settle
settle-IsQuiet now p t reason receipt raw u =
    Keeps-if _ _ _
      (λ _.
        Keeps-if (same_state p.state t) (pure Applied.replay)
          (log_illegal now p (contradiction p t)) (λ _. Keeps-pure _)
          (λ _. log_illegal-IsQuiet now p _))
      (λ (active : is_terminal p.state ≡ false).
        let v : is_succeeded t ≡ false = ground arith in
        Keeps-bind _ _
          (try_transition-IsQuiet now p t _ (outcome_fields_keep t reason receipt raw) v)
          (λ moved. conclude-IsQuiet now p t receipt moved v))

transition_illegal :
    (id : String) (s t : PaymentState) (now : ℕ) (fs : List Field) (d : Db) {e : Db}
    → transition id s t now fs d ≡ raised illegal_transition e
    → e ≡ d
unfolding transition update_payments
transition_illegal id s t now fs d h = ground arith

-- How the attempt ended, if it did not raise.
pub try_transition-ok :
    (now : ℕ) (p : PaymentRow) (t : PaymentState) (fs : List Field) (d : Db) {moved : Bool} {e : Db}
    → try_transition now p t fs d ≡ ok moved e
    → ((moved ≡ true) × (transition p.payment_id p.state t now fs d ≡ ok tt e))
      ⊎ ((moved ≡ false) × (e ≡ d))
unfolding try_transition
try_transition-ok now p t fs d {moved} {e} h =
    elim (Result-cases (transition p.payment_id p.state t now fs d)) [
      | inl (a, d', q) ↦ ground arith
      | inr (x, d', q) ↦ ground (arith, transition_illegal p.payment_id p.state t now fs d {e = d'})
    ]

-- The ledger entry of a payment that has just become SUCCEEDED.
entry_ok :
    (d : Db) (b : Balanced d) (p : PaymentRow) (m : In p d.payments) (now : ℕ) (fs : List Field)
    (k : AllKeepRef fs) {d' e : Db}
    → Transitioned p.payment_id p.state PaymentState.succeeded now fs d d'
    → Written payments_read p d' e
    → Advanced d e
entry_ok d b p m now fs k {d'} {e} t (x, writes, inl taken) = absurd (
    cc (
      credit_is_free d b p m now fs k t.legal x writes,
      ap (λ (a : Db). any_where (ledger_clash x) a.ledger_entries) t.result,
      taken,
    ))
entry_ok d b p m now fs k {d'} {e} t (x, writes, inr (free, q)) =
    subst (Advanced d)
      (sym (q ∙ ap (λ (a : Db). record a { ledger_entries = x ∷ a.ledger_entries }) t.result))
      (record {
        balanced = Balanced-success d b p m now fs k t.legal x writes t.valid t.once;
        rows =
            transition_rows p.payment_id p.state PaymentState.succeeded now fs d.payments k t.legal;
      })

-- A success of a payment that stands in the table.
success_ok :
    (now : ℕ) (p : PaymentRow) (receipt : Option String) (fs : List Field) (d : Db) {d' : Db}
    {a : Applied} {e : Db}
    → AllKeepRef fs
    → Balanced d
    → In p d.payments
    → transition p.payment_id p.state PaymentState.succeeded now fs d ≡ ok tt d'
    → after_transition now p PaymentState.succeeded receipt d' ≡ ok a e
    → Advanced d e
unfolding after_transition
success_ok now p receipt fs d {d'} k b m h g =
    let r =
      >>=-ok
        (ledger p.tenant_id p.payment_id payment_credit p.amount_minor p.currency provider
          p.provider_ref receipt now)
        (λ _. event now p EventType.payment_succeeded >> pure applied) d' g in
    let q =
      entry_ok d b p m now fs k
        (transition-ok p.payment_id p.state PaymentState.succeeded now fs d h)
        (ledger-Written payments_read p p.tenant_id p.currency receipt now d' r.2) in
    Advanced-trans d r.1 _ q (
      quiet_ok (event now p EventType.payment_succeeded >> pure applied) r.1
        (Keeps-bind _ _ (event-IsQuiet now p _) (λ _. Keeps-pure _)) q.balanced r.3)

settle_active :
    (now : ℕ) (p : PaymentRow) (reason : Option DeclineReason) (receipt raw : Option String)
    (d : Db) {a : Applied} {e : Db}
    → is_terminal p.state ≡ false
    → Balanced d
    → In p d.payments
    → settle now p PaymentState.succeeded reason receipt raw d ≡ ok a e
    → Advanced d e
unfolding settle conclude
settle_active now p reason receipt raw d active b m h =
    let fs = outcome_fields PaymentState.succeeded reason receipt raw in
    let r =
      >>=-ok (try_transition now p PaymentState.succeeded fs)
        (conclude now p PaymentState.succeeded receipt) d (rw active at h) in
    elim (try_transition-ok now p PaymentState.succeeded fs d r.2) [
      | inl (yes_moved, t) ↦
          success_ok now p receipt fs d
            (outcome_fields_keep PaymentState.succeeded reason receipt raw) b m t
            (rw yes_moved at r.3)
      | inr (not_moved, same) ↦
          quiet_ok _ d (log_illegal-IsQuiet now p _) b (rw (not_moved, same) at r.3)
    ]

settle_ok :
    (now : ℕ) (p : PaymentRow) (t : PaymentState) (reason : Option DeclineReason)
    (receipt raw : Option String) (d : Db) {a : Applied} {e : Db}
    → Balanced d
    → In p d.payments
    → settle now p t reason receipt raw d ≡ ok a e
    → Advanced d e
unfolding is_succeeded
settle_ok now p PaymentState.succeeded reason receipt raw d b m h =
    elim (Bool-cases (is_terminal p.state)) [
      | inl terminal ↦
          quiet_ok _ d
            (settle-IsQuiet now p PaymentState.succeeded reason receipt raw (inr terminal)) b h
      | inr active ↦ settle_active now p reason receipt raw d active b m h
    ]
settle_ok now p t reason receipt raw d b m h =
    quiet_ok (settle now p t reason receipt raw) d
      (settle-IsQuiet now p t reason receipt raw (inl refl)) b h

apply_unknown-IsQuiet :
    (now : ℕ) (p : PaymentRow) (reason : Option DeclineReason) (receipt raw : Option String)
    → IsQuiet (apply_outcome now p Outcome.unknown reason receipt raw)
unfolding apply_outcome
apply_unknown-IsQuiet now p reason receipt raw = search (quiet_rules, move_to_unknown-IsQuiet)

-- `_apply_outcome` on a payment of the table.
pub apply_outcome_ok :
    (now : ℕ) (p : PaymentRow) (o : Outcome) (reason : Option DeclineReason)
    (receipt raw : Option String) (d : Db) {a : Applied} {e : Db}
    → Balanced d
    → In p d.payments
    → apply_outcome now p o reason receipt raw d ≡ ok a e
    → Advanced d e
unfolding apply_outcome target_of
apply_outcome_ok now p Outcome.unknown reason receipt raw d b m h =
    quiet_ok _ d (apply_unknown-IsQuiet now p reason receipt raw) b h
apply_outcome_ok now p Outcome.succeeded reason receipt raw d b m h =
    settle_ok now p PaymentState.succeeded reason receipt raw d b m h
apply_outcome_ok now p Outcome.declined reason receipt raw d b m h =
    settle_ok now p PaymentState.declined reason receipt raw d b m h
apply_outcome_ok now p Outcome.expired reason receipt raw d b m h =
    settle_ok now p PaymentState.expired reason receipt raw d b m h
apply_outcome_ok now p Outcome.failed reason receipt raw d b m h = absurd (cc h)
