-- ===== src/Payments/Debit/Settle.antt =====
-- `_apply_outcome` of payouts.py keeps the books balanced, also where it applies a success.
use devops_g_9_tillflow.Base.{
  ℕ, String, ◌≡◌, refl, inl, inr, true, false, Bool, Option, some, List, [], ◌∷◌, arith, Bool-cases,
  ◌⊎◌,
}
use devops_g_9_tillflow.Payments.States.{DisbursementState, is_terminal_disbursement}
use devops_g_9_tillflow.Payments.Tables.{
  Outcome, FailureReason, DisbursementRow, EventType, disbursement_debit, Db,
}
use devops_g_9_tillflow.Payments.Tx.{
  ok, raised, illegal_transition, pure, Result-cases, >>=-ok, ◌>>◌, ◌>>=◌,
}
use devops_g_9_tillflow.Payments.Common.{provider}
use devops_g_9_tillflow.Payments.Store.{ledger}
use devops_g_9_tillflow.Payments.Store.Disbursement.{
  Field, transition, update_disbursements, set_receipt, set_raw_code,
}
use devops_g_9_tillflow.Payments.Service.{Applied, applied}
use devops_g_9_tillflow.Payments.Payout.Outcomes.{
  settle, apply_outcome, target_of, try_target, conclude, event, leave_created, move,
}
use devops_g_9_tillflow.Payments.Tx.Keeps.{Keeps-pure, Keeps-bind}
use devops_g_9_tillflow.Payments.Ledger.Write.{ledger-Written}
use devops_g_9_tillflow.Payments.Debit.{steady_frame, IsSteady, is_paid, payouts_read, Balanced}
use devops_g_9_tillflow.Payments.Debit.Service.{
  steady_rules, leave_created-IsSteady, event-IsSteady, move_to_unknown-IsSteady,
}
use devops_g_9_tillflow.Payments.Debit.Advance.{Advanced, Advanced-trans, steady_ok, transition-ok}
use devops_g_9_tillflow.Payments.Debit.Outcome.{conclude-IsSteady, settle-IsSteady}
use devops_g_9_tillflow.Payments.Debit.Success.{success-Advanced}
use devops_g_9_tillflow.Payments.Debit.Shown.{Shown, leave_created-Shown, shown_entry}

transition_illegal :
    (id : String) (s t : DisbursementState) (now : ℕ) (fs : List Field) (d : Db) {e : Db}
    → transition id s t now fs d ≡ raised illegal_transition e
    → e ≡ d
unfolding transition update_disbursements
transition_illegal id s t now fs d h = ground arith

abbrev success_fields : Option String → Option String → List Field
success_fields receipt raw = set_receipt receipt ∷ set_raw_code raw ∷ []

-- How the attempt ended, if it did not raise.
try_success-ok :
    (now : ℕ) (p : DisbursementRow) (reason : Option FailureReason) (receipt raw : Option String)
    (d : Db) {went : Bool} {e : Db}
    → try_target now p DisbursementState.succeeded reason receipt raw d ≡ ok went e
    → ((went ≡ true)
        × (transition p.disbursement_id p.state DisbursementState.succeeded now
              (success_fields receipt raw)
              d
            ≡ ok tt e))
      ⊎ ((went ≡ false) × (e ≡ d))
unfolding try_target move
try_success-ok now p reason receipt raw d {went} {e} h =
    let m =
      transition p.disbursement_id p.state DisbursementState.succeeded now
        (success_fields receipt raw) in
    elim (Result-cases (m d)) [
      | inl (a, d', q) ↦ ground arith
      | inr (x, d', q) ↦ ground (
        arith,
        transition_illegal p.disbursement_id p.state DisbursementState.succeeded now
            (success_fields receipt raw) d {e = d'},
      )
    ]

-- A success of a disbursement that stands in the table.
success_ok :
    (now : ℕ) (p : DisbursementRow) (receipt raw : Option String) (d : Db) {d' : Db} {a : Applied}
    {e : Db}
    → Balanced d
    → Shown p d
    → transition p.disbursement_id p.state DisbursementState.succeeded now
        (success_fields receipt raw)
        d
      ≡ ok tt d'
    → conclude now p DisbursementState.succeeded receipt true d' ≡ ok a e
    → Advanced d e
unfolding conclude
success_ok now p receipt raw d {d'} b m h g =
    let r =
      >>=-ok
        (ledger p.tenant_id p.disbursement_id disbursement_debit p.amount_minor p.currency provider
          (some p.originator_conversation_id) receipt now)
        (λ _. event now p EventType.payout_succeeded >> pure applied) d' g in
    let fs = success_fields receipt raw in
    let t =
      transition-ok m.row.disbursement_id m.row.state DisbursementState.succeeded now fs d
        (rw (m.id, m.state) h) in
    let w = ledger-Written payouts_read p p.tenant_id p.currency receipt now d' r.2 in
    let q =
      success-Advanced d b m.row m.member now fs t.legal t (w.0, shown_entry p d m w.0 w.1, w.2) in
    Advanced-trans d r.1 _ q (
      steady_ok (event now p EventType.payout_succeeded >> pure applied) r.1
        (Keeps-bind _ _ (event-IsSteady now p _) (λ _. Keeps-pure _)) q.balanced r.3)

started_ok :
    (now : ℕ) (p : DisbursementRow) (reason : Option FailureReason) (receipt raw : Option String)
    (d : Db) {a : Applied} {e : Db}
    → Balanced d
    → Shown p d
    → (try_target now p DisbursementState.succeeded reason receipt raw
          >>= conclude now p DisbursementState.succeeded receipt)
        d
      ≡ ok a e
    → Advanced d e
started_ok now p reason receipt raw d b m h =
    let r =
      >>=-ok (try_target now p DisbursementState.succeeded reason receipt raw)
        (conclude now p DisbursementState.succeeded receipt) d h in
    elim (try_success-ok now p reason receipt raw d r.2) [
      | inl (went, t) ↦ success_ok now p receipt raw d b m t (rw went at r.3)
      | inr (not_moved, same) ↦
          steady_ok _ d
            (conclude-IsSteady now p DisbursementState.succeeded receipt false (inr refl)) b
            (rw (not_moved, same) at r.3)
    ]

settle_active :
    (now : ℕ) (p : DisbursementRow) (reason : Option FailureReason) (receipt raw : Option String)
    (d : Db) {a : Applied} {e : Db}
    → is_terminal_disbursement p.state ≡ false
    → Balanced d
    → Shown p d
    → settle now p DisbursementState.succeeded reason receipt raw d ≡ ok a e
    → Advanced d e
unfolding settle
settle_active now p reason receipt raw d active b m h =
    let r =
      >>=-ok (leave_created now p)
        (λ q.
          try_target now q DisbursementState.succeeded reason receipt raw
          >>= conclude now q DisbursementState.succeeded receipt)
        d (rw active at h) in
    let first = steady_ok (leave_created now p) d (leave_created-IsSteady now p) b r.2 in
    Advanced-trans d r.1 _ first (
      started_ok now r.0 reason receipt raw r.1 first.balanced (leave_created-Shown now p d m r.2)
        r.3)

settle_ok :
    (now : ℕ) (p : DisbursementRow) (t : DisbursementState) (reason : Option FailureReason)
    (receipt raw : Option String) (d : Db) {a : Applied} {e : Db}
    → Balanced d
    → Shown p d
    → settle now p t reason receipt raw d ≡ ok a e
    → Advanced d e
unfolding is_paid
settle_ok now p DisbursementState.succeeded reason receipt raw d b m h =
    elim (Bool-cases (is_terminal_disbursement p.state)) [
      | inl terminal ↦
          steady_ok _ d
            (settle-IsSteady now p DisbursementState.succeeded reason receipt raw (inr terminal)) b
            h
      | inr active ↦ settle_active now p reason receipt raw d active b m h
    ]
settle_ok now p t reason receipt raw d b m h =
    steady_ok (settle now p t reason receipt raw) d
      (settle-IsSteady now p t reason receipt raw (inl refl)) b h

apply_unknown-IsSteady :
    (now : ℕ) (p : DisbursementRow) (reason : Option FailureReason) (receipt raw : Option String)
    → IsSteady (apply_outcome now p Outcome.unknown reason receipt raw)
unfolding apply_outcome
apply_unknown-IsSteady now p reason receipt raw = search (steady_rules, move_to_unknown-IsSteady)

-- `_apply_outcome` on a disbursement of the table.
pub apply_outcome_ok :
    (now : ℕ) (p : DisbursementRow) (o : Outcome) (reason : Option FailureReason)
    (receipt raw : Option String) (d : Db) {a : Applied} {e : Db}
    → Balanced d
    → Shown p d
    → apply_outcome now p o reason receipt raw d ≡ ok a e
    → Advanced d e
unfolding apply_outcome target_of
apply_outcome_ok now p Outcome.unknown reason receipt raw d b m h =
    steady_ok _ d (apply_unknown-IsSteady now p reason receipt raw) b h
apply_outcome_ok now p Outcome.succeeded reason receipt raw d b m h =
    settle_ok now p DisbursementState.succeeded reason receipt raw d b m h
apply_outcome_ok now p _ reason receipt raw d b m h =
    settle_ok now p DisbursementState.failed reason receipt raw d b m h
