-- ===== src/Payments/Debit/Outcome.antt =====
-- The parts of `_apply_outcome` of payouts.py that are steady.
use devops_g_9_tillflow.Base.{
  ℕ, String, ◌≡◌, inl, inr, true, false, Bool, Option, arith, ◌⊎◌, or_default,
}
use devops_g_9_tillflow.Payments.States.{DisbursementState, is_terminal_disbursement}
use devops_g_9_tillflow.Payments.Tables.{FailureReason, DisbursementRow}
use devops_g_9_tillflow.Payments.Service.{applied}
use devops_g_9_tillflow.Payments.Payout.Outcomes.{settle, try_target, conclude}
use devops_g_9_tillflow.Payments.Tx.Keeps.{Keeps-on_illegal, Keeps-if, Keeps-pure, Keeps-bind}
use devops_g_9_tillflow.Payments.Debit.{steady_frame, IsSteady, is_paid}
use devops_g_9_tillflow.Payments.Debit.Service.{steady_rules, fail-IsSteady, leave_created-IsSteady}

pub try_target-IsSteady :
    (now : ℕ) (p : DisbursementRow) (t : DisbursementState) (reason : Option FailureReason)
    (receipt raw : Option String)
    → is_paid t ≡ false
    → IsSteady (try_target now p t reason receipt raw)
unfolding try_target is_paid
try_target-IsSteady now p DisbursementState.succeeded reason receipt raw u = absurd (cc u)
try_target-IsSteady now p _ reason receipt raw u =
    Keeps-on_illegal _ _
      (Keeps-bind _ _
        (fail-IsSteady now p (or_default reason FailureReason.rejected_at_initiation) raw)
        (λ _. Keeps-pure true))
      (Keeps-pure false)

pub conclude-IsSteady :
    (now : ℕ) (p : DisbursementRow) (t : DisbursementState) (receipt : Option String) (went : Bool)
    → (is_paid t ≡ false) ⊎ (went ≡ false)
    → IsSteady (conclude now p t receipt went)
unfolding conclude is_paid
conclude-IsSteady now p DisbursementState.succeeded receipt true (inl u) = absurd (cc u)
conclude-IsSteady now p DisbursementState.succeeded receipt true (inr u) = absurd (cc u)
conclude-IsSteady now p t receipt false u = search steady_rules
conclude-IsSteady now p _ receipt true u = Keeps-pure applied

-- Without a success, or on a terminal disbursement, `settle` is steady.
pub settle-IsSteady :
    (now : ℕ) (p : DisbursementRow) (t : DisbursementState) (reason : Option FailureReason)
    (receipt raw : Option String)
    → (is_paid t ≡ false) ⊎ (is_terminal_disbursement p.state ≡ true)
    → IsSteady (settle now p t reason receipt raw)
unfolding settle
settle-IsSteady now p t reason receipt raw u =
    Keeps-if _ _ _ (λ _. search steady_rules)
      (λ (active : is_terminal_disbursement p.state ≡ false).
        let v : is_paid t ≡ false = ground arith in
        Keeps-bind _ _ (leave_created-IsSteady now p) (λ started.
          Keeps-bind _ _ (try_target-IsSteady now started t reason receipt raw v)
            (λ went. conclude-IsSteady now started t receipt went (inl v))))
