-- ===== src/Payments/Tests.antt =====
-- Single states and attempts on which the properties of the tables in states.py and common.py hold.
use devops_g_9_tillflow.Base.{◌≡◌, refl, ◌≤◌, ◌<◌, ◌⊎◌, true}
use devops_g_9_tillflow.Payments.States.{
  PaymentState, DisbursementState, check_transition, is_terminal_disbursement,
}
use devops_g_9_tillflow.Payments.States.Machine.{
  Chain, here, no_return, terminal_disbursement_is_final,
}
use devops_g_9_tillflow.Payments.Common.{next_backoff}
use devops_g_9_tillflow.Payments.Common.Backoff.{next_backoff_grows}

pending_to_unknown : check_transition PaymentState.pending PaymentState.unknown ≡ true
unfolding check_transition
pending_to_unknown = refl

failed_is_terminal : is_terminal_disbursement DisbursementState.failed ≡ true
unfolding is_terminal_disbursement
failed_is_terminal = refl

no_return_example : ¬ Chain check_transition PaymentState.unknown PaymentState.pending
no_return_example = no_return pending_to_unknown

terminal_disbursement_is_final_example : DisbursementState.failed ≡ DisbursementState.failed
terminal_disbursement_is_final_example =
    terminal_disbursement_is_final {s = DisbursementState.failed} {t = DisbursementState.failed}
      here failed_is_terminal

next_backoff_grows_example :
    (30 ≤ next_backoff 6)
    × (next_backoff 6 ≤ next_backoff 7)
    × (next_backoff 7 ≤ 3600)
    × ((6 < 6) ⊎ (next_backoff 6 ≡ 3600))
next_backoff_grows_example = next_backoff_grows 6
