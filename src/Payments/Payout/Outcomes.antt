-- ===== src/Payments/Payout/Outcomes.antt =====
-- "State application" of services/payments/core/payouts.py: how a result of the provider changes a
-- disbursement. The clock is read once for a transaction.
use devops_g_9_tillflow.Base.{
  ℕ, ◌+◌, String, Bool, true, false, Option, none, some, List, [], ◌∷◌, or_default, if◌then◌else◌,
}
use devops_g_9_tillflow.Payments.States.{
  DisbursementState, is_terminal_disbursement, same_disbursement_state,
}
use devops_g_9_tillflow.Payments.Common.{next_backoff, provider}
use devops_g_9_tillflow.Payments.Tables.{
  Outcome, FailureReason, DisbursementRow, EntryType, EventType, AnomalyKind, Severity,
}
use devops_g_9_tillflow.Payments.Tx.{Tx, pure, gets, row_of, on_illegal, ◌>>=◌, ◌>>◌}
use devops_g_9_tillflow.Payments.Store.{ledger, outbox, anomaly, set_flag}
use devops_g_9_tillflow.Payments.Store.Disbursement.{
  Field, transition, disbursement_by_id, set_pending_since, set_unknown_since,
  set_next_reconcile_at, set_raw_code, set_receipt, set_failure_reason,
}
use devops_g_9_tillflow.Payments.Service.{
  Applied, to_unknown, noop, replay, illegal_transition_logged, applied,
}

-- `_move`
unfoldable pub move : ℕ → DisbursementRow → DisbursementState → List Field → Tx (Unit {0})
move now row target fields = transition row.disbursement_id row.state target now fields

abbrev pub flag_payouts_enabled : String
flag_payouts_enabled = "payouts_enabled"

-- TRIPPING_REASONS
unfoldable pub is_tripping : FailureReason → Bool
is_tripping FailureReason.configuration = true
is_tripping FailureReason.insufficient_funds = true
is_tripping _ = false

-- `_trip`: the kill switch.
unfoldable pub trip : ℕ → String → Tx (Unit {0})
trip now record_id = do
  set_flag flag_payouts_enabled false now
  anomaly AnomalyKind.payouts_paused Severity.high (some record_id) none now

unfoldable pub event : ℕ → DisbursementRow → EventType → Tx Bool
event now row event_type = outbox row.disbursement_id event_type row.tenant_id row.amount_minor now

unfoldable pub fail : ℕ → DisbursementRow → FailureReason → Option String → Tx (Unit {0})
fail now row reason raw_code = do
  move now row DisbursementState.failed (set_failure_reason reason ∷ set_raw_code raw_code ∷ [])
  event now row EventType.payout_failed
  if is_tripping reason then trip now row.disbursement_id else pure tt

unfoldable pub move_to_unknown : ℕ → DisbursementRow → Option String → Tx (Unit {0})
move_to_unknown now row raw_code = move now row DisbursementState.unknown (
    set_unknown_since now
    ∷ set_next_reconcile_at (now + next_backoff 0)
    ∷ set_raw_code raw_code
    ∷ [])

-- The row as it is read again after a transition.
abbrev pub read_again : DisbursementRow → Tx DisbursementRow
read_again row = do found ← gets (disbursement_by_id row.disbursement_id); row_of found

-- A result may be faster than the acknowledgement: a CREATED row passes through PENDING.
unfoldable pub leave_created : ℕ → DisbursementRow → Tx DisbursementRow
leave_created now row =
    if same_disbursement_state row.state DisbursementState.created
    then (do move now row DisbursementState.pending (set_pending_since now ∷ []); read_again row)
    else pure row

unfoldable pub leave_pending : ℕ → DisbursementRow → Tx DisbursementRow
leave_pending now row =
    if same_disbursement_state row.state DisbursementState.pending
    then (do move_to_unknown now row none; read_again row)
    else pure row

-- `_to_review`
unfoldable pub to_review : ℕ → DisbursementRow → Tx (Unit {0})
to_review now row = do
  started ← leave_created now row
  open_row ← leave_pending now started
  if same_disbursement_state open_row.state DisbursementState.unknown
      then move now open_row DisbursementState.needs_review []
      else pure tt
  anomaly AnomalyKind.needs_review Severity.critical (some row.disbursement_id)
      (some row.originator_conversation_id) now

-- `S.SUCCEEDED if outcome is Outcome.SUCCEEDED else S.FAILED`
unfoldable pub target_of : Outcome → DisbursementState
target_of Outcome.succeeded = DisbursementState.succeeded
target_of _ = DisbursementState.failed

-- The `try` block; the result says whether the transition went through.
unfoldable pub try_target :
    ℕ
    → DisbursementRow
    → DisbursementState
    → Option FailureReason
    → Option String
    → Option String
    → Tx Bool
try_target now row DisbursementState.succeeded reason receipt raw_code =
    on_illegal
      (move now row DisbursementState.succeeded (set_receipt receipt ∷ set_raw_code raw_code ∷ [])
        >> pure true)
      (pure false)
try_target now row _ reason receipt raw_code =
    on_illegal
      (fail now row (or_default reason FailureReason.rejected_at_initiation) raw_code >> pure true)
      (pure false)

-- What follows the `try` block: a success is written to the ledger.
unfoldable pub conclude :
    ℕ → DisbursementRow → DisbursementState → Option String → Bool → Tx Applied
conclude now row target receipt false = do
  anomaly AnomalyKind.illegal_transition Severity.warning (some row.disbursement_id) none now
  pure illegal_transition_logged
conclude now row DisbursementState.succeeded receipt true = do
  ledger row.tenant_id row.disbursement_id EntryType.disbursement_debit row.amount_minor
      row.currency provider (some row.originator_conversation_id) receipt now
  event now row EventType.payout_succeeded
  pure applied
conclude now row _ receipt true = pure applied

unfoldable pub settle :
    ℕ
    → DisbursementRow
    → DisbursementState
    → Option FailureReason
    → Option String
    → Option String
    → Tx Applied
settle now row target reason receipt raw_code =
    if is_terminal_disbursement row.state
    then (if same_disbursement_state row.state target then pure replay else (do
      anomaly AnomalyKind.illegal_transition Severity.critical (some row.disbursement_id)
          (some row.originator_conversation_id) now
      pure illegal_transition_logged))
    else (do
      started ← leave_created now row
      went_through ← try_target now started target reason receipt raw_code
      conclude now started target receipt went_through)

unfoldable pub apply_outcome :
    ℕ
    → DisbursementRow
    → Outcome
    → Option FailureReason
    → Option String
    → Option String
    → Tx Applied
apply_outcome now row Outcome.unknown reason receipt raw_code =
    if same_disbursement_state row.state DisbursementState.pending
    then move_to_unknown now row raw_code >> pure to_unknown
    else pure noop
apply_outcome now row outcome reason receipt raw_code =
    settle now row (target_of outcome) reason receipt raw_code
