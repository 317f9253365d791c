-- ===== src/Payments/Collect/Outcomes.antt =====
-- "State application" of services/payments/core/payments.py: how an outcome of the provider
-- changes a payment. The clock is read once for a transaction.
use devops_g_9_tillflow.Base.{
  ℕ, ◌+◌, String, Bool, true, false, ◌||◌, Option, none, some, List, [], ◌∷◌, if◌then◌else◌,
}
use devops_g_9_tillflow.Payments.States.{PaymentState, is_terminal, same_state}
use devops_g_9_tillflow.Payments.Common.{next_backoff, provider}
use devops_g_9_tillflow.Payments.Tables.{
  Outcome, DeclineReason, PaymentRow, EntryType, EventType, AnomalyKind, Severity,
}
use devops_g_9_tillflow.Payments.Tx.{Tx, key_error, pure, raise, on_illegal, ◌>>=◌, ◌>>◌}
use devops_g_9_tillflow.Payments.Store.{ledger, outbox, anomaly}
use devops_g_9_tillflow.Payments.Store.Payment.{
  transition, set_unknown_since, set_next_reconcile_at, set_raw_code, set_receipt,
  set_decline_reason, Field,
}
use devops_g_9_tillflow.Payments.Service.{
  Applied, to_unknown, noop, replay, illegal_transition_logged, applied,
}

unfoldable pub move_to_unknown : ℕ → PaymentRow → Option String → Tx (Unit {0})
move_to_unknown now payment raw_code =
    transition payment.payment_id payment.state PaymentState.unknown now (
      set_unknown_since now
      ∷ set_next_reconcile_at (now + next_backoff 0)
      ∷ set_raw_code raw_code
      ∷ [])

-- The state that `_to_review` goes on with.
unfoldable pub leave_pending : ℕ → PaymentRow → Tx PaymentState
leave_pending now payment =
    if same_state payment.state PaymentState.pending
    then move_to_unknown now payment none >> pure PaymentState.unknown
    else pure payment.state

unfoldable pub to_review : ℕ → PaymentRow → Tx (Unit {0})
to_review now payment = do
  state ← leave_pending now payment
  if same_state state PaymentState.unknown
      then transition payment.payment_id state PaymentState.needs_review now []
      else pure tt
  anomaly AnomalyKind.needs_review Severity.high (some payment.payment_id) payment.provider_ref now

unfoldable pub event : ℕ → PaymentRow → EventType → Tx Bool
event now payment event_type =
    outbox payment.payment_id event_type payment.tenant_id payment.amount_minor now

-- The dict of targets; an outcome that it lacks is a `KeyError`.
unfoldable pub target_of : Outcome → Option PaymentState
target_of Outcome.succeeded = some PaymentState.succeeded
target_of Outcome.declined = some PaymentState.declined
target_of Outcome.expired = some PaymentState.expired
target_of _ = none

unfoldable pub log_illegal : ℕ → PaymentRow → Severity → Tx Applied
log_illegal now payment severity = do
  anomaly AnomalyKind.illegal_transition severity (some payment.payment_id) payment.provider_ref now
  pure illegal_transition_logged

-- What follows a transition: the ledger entry and the event.
unfoldable pub after_transition : ℕ → PaymentRow → PaymentState → Option String → Tx Applied
after_transition now payment PaymentState.succeeded receipt = do
  ledger payment.tenant_id payment.payment_id EntryType.payment_credit payment.amount_minor
      payment.currency provider payment.provider_ref receipt now
  event now payment EventType.payment_succeeded
  pure applied
after_transition now payment PaymentState.declined receipt = do
  event now payment EventType.payment_declined
  pure applied
after_transition now payment _ receipt = do
  event now payment EventType.payment_expired
  pure applied

-- The columns that go with a target.
unfoldable pub outcome_fields :
    PaymentState → Option DeclineReason → Option String → Option String → List Field
outcome_fields PaymentState.succeeded reason receipt raw_code =
    set_raw_code raw_code ∷ set_receipt receipt ∷ []
outcome_fields PaymentState.declined reason receipt raw_code =
    set_raw_code raw_code ∷ set_decline_reason reason ∷ []
outcome_fields _ reason receipt raw_code = set_raw_code raw_code ∷ []

-- try: transition except IllegalTransition; the result says whether it went through.
unfoldable pub try_transition : ℕ → PaymentRow → PaymentState → List Field → Tx Bool
try_transition now payment target fields =
    on_illegal (transition payment.payment_id payment.state target now fields >> pure true)
      (pure false)

unfoldable pub conclude : ℕ → PaymentRow → PaymentState → Option String → Bool → Tx Applied
conclude now payment target receipt true = after_transition now payment target receipt
conclude now payment target receipt false = log_illegal now payment Severity.warning

unfoldable pub contradiction : PaymentRow → PaymentState → Severity
contradiction payment target =
    if same_state payment.state PaymentState.succeeded || same_state target PaymentState.succeeded
    then Severity.critical
    else Severity.warning

unfoldable pub settle :
    ℕ
    → PaymentRow
    → PaymentState
    → Option DeclineReason
    → Option String
    → Option String
    → Tx Applied
settle now payment target reason receipt raw_code =
    if is_terminal payment.state
    then (if same_state payment.state target
        then pure replay
        else log_illegal now payment (contradiction payment target))
    else (try_transition now payment target (outcome_fields target reason receipt raw_code)
        >>= conclude now payment target receipt)

unfoldable pub apply_outcome :
    ℕ → PaymentRow → Outcome → Option DeclineReason → Option String → Option String → Tx Applied
apply_outcome now payment Outcome.unknown reason receipt raw_code =
    if same_state payment.state PaymentState.pending
    then move_to_unknown now payment raw_code >> pure to_unknown
    else pure noop
apply_outcome now payment outcome reason receipt raw_code = elim (target_of outcome) [
  | none ↦ raise key_error
  | some target ↦ settle now payment target reason receipt raw_code
]
