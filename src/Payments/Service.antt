-- ===== src/Payments/Service.antt =====
-- What the two services of services/payments/core answer with and are configured by: `Reply` of
-- common.py, the fields of `Settings` in config.py that they read, and the answers of the M-Pesa
-- port. An answer of the port is an argument of the operation that asks for it.
use devops_g_9_tillflow.Base.{ℕ, String, Bool, Option, List}
use devops_g_9_tillflow.Payments.States.{PaymentState, DisbursementState}
use devops_g_9_tillflow.Payments.Tables.{
  PublicBody, ChargeAccepted, PaymentStatus, CallbackEvent, DisbursementAccepted,
  DisbursementStatus, DisbursementEvent, FailureReason,
}
use devops_g_9_tillflow.Payments.Tx.{Error}

-- The result strings of `_apply_callback`, `_apply_result` and `_apply_outcome`.
pub data Applied : Type 0 where
  unmatched under_review contradicted unconfirmed to_unknown noop : Applied
  replay illegal_transition_logged applied conflict : Applied

pub data Body : Type 0 where
  error : String → Body
  created : PublicBody → Body
  ack : Applied → Body
  reconciled : PublicBody → Applied → Body
  payment_not_reconciled : (payment_id : String) (state : PaymentState) (reason : String) → Body
  payout_not_reconciled :
      (disbursement_id : String) (state : DisbursementState) (reason : String) → Body
  payout_conflict : (disbursement_id : Option String) → Body
  view :
      PublicBody
      → (tenant_id : String) (sale_id : Option String) (amount_minor : ℕ) (currency : String)
        (msisdn : List ℕ) (receipt : Option String) (ledger_entries : ℕ)
      → Body
  payout_view :
      PublicBody
      → (tenant_id attendant_id payout_period : String) (amount_minor : ℕ) (msisdn : List ℕ)
        (receipt : Option String) (ledger_entries : ℕ)
      → Body

-- Of the headers `Idempotent-Replayed: true` is kept; `Retry-After` is not modelled.
pub record Reply : Type 0 where
  pub status : ℕ
  pub body : Body
  pub replayed : Bool

-- A handler replies, or an exception leaves it (`App.dispatch` then answers 500).
pub data Answer : Type 0 where
  replied : Reply → Answer
  escaped : Error → Answer

abbrev pub reply : ℕ → Body → Answer
reply status body = replied (record { status = status; body = body; replayed = Bool.false })

pub record Settings : Type 0 where
  pub callback_allowed_ips : List String
  pub confirm_success_with_query : Bool
  pub reconcile_sla_seconds : ℕ
  pub callback_deadline_seconds : ℕ
  pub created_sweep_seconds : ℕ
  pub reconcile_window_seconds : ℕ
  pub idempotency_ttl_seconds : ℕ
  pub payout_max_minor : ℕ
  pub payouts_enabled : Bool

-- `adapter.initiate_charge`: it returns, raises `ChargeDeclinedError`, or raises anything else.
pub data ChargeAnswer : Type 0 where
  accepted : ChargeAccepted → ChargeAnswer
  declined : (raw_code : Option String) → ChargeAnswer
  outcome_unknown : ChargeAnswer

-- `adapter.query_status`: it returns, or raises `OutcomeUnknownError` or `UnknownReferenceError`.
pub data QueryAnswer : Type 0 where
  status : PaymentStatus → QueryAnswer
  timeout unknown_reference : QueryAnswer

-- `adapter.parse_callback`
pub data ParsedCallback : Type 0 where
  event : CallbackEvent → ParsedCallback
  not_authentic malformed : ParsedCallback

pub data DisburseAnswer : Type 0 where
  accepted : DisbursementAccepted → DisburseAnswer
  rejected : (reason : FailureReason) (raw_code : Option String) → DisburseAnswer
  outcome_unknown : DisburseAnswer

pub data DisburseQueryAnswer : Type 0 where
  status : DisbursementStatus → DisburseQueryAnswer
  timeout unknown_reference : DisburseQueryAnswer

pub data ParsedResult : Type 0 where
  event : DisbursementEvent → ParsedResult
  not_authentic malformed : ParsedResult
