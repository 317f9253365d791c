-- ===== src/Payments/Tables.antt =====
-- The tables of services/payments/core/store.py (SCHEMA) and the provider's vocabulary of
-- services/_shared/mpesa/models.py. Times are whole seconds. A JSON text column holds the value
-- that the code serialises and reads back.
use devops_g_9_tillflow.Base.{ℕ, String, Bool, Option, List, []}
use devops_g_9_tillflow.Base.Integers.{ℤ}
use devops_g_9_tillflow.Payments.States.{PaymentState, DisbursementState}

-- mpesa/models.py
pub data Outcome : Type 0 where
  succeeded declined expired failed unknown : Outcome

pub data DeclineReason : Type 0 where
  insufficient_funds user_cancelled wrong_pin rejected_at_initiation : DeclineReason

pub data FailureReason : Type 0 where
  insufficient_funds amount_too_low amount_too_high recipient_limit recipient_not_registered :
      FailureReason
  recipient_invalid account_state configuration rejected_at_initiation : FailureReason

pub record ChargeAccepted : Type 0 where
  pub provider_ref : String
  pub merchant_request_id : String

pub record PaymentStatus : Type 0 where
  pub outcome : Outcome
  pub decline_reason : Option DeclineReason
  pub receipt : Option String
  pub raw_code : Option String

pub record CallbackEvent : Type 0 where
  pub provider_ref : String
  pub outcome : Outcome
  pub decline_reason : Option DeclineReason
  pub receipt : Option String
  pub amount_minor : Option ℤ
  pub raw_code : String
  pub payload_sha256 : String

pub record DisbursementAccepted : Type 0 where
  pub originator_conversation_id : String
  pub conversation_id : String

pub record DisbursementStatus : Type 0 where
  pub outcome : Outcome
  pub failure_reason : Option FailureReason
  pub receipt : Option String
  pub raw_code : Option String

pub record DisbursementEvent : Type 0 where
  pub originator_conversation_id : String
  pub conversation_id : Option String
  pub outcome : Outcome
  pub failure_reason : Option FailureReason
  pub receipt : Option String
  pub amount_minor : Option ℤ
  pub raw_code : String
  pub payload_sha256 : String

-- The OPERATION constants of payments.py and payouts.py.
pub data Operation : Type 0 where
  payment_create disbursement_create : Operation

-- The body that a create answers with, and that a replay repeats.
pub data PublicBody : Type 0 where
  payment_body :
      (payment_id : String) (checkout_request_id : Option String) (state : PaymentState)
      (decline_reason : Option DeclineReason)
      → PublicBody
  payout_body :
      (disbursement_id : String) (conversation_id : Option String)
      (originator_conversation_id : String) (state : DisbursementState)
      (failure_reason : Option FailureReason)
      → PublicBody

pub data IdemStatus : Type 0 where
  in_flight completed : IdemStatus

pub record IdemRow : Type 0 where
  pub tenant_id : String
  pub operation : Operation
  pub idem_key : String
  pub request_fingerprint : String
  pub status : IdemStatus
  pub response_code : Option ℕ
  pub response_body : Option PublicBody
  pub resource_id : Option String
  pub created_at : ℕ
  pub expires_at : ℕ

pub record PaymentRow : Type 0 where
  pub payment_id : String
  pub tenant_id : String
  pub idem_key : String
  pub sale_id : Option String
  pub msisdn : String
  pub amount_minor : ℕ
  pub currency : String
  pub reference : String
  pub state : PaymentState
  pub provider_ref : Option String
  pub merchant_request_id : Option String
  pub decline_reason : Option DeclineReason
  pub receipt : Option String
  pub raw_code : Option String
  pub initiate_started_at : Option ℕ
  pub pending_since : Option ℕ
  pub unknown_since : Option ℕ
  pub reconcile_attempts : ℕ
  pub next_reconcile_at : Option ℕ
  pub created_at : ℕ
  pub updated_at : ℕ

pub record DisbursementRow : Type 0 where
  pub disbursement_id : String
  pub tenant_id : String
  pub idem_key : String
  pub attendant_id : String
  pub payout_period : String
  pub payout_key : String
  pub msisdn : String
  pub amount_minor : ℕ
  pub currency : String
  pub originator_conversation_id : String
  pub conversation_id : Option String
  pub state : DisbursementState
  pub failure_reason : Option FailureReason
  pub receipt : Option String
  pub raw_code : Option String
  pub initiate_started_at : Option ℕ
  pub pending_since : Option ℕ
  pub unknown_since : Option ℕ
  pub reconcile_attempts : ℕ
  pub next_reconcile_at : Option ℕ
  pub created_at : ℕ
  pub updated_at : ℕ

pub data EntryType : Type 0 where
  payment_credit disbursement_debit : EntryType

pub record LedgerEntry : Type 0 where
  pub tenant_id : String
  pub record_id : String
  pub entry_type : EntryType
  pub amount_minor : ℕ
  pub currency : String
  pub provider : String
  pub provider_ref : String
  pub receipt : Option String
  pub created_at : ℕ

pub data EventType : Type 0 where
  payment_succeeded payment_declined payment_expired payout_succeeded payout_failed : EventType

-- The payload names the record, the tenant and the amount (and for a payout the attendant).
pub record OutboxRow : Type 0 where
  pub aggregate_id : String
  pub event_type : EventType
  pub tenant_id : String
  pub amount_minor : ℕ
  pub created_at : ℕ

pub data CallbackKind : Type 0 where
  stk b2c : CallbackKind

pub record CallbackRow : Type 0 where
  pub kind : CallbackKind
  pub provider_ref : String
  pub payload_sha256 : String
  pub outcome : Outcome
  pub raw_code : String
  pub received_at : ℕ

pub record UnmatchedRow : Type 0 where
  pub kind : CallbackKind
  pub provider_ref : String
  pub payload_sha256 : String
  pub outcome : Outcome
  pub raw_code : String
  pub amount_minor : Option ℤ
  pub received_at : ℕ

pub data AnomalyKind : Type 0 where
  malformed_callback constraint_violation unconfirmed_success needs_review illegal_transition
        payouts_paused :
      AnomalyKind

pub data Severity : Type 0 where
  warning high critical : Severity

pub record AnomalyRow : Type 0 where
  pub kind : AnomalyKind
  pub severity : Severity
  pub record_id : Option String
  pub provider_ref : Option String
  pub created_at : ℕ

pub record FlagRow : Type 0 where
  pub name : String
  pub value : Bool
  pub updated_at : ℕ

pub record Db : Type 0 where
  pub idempotency_keys : List IdemRow
  pub payments : List PaymentRow
  pub disbursements : List DisbursementRow
  pub ledger_entries : List LedgerEntry
  pub outbox : List OutboxRow
  pub provider_callbacks : List CallbackRow
  pub unmatched_callbacks : List UnmatchedRow
  pub anomalies : List AnomalyRow
  pub flags : List FlagRow

abbrev pub empty : Db
empty = record {
  idempotency_keys = [];
  payments = [];
  disbursements = [];
  ledger_entries = [];
  outbox = [];
  provider_callbacks = [];
  unmatched_callbacks = [];
  anomalies = [];
  flags = [];
}
