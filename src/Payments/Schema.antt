-- ===== src/Payments/Schema.antt =====
-- The constraints of SCHEMA in services/payments/core/store.py: primary keys, UNIQUE columns, CHECK
-- clauses and the two partial unique indexes, as tests on a whole table.
pub mod Keys
use devops_g_9_tillflow.Base.{
  String, Bool, true, false, not, ◌&&◌, ◌||◌, Option, none, some, List, [], ◌∷◌, ltb, ◌==◌,
  same_text,
}
use devops_g_9_tillflow.Base.Table.{any_where}
use devops_g_9_tillflow.Payments.States.{PaymentState, DisbursementState}
use devops_g_9_tillflow.Payments.Tables.{
  Operation, payment_create, disbursement_create, IdemRow, PaymentRow, DisbursementRow, EntryType,
  payment_credit, disbursement_debit, LedgerEntry, EventType, OutboxRow, CallbackRow, UnmatchedRow,
}

unfoldable pub same_operation : Operation → Operation → Bool
same_operation payment_create payment_create = true
same_operation disbursement_create disbursement_create = true
same_operation _ _ = false

unfoldable pub same_entry_type : EntryType → EntryType → Bool
same_entry_type payment_credit payment_credit = true
same_entry_type disbursement_debit disbursement_debit = true
same_entry_type _ _ = false

unfoldable pub same_event_type : EventType → EventType → Bool
same_event_type EventType.payment_succeeded EventType.payment_succeeded = true
same_event_type EventType.payment_declined EventType.payment_declined = true
same_event_type EventType.payment_expired EventType.payment_expired = true
same_event_type EventType.payout_succeeded EventType.payout_succeeded = true
same_event_type EventType.payout_failed EventType.payout_failed = true
same_event_type _ _ = false

-- PRIMARY KEY (tenant_id, operation, idem_key)
unfoldable pub has_idem_key : String → Operation → String → IdemRow → Bool
has_idem_key tenant operation key r =
    r.tenant_id == tenant && same_operation r.operation operation && r.idem_key == key

-- The rows that payments_one_live_per_sale covers.
unfoldable pub is_live : PaymentState → Bool
is_live PaymentState.declined = false
is_live PaymentState.expired = false
is_live _ = true

unfoldable pub same_live_sale : PaymentRow → PaymentRow → Bool
same_live_sale p q =
    is_live p.state
    && is_live q.state
    && p.tenant_id == q.tenant_id
    && same_text p.sale_id q.sale_id

-- Two rows of `payments` that cannot both be there.
unfoldable pub payments_clash : PaymentRow → PaymentRow → Bool
payments_clash p q =
    p.payment_id == q.payment_id
    || same_text p.provider_ref q.provider_ref
    || same_text p.receipt q.receipt
    || same_live_sale p q

-- CHECK (amount_minor > 0), and no clash between any two rows.
unfoldable pub payments_ok : List PaymentRow → Bool
payments_ok [] = true
payments_ok (p ∷ ps) =
    ltb 0 p.amount_minor && not (any_where (payments_clash p) ps) && payments_ok ps

unfoldable pub is_live_disbursement : DisbursementState → Bool
is_live_disbursement DisbursementState.failed = false
is_live_disbursement _ = true

unfoldable pub disbursements_clash : DisbursementRow → DisbursementRow → Bool
disbursements_clash p q =
    p.disbursement_id == q.disbursement_id
    || p.originator_conversation_id == q.originator_conversation_id
    || same_text p.receipt q.receipt
    || (is_live_disbursement p.state
        && is_live_disbursement q.state
        && p.payout_key == q.payout_key)

unfoldable pub disbursements_ok : List DisbursementRow → Bool
disbursements_ok [] = true
disbursements_ok (p ∷ ps) =
    ltb 0 p.amount_minor && not (any_where (disbursements_clash p) ps) && disbursements_ok ps

-- UNIQUE (provider, provider_ref, entry_type)
unfoldable pub ledger_clash : LedgerEntry → LedgerEntry → Bool
ledger_clash e f =
    e.provider == f.provider
    && e.provider_ref == f.provider_ref
    && same_entry_type e.entry_type f.entry_type

-- UNIQUE (aggregate_id, event_type)
unfoldable pub outbox_clash : OutboxRow → OutboxRow → Bool
outbox_clash r s = r.aggregate_id == s.aggregate_id && same_event_type r.event_type s.event_type

-- UNIQUE (provider_ref, payload_sha256), and the primary key of unmatched_callbacks
unfoldable pub callbacks_clash : CallbackRow → CallbackRow → Bool
callbacks_clash r s = r.provider_ref == s.provider_ref && r.payload_sha256 == s.payload_sha256

unfoldable pub unmatched_clash : UnmatchedRow → UnmatchedRow → Bool
unmatched_clash r s = r.provider_ref == s.provider_ref && r.payload_sha256 == s.payload_sha256
