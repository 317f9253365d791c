-- ===== src/Payments/System/Run.antt =====
-- A payment from the request to its success, step by step.
use devops_g_9_tillflow.Base.{holds_text, same_text, ◌≡◌, refl, true, none, some, [], ◌∷◌, inl}
use devops_g_9_tillflow.Base.Integers.{pos, is_number}
use devops_g_9_tillflow.Base.Table.{In, find?, any_where, rows_where, update_where, count_where}
use devops_g_9_tillflow.Payments.States.{PaymentState, same_state, is_terminal, check_transition}
use devops_g_9_tillflow.Payments.Tables.{
  Outcome, PaymentRow, CallbackEvent, PublicBody, payment_body, Db, empty, payment_create, IdemRow,
  IdemStatus, LedgerEntry, EventType, payment_credit, CallbackKind,
}
use devops_g_9_tillflow.Payments.Schema.{
  same_operation, has_idem_key, is_live, same_live_sale, payments_ok,
}
use devops_g_9_tillflow.Payments.Tx.{ok}
use devops_g_9_tillflow.Payments.Store.{
  idem_lookup, idem_classify, idem_begin, idem_complete, ledger, outbox, record_callback,
}
use devops_g_9_tillflow.Payments.Store.Payment.{
  assign, assign_all, update_payments, insert_payment, payment_by_id, transition,
}
use devops_g_9_tillflow.Payments.Service.{Settings, ChargeAnswer, applied}
use devops_g_9_tillflow.Payments.Collect.Parse.{PaymentRequest}
use devops_g_9_tillflow.Payments.Collect.Outcomes.{
  event, target_of, outcome_fields, try_transition, conclude, after_transition, settle,
  apply_outcome,
}
use devops_g_9_tillflow.Payments.Collect.Callback.{
  Confirmation, payment_by_ref, is_success, same_amount, doubt_success, apply_to_payment,
  apply_found, apply_row, apply_callback,
}
use devops_g_9_tillflow.Payments.Collect.Create.{
  public_of, public_body, new_payment, by_verdict, open_attempt, begin_tx, begun, record_answer,
  finish_create,
}
use devops_g_9_tillflow.Payments.System.{
  Attempt, System, start, others, attempt_of, begin, finish, callback, Reach, here, next,
}

abbrev pub cfg : Settings
cfg = record {
  callback_allowed_ips = "10.0.0.1" ∷ [];
  confirm_success_with_query = true;
  reconcile_sla_seconds = 60;
  callback_deadline_seconds = 90;
  created_sweep_seconds = 30;
  reconcile_window_seconds = 86400;
  idempotency_ttl_seconds = 86400;
  payout_max_minor = 15000000;
  payouts_enabled = true;
}

abbrev pub request : PaymentRequest
request = record {
  tenant_id = "duka";
  msisdn = "254700000001";
  amount_minor = 25000;
  reference = "INV1";
  sale_id = some "sale-1";
  currency = "KES";
}

-- The payment as each transaction leaves it.
abbrev pub row : PaymentRow
row = record {
  payment_id = "pay-1";
  tenant_id = "duka";
  idem_key = "key-0123456789abc";
  sale_id = some "sale-1";
  msisdn = "254700000001";
  amount_minor = 25000;
  currency = "KES";
  reference = "INV1";
  state = PaymentState.created;
  provider_ref = none;
  merchant_request_id = none;
  decline_reason = none;
  receipt = none;
  raw_code = none;
  initiate_started_at = some 100;
  pending_since = none;
  unknown_since = none;
  reconcile_attempts = 0;
  next_reconcile_at = none;
  created_at = 100;
  updated_at = 100;
}

abbrev pub pending_row : PaymentRow
pending_row = record row {
  state = PaymentState.pending;
  updated_at = 102;
  provider_ref = some "ws_CO_1";
  merchant_request_id = some "mr-1";
  pending_since = some 102;
}

abbrev pub succeeded_row : PaymentRow
succeeded_row = record pending_row {
  state = PaymentState.succeeded;
  updated_at = 110;
  raw_code = some "0";
  receipt = some "QK1";
}

abbrev pub success : CallbackEvent
success = record {
  provider_ref = "ws_CO_1";
  outcome = Outcome.succeeded;
  decline_reason = none;
  receipt = some "QK1";
  amount_minor = some (pos 25000);
  raw_code = "0";
  payload_sha256 = "d1";
}

abbrev pub answer : ChargeAnswer
answer = ChargeAnswer.accepted (record { provider_ref = "ws_CO_1"; merchant_request_id = "mr-1" })

abbrev pub waiting_attempt : Attempt
waiting_attempt = attempt_of "pay-1" "key-0123456789abc" request

abbrev pub key_row : IdemRow
key_row = record {
  tenant_id = "duka";
  operation = payment_create;
  idem_key = "key-0123456789abc";
  request_fingerprint = "fp-1";
  status = IdemStatus.in_flight;
  response_code = none;
  response_body = none;
  resource_id = none;
  created_at = 100;
  expires_at = 86500;
}

abbrev pub credit : LedgerEntry
credit = record {
  tenant_id = "duka";
  record_id = "pay-1";
  entry_type = payment_credit;
  amount_minor = 25000;
  currency = "KES";
  provider = "mpesa";
  provider_ref = "ws_CO_1";
  receipt = some "QK1";
  created_at = 110;
}

abbrev pub opened_db : Db
opened_db = record empty { idempotency_keys = key_row ∷ []; payments = row ∷ [] }

abbrev pub pending_body : PublicBody
pending_body = payment_body "pay-1" (some "ws_CO_1") PaymentState.pending none

abbrev pub pending_db : Db
pending_db = record opened_db {
  idempotency_keys =
      record key_row {
        status = IdemStatus.completed;
        response_code = some 201;
        response_body = some pending_body;
        resource_id = some "pay-1";
      }
      ∷ [];
  payments = pending_row ∷ [];
}

abbrev pub paid_db : Db
paid_db = record pending_db {
  payments = succeeded_row ∷ [];
  ledger_entries = credit ∷ [];
  outbox =
      record {
        aggregate_id = "pay-1";
        event_type = EventType.payment_succeeded;
        tenant_id = "duka";
        amount_minor = 25000;
        created_at = 110;
      }
      ∷ [];
  provider_callbacks =
      record {
        kind = CallbackKind.stk;
        provider_ref = "ws_CO_1";
        payload_sha256 = "d1";
        outcome = Outcome.succeeded;
        raw_code = "0";
        received_at = 110;
      }
      ∷ [];
}

abbrev pub opened : System
opened = record { db = opened_db; waiting = waiting_attempt ∷ []; charges = waiting_attempt ∷ [] }

abbrev pub pending : System
pending = record { db = pending_db; waiting = []; charges = waiting_attempt ∷ [] }

abbrev pub paid : System
paid = record { db = paid_db; waiting = []; charges = waiting_attempt ∷ [] }

pub opened-runs :
    begin_tx cfg 100 "pay-1" "key-0123456789abc" "fp-1" request empty ≡ ok begun opened_db
unfolding begin_tx open_attempt by_verdict idem_classify idem_lookup idem_begin insert_payment
    payments_ok new_payment find? any_where
opened-runs = refl

pub pending-runs :
    finish_create 102 "pay-1" "duka" "key-0123456789abc" answer opened_db
    ≡ ok pending_body pending_db
unfolding payments_ok find? any_where finish_create record_answer transition update_payments
    update_where count_where check_transition assign_all assign payment_by_id public_body public_of
    idem_complete same_state has_idem_key same_operation
pending-runs = refl

pub paid-runs :
    apply_callback 110 success (some Confirmation.confirmed) pending_db ≡ ok applied paid_db
unfolding holds_text is_number payments_ok find? any_where transition update_payments update_where
    count_where check_transition assign_all assign same_state apply_callback apply_row apply_found
    payment_by_ref record_callback apply_to_payment is_success is_terminal same_amount doubt_success
    apply_outcome target_of settle try_transition conclude after_transition outcome_fields ledger
    event outbox
paid-runs = refl

pub others-runs : [] ≡ others "pay-1" (waiting_attempt ∷ [])
unfolding others rows_where
others-runs = refl

pub to_opened : Reach cfg start opened
to_opened = next here (begin 100 "pay-1" "key-0123456789abc" "fp-1" request opened-runs refl refl)

pub from_opened : Reach cfg opened paid
from_opened =
    next (next here (finish 102 waiting_attempt answer _ (inl refl) pending-runs others-runs refl))
      (callback 110 success (some Confirmation.confirmed) applied paid-runs refl refl)

pub to_paid : Reach cfg start paid
to_paid =
    next
      (next to_opened
        (finish 102 waiting_attempt answer _ (inl refl) pending-runs others-runs refl))
      (callback 110 success (some Confirmation.confirmed) applied paid-runs refl refl)

pub opened-row : In row opened_db.payments
opened-row = inl refl

pub paid-row : In succeeded_row paid_db.payments
paid-row = inl refl

pub same_sale : same_live_sale succeeded_row succeeded_row ≡ true
unfolding same_live_sale is_live same_text
same_sale = refl

pub succeeded_is_terminal : is_terminal succeeded_row.state ≡ true
unfolding is_terminal
succeeded_is_terminal = refl
