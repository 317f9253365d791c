-- ===== src/Payments/Collect/Create.antt =====
-- `create_payment` of services/payments/core/payments.py: the transaction that commits the intent,
-- the call of the provider, and the transaction that records the answer.
use devops_g_9_tillflow.Base.{
  ℕ, ◌+◌, String, true, false, Option, none, some, List, [], ◌∷◌, if◌then◌else◌,
}
use devops_g_9_tillflow.Payments.States.{PaymentState, same_state}
use devops_g_9_tillflow.Payments.Common.{next_backoff, idempotency_key_re}
use devops_g_9_tillflow.Payments.Tables.{
  DeclineReason, Operation, payment_create, PublicBody, payment_body, IdemRow, PaymentRow,
  EventType, Db,
}
use devops_g_9_tillflow.Payments.Tx.{
  Tx, ok, raised, integrity_error, pure, gets, row_of, tx, ◌>>=◌, ◌>>◌,
}
use devops_g_9_tillflow.Payments.Store.{
  Verdict, idem_lookup, idem_classify, idem_begin, idem_complete,
}
use devops_g_9_tillflow.Payments.Store.Payment.{
  insert_payment, update_payments, assign_all, payment_by_id, has_id, transition, set_provider_ref,
  set_merchant_request_id, set_pending_since, set_decline_reason, set_raw_code, set_unknown_since,
  set_next_reconcile_at,
}
use devops_g_9_tillflow.Payments.Service.{
  Body, Reply, Answer, replied, escaped, reply, Settings, ChargeAnswer,
}
use devops_g_9_tillflow.Payments.Collect.Parse as Parse
use devops_g_9_tillflow.Payments.Collect.Parse.{
  Payload, PaymentRequest, Parsed, parse_payment_request,
}
use devops_g_9_tillflow.Payments.Collect.Outcomes.{event}

-- `_public`
unfoldable pub public_of : PaymentRow → PublicBody
public_of p = payment_body p.payment_id p.provider_ref p.state p.decline_reason

unfoldable pub public_body : String → Tx PublicBody
public_body payment_id = do
  found ← gets (payment_by_id payment_id)
  row ← row_of found
  pure (public_of row)

-- The row that commits the attempt before the provider is called.
unfoldable pub new_payment : String → String → PaymentRequest → ℕ → PaymentRow
new_payment payment_id idem_key req now = record {
  payment_id = payment_id;
  tenant_id = req.tenant_id;
  idem_key = idem_key;
  sale_id = req.sale_id;
  msisdn = req.msisdn;
  amount_minor = req.amount_minor;
  currency = req.currency;
  reference = req.reference;
  state = PaymentState.created;
  provider_ref = none;
  merchant_request_id = none;
  decline_reason = none;
  receipt = none;
  raw_code = none;
  initiate_started_at = some now;
  pending_since = none;
  unknown_since = none;
  reconcile_attempts = 0;
  next_reconcile_at = none;
  created_at = now;
  updated_at = now;
}

-- An answer at once, or the intent is committed and the provider is called.
pub data Begun : Type 0 where
  answered : Reply → Begun
  begun : Begun

abbrev pub refusal : ℕ → String → Begun
refusal status error =
    answered (record { status = status; body = Body.error error; replayed = false })

abbrev pub replay_of : Option IdemRow → Tx Begun
replay_of found = do
  row ← row_of found
  body ← row_of row.response_body
  pure (answered (record { status = 200; body = Body.created body; replayed = true }))

-- The two inserts of a new attempt.
unfoldable pub open_attempt :
    Settings → ℕ → (payment_id idem_key fingerprint : String) → PaymentRequest → Tx Begun
open_attempt cfg now payment_id idem_key fingerprint req = do
  idem_begin req.tenant_id payment_create idem_key fingerprint now cfg.idempotency_ttl_seconds
  insert_payment (new_payment payment_id idem_key req now)
  pure begun

-- What the verdict on the idempotency key leads to.
unfoldable pub by_verdict : Tx Begun → Option IdemRow → Verdict → Tx Begun
by_verdict attempt row Verdict.mismatch = pure (refusal 409 "idempotency_key_payload_mismatch")
by_verdict attempt row Verdict.replay = replay_of row
by_verdict attempt row Verdict.in_flight = pure (refusal 409 "idempotency_in_flight")
by_verdict attempt row Verdict.new = attempt

unfoldable pub begin_tx :
    Settings → ℕ → (payment_id idem_key fingerprint : String) → PaymentRequest → Tx Begun
begin_tx cfg now payment_id idem_key fingerprint req = do
  row ← gets (idem_lookup req.tenant_id payment_create idem_key)
  by_verdict (open_attempt cfg now payment_id idem_key fingerprint req) row
      (idem_classify row fingerprint)

-- What the provider's answer does to a payment that is still CREATED.
unfoldable pub record_answer : ℕ → PaymentRow → ChargeAnswer → Tx (Unit {0})
record_answer now row (ChargeAnswer.accepted a) =
    transition row.payment_id PaymentState.created PaymentState.pending now (
      set_provider_ref a.provider_ref
      ∷ set_merchant_request_id a.merchant_request_id
      ∷ set_pending_since now
      ∷ [])
record_answer now row (ChargeAnswer.declined raw_code) = do
  transition row.payment_id PaymentState.created PaymentState.declined now
      (set_decline_reason (some DeclineReason.rejected_at_initiation) ∷ set_raw_code raw_code ∷ [])
  event now row EventType.payment_declined
  pure tt
record_answer now row ChargeAnswer.outcome_unknown =
    transition row.payment_id PaymentState.created PaymentState.unknown now
      (set_unknown_since now ∷ set_next_reconcile_at (now + next_backoff 0) ∷ [])

-- The sweeper was faster: only the reference is kept.
unfoldable pub keep_reference : PaymentRow → ChargeAnswer → Tx (Unit {0})
keep_reference row (ChargeAnswer.accepted a) = do
  update_payments (has_id row.payment_id) (
      assign_all
        (set_provider_ref a.provider_ref ∷ set_merchant_request_id a.merchant_request_id ∷ []))
  pure tt
keep_reference row _ = pure tt

-- `_finish_create`
unfoldable pub finish_create :
    ℕ → (payment_id tenant_id idem_key : String) → ChargeAnswer → Tx PublicBody
finish_create now payment_id tenant_id idem_key answer = do
  found ← gets (payment_by_id payment_id)
  row ← row_of found
  if same_state row.state PaymentState.created
      then record_answer now row answer
      else keep_reference row answer
  body ← public_body payment_id
  idem_complete tenant_id payment_create idem_key 201 body payment_id
  pure body

-- The request as the provider gets it.
pub record ChargeRequest : Type 0 where
  pub idempotency_key : String
  pub tenant_id : String
  pub msisdn : String
  pub amount_minor : ℕ
  pub currency : String
  pub reference : String

-- `adapter_key` and `fingerprint` of common.py hash a canonical text; the hash is a parameter.
pub record Hashes : Type 0 where
  pub adapter_key : (tenant_id : String) → Operation → (key : String) → String
  pub fingerprint : PaymentRequest → String

module _ (hashes : Hashes) where
  unfoldable pub charge_of : String → PaymentRequest → ChargeRequest
  charge_of idem_key req = record {
    idempotency_key = hashes.adapter_key req.tenant_id payment_create idem_key;
    tenant_id = req.tenant_id;
    msisdn = req.msisdn;
    amount_minor = req.amount_minor;
    currency = req.currency;
    reference = req.reference;
  }

  -- The reply, the calls of `initiate_charge`, and the tables.
  unfoldable pub finish :
      ℕ
      → (payment_id idem_key : String) → PaymentRequest
      → ChargeAnswer
      → Db
      → Answer × List ChargeRequest × Db
  finish now payment_id idem_key req answer d =
      let charge = charge_of idem_key req in
      elim (tx (finish_create now payment_id req.tenant_id idem_key answer) d) [
        | ok body d' ↦ (reply 201 (Body.created body), charge ∷ [], d')
        | raised e d' ↦ (escaped e, charge ∷ [], d')
      ]

  unfoldable pub create_parsed :
      Settings
      → (now later : ℕ) (payment_id idem_key : String) → PaymentRequest
      → ChargeAnswer
      → Db
      → Answer × List ChargeRequest × Db
  create_parsed cfg now later payment_id idem_key req answer d =
      elim (tx (begin_tx cfg now payment_id idem_key (hashes.fingerprint req) req) d) [
        | ok (answered r) d' ↦ (replied r, [], d')
        | ok begun d' ↦ finish later payment_id idem_key req answer d'
        | raised integrity_error d' ↦
            (reply 409 (Body.error "sale_already_has_live_payment"), [], d')
        | raised e d' ↦ (escaped e, [], d')
      ]

  -- `now` and `later` are the clock in the two transactions, `payment_id` the fresh uuid.
  unfoldable pub create_payment :
      Settings
      → (now later : ℕ) (payment_id : String) (idem_key : Option String) (payload : Payload)
      → ChargeAnswer
      → Db
      → Answer × List ChargeRequest × Db
  create_payment cfg now later payment_id none payload answer d =
      (reply 400 (Body.error "invalid_idempotency_key"), [], d)
  create_payment cfg now later payment_id (some idem_key) payload answer d =
      if idempotency_key_re idem_key
      then elim (parse_payment_request payload) [
        | Parse.invalid detail ↦ (reply 400 (Body.error "invalid_request"), [], d)
        | Parse.ok req ↦ create_parsed cfg now later payment_id idem_key req answer d
      ]
      else (reply 400 (Body.error "invalid_idempotency_key"), [], d)
