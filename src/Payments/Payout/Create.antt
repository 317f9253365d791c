-- ===== src/Payments/Payout/Create.antt =====
-- `create_payout` of services/payments/core/payouts.py: the checks before any write, the transaction
-- that commits the intent, the call of the provider, and the transaction that records the answer.
pub mod Gate
use devops_g_9_tillflow.Base.{
  ℕ, ◌+◌, String, Bool, true, false, not, ◌&&◌, Option, none, some, List, [], ◌∷◌, ◌==◌,
  if◌then◌else◌,
}
use devops_g_9_tillflow.Base.Table.{find?}
use devops_g_9_tillflow.Payments.States.{DisbursementState, same_disbursement_state}
use devops_g_9_tillflow.Payments.Common.{next_backoff, idempotency_key_re}
use devops_g_9_tillflow.Payments.Tables.{
  disbursement_create, Operation, PublicBody, payout_body, IdemRow, DisbursementRow, Db,
}
use devops_g_9_tillflow.Payments.Schema.{is_live_disbursement}
use devops_g_9_tillflow.Payments.Tx.{
  Tx, ok, raised, integrity_error, pure, gets, row_of, tx, ◌>>=◌, ◌>>◌,
}
use devops_g_9_tillflow.Payments.Store.{
  idem_lookup, idem_classify, idem_begin, idem_complete, get_flag, Verdict,
}
use devops_g_9_tillflow.Payments.Store.Disbursement.{
  insert_disbursement, update_disbursements, assign_all, disbursement_by_id, has_id,
  set_conversation_id, set_pending_since, set_unknown_since, set_next_reconcile_at,
}
use devops_g_9_tillflow.Payments.Service.{
  Body, Answer, replied, escaped, reply, Settings, DisburseAnswer,
}
use devops_g_9_tillflow.Payments.Collect.Parse.{Payload}
use devops_g_9_tillflow.Payments.Collect.Parse
use devops_g_9_tillflow.Payments.Collect.Create.{Begun, answered, begun, by_verdict}
use devops_g_9_tillflow.Payments.Payout.Parse.{PayoutRequest, parse_payout_request, limit_error}
use devops_g_9_tillflow.Payments.Payout.Outcomes.{move, fail, flag_payouts_enabled}

-- `_public`
unfoldable pub public_of : DisbursementRow → PublicBody
public_of r =
    payout_body r.disbursement_id r.conversation_id r.originator_conversation_id r.state
      r.failure_reason

unfoldable pub public_body : String → Tx PublicBody
public_body disbursement_id = do
  found ← gets (disbursement_by_id disbursement_id)
  row ← row_of found
  pure (public_of row)

-- `derive_payout_key`, `originator_id_for`, `adapter_key` and `fingerprint` hash a text; the hash is a
-- parameter.
pub record PayoutHashes : Type 0 where
  pub payout_key : (tenant_id attendant_id payout_period : String) → String
  pub originator_id : (disbursement_id : String) → String
  pub adapter_key : (tenant_id : String) → Operation → (key : String) → String
  pub fingerprint : PayoutRequest → (payout_key : String) → String

-- The row that commits the attempt before the provider is called.
unfoldable pub new_disbursement :
    (disbursement_id originator payout_key idem_key : String) → PayoutRequest → ℕ → DisbursementRow
new_disbursement disbursement_id originator payout_key idem_key req now = record {
  disbursement_id = disbursement_id;
  tenant_id = req.tenant_id;
  idem_key = idem_key;
  attendant_id = req.attendant_id;
  payout_period = req.payout_period;
  payout_key = payout_key;
  msisdn = req.msisdn;
  amount_minor = req.amount_minor;
  currency = req.currency;
  originator_conversation_id = originator;
  conversation_id = none;
  state = DisbursementState.created;
  failure_reason = none;
  receipt = none;
  raw_code = none;
  initiate_started_at = some now;
  pending_since = none;
  unknown_since = none;
  reconcile_attempts = 0;
  next_reconcile_at = none;
  created_at = now;
  updated_at = now;
}

-- `_idem_reply`, with what to do when there is no reply yet.
unfoldable pub idem_reply : Option IdemRow → String → Tx Begun → Tx Begun
idem_reply row fingerprint go_on = by_verdict go_on row (idem_classify row fingerprint)

unfoldable pub open_attempt :
    Settings
    → ℕ
    → (disbursement_id originator payout_key idem_key fingerprint : String) → PayoutRequest
    → Tx Begun
open_attempt cfg now disbursement_id originator payout_key idem_key fingerprint req = do
  idem_begin req.tenant_id disbursement_create idem_key fingerprint now cfg.idempotency_ttl_seconds
  insert_disbursement (new_disbursement disbursement_id originator payout_key idem_key req now)
  pure begun

unfoldable pub begin_tx :
    Settings
    → ℕ
    → (disbursement_id originator payout_key idem_key fingerprint : String) → PayoutRequest
    → Tx Begun
begin_tx cfg now disbursement_id originator payout_key idem_key fingerprint req = do
  row ← gets (idem_lookup req.tenant_id disbursement_create idem_key)
  idem_reply row fingerprint
      (open_attempt cfg now disbursement_id originator payout_key idem_key fingerprint req)

-- What the provider's answer does to a disbursement that is still CREATED.
unfoldable pub record_answer : ℕ → DisbursementRow → DisburseAnswer → Tx (Unit {0})
record_answer now row (DisburseAnswer.accepted a) =
    move now row DisbursementState.pending
      (set_conversation_id a.conversation_id ∷ set_pending_since now ∷ [])
record_answer now row (DisburseAnswer.rejected reason raw_code) = fail now row reason raw_code
record_answer now row DisburseAnswer.outcome_unknown =
    move now row DisbursementState.unknown
      (set_unknown_since now ∷ set_next_reconcile_at (now + next_backoff 0) ∷ [])

unfoldable pub keep_conversation : DisbursementRow → DisburseAnswer → Tx (Unit {0})
keep_conversation row (DisburseAnswer.accepted a) = do
  update_disbursements (has_id row.disbursement_id)
      (assign_all (set_conversation_id a.conversation_id ∷ []))
  pure tt
keep_conversation row _ = pure tt

-- `_finish_create`
unfoldable pub finish_create :
    ℕ → (disbursement_id tenant_id idem_key : String) → DisburseAnswer → Tx PublicBody
finish_create now disbursement_id tenant_id idem_key answer = do
  found ← gets (disbursement_by_id disbursement_id)
  row ← row_of found
  if same_disbursement_state row.state DisbursementState.created
      then record_answer now row answer
      else keep_conversation row answer
  body ← public_body disbursement_id
  idem_complete tenant_id disbursement_create idem_key 201 body disbursement_id
  pure body

-- The request as the provider gets it.
pub record DisbursementRequest : Type 0 where
  pub idempotency_key : String
  pub tenant_id : String
  pub originator_conversation_id : String
  pub msisdn : String
  pub amount_minor : ℕ
  pub currency : String

-- SELECT disbursement_id FROM disbursements WHERE payout_key = ? AND state <> 'FAILED'
unfoldable pub live_payout : String → Db → Option String
live_payout payout_key d =
    elim (find?
      (λ (r : DisbursementRow). r.payout_key == payout_key && is_live_disbursement r.state)
      d.disbursements) [ none ↦ none | some r ↦ some r.disbursement_id ]

-- The reply, the calls of `disburse`, and the tables.
abbrev pub Outcome : Type 0
Outcome = Answer × List DisbursementRequest × Db

module _ (hashes : PayoutHashes) where
  unfoldable pub finish :
      ℕ → (disbursement_id idem_key : String) → PayoutRequest → DisburseAnswer → Db → Outcome
  finish now disbursement_id idem_key req answer d =
      let request : DisbursementRequest = record {
        idempotency_key = hashes.adapter_key req.tenant_id disbursement_create idem_key;
        tenant_id = req.tenant_id;
        originator_conversation_id = hashes.originator_id disbursement_id;
        msisdn = req.msisdn;
        amount_minor = req.amount_minor;
        currency = req.currency;
      } in
      elim (tx (finish_create now disbursement_id req.tenant_id idem_key answer) d) [
        | ok body d' ↦ (reply 201 (Body.created body), request ∷ [], d')
        | raised e d' ↦ (escaped e, request ∷ [], d')
      ]

  -- The limits and the kill switch are passed.
  unfoldable pub attempt_payout :
      Settings
      → (now later : ℕ) (disbursement_id idem_key : String) → PayoutRequest
      → DisburseAnswer
      → Db
      → Outcome
  attempt_payout cfg now later disbursement_id idem_key req answer d =
      let key = hashes.payout_key req.tenant_id req.attendant_id req.payout_period in
      elim (tx
        (begin_tx cfg now disbursement_id (hashes.originator_id disbursement_id) key idem_key
          (hashes.fingerprint req key) req)
        d) [
          | ok (answered r) d' ↦ (replied r, [], d')
          | ok begun d' ↦ finish later disbursement_id idem_key req answer d'
          | raised integrity_error d' ↦
              (reply 409 (Body.payout_conflict (live_payout key d')), [], d')
          | raised e d' ↦ (escaped e, [], d')
        ]

  -- No earlier answer: the limits, then the kill switch.
  unfoldable pub check_payout :
      Settings
      → (now later : ℕ) (disbursement_id idem_key : String) → PayoutRequest
      → DisburseAnswer
      → Db
      → Outcome
  check_payout cfg now later disbursement_id idem_key req answer d =
      elim (limit_error cfg req.amount_minor) [
        | some limit ↦ (reply 422 (Body.error limit), [], d)
        | none ↦
            if get_flag flag_payouts_enabled cfg.payouts_enabled d
            then attempt_payout cfg now later disbursement_id idem_key req answer d
            else (reply 503 (Body.error "payouts_disabled"), [], d)
      ]

  -- The first `_idem_reply` reads only.
  unfoldable pub create_parsed :
      Settings
      → (now later : ℕ) (disbursement_id idem_key : String) → PayoutRequest
      → DisburseAnswer
      → Db
      → Outcome
  create_parsed cfg now later disbursement_id idem_key req answer d =
      let key = hashes.payout_key req.tenant_id req.attendant_id req.payout_period in
      elim (idem_reply (idem_lookup req.tenant_id disbursement_create idem_key d)
        (hashes.fingerprint req key) (pure begun) d) [
          | ok (answered r) d' ↦ (replied r, [], d)
          | ok begun d' ↦ check_payout cfg now later disbursement_id idem_key req answer d
          | raised e d' ↦ (escaped e, [], d)
        ]

  unfoldable pub create_payout :
      Settings
      → (now later : ℕ) (disbursement_id : String) (idem_key : Option String) (payload : Payload)
      → DisburseAnswer
      → Db
      → Outcome
  create_payout cfg now later disbursement_id none payload answer d =
      (reply 400 (Body.error "invalid_idempotency_key"), [], d)
  create_payout cfg now later disbursement_id (some idem_key) payload answer d =
      if idempotency_key_re idem_key
      then elim (parse_payout_request payload) [
        | Parse.invalid detail ↦ (reply 400 (Body.error "invalid_request"), [], d)
        | Parse.ok req ↦ create_parsed cfg now later disbursement_id idem_key req answer d
      ]
      else (reply 400 (Body.error "invalid_idempotency_key"), [], d)
