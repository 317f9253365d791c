-- ===== src/Payments/Payout/Results.antt =====
-- The result callback of services/payments/core/payouts.py.
use devops_g_9_tillflow.Base.{
  ℕ, String, Bool, not, ◌&&◌, Option, none, some, [], ◌∷◌, ◌==◌, if◌then◌else◌,
}
use devops_g_9_tillflow.Base.Table.{find?, any_where}
use devops_g_9_tillflow.Payments.States.{is_terminal_disbursement}
use devops_g_9_tillflow.Payments.Tables.{
  DisbursementEvent, DisbursementRow, CallbackKind, AnomalyKind, Severity, Db,
}
use devops_g_9_tillflow.Payments.Tx.{
  Tx, ok, raised, integrity_error, after, pure, gets, tx, ◌>>=◌, ◌>>◌,
}
use devops_g_9_tillflow.Payments.Store.{anomaly, record_callback, record_unmatched}
use devops_g_9_tillflow.Payments.Store.Disbursement.{
  update_disbursements, assign_all, has_id, set_conversation_id,
}
use devops_g_9_tillflow.Payments.Service.{
  Applied, unmatched, under_review, conflict, Body, Answer, escaped, reply, Settings, ParsedResult,
}
use devops_g_9_tillflow.Payments.Collect.Callback.{is_success, same_amount}
use devops_g_9_tillflow.Payments.Payout.Outcomes.{to_review, apply_outcome}

abbrev pub has_originator : String → DisbursementRow → Bool
has_originator oid p = p.originator_conversation_id == oid

-- SELECT * FROM disbursements WHERE originator_conversation_id = ?
unfoldable pub disbursement_by_originator : String → Db → Option DisbursementRow
disbursement_by_originator oid d = find? (has_originator oid) d.disbursements

-- `event.conversation_id and row["conversation_id"] is None`: an empty text counts as absent.
unfoldable pub fill_conversation : Option String → DisbursementRow → Tx (Unit {0})
fill_conversation (some conversation_id) row = elim row.conversation_id [
  | some known ↦ pure tt
  | none ↦ if conversation_id == "" then pure tt else (do
    update_disbursements (has_id row.disbursement_id)
        (assign_all (set_conversation_id conversation_id ∷ []))
    pure tt)
]
fill_conversation none row = pure tt

-- What a result does to the disbursement that it names.
unfoldable pub apply_to_disbursement : ℕ → DisbursementEvent → DisbursementRow → Tx Applied
apply_to_disbursement now event row =
    if is_success event.outcome
      && not (is_terminal_disbursement row.state)
      && not (same_amount event.amount_minor row.amount_minor)
    then to_review now row >> pure under_review
    else (do
      fill_conversation event.conversation_id row
      apply_outcome now row event.outcome event.failure_reason event.receipt (some event.raw_code))

-- The two ways of `_apply_result`: no disbursement has the id, or one has.
unfoldable pub apply_result_row : ℕ → DisbursementEvent → Option DisbursementRow → Tx Applied
apply_result_row now event none =
    record_unmatched (record {
      kind = CallbackKind.b2c;
      provider_ref = event.originator_conversation_id;
      payload_sha256 = event.payload_sha256;
      outcome = event.outcome;
      raw_code = event.raw_code;
      amount_minor = event.amount_minor;
      received_at = now;
    })
    >> pure unmatched
apply_result_row now event (some row) =
    record_callback (record {
      kind = CallbackKind.b2c;
      provider_ref = event.originator_conversation_id;
      payload_sha256 = event.payload_sha256;
      outcome = event.outcome;
      raw_code = event.raw_code;
      received_at = now;
    })
    >> apply_to_disbursement now event row

-- `_apply_result`
unfoldable pub apply_result : ℕ → DisbursementEvent → Tx Applied
apply_result now event = do
  found ← gets (disbursement_by_originator event.originator_conversation_id)
  apply_result_row now event found

unfoldable pub accept_result : ℕ → DisbursementEvent → Db → Answer × Db
accept_result now event d = elim (tx (apply_result now event) d) [
  | ok result d' ↦ (reply 200 (Body.ack result), d')
  | raised integrity_error d' ↦ (
    reply 200 (Body.ack conflict),
    after (
        tx
          (anomaly AnomalyKind.constraint_violation Severity.critical none
            (some event.originator_conversation_id) now)
          d'),
  )
  | raised e d' ↦ (escaped e, d')
]

unfoldable pub handle_result :
    Settings → ℕ → (remote_addr : String) (parsed : ParsedResult) → Db → Answer × Db
handle_result cfg now remote_addr parsed d =
    if any_where (λ ip. ip == remote_addr) cfg.callback_allowed_ips
    then elim parsed [
      | ParsedResult.not_authentic ↦ (reply 403 (Body.error "callback_not_authentic"), d)
      | ParsedResult.malformed ↦ (
        reply 400 (Body.error "callback_malformed"),
        after (tx (anomaly AnomalyKind.malformed_callback Severity.warning none none now) d),
      )
      | ParsedResult.event event ↦ accept_result now event d
    ]
    else (reply 403 (Body.error "source_not_allowed"), d)
