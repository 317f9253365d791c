-- ===== src/Payments/Payout/Tests.antt =====
-- A payout that the provider is asked for.
use devops_g_9_tillflow.Base.{◌≡◌, refl, true, [], ◌∷◌, inl, ◌%◌, ◌≤◌, none, some}
use devops_g_9_tillflow.Base.Table.{In, find?, any_where, update_where, count_where}
use devops_g_9_tillflow.Payments.States.{same_disbursement_state, check_disbursement_transition}
use devops_g_9_tillflow.Payments.Tables.{DisbursementRow, FailureReason, Db, empty}
use devops_g_9_tillflow.Payments.Tx.{ok, after}
use devops_g_9_tillflow.Payments.Payout.KillSwitch.{tripping_failure_stops_payouts}
use devops_g_9_tillflow.Payments.Payout.Outcomes.{fail, event, is_tripping, trip}
use devops_g_9_tillflow.Payments.Store.{outbox, set_flag, anomaly}
use devops_g_9_tillflow.Payments.States.{DisbursementState}
use devops_g_9_tillflow.Payments.Schema.{disbursements_ok}
use devops_g_9_tillflow.Payments.Store.{
  idem_lookup, idem_classify, idem_begin, idem_complete, get_flag,
}
use devops_g_9_tillflow.Payments.Store.Disbursement.{
  insert_disbursement, disbursement_by_id, transition, update_disbursements, assign_all, assign,
}
use devops_g_9_tillflow.Payments.Service.{Settings, DisburseAnswer}
use devops_g_9_tillflow.Payments.Collect.Create.{by_verdict}
use devops_g_9_tillflow.Payments.Payout.Parse.{PayoutRequest, limit_error}
use devops_g_9_tillflow.Payments.Payout.Outcomes.{flag_payouts_enabled, move}
use devops_g_9_tillflow.Payments.Payout.Create.{
  PayoutHashes, DisbursementRequest, new_disbursement, idem_reply, open_attempt, begin_tx, finish,
  finish_create, record_answer, public_body, attempt_payout, check_payout, create_parsed,
}
use devops_g_9_tillflow.Payments.Payout.Create.Gate.{payout_needs_permission}

abbrev hashes : PayoutHashes
hashes = record {
  payout_key = λ t a p. "pk";
  originator_id = λ i. i;
  adapter_key = λ t o k. k;
  fingerprint = λ r k. k;
}

abbrev cfg : Settings
cfg = record {
  callback_allowed_ips = "10.0.0.1" ∷ [];
  confirm_success_with_query = true;
  reconcile_sla_seconds = 60;
  callback_deadline_seconds = 90;
  created_sweep_seconds = 30;
  reconcile_window_seconds = 86400;
  idempotency_ttl_seconds = 86400;
  payout_max_minor = 15000000;
  payouts_enabled = true;
}

abbrev request : PayoutRequest
request = record {
  tenant_id = "duka";
  attendant_id = "att-1";
  payout_period = "2026-09-30";
  msisdn = "254700000002";
  amount_minor = 120000;
  currency = "KES";
}

abbrev call : DisbursementRequest
call = record {
  idempotency_key = "key-0123456789abc";
  tenant_id = "duka";
  originator_conversation_id = "dis-1";
  msisdn = "254700000002";
  amount_minor = 120000;
  currency = "KES";
}

is_called :
    In call
      (create_parsed hashes cfg 100 102 "dis-1" "key-0123456789abc" request
        DisburseAnswer.outcome_unknown empty).1
unfolding create_parsed check_payout attempt_payout begin_tx idem_reply by_verdict open_attempt
    finish limit_error get_flag idem_lookup idem_classify idem_begin insert_disbursement
    new_disbursement disbursements_ok find? any_where finish_create disbursement_by_id
    same_disbursement_state record_answer move transition check_disbursement_transition
    update_disbursements update_where assign_all assign count_where public_body idem_complete
is_called = inl refl

payout_needs_permission_example :
    (get_flag flag_payouts_enabled true empty ≡ true)
    × ((create_parsed hashes cfg 100 102 "dis-1" "key-0123456789abc" request
          DisburseAnswer.outcome_unknown empty).1
        ≡ call ∷ [])
    × (call.amount_minor ≡ request.amount_minor)
    × (request.amount_minor % 100 ≡ 0)
    × (1000 ≤ request.amount_minor)
    × (request.amount_minor ≤ cfg.payout_max_minor)
    × (request.amount_minor ≤ 25000000)
payout_needs_permission_example =
    payout_needs_permission hashes cfg 100 102 "dis-1" "key-0123456789abc" request
      DisburseAnswer.outcome_unknown empty call is_called

-- A payout that fails for want of funds.
abbrev row : DisbursementRow
row = record {
  disbursement_id = "dis-1";
  tenant_id = "duka";
  idem_key = "key-0123456789abc";
  attendant_id = "att-1";
  payout_period = "2026-09-30";
  payout_key = "pk";
  msisdn = "254700000002";
  amount_minor = 120000;
  currency = "KES";
  originator_conversation_id = "dis-1";
  conversation_id = none;
  state = DisbursementState.pending;
  failure_reason = none;
  receipt = none;
  raw_code = none;
  initiate_started_at = some 100;
  pending_since = some 102;
  unknown_since = none;
  reconcile_attempts = 0;
  next_reconcile_at = none;
  created_at = 100;
  updated_at = 102;
}

abbrev pending_db : Db
pending_db = record empty { disbursements = row ∷ [] }

abbrev failed_db : Db
failed_db = after (fail 110 row FailureReason.insufficient_funds (some "1") pending_db)

fails : fail 110 row FailureReason.insufficient_funds (some "1") pending_db ≡ ok tt failed_db
unfolding fail move transition check_disbursement_transition update_disbursements update_where
    assign_all assign count_where disbursements_ok any_where same_disbursement_state event outbox
    is_tripping trip set_flag anomaly
fails = refl

tripping_failure_stops_payouts_example :
    (create_parsed hashes cfg 200 202 "dis-2" "key-0123456789abd" request
      DisburseAnswer.outcome_unknown failed_db).1
    ≡ []
tripping_failure_stops_payouts_example =
    tripping_failure_stops_payouts 110 row FailureReason.insufficient_funds (some "1") pending_db
      (inl refl) fails hashes cfg 200 202 "dis-2" "key-0123456789abd" request
      DisburseAnswer.outcome_unknown
