-- ===== src/Payments/PayoutSystem/Tests.antt =====
-- A payout from the request to its success; the provider's result comes before its acknowledgement.
use devops_g_9_tillflow.Base.{◌≡◌, refl, true, none, some, [], ◌∷◌, inl, if◌then◌else◌}
use devops_g_9_tillflow.Base.Integers.{pos, is_number}
use devops_g_9_tillflow.Base.Table.{In, find?, any_where, update_where, count_where, sum_of}
use devops_g_9_tillflow.Payments.States.{
  DisbursementState, same_disbursement_state, check_disbursement_transition,
  is_terminal_disbursement,
}
use devops_g_9_tillflow.Payments.States.Machine.{Chain}
use devops_g_9_tillflow.Payments.Tables.{DisbursementRow, DisbursementEvent, Outcome, Db, empty}
use devops_g_9_tillflow.Payments.Schema.{disbursements_ok, is_live_disbursement}
use devops_g_9_tillflow.Payments.Tx.{ok, after}
use devops_g_9_tillflow.Payments.Store.{
  idem_lookup, idem_classify, idem_begin, ledger, outbox, record_callback,
}
use devops_g_9_tillflow.Payments.Store.Disbursement.{
  insert_disbursement, disbursement_by_id, transition, update_disbursements, assign_all, assign,
}
use devops_g_9_tillflow.Payments.Service.{Settings, applied}
use devops_g_9_tillflow.Payments.Collect.Create.{by_verdict, begun}
use devops_g_9_tillflow.Payments.Collect.Callback.{is_success, same_amount}
use devops_g_9_tillflow.Payments.Payout.Parse.{PayoutRequest}
use devops_g_9_tillflow.Payments.Payout.Create.{
  new_disbursement, idem_reply, open_attempt, begin_tx,
}
use devops_g_9_tillflow.Payments.Payout.Outcomes.{
  move, event, leave_created, target_of, try_target, conclude, settle, apply_outcome,
}
use devops_g_9_tillflow.Payments.Payout.Results.{
  disbursement_by_originator, fill_conversation, apply_to_disbursement, apply_result_row,
  apply_result,
}
use devops_g_9_tillflow.Payments.Payout.Reconcile.{debit_count}
use devops_g_9_tillflow.Payments.Ledger.{moved_by, booked}
use devops_g_9_tillflow.Payments.Debit.{is_paid, payouts_read}
use devops_g_9_tillflow.Payments.PayoutSystem.{Reach, here, next, begin, result}
use devops_g_9_tillflow.Payments.PayoutSystem.Books.{
  one_debit_per_payout, debits_sum_to_payouts, one_live_disbursement_per_payout,
  disbursements_move_legally, terminal_disbursements_stay,
}

abbrev cfg : Settings
cfg = record {
  callback_allowed_ips = "10.0.0.1" ∷ [];
  confirm_success_with_query = true;
  reconcile_sla_seconds = 60;
  callback_deadline_seconds = 90;
  created_sweep_seconds = 30;
  reconcile_window_seconds = 86400;
  idempotency_ttl_seconds = 86400;
  payout_max_minor = 15000000;
  payouts_enabled = true;
}

abbrev request : PayoutRequest
request = record {
  tenant_id = "duka";
  attendant_id = "att-1";
  payout_period = "2026-09-30";
  msisdn = "254700000002";
  amount_minor = 120000;
  currency = "KES";
}

abbrev success : DisbursementEvent
success = record {
  originator_conversation_id = "or-1";
  conversation_id = some "AG_1";
  outcome = Outcome.succeeded;
  failure_reason = none;
  receipt = some "QK2";
  amount_minor = some (pos 120000);
  raw_code = "0";
  payload_sha256 = "d2";
}

abbrev created_row : DisbursementRow
created_row = record {
  disbursement_id = "dis-1";
  tenant_id = "duka";
  idem_key = "key-0123456789abc";
  attendant_id = "att-1";
  payout_period = "2026-09-30";
  payout_key = "pk";
  msisdn = "254700000002";
  amount_minor = 120000;
  currency = "KES";
  originator_conversation_id = "or-1";
  conversation_id = none;
  state = DisbursementState.created;
  failure_reason = none;
  receipt = none;
  raw_code = none;
  initiate_started_at = some 100;
  pending_since = none;
  unknown_since = none;
  reconcile_attempts = 0;
  next_reconcile_at = none;
  created_at = 100;
  updated_at = 100;
}

abbrev paid_row : DisbursementRow
paid_row = record created_row {
  conversation_id = some "AG_1";
  state = DisbursementState.succeeded;
  receipt = some "QK2";
  raw_code = some "0";
  pending_since = some 110;
  updated_at = 110;
}

abbrev created : Db
created = after (begin_tx cfg 100 "dis-1" "or-1" "pk" "key-0123456789abc" "fp-1" request empty)

begins :
    begin_tx cfg 100 "dis-1" "or-1" "pk" "key-0123456789abc" "fp-1" request empty ≡ ok begun created
unfolding begin_tx idem_reply by_verdict open_attempt idem_lookup idem_classify idem_begin
    insert_disbursement new_disbursement disbursements_ok find? any_where
begins = refl

created_row-In : In created_row created.disbursements
unfolding begin_tx idem_reply by_verdict open_attempt idem_lookup idem_classify idem_begin
    insert_disbursement new_disbursement disbursements_ok find? any_where
created_row-In = inl refl

abbrev paid : Db
paid = after (apply_result 110 success created)

pays : apply_result 110 success created ≡ ok applied paid
unfolding begin_tx idem_reply by_verdict open_attempt idem_lookup idem_classify idem_begin
    insert_disbursement new_disbursement disbursements_ok find? any_where apply_result
    disbursement_by_originator apply_result_row record_callback apply_to_disbursement is_success
    same_amount is_number is_terminal_disbursement fill_conversation update_disbursements
    update_where assign_all assign count_where apply_outcome settle target_of
    same_disbursement_state leave_created move transition check_disbursement_transition
    disbursement_by_id try_target conclude ledger event outbox
pays = refl

paid_row-In : In paid_row paid.disbursements
unfolding begin_tx idem_reply by_verdict open_attempt idem_lookup idem_classify idem_begin
    insert_disbursement new_disbursement disbursements_ok find? any_where apply_result
    disbursement_by_originator apply_result_row record_callback apply_to_disbursement is_success
    same_amount is_number is_terminal_disbursement fill_conversation update_disbursements
    update_where assign_all assign count_where apply_outcome settle target_of
    same_disbursement_state leave_created move transition check_disbursement_transition
    disbursement_by_id try_target conclude ledger event outbox
paid_row-In = inl refl

to_created : Reach cfg empty created
to_created = next here (begin 100 "dis-1" "or-1" "pk" "key-0123456789abc" "fp-1" request begins)

to_paid : Reach cfg created paid
to_paid = next here (result 110 success applied pays)

all_the_way : Reach cfg empty paid
all_the_way = next to_created (result 110 success applied pays)

live : is_live_disbursement paid_row.state ≡ true
unfolding is_live_disbursement
live = refl

ended : is_terminal_disbursement paid_row.state ≡ true
unfolding is_terminal_disbursement
ended = refl

one_debit_per_payout_example : debit_count "dis-1" paid ≡ (if is_paid paid_row.state then 1 else 0)
one_debit_per_payout_example = one_debit_per_payout cfg all_the_way paid_row paid_row-In

debits_sum_to_payouts_example :
    sum_of (booked payouts_read) paid.ledger_entries
    ≡ sum_of (moved_by payouts_read) paid.disbursements
debits_sum_to_payouts_example = debits_sum_to_payouts cfg all_the_way

one_live_disbursement_per_payout_example : paid_row ≡ paid_row
one_live_disbursement_per_payout_example =
    one_live_disbursement_per_payout cfg paid_row paid_row all_the_way paid_row-In paid_row-In live
      live refl

disbursements_move_legally_example :
    (q : DisbursementRow) × In q paid.disbursements
    × (q.disbursement_id ≡ created_row.disbursement_id)
    × (q.amount_minor ≡ created_row.amount_minor)
    × (q.payout_key ≡ created_row.payout_key)
    × Chain check_disbursement_transition created_row.state q.state
disbursements_move_legally_example =
    disbursements_move_legally cfg to_created to_paid created_row created_row-In

terminal_disbursements_stay_example : paid_row.state ≡ paid_row.state
terminal_disbursements_stay_example =
    terminal_disbursements_stay cfg paid_row paid_row all_the_way here paid_row-In paid_row-In refl
      ended
