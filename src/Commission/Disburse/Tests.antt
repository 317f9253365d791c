-- ===== src/Commission/Disburse/Tests.antt =====
-- One planned row; Payments accepts it, and later says that it has been paid.
use devops_g_9_tillflow.Base.{String, ◌≡◌, refl, ◌⊎◌, inl, none, some, List, [], ◌∷◌, ◌++◌, map}
use devops_g_9_tillflow.Base.Table.{rows_where, update_where}
use devops_g_9_tillflow.Commission.Tables.{LedgerState, LedgerRow, Db, empty, same_state}
use devops_g_9_tillflow.Commission.Common.{
  Reply, payouts_disabled, classify_payout_response, terminal_payments_state,
}
use devops_g_9_tillflow.Commission.Disburse.{
  Call, Check, payments_unreachable, payouts_off, send_due_payouts, send_rows, handle_outcome,
  record_accepted, update_row, is_row_in, stops_pass, reconcile_requested_payouts, reconcile_rows,
  reconcile_row, reconcile_state, record_verdict, is_due, anomaly,
}
use devops_g_9_tillflow.Commission.Disburse.Word.{
  Answered, Checked, Followed, sending_needs_an_answer, reconciling_needs_a_record,
}
use devops_g_9_tillflow.Commission.Disburse.Order.{pass_asks_in_order}

abbrev held_label : String → String
held_label e = e

abbrev planned_row : LedgerRow
planned_row = record {
  id = "pol-1";
  tenant_id = "till";
  attendant_id = "att-1";
  business_date = "2026-09-21";
  currency = "KES";
  amount_minor = 1200;
  msisdn = "254700000001";
  state = LedgerState.planned;
  idempotency_key = "2026-09-21";
  disbursement_id = none;
  failure_reason = none;
  reconcile_attempts = 0;
  next_reconcile_at = none;
  created_at = 30;
  updated_at = 30;
}

abbrev due : Db
due = record empty { payout_ledger = planned_row ∷ [] }

abbrev accepted : Reply
accepted = record {
  error = "";
  disbursement_id = some "dis-1";
  state = "PENDING";
  failure_reason = none;
}

abbrev create_payout : LedgerRow → Call
create_payout r = record { response = some (201, accepted); now = 40 }

abbrev requested_row : LedgerRow
requested_row = record planned_row {
  state = LedgerState.requested;
  disbursement_id = some "dis-1";
  updated_at = 40;
}

abbrev requested : Db
requested = record empty { payout_ledger = requested_row ∷ [] }

sends : (send_due_payouts held_label create_payout due).1 ≡ requested
unfolding send_due_payouts send_rows handle_outcome record_accepted update_row is_row_in
    classify_payout_response terminal_payments_state stops_pass rows_where update_where same_state
sends = refl

abbrev refused : LedgerRow → Call
refused r = record {
  response = some (
    503,
    record {
      error = "payouts_disabled";
      disbursement_id = none;
      state = "";
      failure_reason = none;
    },
  );
  now = 40;
}

stops :
    (send_due_payouts held_label refused
      (record empty { payout_ledger = planned_row ∷ planned_row ∷ [] })).0
    ≡ record {
      checked = 2;
      outcomes = (planned_row, some payouts_disabled) ∷ [];
      aborted = payouts_off;
    }
unfolding send_due_payouts send_rows handle_outcome classify_payout_response stops_pass rows_where
    same_state anomaly
stops = refl

abbrev check : LedgerRow → Check
check r = record {
  payment = some (record {
    error = "";
    disbursement_id = some "dis-1";
    state = "SUCCEEDED";
    failure_reason = none;
  });
  now = 90;
}

reconciles :
    (reconcile_requested_payouts check 80 requested).1.payout_ledger
    ≡ record requested_row { state = LedgerState.succeeded; updated_at = 90 } ∷ []
unfolding reconcile_requested_payouts reconcile_rows reconcile_row reconcile_state record_verdict
    update_row is_row_in is_due terminal_payments_state rows_where update_where same_state
reconciles = refl

sending_needs_an_answer_example :
    Followed (Answered create_payout) planned_row (send_due_payouts held_label create_payout due).1
sending_needs_an_answer_example =
    sending_needs_an_answer held_label create_payout due planned_row (inl refl)

reconciling_needs_a_record_example :
    Followed (Checked check) requested_row (reconcile_requested_payouts check 80 requested).1
reconciling_needs_a_record_example =
    reconciling_needs_a_record check 80 requested requested_row (inl refl)

pass_asks_in_order_example :
    (rest : List LedgerRow) × (map
          (λ x. x.0)
          (send_due_payouts held_label create_payout due).0.outcomes
        ++ rest
      ≡ rows_where (λ r. same_state r.state LedgerState.planned) due.payout_ledger)
    × ((rest ≡ [])
        ⊎ (((send_due_payouts held_label create_payout due).0.aborted ≡ payments_unreachable)
            ⊎ ((send_due_payouts held_label create_payout due).0.aborted ≡ payouts_off)))
pass_asks_in_order_example = pass_asks_in_order held_label create_payout due
