-- ===== src/Commission/System/Tests.antt =====
-- A sale is recorded, its day is closed with a payout, and Payments pays it.
use devops_g_9_tillflow.Base.{
  ◌%◌, ◌≤◌, ◌<◌, String, ◌≡◌, refl, ◌⊎◌, inl, true, false, none, some, [], ◌∷◌,
}
use devops_g_9_tillflow.Base.Table.{In, any_where, find?, rows_where, update_where, sum_of}
use devops_g_9_tillflow.Base.Integers.{pos}
use devops_g_9_tillflow.Commission.Calc.{fold_carry_forward, plan_of, sale_commission_minor}
use devops_g_9_tillflow.Commission.Tables.{
  LedgerState, LedgerRow, PayoutItem, Db, empty, same_state, is_failed, is_live_on, is_carry_of,
  ledger_ok,
}
use devops_g_9_tillflow.Commission.Common.{Reply, classify_payout_response, terminal_payments_state}
use devops_g_9_tillflow.Commission.Close.{
  Arrival, record_sale, record_amounts, insert_item, item_of, close_attendant, follow_plan,
  set_carry, today_total, carry_before, is_of_day, is_unlinked, insert_ledger, planned_row,
}
use devops_g_9_tillflow.Commission.Disburse.{
  handle_outcome, record_accepted, update_row, is_row_in, is_failure,
}
use devops_g_9_tillflow.Commission.Disburse.Moves.{rank}
use devops_g_9_tillflow.Commission.System.{sale, close, answer, Reach, here, next}
use devops_g_9_tillflow.Commission.Close.Adds.{account}
use devops_g_9_tillflow.Commission.System.Daily.{Daily, is_late, earned, each_day_counts_once}
use devops_g_9_tillflow.Commission.System.Promises.{
  terminal_payouts_stay, one_live_payout_per_day, one_item_per_sale, payouts_are_whole,
  payouts_move_forward, linked_items_stay,
}

abbrev key_for : String → String → String → String
key_for t a p = p

abbrev held_label : String → String
held_label e = e

abbrev one_sale : Arrival
one_sale = record {
  sale = record {
    sale_id = "sale-1";
    attendant_id = "att-1";
    attendant_msisdn = "254700000001";
    commission_rate_bps = pos 1000;
    total_minor = pos 12345;
    currency = "KES";
    paid_at = "2026-09-21T08:00:00+00:00";
  };
  item_id = "itm-1";
  now = 10;
}

abbrev item : PayoutItem
item = record {
  id = "itm-1";
  sale_id = "sale-1";
  tenant_id = "till";
  attendant_id = "att-1";
  business_date = "2026-09-21";
  sale_total_minor = 12345;
  commission_rate_bps = 1000;
  commission_minor = 1234;
  paid_at = "2026-09-21T08:00:00+00:00";
  payout_ledger_id = none;
  created_at = 10;
}

abbrev recorded : Db
recorded = record empty { payout_items = item ∷ [] }

abbrev payout : LedgerRow
payout = record {
  id = "pol-1";
  tenant_id = "till";
  attendant_id = "att-1";
  business_date = "2026-09-21";
  currency = "KES";
  amount_minor = 1200;
  msisdn = "254700000001";
  state = LedgerState.planned;
  idempotency_key = "2026-09-21";
  disbursement_id = none;
  failure_reason = none;
  reconcile_attempts = 0;
  next_reconcile_at = none;
  created_at = 20;
  updated_at = 20;
}

abbrev linked : PayoutItem
linked = record item { payout_ledger_id = some "pol-1" }

abbrev closed : Db
closed = record {
  payout_ledger = payout ∷ [];
  payout_items = linked ∷ [];
  carry_forward =
      record { tenant_id = "till"; attendant_id = "att-1"; amount_minor = 34; updated_at = 20 }
      ∷ [];
  close_runs = [];
  anomalies = [];
}

abbrev paid_reply : Reply
paid_reply = record {
  error = "";
  disbursement_id = some "dis-1";
  state = "SUCCEEDED";
  failure_reason = none;
}

abbrev paid_row : LedgerRow
paid_row = record payout {
  state = LedgerState.succeeded;
  disbursement_id = some "dis-1";
  updated_at = 40;
}

abbrev paid : Db
paid = record closed { payout_ledger = paid_row ∷ [] }

records : record_sale "till" "2026-09-21" one_sale empty ≡ some recorded
unfolding record_sale record_amounts sale_commission_minor insert_item item_of any_where
records = refl

closes :
    close_attendant key_for "till" 1000 "att-1" "2026-09-21" "254700000001" "pol-1" 20 recorded
    ≡ some (true, closed)
unfolding close_attendant follow_plan set_carry today_total carry_before fold_carry_forward plan_of
    any_where find? rows_where sum_of is_of_day is_carry_of is_live_on insert_ledger ledger_ok
    planned_row update_where is_unlinked
closes = refl

pays :
    paid
    ≡ handle_outcome held_label 40 payout paid_reply
        (classify_payout_response 201 paid_reply)
        closed
unfolding handle_outcome record_accepted update_row is_row_in is_failure classify_payout_response
    terminal_payments_state update_where same_state
pays = refl

to_recorded : Reach key_for 1000 held_label empty recorded
to_recorded = next here (sale "till" "2026-09-21" one_sale records)

from_recorded : Reach key_for 1000 held_label recorded closed
from_recorded = next here (close "till" "att-1" "2026-09-21" "254700000001" "pol-1" 20 true closes)

to_closed : Reach key_for 1000 held_label empty closed
to_closed =
    next to_recorded (close "till" "att-1" "2026-09-21" "254700000001" "pol-1" 20 true closes)

to_paid : Reach key_for 1000 held_label closed paid
to_paid = next here (answer 40 payout 201 paid_reply pays)

live : is_failed payout.state ≡ false
unfolding is_failed
live = refl

one_live_payout_per_day_example : payout ≡ payout
one_live_payout_per_day_example =
    one_live_payout_per_day key_for 1000 held_label closed payout payout to_closed (inl refl)
      (inl refl) refl refl refl live live

one_item_per_sale_example :
    (linked ≡ linked)
    × (linked.id ≡ item.id)
    × (linked.commission_minor ≡ item.commission_minor)
    × ((item.payout_ledger_id ≡ none) ⊎ (linked.payout_ledger_id ≡ item.payout_ledger_id))
one_item_per_sale_example =
    one_item_per_sale key_for 1000 held_label recorded closed item linked linked to_recorded
      from_recorded (inl refl) (inl refl) (inl refl) refl refl

payouts_are_whole_example :
    (payout.amount_minor % 100 ≡ 0)
    × (1000 ≤ payout.amount_minor)
    × (payout.idempotency_key ≡ key_for payout.tenant_id payout.attendant_id payout.business_date)
payouts_are_whole_example =
    payouts_are_whole key_for 1000 held_label closed payout to_closed (inl refl)

payouts_move_forward_example :
    (q : LedgerRow) × In q paid.payout_ledger
    × (q.id ≡ payout.id)
    × (q.amount_minor ≡ payout.amount_minor)
    × (q.idempotency_key ≡ payout.idempotency_key)
    × ((q.state ≡ payout.state) ⊎ (rank payout.state < rank q.state))
payouts_move_forward_example =
    payouts_move_forward key_for 1000 held_label closed paid payout to_closed to_paid (inl refl)

linked_items_stay_example :
    (j : PayoutItem) × In j paid.payout_items
    × (j.sale_id ≡ linked.sale_id)
    × (j.commission_minor ≡ linked.commission_minor)
    × (j.payout_ledger_id ≡ some "pol-1")
linked_items_stay_example =
    linked_items_stay key_for 1000 held_label closed paid linked "pol-1" to_closed to_paid
      (inl refl) refl

terminal_payouts_stay_example : paid_row.state ≡ paid_row.state
terminal_payouts_stay_example =
    terminal_payouts_stay key_for 1000 held_label paid paid paid_row paid_row
      (next to_closed (answer 40 payout 201 paid_reply pays)) here (inl refl) (inl refl) refl
      (inl refl)

no_sale_after :
    is_late key_for 1000 held_label "till" "att-1" "till" "2026-09-21" one_sale [] ≡ false
no_sale_after = refl

no_row_yet : any_where (is_live_on "till" "att-1" "2026-09-21") recorded.payout_ledger ≡ false
unfolding any_where
no_row_yet = refl

one_day : Daily key_for 1000 held_label "till" "att-1" ("2026-09-21" ∷ []) closed
one_day =
    Daily.close (Daily.sale Daily.start "till" "2026-09-21" one_sale no_sale_after records)
      "2026-09-21" "254700000001" "pol-1" 20 true refl no_row_yet closes

each_day_counts_once_example :
    account "till" "att-1" closed
    ≡ earned key_for 1000 held_label "till" "att-1" ("2026-09-21" ∷ []) closed
each_day_counts_once_example = each_day_counts_once key_for 1000 held_label "till" "att-1" one_day
