-- ===== src/Commission/Close/Tests.antt =====
-- One attendant with one sale of 60 shillings at ten percent, and a minimum of 10 shillings.
use devops_g_9_tillflow.Base.{
  ◌+◌, ◌*◌, ◌<◌, String, ◌≡◌, refl, ◌⊎◌, Bool, true, false, none, some, [], ◌∷◌, arith,
}
use devops_g_9_tillflow.Base.Table.{any_where, find?, rows_where, update_where, sum_of}
use devops_g_9_tillflow.Base.Integers.{pos}
use devops_g_9_tillflow.Commission.Calc.{fold_carry_forward, plan_of, sale_commission_minor}
use devops_g_9_tillflow.Commission.Tables.{
  LedgerState, PayoutItem, Db, empty, is_live_on, ledger_ok, items_ok, is_carry_of,
}
use devops_g_9_tillflow.Commission.Close.{
  Arrival, close_attendant, today_total, carry_before, record_sale, record_amounts, item_of,
  insert_item, follow_plan, insert_ledger, planned_row, set_carry, is_of_day, is_unlinked,
}
use devops_g_9_tillflow.Commission.Close.Day.{
  Feed, CloseReport, finished, Draws, close_business_day,
}
use devops_g_9_tillflow.Commission.Close.Valid.{Valid, IsFresh, close_attendant_commits}
use devops_g_9_tillflow.Commission.Close.Adds.{account, close_adds_the_day}
use devops_g_9_tillflow.Commission.Close.Twice.{reclosed_day_counts_twice}
use devops_g_9_tillflow.Commission.Close.Returns.{AllPlain, close_business_day_returns}

abbrev key_for : String → String → String → String
key_for t a p = p

abbrev one_sale : Arrival
one_sale = record {
  sale = record {
    sale_id = "sale-1";
    attendant_id = "att-1";
    attendant_msisdn = "254700000001";
    commission_rate_bps = pos 1000;
    total_minor = pos 6000;
    currency = "KES";
    paid_at = "2026-09-21T08:00:00+00:00";
  };
  item_id = "itm-1";
  now = 10;
}

abbrev day_item : PayoutItem
day_item = record {
  id = "itm-1";
  sale_id = "sale-1";
  tenant_id = "till";
  attendant_id = "att-1";
  business_date = "2026-09-21";
  sale_total_minor = 6000;
  commission_rate_bps = 1000;
  commission_minor = 600;
  paid_at = "2026-09-21T08:00:00+00:00";
  payout_ledger_id = none;
  created_at = 10;
}

abbrev with_item : Db
with_item = record empty { payout_items = day_item ∷ [] }

records : record_sale "till" "2026-09-21" one_sale empty ≡ some with_item
unfolding record_sale record_amounts sale_commission_minor insert_item item_of any_where
records = refl

abbrev carried : Db
carried = record with_item {
  carry_forward =
      record { tenant_id = "till"; attendant_id = "att-1"; amount_minor = 600; updated_at = 20 }
      ∷ [];
}

first_close :
    close_attendant key_for "till" 1000 "att-1" "2026-09-21" "254700000001" "pol-1" 20 with_item
    ≡ some (false, carried)
unfolding close_attendant follow_plan set_carry today_total carry_before fold_carry_forward plan_of
    any_where find? rows_where sum_of is_of_day is_carry_of is_live_on
first_close = refl

-- The second close plans 12 shillings for a commission of 6.
abbrev overpaid : Db
overpaid = record {
  payout_ledger =
      record {
        id = "pol-2";
        tenant_id = "till";
        attendant_id = "att-1";
        business_date = "2026-09-21";
        currency = "KES";
        amount_minor = 1200;
        msisdn = "254700000001";
        state = LedgerState.planned;
        idempotency_key = "2026-09-21";
        disbursement_id = none;
        failure_reason = none;
        reconcile_attempts = 0;
        next_reconcile_at = none;
        created_at = 30;
        updated_at = 30;
      }
      ∷ [];
  payout_items = record day_item { payout_ledger_id = some "pol-2" } ∷ [];
  carry_forward =
      record { tenant_id = "till"; attendant_id = "att-1"; amount_minor = 0; updated_at = 30 } ∷ [];
  close_runs = [];
  anomalies = [];
}

second_close :
    close_attendant key_for "till" 1000 "att-1" "2026-09-21" "254700000001" "pol-2" 30 carried
    ≡ some (true, overpaid)
unfolding close_attendant follow_plan set_carry today_total carry_before fold_carry_forward plan_of
    any_where find? rows_where sum_of is_of_day is_carry_of is_live_on insert_ledger ledger_ok
    planned_row update_where is_unlinked
second_close = refl

no_row_yet : any_where (is_live_on "till" "att-1" "2026-09-21") with_item.payout_ledger ≡ false
unfolding any_where
no_row_yet = refl

below :
    today_total "till" "att-1" "2026-09-21" with_item + carry_before "till" "att-1" with_item < 1000
unfolding today_total carry_before rows_where sum_of is_of_day find?
below = omega arith

reclosed_day_counts_twice_example :
    account "till" "att-1" overpaid
    ≡ account "till" "att-1" with_item + 2 * today_total "till" "att-1" "2026-09-21" with_item
reclosed_day_counts_twice_example =
    reclosed_day_counts_twice key_for "till" "att-1" "2026-09-21" "254700000001" 1000 "pol-1"
      "pol-2" 20 30 with_item no_row_yet below first_close second_close

close_adds_the_day_example :
    ((any_where (is_live_on "till" "att-1" "2026-09-21") with_item.payout_ledger ≡ true)
      × (◌≡◌ {A = Bool} false false)
      × (carried ≡ with_item))
    ⊎ ((any_where (is_live_on "till" "att-1" "2026-09-21") with_item.payout_ledger ≡ false)
        × (account "till" "att-1" carried
            ≡ account "till" "att-1" with_item + today_total "till" "att-1" "2026-09-21" with_item))
close_adds_the_day_example =
    close_adds_the_day key_for "till" "att-1" "2026-09-21" "254700000001" "pol-1" 20 1000 with_item
      first_close

with_item-Valid : Valid with_item
unfolding ledger_ok items_ok any_where
with_item-Valid = record { ledger = refl; items = refl }

with_item-IsFresh : (x : String) → IsFresh x with_item
unfolding any_where
with_item-IsFresh x = refl

close_attendant_commits_example :
    (closed : Bool) × (e : Db) × (close_attendant key_for "till" 1000 "att-1" "2026-09-21"
        "254700000001" "pol-1" 20 with_item
      ≡ some (closed, e))
    × Valid e
close_attendant_commits_example =
    close_attendant_commits key_for "till" "att-1" "2026-09-21" "254700000001" "pol-1" 20 1000
      with_item with_item-Valid (with_item-IsFresh "pol-1")

abbrev feed : Feed
feed = record { arrivals = one_sale ∷ []; pos_error = false }

abbrev draws : Draws
draws = record { ledger_id = λ a. a; now = λ a. 20; ran_at = 25 }

plain : AllPlain feed.arrivals
plain = (record { total = 6000; rate = 1000; total_minor = refl; commission_rate_bps = refl }, tt)

empty-Valid : Valid empty
unfolding ledger_ok items_ok
empty-Valid = record { ledger = refl; items = refl }

empty-IsFresh : (x : String) → IsFresh x empty
unfolding any_where
empty-IsFresh x = refl

close_business_day_returns_example :
    (r : CloseReport) × (e : Db) × (close_business_day key_for 1000 "till" "2026-09-21" draws feed
        empty
      ≡ finished r e)
    × (r.sales_seen ≡ 1)
    × (r.aborted ≡ false)
    × Valid e
close_business_day_returns_example =
    close_business_day_returns key_for 1000 "till" "2026-09-21" draws (λ x y e. e) feed empty
      empty-Valid empty-IsFresh plain
