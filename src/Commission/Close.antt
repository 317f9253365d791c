-- ===== src/Commission/Close.antt =====
-- services/commission/ledger/close.py. Each transaction is a function on the tables; one that a
-- constraint refuses is `none`, is rolled back, and its exception ends the close.
pub mod Day
pub mod Valid
pub mod Replay
pub mod Adds
pub mod Twice
pub mod Effect
pub mod Tests
pub mod Returns
pub mod Ready
use devops_g_9_tillflow.Base.{
  ℕ, ◌+◌, String, Bool, true, false, ◌&&◌, ◌==◌, ltb, is_none, Option, none, some, List, [], ◌∷◌,
  if◌then◌else◌,
}
use devops_g_9_tillflow.Base.Table.{find?, any_where, rows_where, update_where, sum_of}
use devops_g_9_tillflow.Base.Integers.{ℤ, pos}
use devops_g_9_tillflow.Commission.Calc.{ClosePlan, sale_commission_minor, fold_carry_forward}
use devops_g_9_tillflow.Commission.Tables.{
  LedgerState, LedgerRow, PayoutItem, CarryRow, CloseRun, Db, is_live_on, ledger_ok, item_clash,
  is_carry_of,
}

-- A sale as POS reports it.
pub record PaidSale : Type 0 where
  pub sale_id : String
  pub attendant_id : String
  pub attendant_msisdn : String
  pub commission_rate_bps : ℤ
  pub total_minor : ℤ
  pub currency : String
  pub paid_at : String

-- A sale with the uuid and the time of its transaction.
pub record Arrival : Type 0 where
  pub sale : PaidSale
  pub item_id : String
  pub now : ℕ

-- INSERT INTO payout_items … ON CONFLICT DO NOTHING
unfoldable pub insert_item : PayoutItem → Db → Db
insert_item p d =
    if any_where (item_clash p) d.payout_items
    then d
    else record d { payout_items = p ∷ d.payout_items }

unfoldable pub item_of : (tenant_id business_date : String) → Arrival → ℕ → ℕ → ℕ → PayoutItem
item_of tenant_id business_date a total_minor commission_rate_bps commission_minor = record {
  id = a.item_id;
  sale_id = a.sale.sale_id;
  tenant_id = tenant_id;
  attendant_id = a.sale.attendant_id;
  business_date = business_date;
  sale_total_minor = total_minor;
  commission_rate_bps = commission_rate_bps;
  commission_minor = commission_minor;
  paid_at = a.sale.paid_at;
  payout_ledger_id = none;
  created_at = a.now;
}

-- `none` is the `ValueError` of a negative total or rate.
unfoldable pub record_amounts :
    (tenant_id business_date : String) → Arrival → ℤ → ℤ → Db → Option Db
record_amounts tenant_id business_date a (pos total) (pos rate) d =
    elim (sale_commission_minor (pos total) (pos rate)) [
      | none ↦ none
      | some commission ↦
          some (insert_item (item_of tenant_id business_date a total rate commission) d)
    ]
record_amounts tenant_id business_date a _ _ d = none

unfoldable pub record_sale : (tenant_id business_date : String) → Arrival → Db → Option Db
record_sale tenant_id business_date a =
    record_amounts tenant_id business_date a a.sale.total_minor a.sale.commission_rate_bps

-- `touched[attendant_id] = msisdn`, on a dict that keeps the order of first insertion.
unfoldable pub touch :
    (attendant_id msisdn : String) → List (String × String) → List (String × String)
touch a m [] = (a, m) ∷ []
touch a m ((b, n) ∷ r) = if b == a then (b, m) ∷ r else (b, n) ∷ touch a m r

-- The transaction of `_close_attendant`
unfoldable pub insert_ledger : LedgerRow → Db → Option Db
insert_ledger p d =
    if ledger_ok (p ∷ d.payout_ledger)
    then some (record d { payout_ledger = p ∷ d.payout_ledger })
    else none

abbrev pub carry_of : Option CarryRow → ℕ
carry_of none = 0
carry_of (some r) = r.amount_minor

-- INSERT INTO carry_forward … ON CONFLICT (tenant_id, attendant_id) DO UPDATE
unfoldable pub set_carry :
    (tenant_id attendant_id : String) (amount_minor now : ℕ) → List CarryRow → List CarryRow
set_carry tenant_id attendant_id amount_minor now rows =
    if any_where (is_carry_of tenant_id attendant_id) rows
    then update_where (is_carry_of tenant_id attendant_id)
        (λ r. record r { amount_minor = amount_minor; updated_at = now }) rows
    else record {
      tenant_id = tenant_id;
      attendant_id = attendant_id;
      amount_minor = amount_minor;
      updated_at = now;
    }
      ∷ rows

unfoldable pub is_of_day : (tenant_id attendant_id business_date : String) → PayoutItem → Bool
is_of_day tenant_id attendant_id business_date i =
    i.tenant_id == tenant_id && i.attendant_id == attendant_id && i.business_date == business_date

-- WHERE tenant_id = ? AND attendant_id = ? AND payout_ledger_id IS NULL
unfoldable pub is_unlinked : (tenant_id attendant_id : String) → PayoutItem → Bool
is_unlinked tenant_id attendant_id i =
    i.tenant_id == tenant_id && i.attendant_id == attendant_id && is_none i.payout_ledger_id

-- SELECT COALESCE(SUM(commission_minor), 0) … of the attendant's day
unfoldable pub today_total : (tenant_id attendant_id business_date : String) → Db → ℕ
today_total tenant_id attendant_id business_date d =
    sum_of (λ i. i.commission_minor)
      (rows_where (is_of_day tenant_id attendant_id business_date) d.payout_items)

unfoldable pub carry_before : (tenant_id attendant_id : String) → Db → ℕ
carry_before tenant_id attendant_id d =
    carry_of (find? (is_carry_of tenant_id attendant_id) d.carry_forward)

-- `idempotency_key_for` of common.py cuts a SHA-256 of its arguments; the hash is a parameter.
module _ (idempotency_key_for : (tenant_id attendant_id payout_period : String) → String)
    (tenant_id : String) where
  unfoldable pub planned_row :
      (attendant_id business_date msisdn ledger_id : String) (amount_minor now : ℕ) → LedgerRow
  planned_row attendant_id business_date msisdn ledger_id amount_minor now = record {
    id = ledger_id;
    tenant_id = tenant_id;
    attendant_id = attendant_id;
    business_date = business_date;
    currency = "KES";
    amount_minor = amount_minor;
    msisdn = msisdn;
    state = LedgerState.planned;
    idempotency_key = idempotency_key_for tenant_id attendant_id business_date;
    disbursement_id = none;
    failure_reason = none;
    reconcile_attempts = 0;
    next_reconcile_at = none;
    created_at = now;
    updated_at = now;
  }

  -- From the plan on: the new carry forward, and a row for what is payable, to which every unlinked item
  -- of the attendant is linked.
  unfoldable pub follow_plan :
      (attendant_id business_date msisdn ledger_id : String) (now : ℕ)
      → ClosePlan
      → Db
      → Option (Bool × Db)
  follow_plan attendant_id business_date msisdn ledger_id now plan d =
      let carried = record d {
        carry_forward =
            set_carry tenant_id attendant_id plan.new_carry_forward_minor now d.carry_forward;
      } in
      if ltb 0 plan.payable_minor
      then elim (insert_ledger
          (planned_row attendant_id business_date msisdn ledger_id plan.payable_minor now)
          carried) [
            | none ↦ none
            | some e ↦ some (
              true,
              record e {
                payout_items =
                    update_where (is_unlinked tenant_id attendant_id)
                      (λ i. record i { payout_ledger_id = some ledger_id }) e.payout_items;
              },
            )
          ]
      else some (false, carried)

  unfoldable pub close_attendant :
      (payout_min_minor : ℕ) (attendant_id business_date msisdn ledger_id : String) (now : ℕ)
      → Db
      → Option (Bool × Db)
  close_attendant payout_min_minor attendant_id business_date msisdn ledger_id now d =
      if any_where (is_live_on tenant_id attendant_id business_date) d.payout_ledger
      then some (false, d)
      else elim (fold_carry_forward (pos (today_total tenant_id attendant_id business_date d))
          (pos (carry_before tenant_id attendant_id d)) payout_min_minor) [
            | none ↦ none
            | some plan ↦ follow_plan attendant_id business_date msisdn ledger_id now plan d
          ]
