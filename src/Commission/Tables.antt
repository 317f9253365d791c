-- ===== src/Commission/Tables.antt =====
-- SCHEMA of services/commission/ledger/store.py: the rows, and the constraints as tests against a table.
use devops_g_9_tillflow.Base.{
  ℕ, String, Bool, true, false, not, ◌&&◌, ◌||◌, ltb, ◌==◌, Option, List, [], ◌∷◌,
}
use devops_g_9_tillflow.Base.Table.{any_where}

pub data LedgerState : Type 0 where
  planned requested succeeded failed : LedgerState

unfoldable pub is_failed : LedgerState → Bool
is_failed LedgerState.failed = true
is_failed _ = false

unfoldable pub same_state : LedgerState → LedgerState → Bool
same_state LedgerState.planned LedgerState.planned = true
same_state LedgerState.requested LedgerState.requested = true
same_state LedgerState.succeeded LedgerState.succeeded = true
same_state LedgerState.failed LedgerState.failed = true
same_state _ _ = false

pub record LedgerRow : Type 0 where
  pub id : String
  pub tenant_id : String
  pub attendant_id : String
  pub business_date : String
  pub currency : String
  pub amount_minor : ℕ
  pub msisdn : String
  pub state : LedgerState
  pub idempotency_key : String
  pub disbursement_id : Option String
  pub failure_reason : Option String
  pub reconcile_attempts : ℕ
  pub next_reconcile_at : Option ℕ
  pub created_at : ℕ
  pub updated_at : ℕ

pub record PayoutItem : Type 0 where
  pub id : String
  pub sale_id : String
  pub tenant_id : String
  pub attendant_id : String
  pub business_date : String
  pub sale_total_minor : ℕ
  pub commission_rate_bps : ℕ
  pub commission_minor : ℕ
  pub paid_at : String
  pub payout_ledger_id : Option String
  pub created_at : ℕ

pub record CarryRow : Type 0 where
  pub tenant_id : String
  pub attendant_id : String
  pub amount_minor : ℕ
  pub updated_at : ℕ

pub record CloseRun : Type 0 where
  pub tenant_id : String
  pub business_date : String
  pub sales_seen : ℕ
  pub attendants_closed : ℕ
  pub ran_at : ℕ

pub data AnomalyKind : Type 0 where
  payout_rejected payouts_paused unexpected_payout_response payout_failed : AnomalyKind

pub data Severity : Type 0 where
  high critical : Severity

pub record Anomaly : Type 0 where
  pub kind : AnomalyKind
  pub severity : Severity
  pub tenant_id : String
  pub attendant_id : String
  pub payout_ledger_id : String
  pub created_at : ℕ

pub record Db : Type 0 where
  pub payout_ledger : List LedgerRow
  pub payout_items : List PayoutItem
  pub carry_forward : List CarryRow
  pub close_runs : List CloseRun
  pub anomalies : List Anomaly

abbrev pub empty : Db
empty = record {
  payout_ledger = [];
  payout_items = [];
  carry_forward = [];
  close_runs = [];
  anomalies = [];
}

-- WHERE tenant_id = ? AND attendant_id = ? AND business_date = ? AND state <> 'FAILED'
unfoldable pub is_live_on : (tenant_id attendant_id business_date : String) → LedgerRow → Bool
is_live_on tenant_id attendant_id business_date r =
    r.tenant_id == tenant_id
    && r.attendant_id == attendant_id
    && r.business_date == business_date
    && not (is_failed r.state)

-- The primary key, and payout_ledger_one_live_per_day.
unfoldable pub ledger_clash : LedgerRow → LedgerRow → Bool
unfolding is_live_on
ledger_clash p q =
    p.id == q.id
    || (not (is_failed p.state) && is_live_on p.tenant_id p.attendant_id p.business_date q)

-- CHECK (amount_minor > 0), and no clash between any two rows.
unfoldable pub ledger_ok : List LedgerRow → Bool
ledger_ok [] = true
ledger_ok (p ∷ ps) = ltb 0 p.amount_minor && not (any_where (ledger_clash p) ps) && ledger_ok ps

-- The primary key and sale_id.
unfoldable pub item_clash : PayoutItem → PayoutItem → Bool
item_clash p q = p.id == q.id || p.sale_id == q.sale_id

unfoldable pub items_ok : List PayoutItem → Bool
items_ok [] = true
items_ok (p ∷ ps) = not (any_where (item_clash p) ps) && items_ok ps

-- WHERE tenant_id = ? AND attendant_id = ?
unfoldable pub is_carry_of : (tenant_id attendant_id : String) → CarryRow → Bool
is_carry_of tenant_id attendant_id r = r.tenant_id == tenant_id && r.attendant_id == attendant_id
