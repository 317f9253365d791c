-- ===== src/Commission/System.antt =====
-- The commission service as its transactions interleave: closes of any days, passes that send and
-- reconcile, several at once, each over rows that it read earlier.
pub mod Kept
pub mod Safety
pub mod Account
pub mod Daily
pub mod Promises
pub mod Tests
use devops_g_9_tillflow.Base.{ℕ, String, ◌≡◌, Bool, true, false, Option, some}
use devops_g_9_tillflow.Commission.Tables.{LedgerRow, Db}
use devops_g_9_tillflow.Commission.Common.{Reply, classify_payout_response, terminal_payments_state}
use devops_g_9_tillflow.Commission.Close.{Arrival, record_sale, close_attendant}
use devops_g_9_tillflow.Commission.Close.Day.{log_run}
use devops_g_9_tillflow.Commission.Disburse.{handle_outcome, bump_backoff, reconcile_state}

module _ (key_for : (tenant_id attendant_id payout_period : String) → String) (payout_min_minor : ℕ)
    (held_label : String → String) where
  pub data Step : Db → Db → Type 0 where
    sale :
        {d e : Db} (tenant_id business_date : String) (a : Arrival)
        → record_sale tenant_id business_date a d ≡ some e
        → Step d e
    close :
        {d e : Db} (tenant_id attendant_id business_date msisdn ledger_id : String) (now : ℕ)
        (closed : Bool)
        → close_attendant key_for tenant_id payout_min_minor attendant_id business_date msisdn
            ledger_id now d
          ≡ some (closed, e)
        → Step d e
    log :
        {d e : Db} (tenant_id business_date : String) (sales_seen attendants_closed ran_at : ℕ)
        → e ≡ log_run tenant_id business_date sales_seen attendants_closed ran_at d
        → Step d e
    answer :
        {d e : Db} (now : ℕ) (row : LedgerRow) (status : ℕ) (r : Reply)
        → e ≡ handle_outcome held_label now row r (classify_payout_response status r) d
        → Step d e
    check :
        {d e : Db} (now : ℕ) (row : LedgerRow) (r : Reply)
        → e ≡ (reconcile_state now row r.failure_reason (terminal_payments_state r.state) d).1
        → Step d e
    no_answer : {d e : Db} (now : ℕ) (row : LedgerRow) → e ≡ bump_backoff now row d → Step d e

  pub data Reach (s : Db) : Db → Type 0 where
    here : Reach s s
    next : {d e : Db} → Reach s d → Step d e → Reach s e
