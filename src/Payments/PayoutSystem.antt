-- ===== src/Payments/PayoutSystem.antt =====
-- The payouts side of the service as its requests interleave: each transaction that returned is one
-- step. Between the two transactions of `create_payout` anything may come, and the second one may never.
pub mod Books
pub mod Tests
use devops_g_9_tillflow.Base.{ℕ, String, ◌≡◌, Option}
use devops_g_9_tillflow.Payments.States.{DisbursementState}
use devops_g_9_tillflow.Payments.Tables.{
  DisbursementEvent, DisbursementStatus, PublicBody, Db, AnomalyKind, Severity,
}
use devops_g_9_tillflow.Payments.Tx.{ok}
use devops_g_9_tillflow.Payments.Store.{anomaly}
use devops_g_9_tillflow.Payments.Service.{Settings, Applied, DisburseAnswer}
use devops_g_9_tillflow.Payments.Collect.Create.{begun}
use devops_g_9_tillflow.Payments.Payout.Parse.{PayoutRequest}
use devops_g_9_tillflow.Payments.Payout.Create.{begin_tx, finish_create}
use devops_g_9_tillflow.Payments.Payout.Results.{apply_result}
use devops_g_9_tillflow.Payments.Payout.Reconcile.{apply_status, inconclusive, sweep_tx}

module _ (cfg : Settings) where
  pub data Step : Db → Db → Type 0 where
    begin :
        {d e : Db} (now : ℕ) (id originator payout_key key fp : String) (req : PayoutRequest)
        → begin_tx cfg now id originator payout_key key fp req d ≡ ok begun e
        → Step d e
    finish :
        {d e : Db} (now : ℕ) (id tenant key : String) (answer : DisburseAnswer) (body : PublicBody)
        → finish_create now id tenant key answer d ≡ ok body e
        → Step d e
    result :
        {d e : Db} (now : ℕ) (event : DisbursementEvent) (outcome : Applied)
        → apply_result now event d ≡ ok outcome e
        → Step d e
    reconcile :
        {d e : Db} (now : ℕ) (id : String) (status : DisbursementStatus)
        (answer : PublicBody × Applied)
        → apply_status now id status d ≡ ok answer e
        → Step d e
    give_up :
        {d e : Db} (now : ℕ) (id : String) (state : DisbursementState)
        → inconclusive cfg now id d ≡ ok state e
        → Step d e
    sweep : {d e : Db} (now : ℕ) (counts : ℕ × ℕ) → sweep_tx cfg now d ≡ ok counts e → Step d e
    note :
        {d e : Db} (now : ℕ) (kind : AnomalyKind) (severity : Severity) (id ref : Option String)
        → anomaly kind severity id ref now d ≡ ok tt e
        → Step d e

  pub data Reach (s : Db) : Db → Type 0 where
    here : Reach s s
    next : {d e : Db} → Reach s d → Step d e → Reach s e
