-- ===== src/Payments/System.antt =====
-- The collections side of the service as its requests interleave: each transaction is one step, and
-- between the two transactions of `create_payment` a handler waits for the provider, while other
-- handlers and the sweep go on. A handler may also die there.
pub mod Safety
pub mod Books
pub mod Progress
pub mod Run
pub mod Tests
use devops_g_9_tillflow.Base.{ℕ, String, ◌≡◌, Bool, not, Option, none, some, List, [], ◌∷◌, ◌==◌}
use devops_g_9_tillflow.Base.Table.{In, rows_where}
use devops_g_9_tillflow.Payments.States.{PaymentState}
use devops_g_9_tillflow.Payments.Tables.{
  PaymentStatus, CallbackEvent, PublicBody, Db, empty, AnomalyKind, Severity,
}
use devops_g_9_tillflow.Payments.Tx.{ok}
use devops_g_9_tillflow.Payments.Store.{anomaly}
use devops_g_9_tillflow.Payments.Service.{Settings, Applied, ChargeAnswer}
use devops_g_9_tillflow.Payments.Collect.Parse.{PaymentRequest}
use devops_g_9_tillflow.Payments.Collect.Callback.{Confirmation, apply_callback}
use devops_g_9_tillflow.Payments.Collect.Create.{begun, begin_tx, finish_create}
use devops_g_9_tillflow.Payments.Collect.Reconcile.{apply_status, inconclusive, sweep_tx}

-- A handler between its two transactions; it has called the provider, or is about to.
pub record Attempt : Type 0 where
  pub payment_id : String
  pub tenant_id : String
  pub idem_key : String

-- The tables, the waiting handlers, and every attempt that was ever opened, each with one call of
-- `initiate_charge`.
pub record System : Type 0 where
  pub db : Db
  pub waiting : List Attempt
  pub charges : List Attempt

abbrev pub start : System
start = record { db = empty; waiting = []; charges = [] }

-- The handlers that still wait when the one of `payment_id` has ended.
unfoldable pub others : String → List Attempt → List Attempt
others payment_id = rows_where (λ a. not (a.payment_id == payment_id))

abbrev pub attempt_of : String → String → PaymentRequest → Attempt
attempt_of payment_id idem_key req = record {
  payment_id = payment_id;
  tenant_id = req.tenant_id;
  idem_key = idem_key;
}

module _ (cfg : Settings) where
  pub data Step (s u : System) : Type 0 where
    -- create_payment, up to the call of the provider
    begin :
        (now : ℕ) (payment_id idem_key fingerprint : String) (req : PaymentRequest)
        → begin_tx cfg now payment_id idem_key fingerprint req s.db ≡ ok begun u.db
        → u.waiting ≡ attempt_of payment_id idem_key req ∷ s.waiting
        → u.charges ≡ attempt_of payment_id idem_key req ∷ s.charges
        → Step s u
    -- … and from its answer on
    finish :
        (now : ℕ) (a : Attempt) (answer : ChargeAnswer) (body : PublicBody)
        → In a s.waiting
        → finish_create now a.payment_id a.tenant_id a.idem_key answer s.db ≡ ok body u.db
        → u.waiting ≡ others a.payment_id s.waiting
        → u.charges ≡ s.charges
        → Step s u
    -- the second transaction is rolled back, or the process dies before it
    die :
        (a : Attempt)
        → u.db ≡ s.db
        → u.waiting ≡ others a.payment_id s.waiting
        → u.charges ≡ s.charges
        → Step s u
    callback :
        (now : ℕ) (event : CallbackEvent) (confirmation : Option Confirmation) (result : Applied)
        → apply_callback now event confirmation s.db ≡ ok result u.db
        → u.waiting ≡ s.waiting
        → u.charges ≡ s.charges
        → Step s u
    reconcile :
        (now : ℕ) (payment_id : String) (status : PaymentStatus) (result : PublicBody × Applied)
        → apply_status now payment_id status s.db ≡ ok result u.db
        → u.waiting ≡ s.waiting
        → u.charges ≡ s.charges
        → Step s u
    give_up :
        (now : ℕ) (payment_id : String) (state : PaymentState)
        → inconclusive cfg now payment_id s.db ≡ ok state u.db
        → u.waiting ≡ s.waiting
        → u.charges ≡ s.charges
        → Step s u
    sweep :
        (now : ℕ) (counts : ℕ × ℕ)
        → sweep_tx cfg now s.db ≡ ok counts u.db
        → u.waiting ≡ s.waiting
        → u.charges ≡ s.charges
        → Step s u
    -- a malformed callback, or one that broke a constraint
    note :
        (now : ℕ) (kind : AnomalyKind) (severity : Severity) (provider_ref : Option String)
        → anomaly kind severity none provider_ref now s.db ≡ ok tt u.db
        → u.waiting ≡ s.waiting
        → u.charges ≡ s.charges
        → Step s u

  pub data Reach (s : System) : System → Type 0 where
    here : Reach s s
    next : {t u : System} → Reach s t → Step t u → Reach s u
