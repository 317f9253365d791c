-- ===== src/Payments/Credit/Success.antt =====
-- A transition of a payment that returned.
use devops_g_9_tillflow.Base.{ℕ, String, ◌≡◌, true, List, arith}
use devops_g_9_tillflow.Base.Table.{update_where, count_where}
use devops_g_9_tillflow.Payments.States.{PaymentState, check_transition}
use devops_g_9_tillflow.Payments.Tables.{Db}
use devops_g_9_tillflow.Payments.Schema.{payments_ok}
use devops_g_9_tillflow.Payments.Tx.{ok}
use devops_g_9_tillflow.Payments.Store.Payment.{
  Field, transition, update_payments, is_current, moved,
}

-- What a transition that returned has done.
pub record Transitioned (id : String) (s t : PaymentState) (now : ℕ) (fs : List Field) (d e : Db)
    : Type 0 where
  pub legal : check_transition s t ≡ true
  pub result :
      e ≡ record d { payments = update_where (is_current id s) (moved t now fs) d.payments }
  pub valid : payments_ok (update_where (is_current id s) (moved t now fs) d.payments) ≡ true
  pub once : count_where (is_current id s) d.payments ≡ 1

pub transition-ok :
    (id : String) (s t : PaymentState) (now : ℕ) (fs : List Field) (d : Db) {e : Db}
    → transition id s t now fs d ≡ ok tt e
    → Transitioned id s t now fs d e
unfolding transition update_payments
transition-ok id s t now fs d {e} h = ground arith
