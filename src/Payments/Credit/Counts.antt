-- ===== src/Payments/Credit/Counts.antt =====
-- In balanced books a payment has one credit if it SUCCEEDED, and none otherwise.
use devops_g_9_tillflow.Base.{◌≡◌, if◌then◌else◌}
use devops_g_9_tillflow.Base.Table.{In}
use devops_g_9_tillflow.Payments.Tables.{PaymentRow, Db}
use devops_g_9_tillflow.Payments.Schema.Keys.{payment_id_unique}
use devops_g_9_tillflow.Payments.Collect.Reconcile.{credit_count}
use devops_g_9_tillflow.Payments.Quiet.{is_succeeded}
use devops_g_9_tillflow.Payments.Ledger.Count.{count_where-Books}
use devops_g_9_tillflow.Payments.Credit.{payments_read, Balanced}

pub credit_count-Balanced :
    (d : Db)
    → Balanced d
    → (p : PaymentRow) → In p d.payments
    → credit_count p.payment_id d ≡ (if is_succeeded p.state then 1 else 0)
unfolding credit_count
credit_count-Balanced d b p m =
    count_where-Books payments_read d.payments d.ledger_entries b.books p m
      (λ q n e. payment_id_unique d.payments b.valid n m e)
