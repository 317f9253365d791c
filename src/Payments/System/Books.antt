-- ===== src/Payments/System/Books.antt =====
-- The books of the collections after any interleaving of the requests.
use devops_g_9_tillflow.Base.{String, ◌≡◌, true, some, if◌then◌else◌}
use devops_g_9_tillflow.Base.Table.{In, sum_of}
use devops_g_9_tillflow.Payments.Tables.{PaymentRow}
use devops_g_9_tillflow.Payments.Schema.{same_live_sale}
use devops_g_9_tillflow.Payments.Schema.Keys.{live_sale_unique, provider_ref_unique}
use devops_g_9_tillflow.Payments.Service.{Settings}
use devops_g_9_tillflow.Payments.Collect.Reconcile.{credit_count}
use devops_g_9_tillflow.Payments.Quiet.{is_succeeded}
use devops_g_9_tillflow.Payments.Credit.{credited, collected}
use devops_g_9_tillflow.Payments.Credit.Counts.{credit_count-Balanced}
use devops_g_9_tillflow.Payments.System.{System, start, Reach, here, next}
use devops_g_9_tillflow.Payments.System.Safety.{Good, Good-start, Step-result}

pub Reach-Good : (cfg : Settings) {s u : System} → Good s → Reach cfg s u → Good u
Reach-Good cfg g here = g
Reach-Good cfg g (next {t} {u} r h) = (Step-result cfg t u (Reach-Good cfg g r) h).0

-- After any interleaving of requests, provider answers, callbacks, reconciliations and sweeps from
-- the empty tables, a payment has exactly one credit in the ledger if it has SUCCEEDED, and none
-- otherwise.
pub one_credit_per_success :
    (cfg : Settings) {s : System}
    → Reach cfg start s
    → (p : PaymentRow) → In p s.db.payments
    → credit_count p.payment_id s.db ≡ (if is_succeeded p.state then 1 else 0)
one_credit_per_success cfg {s} r p m =
    credit_count-Balanced s.db (Reach-Good cfg Good-start r).balanced p m

-- After any interleaving from the empty tables, the credits of the ledger sum to the amounts of the
-- payments that have SUCCEEDED.
pub credits_sum_to_collections :
    (cfg : Settings) {s : System}
    → Reach cfg start s
    → sum_of credited s.db.ledger_entries ≡ sum_of collected s.db.payments
credits_sum_to_collections cfg r = (Reach-Good cfg Good-start r).balanced.books.total

-- After any interleaving from the empty tables, two payments of one sale of one tenant that are both
-- live (neither DECLINED nor EXPIRED) are the same row.
pub one_live_payment_per_sale :
    (cfg : Settings) {s : System}
    → Reach cfg start s
    → {p q : PaymentRow} → In p s.db.payments
    → In q s.db.payments
    → same_live_sale p q ≡ true
    → p ≡ q
one_live_payment_per_sale cfg {s} r m n =
    live_sale_unique s.db.payments (Reach-Good cfg Good-start r).balanced.valid m n

-- After any interleaving from the empty tables, two payments with the same provider reference are the
-- same row, so a callback names at most one payment.
pub reference_names_one_payment :
    (cfg : Settings) {s : System}
    → Reach cfg start s
    → {p q : PaymentRow} {ref : String} → In p s.db.payments
    → In q s.db.payments
    → p.provider_ref ≡ some ref
    → q.provider_ref ≡ some ref
    → p ≡ q
reference_names_one_payment cfg {s} r m n =
    provider_ref_unique s.db.payments (Reach-Good cfg Good-start r).balanced.valid m n
