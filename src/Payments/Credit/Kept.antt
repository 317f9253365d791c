-- ===== src/Payments/Credit/Kept.antt =====
-- A transaction that settles nothing keeps the books balanced, also where it gives one payment, so
-- far without an answer, its reference.
use devops_g_9_tillflow.Base.{◌≡◌, ◌≢◌, ◌⊎◌, inl, inr, sym, ◌∙◌, subst, true, String}
use devops_g_9_tillflow.Base.Table.{Rowwise}
use devops_g_9_tillflow.Base.Table.Update.{Rowwise-map, Rowwise-trans}
use devops_g_9_tillflow.Payments.States.{check_transition}
use devops_g_9_tillflow.Payments.States.Machine.{Chain, Chain-trans}
use devops_g_9_tillflow.Payments.Tables.{PaymentRow, Db}
use devops_g_9_tillflow.Payments.Schema.{payments_ok}
use devops_g_9_tillflow.Payments.Quiet.{Quiet, QuietDb, is_succeeded}
use devops_g_9_tillflow.Payments.Ledger.{Same, Books, Books-Same}
use devops_g_9_tillflow.Payments.Credit.{payments_read, Balanced}

-- As `Quiet`, but the payment `id` may change its reference while it has not SUCCEEDED.
pub record Mild (id : String) (p q : PaymentRow) : Type 0 where
  pub same_id : q.payment_id ≡ p.payment_id
  pub amount : q.amount_minor ≡ p.amount_minor
  pub settled : is_succeeded q.state ≡ is_succeeded p.state
  pub ref : (p.payment_id ≢ id) ⊎ (is_succeeded p.state ≡ true) → q.provider_ref ≡ p.provider_ref
  pub chain : Chain check_transition p.state q.state

pub record MildDb (id : String) (d e : Db) : Type 0 where
  pub ledger : e.ledger_entries ≡ d.ledger_entries
  pub rows : Rowwise (Mild id) d.payments e.payments
  pub valid : payments_ok d.payments ≡ true → payments_ok e.payments ≡ true

pub Mild-of_Quiet : (id : String) (p q : PaymentRow) → Quiet p q → Mild id p q
Mild-of_Quiet id p q h = record {
  same_id = h.id;
  amount = h.amount;
  settled = h.settled;
  ref = λ _. h.ref;
  chain = h.chain;
}

pub MildDb-of_Quiet : (id : String) (d e : Db) → QuietDb d e → MildDb id d e
MildDb-of_Quiet id d e h = record {
  ledger = h.ledger;
  rows = Rowwise-map Quiet (Mild id) (Mild-of_Quiet id) d.payments e.payments h.rows;
  valid = h.valid;
}

pub Mild-trans : (id : String) (p q r : PaymentRow) → Mild id p q → Mild id q r → Mild id p r
Mild-trans id p q r h k = record {
  same_id = k.same_id ∙ h.same_id;
  amount = k.amount ∙ h.amount;
  settled = k.settled ∙ h.settled;
  ref = λ c. k.ref (carry c) ∙ h.ref c;
  chain = Chain-trans h.chain k.chain;
}
  where
    carry :
        (p.payment_id ≢ id) ⊎ (is_succeeded p.state ≡ true)
        → (q.payment_id ≢ id) ⊎ (is_succeeded q.state ≡ true)
    carry (inl ne) = inl (λ e. ne (sym h.same_id ∙ e))
    carry (inr s) = inr (h.settled ∙ s)

pub MildDb-trans : (id : String) (a b c : Db) → MildDb id a b → MildDb id b c → MildDb id a c
MildDb-trans id a b c h k = record {
  ledger = k.ledger ∙ h.ledger;
  rows = Rowwise-trans (Mild id) (Mild-trans id) a.payments b.payments c.payments h.rows k.rows;
  valid = λ v. k.valid (h.valid v);
}

Mild-Same : (id : String) (p q : PaymentRow) → Mild id p q → Same payments_read p q
Mild-Same id p q h = record {
  id = h.same_id;
  amount = h.amount;
  settled = h.settled;
  ref = λ s. h.ref (inr s);
}

pub Balanced-Mild : {id : String} {d e : Db} → Balanced d → MildDb id d e → Balanced e
Balanced-Mild {id} {d} {e} b h = record {
  valid = h.valid b.valid;
  books = subst (Books payments_read e.payments) (sym h.ledger) (
      Books-Same payments_read d.payments e.payments
        (Rowwise-map (Mild id) (Same payments_read) (Mild-Same id) d.payments e.payments h.rows)
        b.books);
}

pub Balanced-Quiet : {d e : Db} → Balanced d → QuietDb d e → Balanced e
Balanced-Quiet {d} {e} b h = Balanced-Mild {id = ""} b (MildDb-of_Quiet "" d e h)
