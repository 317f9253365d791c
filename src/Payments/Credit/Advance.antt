-- ===== src/Payments/Credit/Advance.antt =====
-- What a transaction makes of the books and of each payment.
use devops_g_9_tillflow.Base.{ℕ, ◌≡◌, refl, sym, ◌∙◌, ap, subst, true, String, List}
use devops_g_9_tillflow.Base.Table.{Rowwise, update_where}
use devops_g_9_tillflow.Base.Table.Update.{Rowwise-trans, Rowwise-map, Rowwise-update}
use devops_g_9_tillflow.Payments.States.{PaymentState, check_transition}
use devops_g_9_tillflow.Payments.States.Machine.{Chain, here, move, Chain-trans}
use devops_g_9_tillflow.Payments.Tables.{PaymentRow, Db}
use devops_g_9_tillflow.Payments.Tx.{Tx, ok, after}
use devops_g_9_tillflow.Payments.Store.Payment.{Field, is_current, moved}
use devops_g_9_tillflow.Payments.Quiet.{Quiet, QuietDb, IsQuiet}
use devops_g_9_tillflow.Payments.Quiet.Statements.{
  AllKeepRef, assign_all-SameKeys, assign_all_ref, legal_at,
}
use devops_g_9_tillflow.Payments.Credit.{Balanced}
use devops_g_9_tillflow.Payments.Credit.Kept.{Balanced-Quiet}

-- The payment kept its id, amount and reference, and moved along legal transitions only.
pub record Kept (p q : PaymentRow) : Type 0 where
  pub id : q.payment_id ≡ p.payment_id
  pub amount : q.amount_minor ≡ p.amount_minor
  pub ref : q.provider_ref ≡ p.provider_ref
  pub chain : Chain check_transition p.state q.state

pub Kept-refl : (p : PaymentRow) → Kept p p
Kept-refl p = record { id = refl; amount = refl; ref = refl; chain = here }

pub Kept-trans : (p q r : PaymentRow) → Kept p q → Kept q r → Kept p r
Kept-trans p q r h k = record {
  id = k.id ∙ h.id;
  amount = k.amount ∙ h.amount;
  ref = k.ref ∙ h.ref;
  chain = Chain-trans h.chain k.chain;
}

pub record Advanced (d e : Db) : Type 0 where
  pub balanced : Balanced e
  pub rows : Rowwise Kept d.payments e.payments

pub Advanced-trans : (a b c : Db) → Advanced a b → Advanced b c → Advanced a c
Advanced-trans a b c h k = record {
  balanced = k.balanced;
  rows = Rowwise-trans Kept Kept-trans a.payments b.payments c.payments h.rows k.rows;
}

pub Kept-of_Quiet : (p q : PaymentRow) → Quiet p q → Kept p q
Kept-of_Quiet p q h = record { id = h.id; amount = h.amount; ref = h.ref; chain = h.chain }

pub quiet_ok :
    {A : Type 0} (m : Tx A) (d : Db) {a : A} {e : Db}
    → IsQuiet m
    → Balanced d
    → m d ≡ ok a e
    → Advanced d e
quiet_ok m d {a} {e} q b h =
    let k : QuietDb d e = subst (QuietDb d) (ap after h) (q.at d) in
    record {
      balanced = Balanced-Quiet b k;
      rows = Rowwise-map Quiet Kept Kept-of_Quiet d.payments e.payments k.rows;
    }

pub moved-Kept :
    (target : PaymentState) (now : ℕ) (fs : List Field)
    → AllKeepRef fs
    → (p : PaymentRow) → check_transition p.state target ≡ true
    → Kept p (moved target now fs p)
moved-Kept target now fs h p legal =
    let p' : PaymentRow = record p { state = target; updated_at = now } in
    let k = assign_all-SameKeys fs p' in
    record {
      id = k.id;
      amount = k.amount;
      ref = assign_all_ref fs p' h;
      chain = subst (Chain check_transition p.state) (sym k.state) (move legal here);
    }

-- The rows after a transition.
pub transition_rows :
    (id : String) (s t : PaymentState) (now : ℕ) (fs : List Field) (ps : List PaymentRow)
    → AllKeepRef fs
    → check_transition s t ≡ true
    → Rowwise Kept ps (update_where (is_current id s) (moved t now fs) ps)
transition_rows id s t now fs ps k legal =
    Rowwise-update Kept (is_current id s) (moved t now fs) Kept-refl ps
      (λ q m e. moved-Kept t now fs k q (legal_at id s t q e legal))
