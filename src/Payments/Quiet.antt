-- ===== src/Payments/Quiet.antt =====
-- Statements and transactions that leave the money alone: the ledger stays, each payment keeps its
-- id, amount and reference, and none becomes SUCCEEDED. Most of payments.py is of this kind.
pub mod Statements
pub mod Service
use devops_g_9_tillflow.Base.{◌≡◌, refl, sym, ◌∙◌, Bool, true, false}
use devops_g_9_tillflow.Base.Table.{Rowwise}
use devops_g_9_tillflow.Payments.States.{PaymentState, check_transition}
use devops_g_9_tillflow.Payments.States.Machine.{Chain, here, Chain-trans}
use devops_g_9_tillflow.Payments.Tables.{PaymentRow, Db}
use devops_g_9_tillflow.Payments.Schema.{payments_ok}
use devops_g_9_tillflow.Payments.Tx.{Tx, after}
use devops_g_9_tillflow.Payments.Tx.Keeps.{Frame, Keeps}
use devops_g_9_tillflow.Base.Table.Update.{Rowwise-refl, Rowwise-trans}

unfoldable pub is_succeeded : PaymentState → Bool
is_succeeded PaymentState.succeeded = true
is_succeeded _ = false

-- What a row keeps under a quiet statement.
pub record Quiet (p q : PaymentRow) : Type 0 where
  pub id : q.payment_id ≡ p.payment_id
  pub amount : q.amount_minor ≡ p.amount_minor
  pub ref : q.provider_ref ≡ p.provider_ref
  pub settled : is_succeeded q.state ≡ is_succeeded p.state
  pub chain : Chain check_transition p.state q.state

pub Quiet-refl : (p : PaymentRow) → Quiet p p
Quiet-refl p = record { id = refl; amount = refl; ref = refl; settled = refl; chain = here }

pub Quiet-trans : (p q r : PaymentRow) → Quiet p q → Quiet q r → Quiet p r
Quiet-trans p q r h k = record {
  id = k.id ∙ h.id;
  amount = k.amount ∙ h.amount;
  ref = k.ref ∙ h.ref;
  settled = k.settled ∙ h.settled;
  chain = Chain-trans h.chain k.chain;
}

pub record QuietDb (d e : Db) : Type 0 where
  pub ledger : e.ledger_entries ≡ d.ledger_entries
  pub rows : Rowwise Quiet d.payments e.payments
  pub valid : payments_ok d.payments ≡ true → payments_ok e.payments ≡ true

pub QuietDb-refl : (d : Db) → QuietDb d d
QuietDb-refl d = record {
  ledger = refl;
  rows = Rowwise-refl Quiet Quiet-refl d.payments;
  valid = λ h. h;
}

pub QuietDb-trans : (a b c : Db) → QuietDb a b → QuietDb b c → QuietDb a c
QuietDb-trans a b c h k = record {
  ledger = k.ledger ∙ h.ledger;
  rows = Rowwise-trans Quiet Quiet-trans a.payments b.payments c.payments h.rows k.rows;
  valid = λ v. k.valid (h.valid v);
}

instance abbrev pub quiet_frame : Frame QuietDb
quiet_frame = record { same = QuietDb-refl; trans = QuietDb-trans }

-- The transaction is quiet, whether it returns or raises.
abbrev pub IsQuiet : {A : Type 0} → Tx A → Type 0
IsQuiet m = Keeps QuietDb m
