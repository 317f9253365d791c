-- ===== src/Payments/Debit.antt =====
-- The books of the payouts: the same account as Credit gives of the collections. A disbursement keeps
-- its id, amount, payout key and originator id for good, and most of payouts.py leaves the money alone.
pub mod Keys
pub mod Statements
pub mod Service
pub mod Advance
pub mod Success
pub mod Outcome
pub mod Shown
pub mod Settle
pub mod Writes
pub mod Transactions
pub mod Begin
use devops_g_9_tillflow.Base.{String, ◌≡◌, refl, ◌∙◌, Bool, true, false, some}
use devops_g_9_tillflow.Base.Table.{Rowwise}
use devops_g_9_tillflow.Base.Table.Update.{Rowwise-refl, Rowwise-trans}
use devops_g_9_tillflow.Payments.States.{DisbursementState, check_disbursement_transition}
use devops_g_9_tillflow.Payments.States.Machine.{Chain, here, Chain-trans}
use devops_g_9_tillflow.Payments.Tables.{DisbursementRow, disbursement_debit, Db}
use devops_g_9_tillflow.Payments.Schema.{disbursements_ok}
use devops_g_9_tillflow.Payments.Tx.{Tx}
use devops_g_9_tillflow.Payments.Tx.Keeps.{Frame, Keeps}
use devops_g_9_tillflow.Payments.Ledger.{Reading, Books}

unfoldable pub is_paid : DisbursementState → Bool
is_paid DisbursementState.succeeded = true
is_paid _ = false

-- A disbursement as the ledger reads it.
abbrev pub payouts_read : Reading DisbursementRow
payouts_read = record {
  id = λ p. p.disbursement_id;
  ref = λ p. some p.originator_conversation_id;
  amount = λ p. p.amount_minor;
  settled = λ p. is_paid p.state;
  kind = disbursement_debit;
}

-- The constraints of the disbursements hold, and the books of the debits agree with them.
pub record Balanced (d : Db) : Type 0 where
  pub valid : disbursements_ok d.disbursements ≡ true
  pub books : Books payouts_read d.disbursements d.ledger_entries

-- What a row keeps for good.
pub record Kept (p q : DisbursementRow) : Type 0 where
  pub id : q.disbursement_id ≡ p.disbursement_id
  pub amount : q.amount_minor ≡ p.amount_minor
  pub originator : q.originator_conversation_id ≡ p.originator_conversation_id
  pub payout_key : q.payout_key ≡ p.payout_key
  pub chain : Chain check_disbursement_transition p.state q.state

pub Kept-refl : (p : DisbursementRow) → Kept p p
Kept-refl p = record {
  id = refl;
  amount = refl;
  originator = refl;
  payout_key = refl;
  chain = here;
}

pub Kept-trans : (p q r : DisbursementRow) → Kept p q → Kept q r → Kept p r
Kept-trans p q r h k = record {
  id = k.id ∙ h.id;
  amount = k.amount ∙ h.amount;
  originator = k.originator ∙ h.originator;
  payout_key = k.payout_key ∙ h.payout_key;
  chain = Chain-trans h.chain k.chain;
}

-- What it keeps under a steady statement.
pub record Steady (p q : DisbursementRow) : Type 0 where
  pub kept : Kept p q
  pub settled : is_paid q.state ≡ is_paid p.state

pub Steady-refl : (p : DisbursementRow) → Steady p p
Steady-refl p = record { kept = Kept-refl p; settled = refl }

Steady-trans : (p q r : DisbursementRow) → Steady p q → Steady q r → Steady p r
Steady-trans p q r h k = record {
  kept = Kept-trans p q r h.kept k.kept;
  settled = k.settled ∙ h.settled;
}

pub record SteadyDb (d e : Db) : Type 0 where
  pub ledger : e.ledger_entries ≡ d.ledger_entries
  pub rows : Rowwise Steady d.disbursements e.disbursements
  pub valid : disbursements_ok d.disbursements ≡ true → disbursements_ok e.disbursements ≡ true

pub SteadyDb-refl : (d : Db) → SteadyDb d d
SteadyDb-refl d = record {
  ledger = refl;
  rows = Rowwise-refl Steady Steady-refl d.disbursements;
  valid = λ h. h;
}

pub SteadyDb-trans : (a b c : Db) → SteadyDb a b → SteadyDb b c → SteadyDb a c
SteadyDb-trans a b c h k = record {
  ledger = k.ledger ∙ h.ledger;
  rows =
      Rowwise-trans Steady Steady-trans a.disbursements b.disbursements c.disbursements h.rows
        k.rows;
  valid = λ v. k.valid (h.valid v);
}

instance abbrev pub steady_frame : Frame SteadyDb
steady_frame = record { same = SteadyDb-refl; trans = SteadyDb-trans }

-- The transaction is steady, whether it returns or raises.
abbrev pub IsSteady : {A : Type 0} → Tx A → Type 0
IsSteady m = Keeps SteadyDb m
