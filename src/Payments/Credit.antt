-- ===== src/Payments/Credit.antt =====
-- The books of the collections: which ledger entries there are for which payments.
pub mod Kept
pub mod Success
pub mod Settled
pub mod Advance
pub mod Settle
pub mod Transactions
pub mod Begin
pub mod Create
pub mod Replay
pub mod Waiting
pub mod Counts
use devops_g_9_tillflow.Base.{ℕ, ◌≡◌, true}
use devops_g_9_tillflow.Payments.Tables.{PaymentRow, payment_credit, LedgerEntry, Db}
use devops_g_9_tillflow.Payments.Schema.{payments_ok}
use devops_g_9_tillflow.Payments.Quiet.{is_succeeded}
use devops_g_9_tillflow.Payments.Ledger.{Reading, Books, moved_by, booked}

-- A payment as the ledger reads it.
abbrev pub payments_read : Reading PaymentRow
payments_read = record {
  id = λ p. p.payment_id;
  ref = λ p. p.provider_ref;
  amount = λ p. p.amount_minor;
  settled = λ p. is_succeeded p.state;
  kind = payment_credit;
}

-- What a payment, and what an entry, adds to the money collected.
abbrev pub collected : PaymentRow → ℕ
collected = moved_by payments_read

abbrev pub credited : LedgerEntry → ℕ
credited = booked payments_read

-- The constraints of the payments hold, and the books of the credits agree with them.
pub record Balanced (d : Db) : Type 0 where
  pub valid : payments_ok d.payments ≡ true
  pub books : Books payments_read d.payments d.ledger_entries
