-- ===== src/Payments/Debit/Shown.antt =====
-- A disbursement as a transaction has read it, and the row of the table that it stands for.
use devops_g_9_tillflow.Base.{
  ℕ, ◌≡◌, refl, sym, ◌∙◌, subst, ap, inl, inr, Option, none, some, [], ◌∷◌, Bool-cases,
}
use devops_g_9_tillflow.Base.Table.{In}
use devops_g_9_tillflow.Base.Table.Update.{find?-In}
use devops_g_9_tillflow.Payments.States.{DisbursementState, same_disbursement_state}
use devops_g_9_tillflow.Payments.Tables.{DisbursementRow, LedgerEntry, Db}
use devops_g_9_tillflow.Payments.Tx.{Result, ok, >>=-ok, row_of}
use devops_g_9_tillflow.Payments.Store.Disbursement.{disbursement_by_id, set_pending_since}
use devops_g_9_tillflow.Payments.Payout.Outcomes.{leave_created, read_again, move}
use devops_g_9_tillflow.Payments.Ledger.{Entry}
use devops_g_9_tillflow.Payments.Debit.{steady_frame, payouts_read}

row_of-ok :
    (o : Option DisbursementRow) (d : Db) {p : DisbursementRow} {e : Db}
    → row_of o d ≡ ok p e
    → (o ≡ some p) × (e ≡ d)
row_of-ok none d h = absurd (cc h)
row_of-ok (some q) d h = (cc h, cc h)

read_again-In :
    (row : DisbursementRow) (d : Db) {p : DisbursementRow} {e : Db}
    → read_again row d ≡ ok p e
    → (e ≡ d) × In p d.disbursements
unfolding disbursement_by_id
read_again-In row d {p} {e} h =
    let k = row_of-ok (disbursement_by_id row.disbursement_id d) d h in
    (k.1, (find?-In _ d.disbursements k.0).0)

-- A row that was read may have got its conversation id since; what counts of it stands in the table.
pub record Shown (p : DisbursementRow) (d : Db) : Type 0 where
  pub row : DisbursementRow
  pub member : In row d.disbursements
  pub id : row.disbursement_id ≡ p.disbursement_id
  pub amount : row.amount_minor ≡ p.amount_minor
  pub originator : row.originator_conversation_id ≡ p.originator_conversation_id
  pub state : row.state ≡ p.state

pub In-Shown : (p : DisbursementRow) (d : Db) → In p d.disbursements → Shown p d
In-Shown p d m = record {
  row = p;
  member = m;
  id = refl;
  amount = refl;
  originator = refl;
  state = refl;
}

-- The row that `leave_created` hands on stands in the table that it leaves.
pub leave_created-Shown :
    (now : ℕ) (row : DisbursementRow) (d : Db) {p : DisbursementRow} {e : Db}
    → Shown row d
    → leave_created now row d ≡ ok p e
    → Shown p e
unfolding leave_created
leave_created-Shown now row d {p} {e} m h =
    elim (Bool-cases (same_disbursement_state row.state DisbursementState.created)) [
      | inr f ↦
          let k : ◌≡◌ {A = Result DisbursementRow} (ok row d) (ok p e) = rw f at h in
          let same : row ≡ p = cc k in
          let tables : d ≡ e = cc k in subst (Shown p) tables (subst (λ q. Shown q d) same m)
      | inl t ↦
          let r =
            >>=-ok (move now row DisbursementState.pending (set_pending_since now ∷ []))
              (λ _. read_again row) d (rw t at h) in
          let k = read_again-In row r.1 r.3 in
          In-Shown p e (subst (λ (x : Db). In p x.disbursements) (sym k.0) k.1)
    ]

pub shown_entry :
    (p : DisbursementRow) (d : Db) (s : Shown p d) (x : LedgerEntry)
    → Entry payouts_read p x
    → Entry payouts_read s.row x
shown_entry p d s x k = record {
  entry_type = k.entry_type;
  record_id = k.record_id ∙ sym s.id;
  amount_minor = k.amount_minor ∙ sym s.amount;
  provider_ref = ap some s.originator ∙ k.provider_ref;
  of_provider = k.of_provider;
}
