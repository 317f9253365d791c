-- ===== src/Payments/Debit/Success.antt =====
-- A disbursement becomes SUCCEEDED and its debit is written: the books after it.
use devops_g_9_tillflow.Base.{
  ℕ, String, Option, ◌≡◌, refl, sym, ◌∙◌, ap, subst, inl, inr, true, false, Bool, ◌∷◌, eq_of_test,
  test_of_eq, and-true, List, some, arith,
}
use devops_g_9_tillflow.Base.Table.{In, any_where}
use devops_g_9_tillflow.Payments.States.{
  DisbursementState, check_disbursement_transition, same_disbursement_state,
}
use devops_g_9_tillflow.Payments.Tables.{DisbursementRow, LedgerEntry, Db}
use devops_g_9_tillflow.Payments.Schema.{ledger_clash}
use devops_g_9_tillflow.Payments.Store.Disbursement.{Field, is_current, moved}
use devops_g_9_tillflow.Payments.Ledger.{Entry}
use devops_g_9_tillflow.Payments.Ledger.Settle.{Settles, key_is_free, Books-settle}
use devops_g_9_tillflow.Payments.Ledger.Write.{Written}
use devops_g_9_tillflow.Payments.Debit.{payouts_read, Balanced, is_paid}
use devops_g_9_tillflow.Payments.Debit.Keys.{disbursement_id_unique, originator_unique}
use devops_g_9_tillflow.Payments.Debit.Statements.{assign_all-SameKeys, legal_from_unpaid}
use devops_g_9_tillflow.Payments.Debit.Advance.{Advanced, Transitioned, transition_rows}

same_disbursement_state_refl : (s : DisbursementState) → same_disbursement_state s s ≡ true
unfolding same_disbursement_state
same_disbursement_state_refl s = ground arith

some-eq : (a b : String) → ◌≡◌ {A = Option String} (some a) (some b) → a ≡ b
some-eq a b h = cc h

module _ (d : Db) (b : Balanced d) (p : DisbursementRow) (m : In p d.disbursements) (now : ℕ)
    (fs : List Field)
    (legal : check_disbursement_transition p.state DisbursementState.succeeded ≡ true) where
  abbrev f : DisbursementRow → DisbursementRow
  f = moved DisbursementState.succeeded now fs

  abbrev c : DisbursementRow → Bool
  c = is_current p.disbursement_id p.state

  settles : Settles payouts_read d.disbursements c f p
  unfolding is_paid
  settles =
      let k =
        assign_all-SameKeys fs
          (record p { state = DisbursementState.succeeded; updated_at = now }) in
      record {
        member = m;
        only = λ q n h.
            disbursement_id_unique d.disbursements b.valid n m
              (eq_of_test q.disbursement_id p.disbursement_id (and-true _ _ h).0);
        selected =
            rw (test_of_eq p.disbursement_id p.disbursement_id refl)
              (same_disbursement_state_refl p.state);
        unsettled = legal_from_unpaid p.state DisbursementState.succeeded legal;
        settled = ap is_paid k.state;
        id = k.id;
        amount = k.amount;
        ref = ap some k.originator;
      }

  module _ (x : LedgerEntry) (writes : Entry payouts_read p x) where
    -- The key of the debit is free, since the originator id names one disbursement.
    debit_is_free : any_where (ledger_clash x) d.ledger_entries ≡ false
    debit_is_free =
        key_is_free payouts_read d.disbursements c f p settles d.ledger_entries b.books x writes
          (λ q n e. originator_unique d.disbursements b.valid n m (some-eq _ _ e))

  -- The debit of a disbursement that has just become SUCCEEDED.
  pub success-Advanced :
      {d' e : Db}
      → Transitioned p.disbursement_id p.state DisbursementState.succeeded now fs d d'
      → Written payouts_read p d' e
      → Advanced d e
  success-Advanced {d'} {e} t (x, writes, inl taken) = absurd (
      cc (
        debit_is_free x writes,
        ap (λ (a : Db). any_where (ledger_clash x) a.ledger_entries) t.result,
        taken,
      ))
  success-Advanced {d'} {e} t (x, writes, inr (free, q)) =
      subst (Advanced d)
        (sym (q ∙ ap (λ (a : Db). record a { ledger_entries = x ∷ a.ledger_entries }) t.result))
        (record {
          balanced = record {
            valid = t.valid;
            books =
                Books-settle payouts_read d.disbursements c f p settles d.ledger_entries b.books x
                  writes t.once (debit_is_free x writes);
          };
          rows =
              transition_rows p.disbursement_id p.state DisbursementState.succeeded now fs
                d.disbursements legal;
        })
