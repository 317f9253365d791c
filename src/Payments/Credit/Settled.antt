-- ===== src/Payments/Credit/Settled.antt =====
-- A payment becomes SUCCEEDED and its credit is written: the books after it.
use devops_g_9_tillflow.Base.{
  ℕ, ◌≡◌, refl, ◌∙◌, ap, true, false, Bool, ◌∷◌, eq_of_test, test_of_eq, and-true, List,
}
use devops_g_9_tillflow.Base.Table.{In, any_where, update_where, count_where}
use devops_g_9_tillflow.Payments.States.{PaymentState, check_transition}
use devops_g_9_tillflow.Payments.States.Machine.{same_state_refl}
use devops_g_9_tillflow.Payments.Tables.{PaymentRow, LedgerEntry, Db}
use devops_g_9_tillflow.Payments.Schema.{payments_ok, ledger_clash}
use devops_g_9_tillflow.Payments.Schema.Keys.{payment_id_unique, provider_ref_unique}
use devops_g_9_tillflow.Payments.Store.Payment.{Field, is_current, moved}
use devops_g_9_tillflow.Payments.Quiet.{is_succeeded}
use devops_g_9_tillflow.Payments.Quiet.Statements.{
  AllKeepRef, assign_all-SameKeys, assign_all_ref, legal_from_unsettled,
}
use devops_g_9_tillflow.Payments.Ledger.{Entry}
use devops_g_9_tillflow.Payments.Ledger.Settle.{Settles, key_is_free, Books-settle}
use devops_g_9_tillflow.Payments.Credit.{payments_read, Balanced}

module _ (d : Db) (b : Balanced d) (p : PaymentRow) (m : In p d.payments) (now : ℕ)
    (fs : List Field) (keeps : AllKeepRef fs)
    (legal : check_transition p.state PaymentState.succeeded ≡ true) where
  abbrev f : PaymentRow → PaymentRow
  f = moved PaymentState.succeeded now fs

  abbrev c : PaymentRow → Bool
  c = is_current p.payment_id p.state

  settles : Settles payments_read d.payments c f p
  unfolding is_succeeded
  settles =
      let k =
        assign_all-SameKeys fs (record p { state = PaymentState.succeeded; updated_at = now }) in
      record {
        member = m;
        only = λ q n h.
            payment_id_unique d.payments b.valid n m
              (eq_of_test q.payment_id p.payment_id (and-true _ _ h).0);
        selected = rw (test_of_eq p.payment_id p.payment_id refl) (same_state_refl p.state);
        unsettled = legal_from_unsettled p.state PaymentState.succeeded legal;
        settled = ap is_succeeded k.state;
        id = k.id;
        amount = k.amount;
        ref = assign_all_ref fs _ keeps;
      }

  module _ (x : LedgerEntry) (writes : Entry payments_read p x) where
    -- The key of the credit is free, since the reference names one payment.
    pub credit_is_free : any_where (ledger_clash x) d.ledger_entries ≡ false
    credit_is_free =
        key_is_free payments_read d.payments c f p settles d.ledger_entries b.books x writes
          (λ q n e.
            provider_ref_unique d.payments b.valid n m (e ∙ writes.provider_ref)
              writes.provider_ref)

    pub Balanced-success :
        payments_ok (update_where c f d.payments) ≡ true
        → count_where c d.payments ≡ 1
        → Balanced (record d {
          payments = update_where c f d.payments;
          ledger_entries = x ∷ d.ledger_entries;
        })
    Balanced-success ok once = record {
      valid = ok;
      books =
          Books-settle payments_read d.payments c f p settles d.ledger_entries b.books x writes once
            credit_is_free;
    }
