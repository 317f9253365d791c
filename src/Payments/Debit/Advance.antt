-- ===== src/Payments/Debit/Advance.antt =====
-- A transaction that returned: the books are balanced after it, and each disbursement is kept.
use devops_g_9_tillflow.Base.{ℕ, String, ◌≡◌, sym, ap, subst, true, List, arith, some}
use devops_g_9_tillflow.Base.Table.{Rowwise, update_where, count_where}
use devops_g_9_tillflow.Base.Table.Update.{Rowwise-refl, Rowwise-trans, Rowwise-map, Rowwise-update}
use devops_g_9_tillflow.Payments.States.{DisbursementState, check_disbursement_transition}
use devops_g_9_tillflow.Payments.Tables.{DisbursementRow, Db}
use devops_g_9_tillflow.Payments.Schema.{disbursements_ok}
use devops_g_9_tillflow.Payments.Tx.{Tx, ok, after}
use devops_g_9_tillflow.Payments.Ledger.{Books, Same, Books-Same}
use devops_g_9_tillflow.Payments.Store.Disbursement.{
  Field, transition, update_disbursements, is_current, moved,
}
use devops_g_9_tillflow.Payments.Debit.{
  Balanced, Kept, Kept-refl, Kept-trans, Steady, SteadyDb, IsSteady, payouts_read,
}
use devops_g_9_tillflow.Payments.Debit.Statements.{moved-Kept, legal_at}

pub record Advanced (d e : Db) : Type 0 where
  pub balanced : Balanced e
  pub rows : Rowwise Kept d.disbursements e.disbursements

pub Advanced-refl : (d : Db) → Balanced d → Advanced d d
Advanced-refl d b = record { balanced = b; rows = Rowwise-refl Kept Kept-refl d.disbursements }

pub Advanced-trans : (d e f : Db) → Advanced d e → Advanced e f → Advanced d f
Advanced-trans d e f h k = record {
  balanced = k.balanced;
  rows =
      Rowwise-trans Kept Kept-trans d.disbursements e.disbursements f.disbursements h.rows k.rows;
}

Steady-Same : (p q : DisbursementRow) → Steady p q → Same payouts_read p q
Steady-Same p q h = record {
  id = h.kept.id;
  amount = h.kept.amount;
  settled = h.settled;
  ref = λ s. ap some h.kept.originator;
}

pub Advanced-SteadyDb : (d e : Db) → Balanced d → SteadyDb d e → Advanced d e
Advanced-SteadyDb d e b h = record {
  balanced = record {
    valid = h.valid b.valid;
    books = subst (Books payouts_read e.disbursements) (sym h.ledger) (
        Books-Same payouts_read d.disbursements e.disbursements
          (Rowwise-map Steady (Same payouts_read) Steady-Same d.disbursements e.disbursements
            h.rows)
          b.books);
  };
  rows = Rowwise-map Steady Kept (λ p q k. k.kept) d.disbursements e.disbursements h.rows;
}

pub steady_ok :
    {A : Type 0} (m : Tx A) (d : Db) {a : A} {e : Db}
    → IsSteady m
    → Balanced d
    → m d ≡ ok a e
    → Advanced d e
steady_ok m d {a} {e} h b q = Advanced-SteadyDb d e b (subst (SteadyDb d) (ap after q) (h.at d))

-- What a transition that returned has done.
pub record Transitioned (id : String) (s t : DisbursementState) (now : ℕ) (fs : List Field)
    (d e : Db) : Type 0 where
  pub legal : check_disbursement_transition s t ≡ true
  pub result :
      e
      ≡ record d { disbursements = update_where (is_current id s) (moved t now fs) d.disbursements }
  pub valid :
      disbursements_ok (update_where (is_current id s) (moved t now fs) d.disbursements) ≡ true
  pub once : count_where (is_current id s) d.disbursements ≡ 1

pub transition-ok :
    (id : String) (s t : DisbursementState) (now : ℕ) (fs : List Field) (d : Db) {e : Db}
    → transition id s t now fs d ≡ ok tt e
    → Transitioned id s t now fs d e
unfolding transition update_disbursements
transition-ok id s t now fs d {e} h = ground arith

pub transition_rows :
    (id : String) (s t : DisbursementState) (now : ℕ) (fs : List Field)
    (rows : List DisbursementRow)
    → check_disbursement_transition s t ≡ true
    → Rowwise Kept rows (update_where (is_current id s) (moved t now fs) rows)
transition_rows id s t now fs rows legal =
    Rowwise-update Kept (is_current id s) (moved t now fs) Kept-refl rows
      (λ q m e. moved-Kept t now fs q (legal_at id s t q e legal))
