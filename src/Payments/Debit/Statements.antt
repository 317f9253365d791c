-- ===== src/Payments/Debit/Statements.antt =====
-- The statements of the store that are steady.
use devops_g_9_tillflow.Base.{
  ℕ, String, ◌≡◌, refl, inl, inr, Bool, true, false, Option, List, [], ◌∷◌, arith, Bool-cases, ◌==◌,
  and-true, ap, sym, ◌∙◌, subst,
}
use devops_g_9_tillflow.Base.Table.{update_where, Rowwise}
use devops_g_9_tillflow.Base.Table.Update.{Rowwise-update}
use devops_g_9_tillflow.Payments.States.{DisbursementState, check_disbursement_transition}
use devops_g_9_tillflow.Payments.States.Machine.{Chain, here, move, same_disbursement_state-eq}
use devops_g_9_tillflow.Payments.Tables.{
  Operation, PublicBody, DisbursementRow, EventType, AnomalyKind, Severity, CallbackRow,
  UnmatchedRow, Db,
}
use devops_g_9_tillflow.Payments.Schema.{disbursements_ok}
use devops_g_9_tillflow.Payments.Tx.{stale_state, illegal_transition}
use devops_g_9_tillflow.Payments.Store.{
  idem_complete, outbox, anomaly, record_callback, record_unmatched, set_flag,
}
use devops_g_9_tillflow.Payments.Store.Disbursement.{
  Field, set_conversation_id, assign, assign_all, update_disbursements, moved, is_current,
  transition,
}
use devops_g_9_tillflow.Payments.Debit.{
  steady_frame, Kept, Steady, Steady-refl, SteadyDb, SteadyDb-refl, IsSteady, is_paid,
}
use devops_g_9_tillflow.Payments.Tx.Keeps.{Keeps-pure, Keeps-raise, Keeps-bind, Keeps-if}

same_money-Steady :
    (d e : Db)
    → e.ledger_entries ≡ d.ledger_entries
    → e.disbursements ≡ d.disbursements
    → SteadyDb d e
same_money-Steady d e l p = record {
  ledger = l;
  rows = subst (Rowwise Steady d.disbursements) (sym p) (SteadyDb-refl d).rows;
  valid = λ v. rw p v;
}

pub idem_complete-IsSteady :
    (tenant : String) (op : Operation) (key : String) (code : ℕ) (body : PublicBody)
    (resource : String)
    → IsSteady (idem_complete tenant op key code body resource)
unfolding idem_complete
idem_complete-IsSteady tenant op key code body resource = record {
  at = λ d. same_money-Steady d _ refl refl;
}

pub outbox-IsSteady :
    (id : String) (e : EventType) (tenant : String) (amount now : ℕ)
    → IsSteady (outbox id e tenant amount now)
unfolding outbox
outbox-IsSteady id e tenant amount now = record {
  at = λ d. same_money-Steady d _ (ground arith) (ground arith);
}

pub anomaly-IsSteady :
    (k : AnomalyKind) (s : Severity) (id ref : Option String) (now : ℕ)
    → IsSteady (anomaly k s id ref now)
unfolding anomaly
anomaly-IsSteady k s id ref now = record { at = λ d. same_money-Steady d _ refl refl }

pub set_flag-IsSteady :
    (name : String) (value : Bool) (now : ℕ) → IsSteady (set_flag name value now)
unfolding set_flag
set_flag-IsSteady name value now = record {
  at = λ d. same_money-Steady d _ (ground arith) (ground arith);
}

pub record_callback-IsSteady : (r : CallbackRow) → IsSteady (record_callback r)
unfolding record_callback
record_callback-IsSteady r = record {
  at = λ d. same_money-Steady d _ (ground arith) (ground arith);
}

pub record_unmatched-IsSteady : (r : UnmatchedRow) → IsSteady (record_unmatched r)
unfolding record_unmatched
record_unmatched-IsSteady r = record {
  at = λ d. same_money-Steady d _ (ground arith) (ground arith);
}

-- An UPDATE that is steady on the rows that it touches.
pub update_disbursements-IsSteady :
    (c : DisbursementRow → Bool) (f : DisbursementRow → DisbursementRow)
    → ((q : DisbursementRow) → c q ≡ true → Steady q (f q))
    → IsSteady (update_disbursements c f)
unfolding update_disbursements
update_disbursements-IsSteady c f h = record {
  at = λ d. elim (Bool-cases (disbursements_ok (update_where c f d.disbursements))) [
    | inl e ↦ rw e (record {
      ledger = refl;
      rows = Rowwise-update Steady c f Steady-refl d.disbursements (λ q m. h q);
      valid = λ v. e;
    })
    | inr e ↦ rw e (SteadyDb-refl d)
  ];
}

-- What no assignment touches.
pub record SameKeys (p q : DisbursementRow) : Type 0 where
  pub id : q.disbursement_id ≡ p.disbursement_id
  pub amount : q.amount_minor ≡ p.amount_minor
  pub originator : q.originator_conversation_id ≡ p.originator_conversation_id
  pub payout_key : q.payout_key ≡ p.payout_key
  pub state : q.state ≡ p.state

pub SameKeys-refl : (p : DisbursementRow) → SameKeys p p
SameKeys-refl p = record {
  id = refl;
  amount = refl;
  originator = refl;
  payout_key = refl;
  state = refl;
}

assign-SameKeys : (f : Field) (p : DisbursementRow) → SameKeys p (assign f p)
unfolding assign
assign-SameKeys (set_conversation_id v) p = record {
  id = refl;
  amount = refl;
  originator = refl;
  payout_key = refl;
  state = refl;
}
assign-SameKeys _ p = record {
  id = refl;
  amount = refl;
  originator = refl;
  payout_key = refl;
  state = refl;
}

pub assign_all-SameKeys : (fs : List Field) (p : DisbursementRow) → SameKeys p (assign_all fs p)
unfolding assign_all
assign_all-SameKeys [] p = SameKeys-refl p
assign_all-SameKeys (f ∷ fs) p =
    ground (arith, assign-SameKeys f p, assign_all-SameKeys fs (assign f p))

pub assign_all-Steady : (fs : List Field) (p : DisbursementRow) → Steady p (assign_all fs p)
assign_all-Steady fs p =
    let k = assign_all-SameKeys fs p in
    record {
      kept = record {
        id = k.id;
        amount = k.amount;
        originator = k.originator;
        payout_key = k.payout_key;
        chain = subst (Chain check_disbursement_transition p.state) (sym k.state) here;
      };
      settled = ap is_paid k.state;
    }

pub legal_from_unpaid :
    (s t : DisbursementState) → check_disbursement_transition s t ≡ true → is_paid s ≡ false
unfolding check_disbursement_transition is_paid
legal_from_unpaid s t h = ground arith

pub moved-Kept :
    (target : DisbursementState) (now : ℕ) (fs : List Field) (p : DisbursementRow)
    → check_disbursement_transition p.state target ≡ true
    → Kept p (moved target now fs p)
moved-Kept target now fs p legal =
    let k = assign_all-SameKeys fs (record p { state = target; updated_at = now }) in
    record {
      id = k.id;
      amount = k.amount;
      originator = k.originator;
      payout_key = k.payout_key;
      chain = subst (Chain check_disbursement_transition p.state) (sym k.state) (move legal here);
    }

pub moved_state :
    (target : DisbursementState) (now : ℕ) (fs : List Field) (p : DisbursementRow)
    → (moved target now fs p).state ≡ target
moved_state target now fs p =
    (assign_all-SameKeys fs (record p { state = target; updated_at = now })).state

pub legal_at :
    (id : String) (current target : DisbursementState) (q : DisbursementRow)
    → is_current id current q ≡ true
    → check_disbursement_transition current target ≡ true
    → check_disbursement_transition q.state target ≡ true
legal_at id current target q e legal =
    subst (λ s. check_disbursement_transition s target ≡ true)
      (sym (same_disbursement_state-eq q.state current (and-true (q.disbursement_id == id) _ e).1))
      legal

-- A transition to any state but SUCCEEDED is steady.
pub transition-IsSteady :
    (id : String) (current target : DisbursementState) (now : ℕ) (fs : List Field)
    → is_paid target ≡ false
    → IsSteady (transition id current target now fs)
unfolding transition
transition-IsSteady id current target now fs t =
    Keeps-if _ _ _
      (λ legal.
        Keeps-bind _ _
          (update_disbursements-IsSteady (is_current id current) (moved target now fs) (λ q e.
            let l = legal_at id current target q e legal in
            record {
              kept = moved-Kept target now fs q l;
              settled =
                  ap is_paid (moved_state target now fs q)
                  ∙ t
                  ∙ sym (legal_from_unpaid q.state target l);
            }))
          (λ n. Keeps-if _ _ _ (λ _. Keeps-pure tt) (λ _. Keeps-raise stale_state)))
      (λ _. Keeps-raise illegal_transition)
