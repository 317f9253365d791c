-- ===== src/Payments/Quiet/Statements.antt =====
-- The statements of the store that are quiet.
use devops_g_9_tillflow.Base.{
  ℕ, String, ◌≡◌, refl, inl, inr, Bool, true, false, Option, List, [], ◌∷◌, arith, Bool-cases, ◌==◌,
  and-true, ap, sym, ◌∙◌, subst,
}
use devops_g_9_tillflow.Base.Table.{update_where, Rowwise}
use devops_g_9_tillflow.Base.Table.Update.{Rowwise-update}
use devops_g_9_tillflow.Payments.States.{PaymentState, check_transition}
use devops_g_9_tillflow.Payments.States.Machine.{Chain, here, move, same_state-eq}
use devops_g_9_tillflow.Payments.Tables.{
  Operation, PublicBody, PaymentRow, EventType, AnomalyKind, Severity, CallbackRow, UnmatchedRow,
  Db,
}
use devops_g_9_tillflow.Payments.Schema.{payments_ok}
use devops_g_9_tillflow.Payments.Tx.{stale_state, illegal_transition}
use devops_g_9_tillflow.Payments.Store.{
  idem_complete, outbox, anomaly, record_callback, record_unmatched,
}
use devops_g_9_tillflow.Payments.Store.Payment.{
  Field, set_provider_ref, assign, assign_all, update_payments, moved, is_current, transition,
}
use devops_g_9_tillflow.Payments.Quiet.{
  quiet_frame, Quiet, Quiet-refl, QuietDb, QuietDb-refl, IsQuiet, is_succeeded,
}
use devops_g_9_tillflow.Payments.Tx.Keeps.{Keeps-pure, Keeps-raise, Keeps-bind, Keeps-if}

-- What does not touch the payments and the ledger.
pub same_money-Quiet :
    (d e : Db) → e.ledger_entries ≡ d.ledger_entries → e.payments ≡ d.payments → QuietDb d e
same_money-Quiet d e l p = record {
  ledger = l;
  rows = subst (Rowwise Quiet d.payments) (sym p) (QuietDb-refl d).rows;
  valid = λ v. rw p v;
}

pub idem_complete-IsQuiet :
    (tenant : String) (op : Operation) (key : String) (code : ℕ) (body : PublicBody)
    (resource : String)
    → IsQuiet (idem_complete tenant op key code body resource)
unfolding idem_complete
idem_complete-IsQuiet tenant op key code body resource = record {
  at = λ d. same_money-Quiet d _ refl refl;
}

pub outbox-IsQuiet :
    (id : String) (e : EventType) (tenant : String) (amount now : ℕ)
    → IsQuiet (outbox id e tenant amount now)
unfolding outbox
outbox-IsQuiet id e tenant amount now = record {
  at = λ d. same_money-Quiet d _ (ground arith) (ground arith);
}

pub anomaly-IsQuiet :
    (k : AnomalyKind) (s : Severity) (id ref : Option String) (now : ℕ)
    → IsQuiet (anomaly k s id ref now)
unfolding anomaly
anomaly-IsQuiet k s id ref now = record { at = λ d. same_money-Quiet d _ refl refl }

pub record_callback-IsQuiet : (r : CallbackRow) → IsQuiet (record_callback r)
unfolding record_callback
record_callback-IsQuiet r = record { at = λ d. same_money-Quiet d _ (ground arith) (ground arith) }

pub record_unmatched-IsQuiet : (r : UnmatchedRow) → IsQuiet (record_unmatched r)
unfolding record_unmatched
record_unmatched-IsQuiet r = record { at = λ d. same_money-Quiet d _ (ground arith) (ground arith) }

-- An UPDATE that is quiet on the rows that it touches.
pub update_payments-IsQuiet :
    (c : PaymentRow → Bool) (f : PaymentRow → PaymentRow)
    → ((q : PaymentRow) → c q ≡ true → Quiet q (f q))
    → IsQuiet (update_payments c f)
unfolding update_payments
update_payments-IsQuiet c f h = record {
  at = λ d. elim (Bool-cases (payments_ok (update_where c f d.payments))) [
    | inl e ↦ rw e (record {
      ledger = refl;
      rows = Rowwise-update Quiet c f Quiet-refl d.payments (λ q m. h q);
      valid = λ v. e;
    })
    | inr e ↦ rw e (QuietDb-refl d)
  ];
}

-- The fields are none that name the provider's reference.
abbrev pub KeepsRef : Field → Type 0
KeepsRef (set_provider_ref r) = ⊥
KeepsRef _ = Unit

abbrev pub AllKeepRef : List Field → Type 0
AllKeepRef [] = Unit
AllKeepRef (f ∷ fs) = KeepsRef f × AllKeepRef fs

pub record SameKeys (p q : PaymentRow) : Type 0 where
  pub id : q.payment_id ≡ p.payment_id
  pub amount : q.amount_minor ≡ p.amount_minor
  pub state : q.state ≡ p.state

assign-SameKeys : (f : Field) (p : PaymentRow) → SameKeys p (assign f p)
unfolding assign
assign-SameKeys (set_provider_ref v) p = record { id = refl; amount = refl; state = refl }
assign-SameKeys _ p = record { id = refl; amount = refl; state = refl }

pub assign_all-SameKeys : (fs : List Field) (p : PaymentRow) → SameKeys p (assign_all fs p)
unfolding assign_all
assign_all-SameKeys [] p = record { id = refl; amount = refl; state = refl }
assign_all-SameKeys (f ∷ fs) p =
    ground (arith, assign-SameKeys f p, assign_all-SameKeys fs (assign f p))

assign_ref : (f : Field) (p : PaymentRow) → KeepsRef f → (assign f p).provider_ref ≡ p.provider_ref
unfolding assign
assign_ref (set_provider_ref v) p h = absurd h
assign_ref _ p h = refl

pub assign_all_ref :
    (fs : List Field) (p : PaymentRow)
    → AllKeepRef fs
    → (assign_all fs p).provider_ref ≡ p.provider_ref
unfolding assign_all
assign_all_ref [] p h = refl
assign_all_ref (f ∷ fs) p h = cc (assign_ref f p h.0, assign_all_ref fs (assign f p) h.1)

pub assign_all-Quiet :
    (fs : List Field) → AllKeepRef fs → (p : PaymentRow) → Quiet p (assign_all fs p)
assign_all-Quiet fs h p =
    let k = assign_all-SameKeys fs p in
    record {
      id = k.id;
      amount = k.amount;
      ref = assign_all_ref fs p h;
      settled = ap is_succeeded k.state;
      chain = subst (Chain check_transition p.state) (sym k.state) here;
    }

pub legal_from_unsettled :
    (s t : PaymentState) → check_transition s t ≡ true → is_succeeded s ≡ false
unfolding check_transition is_succeeded
legal_from_unsettled s t h = ground arith

moved-Quiet :
    (target : PaymentState) (now : ℕ) (fs : List Field)
    → AllKeepRef fs
    → is_succeeded target ≡ false
    → (p : PaymentRow) → check_transition p.state target ≡ true
    → Quiet p (moved target now fs p)
moved-Quiet target now fs h t p legal =
    let p' : PaymentRow = record p { state = target; updated_at = now } in
    let k = assign_all-SameKeys fs p' in
    record {
      id = k.id;
      amount = k.amount;
      ref = assign_all_ref fs p' h;
      settled = ap is_succeeded k.state ∙ t ∙ sym (legal_from_unsettled p.state target legal);
      chain = subst (Chain check_transition p.state) (sym k.state) (move legal here);
    }

pub legal_at :
    (id : String) (current target : PaymentState) (q : PaymentRow)
    → is_current id current q ≡ true
    → check_transition current target ≡ true
    → check_transition q.state target ≡ true
legal_at id current target q e legal =
    subst (λ s. check_transition s target ≡ true)
      (sym (same_state-eq q.state current (and-true (q.payment_id == id) _ e).1)) legal

-- A transition to any state but SUCCEEDED is quiet if it keeps the reference.
pub transition-IsQuiet :
    (id : String) (current target : PaymentState) (now : ℕ) (fs : List Field)
    → AllKeepRef fs
    → is_succeeded target ≡ false
    → IsQuiet (transition id current target now fs)
unfolding transition
transition-IsQuiet id current target now fs h t =
    Keeps-if _ _ _
      (λ legal.
        Keeps-bind _ _
          (update_payments-IsQuiet (is_current id current) (moved target now fs)
            (λ q e. moved-Quiet target now fs h t q (legal_at id current target q e legal)))
          (λ n. Keeps-if _ _ _ (λ _. Keeps-pure tt) (λ _. Keeps-raise stale_state)))
      (λ _. Keeps-raise illegal_transition)
