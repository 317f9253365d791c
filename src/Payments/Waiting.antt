-- ===== src/Payments/Waiting.antt =====
-- Transactions of payments.py that only wait: a payment is left as it is or goes to a state in which
-- its outcome is open.
use devops_g_9_tillflow.Base.{
  ℕ, suc, String, ◌≡◌, refl, sym, ◌∙◌, subst, ◌⊎◌, inl, inr, Bool, true, false, Bool-cases, Option,
  List, [], ◌∷◌, arith,
}
use devops_g_9_tillflow.Base.Table.{update_where, Rowwise}
use devops_g_9_tillflow.Base.Table.Update.{Rowwise-refl, Rowwise-trans, Rowwise-update}
use devops_g_9_tillflow.Payments.States.{PaymentState, is_terminal, check_transition}
use devops_g_9_tillflow.Payments.Tables.{
  Operation, PublicBody, PaymentRow, AnomalyKind, Severity, Db,
}
use devops_g_9_tillflow.Payments.Schema.{payments_ok}
use devops_g_9_tillflow.Payments.Tx.{Tx, stale_state, illegal_transition}
use devops_g_9_tillflow.Payments.Tx.Keeps.{
  Frame, Keeps, Keeps-pure, Keeps-raise, Keeps-gets, Keeps-row_of, Keeps-bind, Keeps-if,
}
use devops_g_9_tillflow.Payments.Store.{idem_complete, anomaly}
use devops_g_9_tillflow.Payments.Store.Payment.{
  Field, has_id, assign_all, update_payments, moved, is_current, transition, set_reconcile_attempts,
  set_next_reconcile_at,
}
use devops_g_9_tillflow.Payments.Service.{Settings}
use devops_g_9_tillflow.Payments.Collect.Outcomes.{move_to_unknown, leave_pending, to_review}
use devops_g_9_tillflow.Payments.Collect.Create.{public_body}
use devops_g_9_tillflow.Payments.Collect.Reconcile.{
  escalate, inconclusive, sweep_attempt, for_each, sweep_tx,
}
use devops_g_9_tillflow.Payments.Quiet.Statements.{assign_all-SameKeys, legal_at}

-- A state in which the outcome is open and somebody has still to find it out.
abbrev pub IsOpen : PaymentState → Type 0
IsOpen s = (s ≡ PaymentState.unknown) ⊎ (s ≡ PaymentState.needs_review)

-- What a payment keeps, and where its state may go.
pub record Waited (p q : PaymentRow) : Type 0 where
  pub id : q.payment_id ≡ p.payment_id
  pub amount : q.amount_minor ≡ p.amount_minor
  pub goes : (q.state ≡ p.state) ⊎ ((is_terminal p.state ≡ false) × IsOpen q.state)

pub record WaitedDb (d e : Db) : Type 0 where
  pub ledger : e.ledger_entries ≡ d.ledger_entries
  pub rows : Rowwise Waited d.payments e.payments

Waited-refl : (p : PaymentRow) → Waited p p
Waited-refl p = record { id = refl; amount = refl; goes = inl refl }

goes_on :
    {r s t : PaymentState}
    → (s ≡ r) ⊎ ((is_terminal r ≡ false) × IsOpen s)
    → (t ≡ s) ⊎ ((is_terminal s ≡ false) × IsOpen t)
    → (t ≡ r) ⊎ ((is_terminal r ≡ false) × IsOpen t)
goes_on {r} (inl e) (inl f) = inl (f ∙ e)
goes_on {r} (inl e) (inr (l, o)) = inr (subst (λ x. is_terminal x ≡ false) e l, o)
goes_on {r} (inr (l, o)) (inl f) = inr (l, subst IsOpen (sym f) o)
goes_on {r} (inr (l, o)) (inr (k, o')) = inr (l, o')

Waited-trans : (p q r : PaymentRow) → Waited p q → Waited q r → Waited p r
Waited-trans p q r h k = record {
  id = k.id ∙ h.id;
  amount = k.amount ∙ h.amount;
  goes = goes_on h.goes k.goes;
}

pub WaitedDb-refl : (d : Db) → WaitedDb d d
WaitedDb-refl d = record { ledger = refl; rows = Rowwise-refl Waited Waited-refl d.payments }

pub WaitedDb-trans : (a b c : Db) → WaitedDb a b → WaitedDb b c → WaitedDb a c
WaitedDb-trans a b c h k = record {
  ledger = k.ledger ∙ h.ledger;
  rows = Rowwise-trans Waited Waited-trans a.payments b.payments c.payments h.rows k.rows;
}

instance abbrev pub waited_frame : Frame WaitedDb
waited_frame = record { same = WaitedDb-refl; trans = WaitedDb-trans }

-- The transaction only waits, whether it returns or raises.
abbrev pub OnlyWaits : {A : Type 0} → Tx A → Type 0
OnlyWaits m = Keeps WaitedDb m

idem_complete-OnlyWaits :
    (tenant : String) (op : Operation) (key : String) (code : ℕ) (body : PublicBody)
    (resource : String)
    → OnlyWaits (idem_complete tenant op key code body resource)
unfolding idem_complete
idem_complete-OnlyWaits tenant op key code body resource = record {
  at = λ d. record { ledger = refl; rows = (WaitedDb-refl d).rows };
}

anomaly-OnlyWaits :
    (k : AnomalyKind) (s : Severity) (id ref : Option String) (now : ℕ)
    → OnlyWaits (anomaly k s id ref now)
unfolding anomaly
anomaly-OnlyWaits k s id ref now = record {
  at = λ d. record { ledger = refl; rows = (WaitedDb-refl d).rows };
}

update_payments-OnlyWaits :
    (c : PaymentRow → Bool) (f : PaymentRow → PaymentRow)
    → ((q : PaymentRow) → c q ≡ true → Waited q (f q))
    → OnlyWaits (update_payments c f)
unfolding update_payments
update_payments-OnlyWaits c f h = record {
  at = λ d. elim (Bool-cases (payments_ok (update_where c f d.payments))) [
    | inl e ↦ rw e (record {
      ledger = refl;
      rows = Rowwise-update Waited c f Waited-refl d.payments (λ q m. h q);
    })
    | inr e ↦ rw e (WaitedDb-refl d)
  ];
}

legal_from_open : (s t : PaymentState) → check_transition s t ≡ true → is_terminal s ≡ false
unfolding check_transition is_terminal
legal_from_open s t h = ground arith

moved-Waited :
    (target : PaymentState) (now : ℕ) (fs : List Field)
    → IsOpen target
    → (p : PaymentRow) → check_transition p.state target ≡ true
    → Waited p (moved target now fs p)
moved-Waited target now fs o p legal =
    let k = assign_all-SameKeys fs (record p { state = target; updated_at = now }) in
    record {
      id = k.id;
      amount = k.amount;
      goes = inr (legal_from_open p.state target legal, subst IsOpen (sym k.state) o);
    }

transition-OnlyWaits :
    (id : String) (current target : PaymentState) (now : ℕ) (fs : List Field)
    → IsOpen target
    → OnlyWaits (transition id current target now fs)
unfolding transition
transition-OnlyWaits id current target now fs o =
    Keeps-if _ _ _
      (λ legal.
        Keeps-bind _ _
          (update_payments-OnlyWaits (is_current id current) (moved target now fs)
            (λ q e. moved-Waited target now fs o q (legal_at id current target q e legal)))
          (λ n. Keeps-if _ _ _ (λ _. Keeps-pure tt) (λ _. Keeps-raise stale_state)))
      (λ _. Keeps-raise illegal_transition)

to_unknown-OnlyWaits :
    (id : String) (s : PaymentState) (now : ℕ) (fs : List Field)
    → OnlyWaits (transition id s PaymentState.unknown now fs)
to_unknown-OnlyWaits id s now fs = transition-OnlyWaits id s _ now fs (inl refl)

review-OnlyWaits :
    (id : String) (s : PaymentState) (now : ℕ) (fs : List Field)
    → OnlyWaits (transition id s PaymentState.needs_review now fs)
review-OnlyWaits id s now fs = transition-OnlyWaits id s _ now fs (inr refl)

ruleset waiting_rules = (
  Keeps-pure, Keeps-raise, Keeps-gets, Keeps-row_of, Keeps-bind, Keeps-if, idem_complete-OnlyWaits,
  anomaly-OnlyWaits, to_unknown-OnlyWaits, review-OnlyWaits,
)

move_to_unknown-OnlyWaits :
    (now : ℕ) (p : PaymentRow) (raw : Option String) → OnlyWaits (move_to_unknown now p raw)
unfolding move_to_unknown
move_to_unknown-OnlyWaits now p raw = search waiting_rules

leave_pending-OnlyWaits : (now : ℕ) (p : PaymentRow) → OnlyWaits (leave_pending now p)
unfolding leave_pending
leave_pending-OnlyWaits now p = search (waiting_rules, move_to_unknown-OnlyWaits)

to_review-OnlyWaits : (now : ℕ) (p : PaymentRow) → OnlyWaits (to_review now p)
unfolding to_review
to_review-OnlyWaits now p = search (waiting_rules, leave_pending-OnlyWaits)

public_body-OnlyWaits : (id : String) → OnlyWaits (public_body id)
unfolding public_body
public_body-OnlyWaits id = search waiting_rules

escalate-OnlyWaits : (cfg : Settings) (now : ℕ) (p : PaymentRow) → OnlyWaits (escalate cfg now p)
unfolding escalate
escalate-OnlyWaits cfg now p = search (waiting_rules, to_review-OnlyWaits)

backoff-OnlyWaits :
    (id : String) (n t : ℕ)
    → OnlyWaits (
        update_payments
          (has_id id)
          (assign_all (set_reconcile_attempts n ∷ set_next_reconcile_at t ∷ [])))
backoff-OnlyWaits id n t = update_payments-OnlyWaits (has_id id) _ (λ q _.
    let k = assign_all-SameKeys (set_reconcile_attempts n ∷ set_next_reconcile_at t ∷ []) q in
    record { id = k.id; amount = k.amount; goes = inl k.state })

pub inconclusive-OnlyWaits :
    (cfg : Settings) (now : ℕ) (id : String) → OnlyWaits (inconclusive cfg now id)
unfolding inconclusive
inconclusive-OnlyWaits cfg now id = search (waiting_rules, escalate-OnlyWaits, backoff-OnlyWaits)

sweep_attempt-OnlyWaits : (now : ℕ) (p : PaymentRow) → OnlyWaits (sweep_attempt now p)
unfolding sweep_attempt
sweep_attempt-OnlyWaits now p = search (waiting_rules, public_body-OnlyWaits)

for_each-OnlyWaits :
    (step : PaymentRow → Tx (Unit {0})) (rows : List PaymentRow)
    → ((p : PaymentRow) → OnlyWaits (step p))
    → OnlyWaits (for_each step rows)
unfolding for_each
for_each-OnlyWaits step [] h = Keeps-pure 0
for_each-OnlyWaits step (p ∷ ps) h =
    Keeps-bind _ _ (h p)
      (λ _. Keeps-bind _ _ (for_each-OnlyWaits step ps h) (λ n. Keeps-pure (suc n)))

pub sweep_tx-OnlyWaits : (cfg : Settings) (now : ℕ) → OnlyWaits (sweep_tx cfg now)
unfolding sweep_tx
sweep_tx-OnlyWaits cfg now =
    search (waiting_rules, for_each-OnlyWaits, sweep_attempt-OnlyWaits, move_to_unknown-OnlyWaits)
      depth 12
