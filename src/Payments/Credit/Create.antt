-- ===== src/Payments/Credit/Create.antt =====
-- The second transaction of `create_payment` and the books.
use devops_g_9_tillflow.Base.{
  ℕ, String, ◌≡◌, ◌≢◌, ◌⊎◌, inl, inr, refl, sym, ◌∙◌, ap, subst, Bool, true, false, List, arith,
  and-true, eq_of_test, ◌==◌, Option-cases, if◌then◌else◌,
}
use devops_g_9_tillflow.Base.Table.{In, find?, update_where}
use devops_g_9_tillflow.Base.Table.Update.{find?-In, Rowwise-update}
use devops_g_9_tillflow.Payments.States.{PaymentState, check_transition, same_state}
use devops_g_9_tillflow.Payments.States.Machine.{Chain, here, move, same_state-eq}
use devops_g_9_tillflow.Payments.Tables.{PaymentRow, PublicBody, payment_create, EventType, Db}
use devops_g_9_tillflow.Payments.Schema.{payments_ok}
use devops_g_9_tillflow.Payments.Tx.{Tx, ok, after, pure, >>=-ok, ◌>>=◌, ◌>>◌}
use devops_g_9_tillflow.Payments.Store.{idem_complete}
use devops_g_9_tillflow.Payments.Store.Payment.{
  Field, assign_all, update_payments, payment_by_id, has_id, is_current, moved, transition,
}
use devops_g_9_tillflow.Payments.Service.{ChargeAnswer}
use devops_g_9_tillflow.Payments.Collect.Outcomes.{event}
use devops_g_9_tillflow.Payments.Collect.Create.{
  record_answer, keep_reference, finish_create, public_body,
}
use devops_g_9_tillflow.Payments.Quiet.{
  quiet_frame, is_succeeded, Quiet-refl, QuietDb-refl, IsQuiet,
}
use devops_g_9_tillflow.Payments.Tx.Keeps.{Keeps-bind, Keeps-pure}
use devops_g_9_tillflow.Payments.Quiet.Service.{quiet_rules, event-IsQuiet, public_body-IsQuiet}
use devops_g_9_tillflow.Payments.Quiet.Statements.{assign_all-SameKeys}
use devops_g_9_tillflow.Payments.Credit.Kept.{
  Mild, MildDb, MildDb-of_Quiet, MildDb-trans, Mild-of_Quiet,
}
use devops_g_9_tillflow.Payments.Credit.Success.{transition-ok}

abbrev NotSucceeded : PaymentRow → Type 0
NotSucceeded p = is_succeeded p.state ≡ false

-- A row of the payment `id` that has not SUCCEEDED may change its reference.
opened_Mild :
    (id : String) (p q : PaymentRow)
    → p.payment_id ≡ id
    → NotSucceeded p
    → NotSucceeded q
    → q.payment_id ≡ p.payment_id
    → q.amount_minor ≡ p.amount_minor
    → Chain check_transition p.state q.state
    → Mild id p q
opened_Mild id p q named u v same amount chain = record {
  same_id = same;
  amount = amount;
  settled = v ∙ sym u;
  ref = λ h. absurd (impossible h);
  chain = chain;
}
  where
    impossible : (p.payment_id ≢ id) ⊎ (is_succeeded p.state ≡ true) → ⊥
    impossible (inl ne) = ne named
    impossible (inr s) = cc (s, u)

MildDb-update :
    (id : String) (c : PaymentRow → Bool) (f : PaymentRow → PaymentRow) (d e : Db)
    → ((q : PaymentRow) → In q d.payments → c q ≡ true → Mild id q (f q))
    → payments_ok (update_where c f d.payments) ≡ true
    → e ≡ record d { payments = update_where c f d.payments }
    → MildDb id d e
MildDb-update id c f d e h valid q = subst (MildDb id d) (sym q) (record {
  ledger = refl;
  rows = Rowwise-update (Mild id) c f (λ p. Mild-of_Quiet id p p (Quiet-refl p)) d.payments h;
  valid = λ _. valid;
})

transition_Mild :
    (id : String) (t : PaymentState) (now : ℕ) (fs : List Field) (d : Db) {e : Db}
    → is_succeeded t ≡ false
    → transition id PaymentState.created t now fs d ≡ ok tt e
    → MildDb id d e
unfolding is_succeeded
transition_Mild id t now fs d {e} u h =
    let k = transition-ok id PaymentState.created t now fs d h in
    MildDb-update id (is_current id PaymentState.created) (moved t now fs) d e
      (λ q m c.
        let c' = and-true (q.payment_id == id) _ c in
        let was = same_state-eq q.state PaymentState.created c'.1 in
        let s = assign_all-SameKeys fs (record q { state = t; updated_at = now }) in
        opened_Mild id q _ (eq_of_test q.payment_id id c'.0) (ap is_succeeded was)
          (ap is_succeeded s.state ∙ u) s.id s.amount
          (subst (Chain check_transition q.state) (sym s.state)
            (move (subst (λ a. check_transition a t ≡ true) (sym was) k.legal) here)))
      k.valid k.result

pub update_payments-ok :
    (c : PaymentRow → Bool) (f : PaymentRow → PaymentRow) (d : Db) {n : ℕ} {e : Db}
    → update_payments c f d ≡ ok n e
    → (payments_ok (update_where c f d.payments) ≡ true)
      × (e ≡ record d { payments = update_where c f d.payments })
unfolding update_payments
update_payments-ok c f d h = ground arith

keep_Mild :
    (id : String) (fs : List Field) (d : Db) {n : ℕ} {e : Db}
    → ((p : PaymentRow) → In p d.payments → p.payment_id ≡ id → NotSucceeded p)
    → update_payments (has_id id) (assign_all fs) d ≡ ok n e
    → MildDb id d e
keep_Mild id fs d {e = e} u h =
    let k = update_payments-ok (has_id id) (assign_all fs) d h in
    MildDb-update id (has_id id) (assign_all fs) d e
      (λ q m c.
        let named = eq_of_test q.payment_id id c in
        let s = assign_all-SameKeys fs q in
        opened_Mild id q _ named (u q m named) (ap is_succeeded s.state ∙ u q m named) s.id s.amount
          (subst (Chain check_transition q.state) (sym s.state) here))
      k.0 k.1

quiet_Mild :
    {A : Type 0} {id : String} (m : Tx A) (d : Db) {x : A} {e : Db}
    → IsQuiet m
    → m d ≡ ok x e
    → MildDb id d e
quiet_Mild {id = id} m d {e = e} q h =
    subst (MildDb id d) (ap after h) (MildDb-of_Quiet id d (after (m d)) (q.at d))

record_answer_Mild :
    (now : ℕ) (row : PaymentRow) (a : ChargeAnswer) (d : Db) {e : Db}
    → record_answer now row a d ≡ ok tt e
    → MildDb row.payment_id d e
unfolding record_answer is_succeeded
record_answer_Mild now row (ChargeAnswer.accepted a) d h =
    transition_Mild row.payment_id PaymentState.pending now _ d refl h
record_answer_Mild now row (ChargeAnswer.declined raw) d {e} h =
    let told = event now row EventType.payment_declined >> pure tt in
    let r = >>=-ok (transition row.payment_id _ _ now _) (λ _. told) d h in
    MildDb-trans row.payment_id d r.1 e
      (transition_Mild row.payment_id PaymentState.declined now _ d refl r.2)
      (quiet_Mild told r.1 (Keeps-bind _ _ (event-IsQuiet now row _) (λ _. Keeps-pure tt)) r.3)
record_answer_Mild now row ChargeAnswer.outcome_unknown d h =
    transition_Mild row.payment_id PaymentState.unknown now _ d refl h

keep_reference_Mild :
    (row : PaymentRow) (a : ChargeAnswer) (d : Db) {e : Db}
    → ((p : PaymentRow) → In p d.payments → p.payment_id ≡ row.payment_id → NotSucceeded p)
    → keep_reference row a d ≡ ok tt e
    → MildDb row.payment_id d e
unfolding keep_reference
keep_reference_Mild row (ChargeAnswer.accepted a) d {e} u h =
    let r = >>=-ok (update_payments (has_id row.payment_id) _) (λ _. pure tt) d h in
    subst (MildDb row.payment_id d) (ap after r.3) (keep_Mild row.payment_id _ d u r.2)
keep_reference_Mild row (ChargeAnswer.declined raw) d {e} u h =
    subst (MildDb row.payment_id d) (ap after h) (MildDb-of_Quiet _ d d (QuietDb-refl d))
keep_reference_Mild row ChargeAnswer.outcome_unknown d {e} u h =
    subst (MildDb row.payment_id d) (ap after h) (MildDb-of_Quiet _ d d (QuietDb-refl d))

answer_Mild :
    (now : ℕ) (row : PaymentRow) (a : ChargeAnswer) (t : Bool) (d : Db) {e : Db}
    → ((p : PaymentRow) → In p d.payments → p.payment_id ≡ row.payment_id → NotSucceeded p)
    → (if t then record_answer now row a else keep_reference row a) d ≡ ok tt e
    → MildDb row.payment_id d e
answer_Mild now row a true d u h = record_answer_Mild now row a d h
answer_Mild now row a false d u h = keep_reference_Mild row a d u h

-- The reply of the second transaction, stored with the key.
abbrev tell : String → String → String → Tx PublicBody
tell tenant key id = do
  body ← public_body id
  idem_complete tenant payment_create key 201 body id
  pure body

tell-IsQuiet : (tenant key id : String) → IsQuiet (tell tenant key id)
tell-IsQuiet tenant key id = search (quiet_rules, public_body-IsQuiet)

-- The second transaction, for a payment that has no reference yet.
pub finish_create_Mild :
    (now : ℕ) (id tenant key : String) (a : ChargeAnswer) (d : Db) {body : PublicBody} {e : Db}
    → ((p : PaymentRow) → In p d.payments → p.payment_id ≡ id → NotSucceeded p)
    → finish_create now id tenant key a d ≡ ok body e
    → MildDb id d e
unfolding finish_create payment_by_id
finish_create_Mild now id tenant key a d {e = e} u h =
    elim (Option-cases (find? (has_id id) d.payments)) [
      | inl q ↦ absurd (cc (rw q at h))
      | inr (p, q) ↦
          let named : p.payment_id ≡ id =
            eq_of_test p.payment_id id (find?-In (has_id id) d.payments q).1 in
          let answer =
            if same_state p.state PaymentState.created
            then record_answer now p a
            else keep_reference p a in
          let r = >>=-ok answer (λ _. tell tenant key id) d (rw q at h) in
          MildDb-trans id d r.1 e
            (subst (λ i. MildDb i d r.1) named
              (answer_Mild now p a (same_state p.state PaymentState.created) d
                (λ x m same. u x m (same ∙ named)) r.2))
            (quiet_Mild (tell tenant key id) r.1 (tell-IsQuiet tenant key id) r.3)
    ]
