-- ===== src/Payments/System/Safety.antt =====
-- What holds of the tables after any interleaving.
use devops_g_9_tillflow.Base.{
  ℕ, String, ◌≡◌, ◌≢◌, refl, sym, ◌∙◌, ap, subst, inl, inr, Bool, true, false, not, none, List, [],
  ◌∷◌, ◌==◌, test_of_eq, Bool-cases, if◌then◌else◌,
}
use devops_g_9_tillflow.Base.Table.{In, rows_where, sum_of}
use devops_g_9_tillflow.Base.Table.Update.{Rowwise-In, Rowwise-In_back}
use devops_g_9_tillflow.Payments.States.{check_transition}
use devops_g_9_tillflow.Payments.States.Machine.{Chain, here}
use devops_g_9_tillflow.Payments.Tables.{PaymentRow, PublicBody, Db}
use devops_g_9_tillflow.Payments.Tx.{ok}
use devops_g_9_tillflow.Payments.Store.{anomaly}
use devops_g_9_tillflow.Payments.Service.{Settings, ChargeAnswer}
use devops_g_9_tillflow.Payments.Schema.{payments_ok}
use devops_g_9_tillflow.Payments.Collect.Parse.{PaymentRequest}
use devops_g_9_tillflow.Payments.Collect.Create.{finish_create, new_payment}
use devops_g_9_tillflow.Payments.Collect.Reconcile.{inconclusive, sweep_tx}
use devops_g_9_tillflow.Payments.Quiet.{is_succeeded}
use devops_g_9_tillflow.Payments.Quiet.Service.{inconclusive-IsQuiet, sweep_tx-IsQuiet}
use devops_g_9_tillflow.Payments.Quiet.Statements.{anomaly-IsQuiet}
use devops_g_9_tillflow.Payments.Ledger.{ledger_unique}
use devops_g_9_tillflow.Payments.Credit.{Balanced}
use devops_g_9_tillflow.Payments.Credit.Kept.{Mild, MildDb, Balanced-Mild}
use devops_g_9_tillflow.Payments.Credit.Advance.{Kept, Advanced, quiet_ok}
use devops_g_9_tillflow.Payments.Credit.Transactions.{apply_callback_ok, apply_status_ok}
use devops_g_9_tillflow.Payments.Credit.Begin.{Opened, begin_tx-ok, Balanced-Opened, fresh_id}
use devops_g_9_tillflow.Payments.Credit.Create.{finish_create_Mild}
use devops_g_9_tillflow.Payments.System.{
  Attempt, System, start, others, attempt_of, Step, begin, finish, die, callback, reconcile,
  give_up, sweep, note,
}

-- Waiting handlers have a payment, and it has no reference yet.
pub record Good (s : System) : Type 0 where
  pub balanced : Balanced s.db
  pub known :
      (a : Attempt)
      → In a s.waiting
      → (p : PaymentRow) × In p s.db.payments × (p.payment_id ≡ a.payment_id)
  pub unanswered :
      (a : Attempt)
      → In a s.waiting
      → (p : PaymentRow) → In p s.db.payments
      → p.payment_id ≡ a.payment_id
      → p.provider_ref ≡ none

pub Good-start : Good start
unfolding ledger_unique sum_of payments_ok
Good-start = record {
  balanced = record {
    valid = refl;
    books = record { paid = λ p m. absurd m; owned = λ e m. absurd m; unique = refl; total = refl };
  };
  known = λ a m. absurd m;
  unanswered = λ a m. absurd m;
}

-- A step that keeps the rows' ids and references and the waiting handlers.
keep_Good : (s u : System) → Good s → Advanced s.db u.db → u.waiting ≡ s.waiting → Good u
keep_Good s u g h w = record {
  balanced = h.balanced;
  known = λ a m.
      let k = g.known a (subst (In a) w m) in
      let r = Rowwise-In Kept s.db.payments u.db.payments h.rows k.1 in (r.0, r.1, r.2.id ∙ k.2);
  unanswered = λ a m p n e.
      let r = Rowwise-In_back Kept s.db.payments u.db.payments h.rows n in
      r.2.ref ∙ g.unanswered a (subst (In a) w m) r.0 r.1 (sym r.2.id ∙ e);
}

rows_where-In :
    (c : Attempt → Bool) (xs : List Attempt) (a : Attempt)
    → In a (rows_where c xs)
    → In a xs × (c a ≡ true)
unfolding rows_where
rows_where-In c (x ∷ xs) a m =
    let rest : In a (rows_where c xs) → In a xs × (c a ≡ true) = λ k. rows_where-In c xs a k in
    elim (Bool-cases (c x)) [
      | inr f ↦
          let k =
            rest
              (subst (In a) (ap (λ t. if t then x ∷ rows_where c xs else rows_where c xs) f) m) in
          (inr k.0, k.1)
      | inl t ↦
          elim (subst (In a) (ap (λ t. if t then x ∷ rows_where c xs else rows_where c xs) t) m) [
            | inl e ↦ (inl e, ap c e ∙ t)
            | inr n ↦ let k = rest n in (inr k.0, k.1)
          ]
    ]
rows_where-In c [] a m = absurd m

others-In :
    (id : String) (xs : List Attempt) (a : Attempt)
    → In a (others id xs)
    → In a xs × (a.payment_id ≢ id)
unfolding others
others-In id xs a m =
    let k = rows_where-In (λ x. not (x.payment_id == id)) xs a m in
    (k.0, λ e. cc (ap not (test_of_eq a.payment_id id e), k.1))

-- Without a reference a payment has not SUCCEEDED.
no_ref_no_success :
    {d : Db} (p : PaymentRow)
    → Balanced d
    → In p d.payments
    → p.provider_ref ≡ none
    → is_succeeded p.state ≡ false
no_ref_no_success p b m e = elim (Bool-cases (is_succeeded p.state)) [
  | inr f ↦ f
  | inl s ↦ absurd (cc ((b.books.paid p m s).2.provider_ref, e))
]

-- A payment that a waiting handler holds has not SUCCEEDED.
waiting_unsettled :
    {s : System} (a : Attempt)
    → Good s
    → In a s.waiting
    → (p : PaymentRow) → In p s.db.payments
    → p.payment_id ≡ a.payment_id
    → is_succeeded p.state ≡ false
waiting_unsettled a g w p m e = no_ref_no_success p g.balanced m (g.unanswered a w p m e)

finish_Good :
    (s u : System) (now : ℕ) (a : Attempt) (answer : ChargeAnswer) {body : PublicBody}
    → Good s
    → In a s.waiting
    → finish_create now a.payment_id a.tenant_id a.idem_key answer s.db ≡ ok body u.db
    → u.waiting ≡ others a.payment_id s.waiting
    → MildDb a.payment_id s.db u.db × Good u
finish_Good s u now a answer g w h v =
    let k =
      finish_create_Mild now a.payment_id a.tenant_id a.idem_key answer s.db
        (waiting_unsettled a g w) h in
    (
      k,
      record {
        balanced = Balanced-Mild g.balanced k;
        known = λ b m.
            let o = others-In a.payment_id s.waiting b (subst (In b) v m) in
            let p = g.known b o.0 in
            let r = Rowwise-In (Mild a.payment_id) s.db.payments u.db.payments k.rows p.1 in
            (r.0, r.1, r.2.same_id ∙ p.2);
        unanswered = λ b m p n e.
            let o = others-In a.payment_id s.waiting b (subst (In b) v m) in
            let r = Rowwise-In_back (Mild a.payment_id) s.db.payments u.db.payments k.rows n in
            let named : r.0.payment_id ≡ b.payment_id = sym r.2.same_id ∙ e in
            r.2.ref (inl (λ q. o.1 (sym named ∙ q))) ∙ g.unanswered b o.0 r.0 r.1 named;
      },
    )

module _ (s u : System) (now : ℕ) (id key fp : String) (req : PaymentRequest) where
  abbrev fresh : PaymentRow
  fresh = new_payment id key req now

  begin_Good :
      Good s
      → Opened id key fp req now s.db u.db
      → u.waiting ≡ attempt_of id key req ∷ s.waiting
      → Good u
  unfolding new_payment
  begin_Good g o w = record {
    balanced = Balanced-Opened id key fp req now g.balanced o;
    known = λ a m. known a (subst (In a) w m);
    unanswered = λ a m p n. unanswered a (subst (In a) w m) p (subst (In p) o.payments n);
  }
    where
      known :
          (a : Attempt)
          → In a (attempt_of id key req ∷ s.waiting)
          → (p : PaymentRow) × In p u.db.payments × (p.payment_id ≡ a.payment_id)
      known a (inl e) = (
        fresh,
        subst (In fresh) (sym o.payments) (inl refl),
        ap (λ (x : Attempt). x.payment_id) (sym e),
      )
      known a (inr m) = let k = g.known a m in (k.0, subst (In k.0) (sym o.payments) (inr k.1), k.2)

      unanswered :
          (a : Attempt)
          → In a (attempt_of id key req ∷ s.waiting)
          → (p : PaymentRow) → In p (fresh ∷ s.db.payments)
          → p.payment_id ≡ a.payment_id
          → p.provider_ref ≡ none
      unanswered a w' p (inl e) q = ap (λ (x : PaymentRow). x.provider_ref) e
      unanswered a (inl e) p (inr m) q =
          absurd (fresh_id id key fp req now p o m (q ∙ ap (λ (x : Attempt). x.payment_id) e))
      unanswered a (inr w') p (inr m) q = g.unanswered a w' p m q

-- What became of a payment: still there, with its amount, and only moved along legal transitions.
abbrev pub Onward : Db → PaymentRow → Type 0
Onward d p =
    (q : PaymentRow) × In q d.payments
    × (q.payment_id ≡ p.payment_id)
    × (q.amount_minor ≡ p.amount_minor)
    × Chain check_transition p.state q.state

abbrev pub ResultOf : System → System → Type 0
ResultOf s u = Good u × ((p : PaymentRow) → In p s.db.payments → Onward u.db p)

die_Good :
    (s u : System) (a : Attempt)
    → Good s
    → u.db ≡ s.db
    → u.waiting ≡ others a.payment_id s.waiting
    → Good u
die_Good s u a g h v = record {
  balanced = subst Balanced (sym h) g.balanced;
  known = λ b m.
      let o = others-In a.payment_id s.waiting b (subst (In b) v m) in
      let p = g.known b o.0 in (p.0, subst (λ (d : Db). In p.0 d.payments) (sym h) p.1, p.2);
  unanswered = λ b m p n e.
      let o = others-In a.payment_id s.waiting b (subst (In b) v m) in
      g.unanswered b o.0 p (subst (λ (d : Db). In p d.payments) h n) e;
}

Advanced-result :
    (s u : System) → Good s → Advanced s.db u.db → u.waiting ≡ s.waiting → ResultOf s u
Advanced-result s u g h w = (
  keep_Good s u g h w,
  λ p m.
      let r = Rowwise-In Kept s.db.payments u.db.payments h.rows m in
      (r.0, r.1, r.2.id, r.2.amount, r.2.chain),
)

module _ (cfg : Settings) where
  pub Step-result : (s u : System) → Good s → Step cfg s u → ResultOf s u
  Step-result s u g (begin now id key fp req h w c) =
      let o = begin_tx-ok cfg now id key fp req s.db h in
      (
        begin_Good s u now id key fp req g o w,
        λ p m. (p, subst (In p) (sym o.payments) (inr m), refl, refl, here),
      )
  Step-result s u g (finish now a answer body w h v c) =
      let k = finish_Good s u now a answer g w h v in
      (
        k.1,
        λ p m.
            let r = Rowwise-In (Mild a.payment_id) s.db.payments u.db.payments k.0.rows m in
            (r.0, r.1, r.2.same_id, r.2.amount, r.2.chain),
      )
  Step-result s u g (die a h w c) = (
    die_Good s u a g h w,
    λ p m. (p, subst (λ (d : Db). In p d.payments) (sym h) m, refl, refl, here),
  )
  Step-result s u g (callback now event confirmation result h w c) =
      Advanced-result s u g (apply_callback_ok now event confirmation s.db g.balanced h) w
  Step-result s u g (reconcile now id status result h w c) =
      Advanced-result s u g (apply_status_ok now id status s.db g.balanced h) w
  Step-result s u g (give_up now id state h w c) =
      Advanced-result s u g
        (quiet_ok (inconclusive cfg now id) s.db (inconclusive-IsQuiet cfg now id) g.balanced h) w
  Step-result s u g (sweep now counts h w c) =
      Advanced-result s u g
        (quiet_ok (sweep_tx cfg now) s.db (sweep_tx-IsQuiet cfg now) g.balanced h) w
  Step-result s u g (note now kind severity ref h w c) =
      Advanced-result s u g
        (quiet_ok (anomaly kind severity none ref now) s.db
          (anomaly-IsQuiet kind severity none ref now) g.balanced h)
        w
