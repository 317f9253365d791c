-- ===== src/Commission/Close/Ready.antt =====
-- No attendant's transaction is refused in a close of a day.
use devops_g_9_tillflow.Base.{
  ℕ, ◌+◌, String, ◌≡◌, refl, sym, ◌∙◌, ap, subst, ◌⊎◌, inl, inr, Bool, true, false, ◌==◌, ltb,
  Option, some, List, [], ◌∷◌, arith, Bool-cases, if◌then◌else◌, eq_of_test, test_of_eq,
}
use devops_g_9_tillflow.Base.Table.{any_where}
use devops_g_9_tillflow.Commission.Calc.{ClosePlan, fold_carry_forward}
use devops_g_9_tillflow.Commission.Tables.{LedgerRow, Db, is_failed, is_live_on, ledger_ok}
use devops_g_9_tillflow.Commission.Close.{insert_ledger, planned_row, follow_plan, close_attendant}
use devops_g_9_tillflow.Commission.Close.Day.{finished, Draws, close_attendants}
use devops_g_9_tillflow.Commission.Close.Valid.{Valid, IsFresh, close_attendant_commits}

module _ (key_for : String → String → String → String) (m : ℕ) (t b : String) (draws : Draws) where
  -- The attendant's id is still free, or the attendant's day is closed.
  abbrev pub Ready : Db → String → Type 0
  Ready d a = IsFresh (draws.ledger_id a) d ⊎ (any_where (is_live_on t a b) d.payout_ledger ≡ true)

  abbrev row : String → String → ℕ → LedgerRow
  row a msisdn amount = planned_row key_for t a b msisdn (draws.ledger_id a) amount (draws.now a)

  abbrev one_close : String → String → Db → Option (Bool × Db)
  one_close a msisdn d = close_attendant key_for t m a b msisdn (draws.ledger_id a) (draws.now a) d

  abbrev Adds : String → String → Db → Db → Type 0
  Adds a msisdn d e =
      (e.payout_ledger ≡ d.payout_ledger)
      ⊎ ((amount : ℕ) × (e.payout_ledger ≡ row a msisdn amount ∷ d.payout_ledger))

  follow_plan-Adds :
      (a msisdn : String) (plan : ClosePlan) (d : Db) {closed : Bool} {e : Db}
      → follow_plan key_for t a b msisdn (draws.ledger_id a) (draws.now a) plan d ≡ some (closed, e)
      → Adds a msisdn d e
  unfolding follow_plan insert_ledger
  follow_plan-Adds a msisdn plan d {closed} {e} h = elim (Bool-cases (ltb 0 plan.payable_minor)) [
    | inr no_due ↦ let k = rw no_due at h in inl (cc k)
    | inl due ↦ elim (Bool-cases (ledger_ok (row a msisdn plan.payable_minor ∷ d.payout_ledger))) [
      | inr refused ↦ absurd (cc (rw (due, refused) at h))
      | inl fits ↦ let k = rw (due, fits) at h in inr (plan.payable_minor, cc k)
    ]
  ]

  close_attendant-Adds :
      (a msisdn : String) (d : Db) {closed : Bool} {e : Db}
      → one_close a msisdn d ≡ some (closed, e)
      → Adds a msisdn d e
  unfolding close_attendant fold_carry_forward
  close_attendant-Adds a msisdn d {closed} {e} h =
      elim (Bool-cases (any_where (is_live_on t a b) d.payout_ledger)) [
        | inl live ↦ let k = rw live at h in inl (cc k)
        | inr free ↦ let k = rw free at h in follow_plan-Adds a msisdn _ d k
      ]

  row_live :
      (a msisdn : String) (amount : ℕ) (xs : List LedgerRow)
      → any_where (is_live_on t a b) (row a msisdn amount ∷ xs) ≡ true
  unfolding any_where is_live_on planned_row is_failed
  row_live a msisdn amount xs =
      ground (arith, test_of_eq t t refl, test_of_eq a a refl, test_of_eq b b refl)

  module _ (differ : (x y : String) → draws.ledger_id x ≡ draws.ledger_id y → x ≡ y) where
    Ready-planned_row :
        (a x msisdn : String) (amount : ℕ) (d e : Db)
        → e.payout_ledger ≡ row a msisdn amount ∷ d.payout_ledger
        → Ready d x
        → Ready e x
    unfolding any_where planned_row
    Ready-planned_row a x msisdn amount d e h (inr live) =
        inr (ap (any_where (is_live_on t x b)) h ∙ ground arith)
    Ready-planned_row a x msisdn amount d e h (inl free) =
        elim (Bool-cases (draws.ledger_id x == draws.ledger_id a)) [
          | inr other ↦
              inl (ap (any_where (λ (q : LedgerRow). draws.ledger_id x == q.id)) h ∙ rw other free)
          | inl same ↦
              let y = differ x a (eq_of_test _ _ same) in
              inr (
                ap (any_where (is_live_on t x b)) h
                ∙ subst
                    (λ z.
                      any_where (is_live_on t z b) (row a msisdn amount ∷ d.payout_ledger) ≡ true)
                    (sym y) (row_live a msisdn amount d.payout_ledger))
        ]

    Ready-close_attendant :
        (a x msisdn : String) (d e : Db) → Adds a msisdn d e → Ready d x → Ready e x
    Ready-close_attendant a x msisdn d e (inl h) (inl r) =
        inl (ap (any_where (λ (q : LedgerRow). draws.ledger_id x == q.id)) h ∙ r)
    Ready-close_attendant a x msisdn d e (inl h) (inr r) =
        inr (ap (any_where (is_live_on t x b)) h ∙ r)
    Ready-close_attendant a x msisdn d e (inr (amount, h)) r =
        Ready-planned_row a x msisdn amount d e h r

    one_returns :
        (a msisdn : String) (d : Db)
        → Valid d
        → Ready d a
        → (closed : Bool) × (e : Db) × (one_close a msisdn d ≡ some (closed, e)) × Valid e
    unfolding close_attendant
    one_returns a msisdn d v (inl free) =
        close_attendant_commits key_for t a b msisdn (draws.ledger_id a) (draws.now a) m d v free
    one_returns a msisdn d v (inr live) = (false, d, rw live, v)

    pub attendants_return :
        (touched : List (String × String)) (n : ℕ) (d : Db)
        → Valid d
        → ((x : String) → Ready d x)
        → (k : ℕ) × (e : Db) × (close_attendants key_for m t b draws touched n d ≡ finished k e)
          × Valid e
    unfolding close_attendants
    attendants_return [] n d v r = (n, d, refl, v)
    attendants_return ((a, msisdn) ∷ rest) n d v r =
        let one = one_returns a msisdn d v (r a) in
        let adds = close_attendant-Adds a msisdn d one.2 in
        let more =
          attendants_return rest (if one.0 then n + 1 else n) one.1 one.3
            (λ x. Ready-close_attendant a x msisdn d one.1 adds (r x)) in
        (more.0, more.1, rw (one.2, close_attendants) more.2, more.3)
