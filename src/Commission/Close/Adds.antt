-- ===== src/Commission/Close/Adds.antt =====
-- What a close adds to an attendant's account: the amounts of the payout rows and the carry forward.
use devops_g_9_tillflow.Base.{
  ℕ, ◌+◌, String, ◌≡◌, refl, Bool, true, false, ◌&&◌, ◌==◌, some, List, [], ◌∷◌, arith, Bool-cases,
  if◌then◌else◌, test_of_eq, inl, inr, ◌⊎◌,
}
use devops_g_9_tillflow.Base.Table.{find?, any_where, update_where, sum_of}
use devops_g_9_tillflow.Commission.Calc.{ClosePlan, fold_carry_forward, plan_of}
use devops_g_9_tillflow.Commission.Tables.{LedgerRow, CarryRow, Db, is_live_on, is_carry_of}
use devops_g_9_tillflow.Commission.Close.{
  insert_ledger, carry_of, set_carry, today_total, carry_before, planned_row, follow_plan,
  close_attendant,
}

abbrev is_row_of : (tenant_id attendant_id : String) → LedgerRow → Bool
is_row_of tenant_id attendant_id r = r.tenant_id == tenant_id && r.attendant_id == attendant_id

-- All that was ever put on a payout row for the attendant, and what waits in the carry forward.
unfoldable pub planned_total : (tenant_id attendant_id : String) → Db → ℕ
planned_total tenant_id attendant_id d =
    sum_of (λ r. if is_row_of tenant_id attendant_id r then r.amount_minor else 0) d.payout_ledger

abbrev pub account : (tenant_id attendant_id : String) → Db → ℕ
account tenant_id attendant_id d =
    planned_total tenant_id attendant_id d + carry_before tenant_id attendant_id d

is_carry_of_refl :
    (t a : String) (n now : ℕ)
    → is_carry_of t a
        (record { tenant_id = t; attendant_id = a; amount_minor = n; updated_at = now })
      ≡ true
unfolding is_carry_of
is_carry_of_refl t a n now = rw (test_of_eq t t refl, test_of_eq a a refl)

found_amount :
    (t a : String) (n now : ℕ) (xs : List CarryRow)
    → any_where (is_carry_of t a) xs ≡ true
    → carry_of (
        find? (is_carry_of t a) (
          update_where (is_carry_of t a) (λ r. record r { amount_minor = n; updated_at = now }) xs))
      ≡ n
unfolding find? any_where update_where is_carry_of
found_amount t a n now [] h = absurd (cc h)
found_amount t a n now (x ∷ xs) h = ground (arith, found_amount t a n now xs)

-- Setting the carry of one attendant is read back.
carry_of-set_carry :
    (t a : String) (n now : ℕ) (xs : List CarryRow)
    → carry_of (find? (is_carry_of t a) (set_carry t a n now xs)) ≡ n
unfolding set_carry find?
carry_of-set_carry t a n now xs = elim (Bool-cases (any_where (is_carry_of t a) xs)) [
  | inl e ↦ rw e (found_amount t a n now xs e)
  | inr e ↦ rw (e, is_carry_of_refl t a n now)
]

plan_exact :
    (available m : ℕ)
    → (plan_of available m).payable_minor + (plan_of available m).new_carry_forward_minor
      ≡ available
unfolding plan_of
plan_exact available m = ground arith

module _ (key_for : String → String → String → String) (t a b msisdn ledger_id : String)
    (now : ℕ) where
  follow_plan-account :
      (plan : ClosePlan) (d : Db) {closed : Bool} {e : Db}
      → follow_plan key_for t a b msisdn ledger_id now plan d ≡ some (closed, e)
      → account t a e ≡ planned_total t a d + plan.payable_minor + plan.new_carry_forward_minor
  unfolding follow_plan insert_ledger planned_total carry_before planned_row sum_of
  follow_plan-account plan d {closed} {e} h = ground (
    arith,
    carry_of-set_carry t a plan.new_carry_forward_minor now d.carry_forward,
    test_of_eq t t refl,
    test_of_eq a a refl,
  )

  -- When the transaction of close_attendant commits, then either the day had a live payout row already,
  -- and nothing at all was changed, or the amounts of the attendant's payout rows and the carry forward
  -- have together grown by the exact commission of the day's items.
  pub close_adds_the_day :
      (payout_min_minor : ℕ) (d : Db) {closed : Bool} {e : Db}
      → close_attendant key_for t payout_min_minor a b msisdn ledger_id now d ≡ some (closed, e)
      → ((any_where (is_live_on t a b) d.payout_ledger ≡ true) × (closed ≡ false) × (e ≡ d))
        ⊎ ((any_where (is_live_on t a b) d.payout_ledger ≡ false)
            × (account t a e ≡ account t a d + today_total t a b d))
  unfolding close_attendant fold_carry_forward
  close_adds_the_day m d {closed} {e} h =
      elim (Bool-cases (any_where (is_live_on t a b) d.payout_ledger)) [
        | inl live ↦ let k = rw live at h in inl (live, cc k, cc k)
        | inr free ↦
            let k = rw free at h in
            inr (
              free,
              omega (
                arith,
                follow_plan-account _ d k,
                plan_exact (today_total t a b d + carry_before t a d) m,
              ),
            )
      ]

  -- A day with a live row is left alone, and one without is counted.
  pub live_day_stays :
      (m : ℕ) (d : Db) {closed : Bool} {e : Db}
      → any_where (is_live_on t a b) d.payout_ledger ≡ true
      → close_attendant key_for t m a b msisdn ledger_id now d ≡ some (closed, e)
      → e ≡ d
  live_day_stays m d live h = elim (close_adds_the_day m d h) [
    | inl (_, _, same) ↦ same
    | inr (free, _) ↦ absurd (cc (live, free))
  ]

  pub open_day_adds :
      (m : ℕ) (d : Db) {closed : Bool} {e : Db}
      → any_where (is_live_on t a b) d.payout_ledger ≡ false
      → close_attendant key_for t m a b msisdn ledger_id now d ≡ some (closed, e)
      → account t a e ≡ account t a d + today_total t a b d
  open_day_adds m d free h = elim (close_adds_the_day m d h) [
    | inl (live, _, _) ↦ absurd (cc (live, free))
    | inr (_, sum) ↦ sum
  ]
