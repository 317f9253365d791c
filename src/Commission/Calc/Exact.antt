-- ===== src/Commission/Calc/Exact.antt =====
-- No cent is lost or made up.
use devops_g_9_tillflow.Base.{
  ℕ, ◌+◌, ◌*◌, ◌/◌, ◌%◌, ◌≤◌, ◌<◌, ◌≡◌, ◌⊎◌, inl, inr, refl, some, arith, ltb, subst, Bool-cases,
}
use devops_g_9_tillflow.Base.Integers.{pos}
use devops_g_9_tillflow.Commission.Calc.{
  ClosePlan, plan_of, fold_carry_forward, sale_commission_minor,
}

-- What a plan for the available amount is like.
abbrev IsExact : ℕ → ℕ → ClosePlan → Type 0
IsExact available minimum_minor plan =
    (plan.payable_minor + plan.new_carry_forward_minor ≡ available)
    × (plan.payable_minor % 100 ≡ 0)
    × ((plan.payable_minor ≡ 0) ⊎ (minimum_minor ≤ plan.payable_minor))
    × ((plan.new_carry_forward_minor < 100) ⊎ (plan.new_carry_forward_minor < minimum_minor + 100))

plan_of-IsExact :
    (available minimum_minor : ℕ)
    → IsExact available minimum_minor (plan_of available minimum_minor)
unfolding plan_of
plan_of-IsExact available minimum_minor =
    elim (Bool-cases (ltb (available / 100 * 100) minimum_minor)) [
      | inl below ↦
          rw (below, plan_of, IsExact) (omega arith, omega arith, inl refl, inr (ground arith))
      | inr reached ↦
          rw (reached, plan_of, IsExact)
            (omega arith, omega arith, inr (ground arith), inl (omega arith))
    ]

-- A day is closed exactly: the amount paid out and the new carry forward add up to the day's total and
-- the old carry forward, the amount is in whole shillings, it is nothing or reaches the minimum, and
-- the carry is less than a shilling or less than a shilling above the minimum.
pub close_is_exact :
    (today prior minimum_minor : ℕ) {plan : ClosePlan}
    → fold_carry_forward (pos today) (pos prior) minimum_minor ≡ some plan
    → (plan.payable_minor + plan.new_carry_forward_minor ≡ today + prior)
      × (plan.payable_minor % 100 ≡ 0)
      × ((plan.payable_minor ≡ 0) ⊎ (minimum_minor ≤ plan.payable_minor))
      × ((plan.new_carry_forward_minor < 100)
          ⊎ (plan.new_carry_forward_minor < minimum_minor + 100))
unfolding fold_carry_forward
close_is_exact today prior minimum_minor {plan} h =
    let same : plan_of (today + prior) minimum_minor ≡ plan = cc h in
    subst (IsExact (today + prior) minimum_minor) same
      (plan_of-IsExact (today + prior) minimum_minor)

-- The commission of a sale is the exact share rounded down: it is never above total * rate / 10000, and
-- less than one minor unit below it.
pub commission_rounds_down :
    (total rate : ℕ) {c : ℕ}
    → sale_commission_minor (pos total) (pos rate) ≡ some c
    → (c * 10000 ≤ total * rate) × (total * rate < c * 10000 + 10000)
unfolding sale_commission_minor
commission_rounds_down total rate {c} h = ground arith
