-- ===== src/Commission/Calc.antt =====
-- The money arithmetic of services/commission/ledger/calc.py. A `ValueError` is `none`. Dates are not
-- modelled.
pub mod Exact
pub mod Tests
use devops_g_9_tillflow.Base.{ℕ, ◌+◌, ◌-◌, ◌*◌, ◌/◌, Option, none, some, ltb, if◌then◌else◌}
use devops_g_9_tillflow.Base.Integers.{ℤ, pos}

abbrev pub shilling_minor : ℕ
shilling_minor = 100

unfoldable pub sale_commission_minor : ℤ → ℤ → Option ℕ
sale_commission_minor (pos total_minor) (pos commission_rate_bps) =
    some (total_minor * commission_rate_bps / 10000)
sale_commission_minor _ _ = none

pub record ClosePlan : Type 0 where
  pub payable_minor : ℕ
  pub new_carry_forward_minor : ℕ

-- What the day's total and the carry make available, once both are known to be no debts.
unfoldable pub plan_of : ℕ → ℕ → ClosePlan
plan_of available minimum_minor =
    let payable = available / shilling_minor * shilling_minor in
    if ltb payable minimum_minor
    then record { payable_minor = 0; new_carry_forward_minor = available }
    else record { payable_minor = payable; new_carry_forward_minor = available - payable }

unfoldable pub fold_carry_forward : ℤ → ℤ → (minimum_minor : ℕ) → Option ClosePlan
fold_carry_forward (pos today_total_minor) (pos prior_carry_forward_minor) minimum_minor =
    some (plan_of (today_total_minor + prior_carry_forward_minor) minimum_minor)
fold_carry_forward _ _ minimum_minor = none
