-- ===== src/Commission/Calc/Tests.antt =====
-- A day with 1234.56 shillings, and one sale.
use devops_g_9_tillflow.Base.{◌+◌, ◌*◌, ◌%◌, ◌≤◌, ◌<◌, ◌≡◌, ◌⊎◌, some, refl}
use devops_g_9_tillflow.Base.Integers.{pos}
use devops_g_9_tillflow.Commission.Calc.{
  ClosePlan, plan_of, fold_carry_forward, sale_commission_minor,
}
use devops_g_9_tillflow.Commission.Calc.Exact.{close_is_exact, commission_rounds_down}

abbrev plan : ClosePlan
plan = record { payable_minor = 123500; new_carry_forward_minor = 6 }

plans : fold_carry_forward (pos 123456) (pos 50) 1000 ≡ some plan
unfolding fold_carry_forward plan_of
plans = refl

commission : sale_commission_minor (pos 12345) (pos 250) ≡ some 308
unfolding sale_commission_minor
commission = refl

close_is_exact_example :
    (plan.payable_minor + plan.new_carry_forward_minor ≡ 123456 + 50)
    × (plan.payable_minor % 100 ≡ 0)
    × ((plan.payable_minor ≡ 0) ⊎ (1000 ≤ plan.payable_minor))
    × ((plan.new_carry_forward_minor < 100) ⊎ (plan.new_carry_forward_minor < 1000 + 100))
close_is_exact_example = close_is_exact 123456 50 1000 plans

commission_rounds_down_example : (308 * 10000 ≤ 12345 * 250) × (12345 * 250 < 308 * 10000 + 10000)
commission_rounds_down_example = commission_rounds_down 12345 250 commission
