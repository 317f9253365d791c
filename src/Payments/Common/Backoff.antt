-- ===== src/Payments/Common/Backoff.antt =====
-- The reconcile backoff grows up to an hour and stays there.
use native.Mathlib.Decide.{dec_lt}
use devops_g_9_tillflow.Base.{ℕ, suc, zero, ◌≤◌, ◌<◌, ◌≡◌, ◌⊎◌, inl, inr, arith, min}
use devops_g_9_tillflow.Payments.Common.{next_backoff}

next_backoff_hourly : (n : ℕ) → 6 ≤ n → next_backoff n ≡ 3600
unfolding next_backoff
next_backoff_hourly n h = let e : min n 6 ≡ 6 = omega arith in rw e

bounds :
    (n : ℕ)
    → (30 ≤ next_backoff n)
      × (next_backoff n ≤ next_backoff (suc n))
      × (next_backoff (suc n) ≤ 3600)
unfolding next_backoff
bounds zero = omega arith
bounds (suc zero) = omega arith
bounds (suc (suc zero)) = omega arith
bounds (suc (suc (suc zero))) = omega arith
bounds (suc (suc (suc (suc zero)))) = omega arith
bounds (suc (suc (suc (suc (suc zero))))) = omega arith
bounds (suc (suc (suc (suc (suc (suc n)))))) = omega (
  arith,
  next_backoff_hourly (suc (suc (suc (suc (suc (suc n)))))) (omega arith),
  next_backoff_hourly (suc (suc (suc (suc (suc (suc (suc n))))))) (omega arith),
)

-- The wait before the next reconcile attempt, in seconds, is between half a minute and an hour, never
-- shrinks from one attempt to the next, and is an hour from the seventh attempt on.
pub next_backoff_grows :
    (n : ℕ)
    → (30 ≤ next_backoff n)
      × (next_backoff n ≤ next_backoff (suc n))
      × (next_backoff (suc n) ≤ 3600)
      × ((n < 6) ⊎ (next_backoff n ≡ 3600))
next_backoff_grows n =
    let b = bounds n in
    (
      b.0,
      b.1,
      b.2,
      elim (dec_lt n 6) [ yes l ↦ inl l | no g ↦ inr (next_backoff_hourly n (omega arith)) ],
    )
