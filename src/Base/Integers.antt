-- ===== src/Base/Integers.antt =====
-- Python integers that a caller may send, over the native numbers.
use Prim.Native.Nat.{ℕ}
use mathlib.Core.Bool.{Bool, false}
use devops_g_9_tillflow.Base.Tests.{nat_eq}

-- `negsuc n` is -(n + 1).
pub data ℤ : Type 0 where
  pos : ℕ → ℤ
  negsuc : ℕ → ℤ

-- `n == m` for an integer and a number.
unfoldable pub is_number : ℤ → ℕ → Bool
is_number (pos n) m = nat_eq n m
is_number (negsuc n) m = false
