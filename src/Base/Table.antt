-- ===== src/Base/Table.antt =====
-- A table as the list of its rows, and what SELECT, UPDATE and COUNT do to it.
pub mod Update
pub mod Unique
use mathlib.Core.Path.{◌≡◌}
use mathlib.Core.Logic.{◌⊎◌}
use mathlib.Core.Bool.{Bool, true, false, ◌||◌}
use mathlib.Core.Option.{Option, none, some}
use mathlib.Core.List.{List, [], ◌∷◌}
use Prim.Native.Nat.{ℕ, ◌+◌}
use devops_g_9_tillflow.Base.Tests.{if◌then◌else◌}

module _ {ℓ} {R : Type ℓ} where
  -- SELECT … WHERE, first row.
  unfoldable pub find? : (R → Bool) → List R → Option R
  find? c [] = none
  find? c (x ∷ xs) = if c x then some x else find? c xs

  -- SELECT … WHERE, all rows.
  unfoldable pub rows_where : (R → Bool) → List R → List R
  rows_where c [] = []
  rows_where c (x ∷ xs) = let rest = rows_where c xs in if c x then x ∷ rest else rest

  -- EXISTS … WHERE
  unfoldable pub any_where : (R → Bool) → List R → Bool
  any_where c [] = false
  any_where c (x ∷ xs) = c x || any_where c xs

  -- UPDATE … SET f WHERE c
  unfoldable pub update_where : (R → Bool) → (R → R) → List R → List R
  update_where c f [] = []
  update_where c f (x ∷ xs) = (if c x then f x else x) ∷ update_where c f xs

  -- COUNT(*) … WHERE; also the row count of an UPDATE.
  unfoldable pub count_where : (R → Bool) → List R → ℕ
  count_where c [] = 0
  count_where c (x ∷ xs) = (if c x then 1 else 0) + count_where c xs

  -- SUM(v)
  unfoldable pub sum_of : (R → ℕ) → List R → ℕ
  sum_of v [] = 0
  sum_of v (x ∷ xs) = v x + sum_of v xs

-- Row types are small, so what follows is about those.
module _ {R : Type 0} where
  -- The row is in the table.
  abbrev pub In : R → List R → Type 0
  In q [] = ⊥
  In q (x ∷ xs) = (q ≡ x) ⊎ In q xs

  -- The two tables have the same rows in the same order, each related to its image.
  abbrev pub Rowwise : (R → R → Type 0) → List R → List R → Type 0
  Rowwise K [] [] = Unit
  Rowwise K (x ∷ xs) (y ∷ ys) = K x y × Rowwise K xs ys
  Rowwise K _ _ = ⊥
