-- ===== src/Payments/ResultCodes/Spaces.antt =====
-- No digit is white space.
use devops_g_9_tillflow.Base.{
  ℕ, ◌≡◌, refl, ◌∙◌, true, false, List, [], ◌∷◌, arith, and-true, Bool-cases, ◌⊎◌, inl, inr, ◌+◌,
  Bool, ◌&&◌, ◌||◌, leb, ltb, sym,
}
use devops_g_9_tillflow.Payments.ResultCodes.Digits.{
  in_ranges, space_ranges, is_space, decimal_zeros, other_digits, digit_after, decimal_digit,
  is_some, is_decimal, is_digit_char,
}

in_ranges-parts :
    (a b : ℕ) (r : List (ℕ × ℕ)) (c : ℕ)
    → in_ranges ((a, b) ∷ r) c ≡ true
    → (leb a c && leb c b ≡ true) ⊎ (in_ranges r c ≡ true)
unfolding in_ranges
in_ranges-parts a b r c h = ground arith

-- No range of the list meets the one from `lo` to `hi`.
clear_of : List (ℕ × ℕ) → ℕ → ℕ → Bool
clear_of [] lo hi = true
clear_of ((a, b) ∷ r) lo hi = (ltb b lo || ltb hi a) && clear_of r lo hi

clear_of-in_ranges :
    (r : List (ℕ × ℕ)) (lo hi c : ℕ)
    → clear_of r lo hi ≡ true
    → leb lo c && leb c hi ≡ true
    → in_ranges r c ≡ false
unfolding clear_of in_ranges
clear_of-in_ranges [] lo hi c h k = refl
clear_of-in_ranges ((a, b) ∷ r) lo hi c h k =
    let j = and-true (ltb b lo || ltb hi a) _ h in
    ground (arith, clear_of-in_ranges r lo hi c j.1 k)

all_clear : List (ℕ × ℕ) → List (ℕ × ℕ) → Bool
all_clear r [] = true
all_clear r ((lo, hi) ∷ s) = clear_of r lo hi && all_clear r s

all_clear-in_ranges :
    (r s : List (ℕ × ℕ)) (c : ℕ)
    → all_clear r s ≡ true
    → in_ranges s c ≡ true
    → in_ranges r c ≡ false
unfolding all_clear in_ranges
all_clear-in_ranges r [] c h k = absurd (cc k)
all_clear-in_ranges r ((lo, hi) ∷ s) c h k =
    let j = and-true (clear_of r lo hi) _ h in
    elim (in_ranges-parts lo hi s c k) [
      | inl here ↦ clear_of-in_ranges r lo hi c j.0 here
      | inr there ↦ all_clear-in_ranges r s c j.1 there
    ]

tens : List ℕ → List (ℕ × ℕ)
tens [] = []
tens (z ∷ zs) = (z, z + 9) ∷ tens zs

digit_after-tens : (zs : List ℕ) (c : ℕ) → is_some (digit_after zs c) ≡ in_ranges (tens zs) c
unfolding digit_after in_ranges tens
digit_after-tens [] c = refl
digit_after-tens (z ∷ zs) c = ground (arith, digit_after-tens zs c)

decimals_clear : all_clear space_ranges (tens decimal_zeros) ≡ true
unfolding all_clear clear_of tens space_ranges decimal_zeros
decimals_clear = refl

others_clear : all_clear space_ranges other_digits ≡ true
unfolding all_clear clear_of space_ranges other_digits
others_clear = refl

decimal_is_no_space : (c : ℕ) → is_decimal c ≡ true → is_space c ≡ false
unfolding is_decimal is_space decimal_digit
decimal_is_no_space c h =
    all_clear-in_ranges space_ranges (tens decimal_zeros) c decimals_clear
      (sym (digit_after-tens decimal_zeros c) ∙ h)

pub digit_is_no_space : (c : ℕ) → is_digit_char c ≡ true → is_space c ≡ false
unfolding is_digit_char
digit_is_no_space c h = elim (Bool-cases (is_decimal c)) [
  | inl decimal ↦ decimal_is_no_space c decimal
  | inr no_decimal ↦
      unfold is_space in all_clear-in_ranges space_ranges other_digits c others_clear (ground arith)
]
