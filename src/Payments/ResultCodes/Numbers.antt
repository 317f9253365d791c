-- ===== src/Payments/ResultCodes/Numbers.antt =====
-- The number that `int` reads in a text of digits.
use Prim.Native.Nat.{◌^◌}
use native.Mathlib.Omega.{pow_step}
use devops_g_9_tillflow.Base.{
  ℕ, ◌≡◌, refl, ◌∙◌, ap, true, false, some, none, List, [], ◌∷◌, arith, and-true, Bool-cases, inl,
  inr, ◌+◌, ◌*◌, Bool, Option, Option-cases, ◌&&◌, leb, sym,
}
use devops_g_9_tillflow.Base.Text.{all_in, length}
use devops_g_9_tillflow.Payments.ResultCodes.Digits.{
  decimal_digit, is_decimal, value_from, max_str_digits, int_of,
}

-- What the digits write, each at its place.
abbrev pub digit_value : Option ℕ → ℕ
digit_value none = 0
digit_value (some d) = d

unfoldable pub place_value : List ℕ → ℕ
place_value [] = 0
place_value (x ∷ xs) = digit_value (decimal_digit x) * 10 ^ length xs + place_value xs

-- Whether `int` reads a text of digits: they are all decimal, and not more than the limit.
unfoldable pub is_readable : List ℕ → Bool
is_readable ds = all_in is_decimal ds && leb (length ds) max_str_digits

one_place : (n d p v : ℕ) → (n * 10 + d) * p + v ≡ n * (10 * p) + (d * p + v)
one_place n d p v = omega arith

value_from-decimal :
    (ds : List ℕ) (n : ℕ)
    → all_in is_decimal ds ≡ true
    → value_from n ds ≡ some (n * 10 ^ length ds + place_value ds)
unfolding value_from all_in place_value is_decimal
value_from-decimal [] n h = ap some (omega arith)
value_from-decimal (x ∷ xs) n h = elim (Option-cases (decimal_digit x)) [
  | inl e ↦ absurd (ground (arith, e))
  | inr (d, e) ↦
      rw (e, value_from)
        (value_from-decimal xs (n * 10 + d) (ground arith)
          ∙ ap some (
              one_place n d (10 ^ length xs) (place_value xs)
              ∙ ap (λ (t : ℕ). n * t + (d * 10 ^ length xs + place_value xs))
                  (sym (pow_step 10 (length xs)))))
]

value_from-other : (ds : List ℕ) (n : ℕ) → all_in is_decimal ds ≡ false → value_from n ds ≡ none
unfolding value_from all_in is_decimal
value_from-other [] n h = absurd (cc h)
value_from-other (x ∷ xs) n h = elim (Option-cases (decimal_digit x)) [
  | inl e ↦ rw (e, value_from) refl
  | inr (d, e) ↦ rw (e, value_from) (value_from-other xs (n * 10 + d) (ground arith))
]

pub int_of-readable : (ds : List ℕ) → is_readable ds ≡ true → int_of ds ≡ some (place_value ds)
unfolding is_readable int_of
int_of-readable ds h =
    rw (and-true (all_in is_decimal ds) _ h).1
      (value_from-decimal ds 0 (and-true (all_in is_decimal ds) _ h).0 ∙ ap some (omega arith))

pub int_of-unreadable : (ds : List ℕ) → is_readable ds ≡ false → int_of ds ≡ none
unfolding is_readable int_of
int_of-unreadable ds h = elim (Bool-cases (leb (length ds) max_str_digits)) [
  | inr long ↦ rw long refl
  | inl short ↦ rw short (value_from-other ds 0 (ground arith))
]
