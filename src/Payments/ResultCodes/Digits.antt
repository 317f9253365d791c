-- ===== src/Payments/ResultCodes/Digits.antt =====
-- What `strip`, `isdigit` and `int` of Python 3.12 (Unicode 15.0) make of a text, for
-- services/_shared/mpesa/b2c_result_codes.py. `int` has the limit of 4300 digits that is set by default.
use devops_g_9_tillflow.Base.{
  ℕ, ◌+◌, ◌-◌, ◌*◌, Bool, true, false, ◌&&◌, ◌||◌, leb, Option, none, some, List, [], ◌∷◌,
  if◌then◌else◌,
}
use devops_g_9_tillflow.Base.Text.{all_in, length}

-- Whether a code point lies in one of the ranges, which include their ends.
unfoldable pub in_ranges : List (ℕ × ℕ) → ℕ → Bool
in_ranges [] c = false
in_ranges ((lo, hi) ∷ r) c = (leb lo c && leb c hi) || in_ranges r c

unfoldable pub space_ranges : List (ℕ × ℕ)
space_ranges =
    (9, 13)
    ∷ (28, 32)
    ∷ (133, 133)
    ∷ (160, 160)
    ∷ (5760, 5760)
    ∷ (8192, 8202)
    ∷ (8232, 8233)
    ∷ (8239, 8239)
    ∷ (8287, 8287)
    ∷ (12288, 12288)
    ∷ []

-- The characters that `strip` takes off.
unfoldable pub is_space : ℕ → Bool
is_space c = in_ranges space_ranges c

-- The zeros of the decimal digits; each is followed by the other nine.
unfoldable pub decimal_zeros : List ℕ
decimal_zeros =
    48 ∷ 1632 ∷ 1776 ∷ 1984 ∷ 2406 ∷ 2534 ∷ 2662 ∷ 2790 ∷ 2918 ∷ 3046 ∷ 3174 ∷ 3302 ∷ 3430 ∷ 3558
    ∷ 3664 ∷ 3792 ∷ 3872 ∷ 4160 ∷ 4240 ∷ 6112 ∷ 6160 ∷ 6470 ∷ 6608 ∷ 6784 ∷ 6800 ∷ 6992 ∷ 7088
    ∷ 7232 ∷ 7248 ∷ 42528 ∷ 43216 ∷ 43264 ∷ 43472 ∷ 43504 ∷ 43600 ∷ 44016 ∷ 65296 ∷ 66720 ∷ 68912
    ∷ 69734 ∷ 69872 ∷ 69942 ∷ 70096 ∷ 70384 ∷ 70736 ∷ 70864 ∷ 71248 ∷ 71360 ∷ 71472 ∷ 71904 ∷ 72016
    ∷ 72784 ∷ 73040 ∷ 73120 ∷ 73552 ∷ 92768 ∷ 92864 ∷ 93008 ∷ 120782 ∷ 120792 ∷ 120802 ∷ 120812
    ∷ 120822 ∷ 123200 ∷ 123632 ∷ 124144 ∷ 125264 ∷ 130032 ∷ []

-- The digits that are no decimal digits: superscripts, subscripts, circled digits and the like.
unfoldable pub other_digits : List (ℕ × ℕ)
other_digits =
    (178, 179)
    ∷ (185, 185)
    ∷ (4969, 4977)
    ∷ (6618, 6618)
    ∷ (8304, 8304)
    ∷ (8308, 8313)
    ∷ (8320, 8329)
    ∷ (9312, 9320)
    ∷ (9332, 9340)
    ∷ (9352, 9360)
    ∷ (9450, 9450)
    ∷ (9461, 9469)
    ∷ (9471, 9471)
    ∷ (10102, 10110)
    ∷ (10112, 10120)
    ∷ (10122, 10130)
    ∷ (68160, 68163)
    ∷ (69216, 69224)
    ∷ (69714, 69722)
    ∷ (127232, 127242)
    ∷ []

unfoldable pub digit_after : List ℕ → ℕ → Option ℕ
digit_after [] c = none
digit_after (z ∷ zs) c =
    let rest = digit_after zs c in if leb z c && leb c (z + 9) then some (c - z) else rest

-- The value of a decimal digit.
unfoldable pub decimal_digit : ℕ → Option ℕ
decimal_digit c = digit_after decimal_zeros c

abbrev pub is_some : Option ℕ → Bool
is_some none = false
is_some (some n) = true

unfoldable pub is_decimal : ℕ → Bool
is_decimal c = is_some (decimal_digit c)

unfoldable pub is_digit_char : ℕ → Bool
is_digit_char c = is_decimal c || in_ranges other_digits c

-- `isdigit`, which is false of the empty text.
unfoldable pub is_number_text : List ℕ → Bool
is_number_text [] = false
is_number_text (x ∷ xs) = is_digit_char x && all_in is_digit_char xs

unfoldable pub value_from : ℕ → List ℕ → Option ℕ
value_from n [] = some n
value_from n (x ∷ xs) = elim (decimal_digit x) [ none ↦ none | some d ↦ value_from (n * 10 + d) xs ]

abbrev pub max_str_digits : ℕ
max_str_digits = 4300

-- `int(text)` of a text of digits; `none` is the ValueError.
unfoldable pub int_of : List ℕ → Option ℕ
int_of s = if leb (length s) max_str_digits then value_from 0 s else none
