-- ===== src/Payments/ResultCodes/Agree.antt =====
-- A payout code may come as a number or as a text.
use devops_g_9_tillflow.Base.{
  ℕ, ◌≡◌, refl, ◌∙◌, ap, true, false, some, none, List, [], ◌∷◌, ◌++◌, arith, and-true, Bool-cases,
  ◌⊎◌, inl, inr,
}
use devops_g_9_tillflow.Base.Integers.{pos, negsuc, is_number}
use devops_g_9_tillflow.Base.Text.{all_in}
use devops_g_9_tillflow.Payments.Tables.{Outcome, DeclineReason}
use devops_g_9_tillflow.Payments.ResultCodes.{RawCode, bool, int, text, other, get, classify}
use devops_g_9_tillflow.Payments.ResultCodes.Digits.{is_space, is_digit_char, is_number_text}
use devops_g_9_tillflow.Payments.ResultCodes.B2c.{
  strip_left, strip_right, strip, value_error, number_of, normalise, classify_b2c,
}
use devops_g_9_tillflow.Payments.ResultCodes.Spaces.{digit_is_no_space}
use devops_g_9_tillflow.Payments.ResultCodes.Numbers.{
  place_value, is_readable, int_of-readable, int_of-unreadable,
}

strip_left-append :
    (ws ds : List ℕ) → all_in is_space ws ≡ true → strip_left (ws ++ ds) ≡ strip_left ds
unfolding strip_left all_in
strip_left-append [] ds h = refl
strip_left-append (x ∷ xs) ds h =
    let k = and-true (is_space x) _ h in rw (k.0) (strip_left-append xs ds k.1)

strip_left_digits :
    (ds rest : List ℕ) → is_number_text ds ≡ true → strip_left (ds ++ rest) ≡ ds ++ rest
unfolding strip_left is_number_text
strip_left_digits [] rest h = absurd (cc h)
strip_left_digits (x ∷ xs) rest h = rw (digit_is_no_space x (and-true _ _ h).0) refl

strip_right_spaces : (ws : List ℕ) → all_in is_space ws ≡ true → strip_right ws ≡ []
unfolding strip_right all_in
strip_right_spaces [] h = refl
strip_right_spaces (x ∷ xs) h =
    let k = and-true (is_space x) _ h in rw (strip_right_spaces xs k.1, k.0) refl

strip_right_digits :
    (ds ws : List ℕ)
    → all_in is_digit_char ds ≡ true
    → all_in is_space ws ≡ true
    → strip_right (ds ++ ws) ≡ ds
unfolding strip_right all_in
strip_right_digits [] ws h k = strip_right_spaces ws k
strip_right_digits (x ∷ xs) ws h k =
    let j = and-true (is_digit_char x) _ h in
    ground (arith, strip_right_digits xs ws j.1 k, digit_is_no_space x j.0)

number_digits : (ds : List ℕ) → is_number_text ds ≡ true → all_in is_digit_char ds ≡ true
unfolding is_number_text all_in
number_digits [] h = refl
number_digits (x ∷ xs) h = h

strip_number :
    (ws ds ws' : List ℕ)
    → all_in is_space ws ≡ true
    → all_in is_space ws' ≡ true
    → is_number_text ds ≡ true
    → strip (ws ++ (ds ++ ws')) ≡ ds
unfolding strip
strip_number ws ds ws' h k j =
    ap strip_right (strip_left-append ws (ds ++ ws') h ∙ strip_left_digits ds ws' j)
    ∙ strip_right_digits ds ws' (number_digits ds j) k

stripped_code :
    (before digits after : List ℕ)
    → all_in is_space before ≡ true
    → all_in is_space after ≡ true
    → is_number_text digits ≡ true
    → normalise (text (before ++ (digits ++ after))) ≡ number_of digits
unfolding normalise
stripped_code before digits after h k j = rw (strip_number before digits after h k j, j) refl

number_read :
    (ds : List ℕ) → is_readable ds ≡ true → number_of ds ≡ normalise (int (pos (place_value ds)))
unfolding number_of normalise
number_read ds r = rw (int_of-readable ds r, number_of) refl

number_refused : (ds : List ℕ) → is_readable ds ≡ false → number_of ds ≡ value_error
unfolding number_of
number_refused ds r = rw (int_of-unreadable ds r, number_of) refl

same_meaning : (r s : RawCode) → normalise r ≡ normalise s → classify_b2c r ≡ classify_b2c s
unfolding classify_b2c
same_meaning r s e = rw (e, classify_b2c) refl

no_meaning : (r : RawCode) → normalise r ≡ value_error → classify_b2c r ≡ value_error
unfolding classify_b2c
no_meaning r e = rw (e, classify_b2c) refl

-- A payout result code that comes as a text of one or more characters of which `isdigit` is true, with
-- any white space around it: if they are all decimal digits, and at most 4300, it means what the
-- number means that they write, each digit at its place; else classifying it raises ValueError.
pub text_code_means_its_number :
    (before digits after : List ℕ)
    → all_in is_space before ≡ true
    → all_in is_space after ≡ true
    → is_number_text digits ≡ true
    → ((is_readable digits ≡ true)
        × (classify_b2c (text (before ++ (digits ++ after)))
            ≡ classify_b2c (int (pos (place_value digits)))))
      ⊎ ((is_readable digits ≡ false)
          × (classify_b2c (text (before ++ (digits ++ after))) ≡ value_error))
text_code_means_its_number before digits after h k j =
    let c = stripped_code before digits after h k j in
    elim (Bool-cases (is_readable digits)) [
      | inl r ↦ inl (r, same_meaning _ _ (c ∙ number_read digits r))
      | inr r ↦ inr (r, no_meaning _ (c ∙ number_refused digits r))
    ]

number_eq : (n m : ℕ) → is_number (pos n) m ≡ true → n ≡ m
unfolding is_number
number_eq n m h = ground arith

negative_code : (n : ℕ) → classify (int (negsuc n)) ≡ (Outcome.unknown, none)
unfolding classify get is_number
negative_code n = refl

-- A result code of a collection decides nothing (the outcome is unknown, with no reason) unless it is the
-- number 0, which means success, or the number 1032, which means that the customer cancelled; a bool or
-- a text that stands for one of them decides nothing either.
pub only_verified_codes_decide :
    (code : RawCode)
    → (classify code ≡ (Outcome.unknown, none))
      ⊎ (((code ≡ int (pos 0)) × (classify code ≡ (Outcome.succeeded, none)))
          ⊎ ((code ≡ int (pos 1032))
              × (classify code ≡ (Outcome.declined, some DeclineReason.user_cancelled))))
unfolding classify get
only_verified_codes_decide (bool b) = inl refl
only_verified_codes_decide (text s) = inl refl
only_verified_codes_decide other = inl refl
only_verified_codes_decide (int (negsuc n)) = inl (negative_code n)
only_verified_codes_decide (int (pos n)) = elim (Bool-cases (is_number (pos n) 0)) [
  | inl zero_code ↦ inr (inl (ap (λ x. int (pos x)) (number_eq n 0 zero_code), rw zero_code refl))
  | inr no_zero ↦ elim (Bool-cases (is_number (pos n) 1032)) [
    | inl cancelled ↦
        inr (inr (ap (λ x. int (pos x)) (number_eq n 1032 cancelled), rw (no_zero, cancelled) refl))
    | inr another ↦ inl (rw (no_zero, another) refl)
  ]
]
