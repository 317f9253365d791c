-- ===== src/Payments/ResultCodes/Tests.antt =====
-- Codes as the provider sends them.
use devops_g_9_tillflow.Base.{◌≡◌, refl, ◌⊎◌, true, false, none, some, [], ◌∷◌, ◌++◌}
use devops_g_9_tillflow.Base.Integers.{pos, is_number}
use devops_g_9_tillflow.Base.Text.{codes, all_in}
use devops_g_9_tillflow.Payments.Tables.{Outcome, DeclineReason, FailureReason}
use devops_g_9_tillflow.Payments.ResultCodes.{int, text, get, classify}
use devops_g_9_tillflow.Payments.ResultCodes.Digits.{
  in_ranges, space_ranges, is_space, decimal_zeros, other_digits, digit_after, decimal_digit,
  is_decimal, is_digit_char, is_number_text, int_of, value_from,
}
use devops_g_9_tillflow.Payments.ResultCodes.Numbers.{place_value, is_readable}
use devops_g_9_tillflow.Payments.ResultCodes.B2c.{
  strip, strip_left, strip_right, value, value_error, number_of, normalise, look_up, same_codes,
  classify_b2c,
}
use devops_g_9_tillflow.Payments.ResultCodes.Agree.{
  text_code_means_its_number, only_verified_codes_decide,
}

invalid_recipient :
    classify_b2c (text (codes "SFC_IC0003"))
    ≡ value (Outcome.failed, some FailureReason.recipient_invalid)
unfolding classify_b2c normalise strip strip_left strip_right is_space in_ranges space_ranges
    is_number_text is_digit_char is_decimal decimal_digit decimal_zeros digit_after other_digits
    look_up same_codes
invalid_recipient = refl

no_funds :
    classify_b2c (text (codes " 1")) ≡ value (Outcome.failed, some FailureReason.insufficient_funds)
unfolding classify_b2c normalise strip strip_left strip_right is_space in_ranges space_ranges
    is_number_text is_digit_char is_decimal decimal_digit decimal_zeros digit_after other_digits
    all_in number_of int_of value_from look_up get is_number
no_funds = refl

-- A superscript two.
superscript : classify_b2c (text (178 ∷ [])) ≡ value_error
unfolding classify_b2c normalise strip strip_left strip_right is_space in_ranges space_ranges
    is_number_text is_digit_char is_decimal decimal_digit decimal_zeros digit_after other_digits
    all_in number_of int_of value_from
superscript = refl

-- 2001 in Arabic-Indic digits.
arabic_indic :
    classify_b2c (text (1634 ∷ 1632 ∷ 1632 ∷ 1633 ∷ []))
    ≡ value (Outcome.failed, some FailureReason.configuration)
unfolding classify_b2c normalise strip strip_left strip_right is_space in_ranges space_ranges
    is_number_text is_digit_char is_decimal decimal_digit decimal_zeros digit_after other_digits
    all_in number_of int_of value_from look_up get is_number
arabic_indic = refl

blank : all_in is_space (codes " ") ≡ true
unfolding all_in is_space in_ranges space_ranges
blank = refl

digits : is_number_text (codes "2001") ≡ true
unfolding is_number_text all_in is_digit_char is_decimal decimal_digit decimal_zeros digit_after
digits = refl

text_code_means_its_number_example :
    ((is_readable (codes "2001") ≡ true)
      × (classify_b2c (text (codes " " ++ (codes "2001" ++ codes " ")))
          ≡ classify_b2c (int (pos (place_value (codes "2001"))))))
    ⊎ ((is_readable (codes "2001") ≡ false)
        × (classify_b2c (text (codes " " ++ (codes "2001" ++ codes " "))) ≡ value_error))
text_code_means_its_number_example =
    text_code_means_its_number (codes " ") (codes "2001") (codes " ") blank blank digits

only_verified_codes_decide_example :
    (classify (int (pos 1032)) ≡ (Outcome.unknown, none))
    ⊎ (((int (pos 1032) ≡ int (pos 0)) × (classify (int (pos 1032)) ≡ (Outcome.succeeded, none)))
        ⊎ ((int (pos 1032) ≡ int (pos 1032))
            × (classify (int (pos 1032)) ≡ (Outcome.declined, some DeclineReason.user_cancelled))))
only_verified_codes_decide_example = only_verified_codes_decide (int (pos 1032))
