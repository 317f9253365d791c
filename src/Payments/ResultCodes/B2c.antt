-- ===== src/Payments/ResultCodes/B2c.antt =====
-- services/_shared/mpesa/b2c_result_codes.py: what a result code of a payout means.
use devops_g_9_tillflow.Base.{
  ℕ, Bool, true, false, ◌&&◌, nat_eq, Option, none, some, List, [], ◌∷◌, if◌then◌else◌,
}
use devops_g_9_tillflow.Base.Integers.{ℤ, pos}
use devops_g_9_tillflow.Base.Text.{codes}
use devops_g_9_tillflow.Payments.Tables.{Outcome, FailureReason}
use devops_g_9_tillflow.Payments.ResultCodes.Digits.{is_space, is_number_text, int_of}
use devops_g_9_tillflow.Payments.ResultCodes.{RawCode, bool, int, text, other, get}

abbrev pub is_empty : List ℕ → Bool
is_empty [] = true
is_empty (x ∷ xs) = false

unfoldable pub strip_left : List ℕ → List ℕ
strip_left [] = []
strip_left (x ∷ xs) = let rest = strip_left xs in if is_space x then rest else x ∷ xs

unfoldable pub strip_right : List ℕ → List ℕ
strip_right [] = []
strip_right (x ∷ xs) =
    let rest = strip_right xs in if is_empty rest && is_space x then [] else x ∷ rest

unfoldable pub strip : List ℕ → List ℕ
strip s = strip_right (strip_left s)

pub data B2cCode : Type 0 where
  number : ℤ → B2cCode
  name : List ℕ → B2cCode

-- A value, or the ValueError that escapes.
pub data Returned (A : Type 0) : Type 0 where
  value : A → Returned A
  value_error : Returned A

unfoldable pub number_of : List ℕ → Returned (Option B2cCode)
number_of stripped = elim (int_of stripped) [
  | none ↦ value_error
  | some n ↦ value (some (number (pos n)))
]

unfoldable pub normalise : RawCode → Returned (Option B2cCode)
normalise (bool b) = value none
normalise (int code) = value (some (number code))
normalise (text s) =
    let stripped = strip s in
    if is_number_text stripped then number_of stripped else value (some (name stripped))
normalise other = value none

abbrev pub Meaning : Type 0
Meaning = Outcome × Option FailureReason

abbrev pub number_table : List (ℕ × Meaning)
number_table =
    (0, (Outcome.succeeded, none))
    ∷ (1, (Outcome.failed, some FailureReason.insufficient_funds))
    ∷ (2, (Outcome.failed, some FailureReason.amount_too_low))
    ∷ (3, (Outcome.failed, some FailureReason.amount_too_high))
    ∷ (4, (Outcome.failed, some FailureReason.recipient_limit))
    ∷ (8, (Outcome.failed, some FailureReason.recipient_limit))
    ∷ (11, (Outcome.failed, some FailureReason.account_state))
    ∷ (21, (Outcome.failed, some FailureReason.configuration))
    ∷ (2001, (Outcome.failed, some FailureReason.configuration))
    ∷ (2006, (Outcome.failed, some FailureReason.account_state))
    ∷ (2028, (Outcome.failed, some FailureReason.configuration))
    ∷ (2040, (Outcome.failed, some FailureReason.recipient_not_registered))
    ∷ (8006, (Outcome.failed, some FailureReason.configuration))
    ∷ []

unfoldable pub same_codes : List ℕ → List ℕ → Bool
same_codes [] [] = true
same_codes (x ∷ xs) (y ∷ ys) = nat_eq x y && same_codes xs ys
same_codes _ _ = false

unfoldable pub look_up : Option B2cCode → Meaning
look_up none = (Outcome.unknown, none)
look_up (some (number code)) = get number_table code (Outcome.unknown, none)
look_up (some (name s)) =
    if same_codes s (codes "SFC_IC0003")
    then (Outcome.failed, some FailureReason.recipient_invalid)
    else (Outcome.unknown, none)

unfoldable pub classify_b2c : RawCode → Returned Meaning
classify_b2c code = elim (normalise code) [
  | value_error ↦ value_error
  | value normalised ↦ value (look_up normalised)
]
