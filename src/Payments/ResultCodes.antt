-- ===== src/Payments/ResultCodes.antt =====
-- services/_shared/mpesa/result_codes.py: what a result code of a collection means.
pub mod Digits
pub mod Spaces
pub mod Numbers
pub mod B2c
pub mod Agree
pub mod Tests
use devops_g_9_tillflow.Base.{ℕ, Bool, Option, none, some, List, [], ◌∷◌, if◌then◌else◌}
use devops_g_9_tillflow.Base.Integers.{ℤ, is_number}
use devops_g_9_tillflow.Payments.Tables.{Outcome, DeclineReason}

-- A value of a parsed JSON body, as far as the code tells its types apart; a text as its code points.
pub data RawCode : Type 0 where
  bool : Bool → RawCode
  int : ℤ → RawCode
  text : List ℕ → RawCode
  other : RawCode

-- `table.get(code, default)` for a dict from numbers.
unfoldable pub get : {A : Type 0} → List (ℕ × A) → ℤ → A → A
get [] code default = default
get ((n, a) ∷ r) code default = if is_number code n then a else get r code default

abbrev pub table : List (ℕ × (Outcome × Option DeclineReason))
table =
    (0, (Outcome.succeeded, none))
    ∷ (1032, (Outcome.declined, some DeclineReason.user_cancelled))
    ∷ []

-- A bool is an int for `isinstance`, and is sorted out first.
unfoldable pub classify : RawCode → Outcome × Option DeclineReason
classify (int code) = get table code (Outcome.unknown, none)
classify _ = (Outcome.unknown, none)
