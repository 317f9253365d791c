-- ===== src/Payments/Common.antt =====
-- services/payments/core/common.py: the backoff schedule and the small request helpers.
pub mod Backoff
use devops_g_9_tillflow.Base.{
  ℕ, suc, zero, ◌-◌, min, List, [], ◌∷◌, ◌++◌, String, Bool, true, false, ◌&&◌, ◌||◌, nat_eq,
}
use devops_g_9_tillflow.Base.Text.{
  codes, length, take, drop, all_in, drop_newline, is_digit, is_alnum, matches,
}

abbrev pub backoff_seconds : List ℕ
backoff_seconds = 30 ∷ 60 ∷ 120 ∷ 300 ∷ 600 ∷ 1800 ∷ 3600 ∷ []

-- `xs[i]`; the caller's index is in range, so the first clause is never read.
abbrev pub item : List ℕ → ℕ → ℕ
item [] i = 0
item (x ∷ xs) zero = x
item (x ∷ xs) (suc i) = item xs i

unfoldable pub next_backoff : ℕ → ℕ
next_backoff attempts = item backoff_seconds (min attempts (length backoff_seconds - 1))

abbrev pub provider : String
provider = "mpesa"

-- TEXT_RE: `^[A-Za-z0-9_.:@-]{1,64}$`
abbrev pub is_text_char : ℕ → Bool
is_text_char c =
    is_alnum c || nat_eq c b'_' || nat_eq c b'.' || nat_eq c b':' || nat_eq c b'@' || nat_eq c b'-'

unfoldable pub text_re : String → Bool
unfolding matches all_in drop_newline
text_re s = matches is_text_char 1 64 (codes s)

-- IDEMPOTENCY_KEY_RE of mpesa/models.py: `^[A-Za-z0-9_-]{16,64}$`
abbrev pub is_key_char : ℕ → Bool
is_key_char c = is_alnum c || nat_eq c b'_' || nat_eq c b'-'

unfoldable pub idempotency_key_re : String → Bool
unfolding matches all_in drop_newline
idempotency_key_re s = matches is_key_char 16 64 (codes s)

-- MSISDN_RE of mpesa/models.py: `^254[0-9]{9}$`
unfoldable pub msisdn_re : String → Bool
unfolding matches all_in drop_newline
msisdn_re s = has_254 (codes s) && matches is_digit 9 9 (drop 3 (codes s))
  where
    has_254 : List ℕ → Bool
    has_254 (a ∷ b ∷ c ∷ r) = nat_eq a b'2' && nat_eq b b'5' && nat_eq c b'4'
    has_254 _ = false

-- The first four and the last three code points.
unfoldable pub mask_msisdn : String → List ℕ
mask_msisdn msisdn = let s = codes msisdn in take 4 s ++ (codes "****" ++ drop (length s - 3) s)
