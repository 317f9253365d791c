-- ===== src/Payments/Collect/Parse/Valid.antt =====
-- What a request that the parser lets through is like.
use devops_g_9_tillflow.Base.{
  ℕ, zero, suc, ◌<◌, ◌≤◌, String, ◌≡◌, refl, subst, ap, inl, inr, Bool, true, Option, none, some,
  arith, eq_of_test, Bool-cases,
}
use devops_g_9_tillflow.Base.Integers.{pos, negsuc}
use devops_g_9_tillflow.Base.Text.{codes, length}
use devops_g_9_tillflow.Payments.Common.{text_re, msisdn_re}
use devops_g_9_tillflow.Payments.Collect.Parse.{
  Json, null, other, boolean, int, text, Payload, object, not_object, get, text_where, positive_int,
  optional_text, PaymentRequest, Parsed, ok, invalid, ◌>>=◌, require, short_reference, is_kes,
  parse_fields, parse_payment_request,
}

-- A field that is required was there.
require-ok :
    {A B : Type 0} (o : Option A) (e : String) (f : A → Parsed B) {b : B}
    → (require o e >>= f) ≡ ok b
    → (a : A) × (o ≡ some a) × (f a ≡ ok b)
require-ok none e f h = absurd (cc h)
require-ok (some a) e f h = (a, refl, h)

text_where-some : (c : String → Bool) (j : Json) {s : String} → text_where c j ≡ some s → c s ≡ true
text_where-some c (text t) {s} h = elim (Bool-cases (c t)) [
  | inl y ↦ cc (rw y at h, y)
  | inr n ↦ absurd (cc (rw n at h))
]
text_where-some c null h = absurd (cc h)
text_where-some c other h = absurd (cc h)
text_where-some c (boolean b) h = absurd (cc h)
text_where-some c (int z) h = absurd (cc h)

positive_int-some : (j : Json) {n : ℕ} → positive_int j ≡ some n → 0 < n
positive_int-some (int (pos (suc k))) {n} h = ground arith
positive_int-some (int (pos zero)) h = absurd (cc h)
positive_int-some (int (negsuc k)) h = absurd (cc h)
positive_int-some null h = absurd (cc h)
positive_int-some other h = absurd (cc h)
positive_int-some (boolean b) h = absurd (cc h)
positive_int-some (text t) h = absurd (cc h)

short_reference_le : (s : String) → short_reference s ≡ true → length (codes s) ≤ 12
short_reference_le s h = ground arith

request_or : PaymentRequest → Parsed PaymentRequest → PaymentRequest
request_or req (ok r) = r
request_or req (invalid e) = req

abbrev IsValid : PaymentRequest → Type 0
IsValid req =
    (text_re req.tenant_id ≡ true)
    × (msisdn_re req.msisdn ≡ true)
    × (0 < req.amount_minor)
    × (length (codes req.reference) ≤ 12)
    × (req.currency ≡ "KES")

-- A request that `parse_payment_request` accepts has a tenant id and a number that match their
-- patterns, a positive amount, a reference of at most twelve characters, and KES as its currency.
pub parsed_request_is_valid :
    (payload : Payload) {req : PaymentRequest}
    → parse_payment_request payload ≡ ok req
    → (text_re req.tenant_id ≡ true)
      × (msisdn_re req.msisdn ≡ true)
      × (0 < req.amount_minor)
      × (length (codes req.reference) ≤ 12)
      × (req.currency ≡ "KES")
unfolding parse_payment_request parse_fields request_or
parsed_request_is_valid not_object h = absurd (cc h)
parsed_request_is_valid (object fields) {req} h =
    let t = require-ok (text_where text_re (get "tenant_id" null fields)) _ _ h in
    let m = require-ok (text_where msisdn_re (get "msisdn" null fields)) _ _ t.2 in
    let a = require-ok (positive_int (get "amount" null fields)) _ _ m.2 in
    let r =
      require-ok (text_where short_reference (get "account_reference" (text "") fields)) _ _ a.2 in
    let s = require-ok (optional_text text_re (get "sale_id" null fields)) _ _ r.2 in
    let c = require-ok (text_where is_kes (get "currency" (text "KES") fields)) _ _ s.2 in
    subst IsValid (ap (request_or req) c.2) (
      text_where-some text_re _ t.1,
      text_where-some msisdn_re _ m.1,
      positive_int-some _ a.1,
      short_reference_le r.0
          (text_where-some short_reference (get "account_reference" (text "") fields) r.1),
      eq_of_test c.0 "KES" (text_where-some is_kes (get "currency" (text "KES") fields) c.1),
    )
