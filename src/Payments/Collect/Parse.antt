-- ===== src/Payments/Collect/Parse.antt =====
-- `parse_payment_request` of services/payments/core/payments.py, over a body that is already JSON.
pub mod Valid
use devops_g_9_tillflow.Base.{
  ℕ, suc, String, Bool, Option, none, some, List, [], ◌∷◌, ◌==◌, leb, if◌then◌else◌,
}
use devops_g_9_tillflow.Base.Integers.{ℤ, pos}
use devops_g_9_tillflow.Base.Text.{codes, length}
use devops_g_9_tillflow.Payments.Common.{text_re, msisdn_re}

-- A field's JSON value; `other` is a number with a fraction, an array or an object.
pub data Json : Type 0 where
  null other : Json
  boolean : Bool → Json
  int : ℤ → Json
  text : String → Json

pub data Payload : Type 0 where
  object : List (String × Json) → Payload
  not_object : Payload

-- `payload.get(name)`, `payload.get(name, default)`
unfoldable pub get : String → Json → List (String × Json) → Json
get name default [] = default
get name default ((k, v) ∷ r) = if k == name then v else get name default r

-- `isinstance(value, str)` and a condition on the text
abbrev pub text_where : (String → Bool) → Json → Option String
text_where c (text s) = if c s then some s else none
text_where c _ = none

-- `is_int(amount)` and `amount > 0`: a JSON boolean is no integer.
abbrev pub positive_int : Json → Option ℕ
positive_int (int (pos (suc n))) = some (suc n)
positive_int _ = none

-- `sale_id`: absent, or a text that matches; the outer `none` is the error.
abbrev pub optional_text : (String → Bool) → Json → Option (Option String)
optional_text c null = some none
optional_text c (text s) = if c s then some (some s) else none
optional_text c _ = none

pub record PaymentRequest : Type 0 where
  pub tenant_id : String
  pub msisdn : String
  pub amount_minor : ℕ
  pub reference : String
  pub sale_id : Option String
  pub currency : String

-- The request, or the detail of the error.
pub data Parsed (A : Type 0) : Type 0 where
  ok : A → Parsed A
  invalid : String → Parsed A

infixl 5 ◌>>=◌
abbrev pub ◌>>=◌ : {A B : Type 0} → Parsed A → (A → Parsed B) → Parsed B
ok a >>= f = f a
invalid e >>= f = invalid e

abbrev pub require : {A : Type 0} → Option A → String → Parsed A
require none detail = invalid detail
require (some a) detail = ok a

abbrev pub short_reference : String → Bool
short_reference s = leb (length (codes s)) 12

abbrev pub is_kes : String → Bool
is_kes s = s == "KES"

unfoldable pub parse_fields : List (String × Json) → Parsed PaymentRequest
parse_fields fields = do
  tenant_id ←
      require (text_where text_re (get "tenant_id" null fields))
        "tenant_id is required (1-64 chars)"
  msisdn ←
      require (text_where msisdn_re (get "msisdn" null fields))
        "msisdn must be 254 followed by 9 digits"
  amount ←
      require (positive_int (get "amount" null fields))
        "amount must be a positive integer in minor units"
  reference ←
      require (text_where short_reference (get "account_reference" (text "") fields))
        "account_reference must be at most 12 characters"
  sale_id ←
      require (optional_text text_re (get "sale_id" null fields))
        "sale_id must be 1-64 chars when given"
  currency ←
      require (text_where is_kes (get "currency" (text "KES") fields)) "only KES is supported"
  ok (record {
    tenant_id = tenant_id;
    msisdn = msisdn;
    amount_minor = amount;
    reference = reference;
    sale_id = sale_id;
    currency = currency;
  })

unfoldable pub parse_payment_request : Payload → Parsed PaymentRequest
unfolding parse_fields
parse_payment_request not_object = invalid "body must be a JSON object"
parse_payment_request (object fields) = parse_fields fields
