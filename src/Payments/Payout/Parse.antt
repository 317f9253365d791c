-- ===== src/Payments/Payout/Parse.antt =====
-- `parse_payout_request` and `_limit_error` of services/payments/core/payouts.py.
use devops_g_9_tillflow.Base.{
  ℕ, min, ◌%◌, String, Bool, false, not, ◌||◌, Option, none, some, List, [], ◌∷◌, ◌==◌, ltb, nat_eq,
  if◌then◌else◌,
}
use devops_g_9_tillflow.Payments.Common.{text_re, msisdn_re}
use devops_g_9_tillflow.Payments.Service.{Settings}
use devops_g_9_tillflow.Payments.Collect.Parse.{
  Json, null, Payload, object, not_object, get, text_where, positive_int, Parsed, ok, invalid,
  require, ◌>>=◌,
}

pub record PayoutRequest : Type 0 where
  pub tenant_id : String
  pub attendant_id : String
  pub payout_period : String
  pub msisdn : String
  pub amount_minor : ℕ
  pub currency : String

-- `name in payload`
unfoldable pub has_field : String → List (String × Json) → Bool
has_field name [] = false
has_field name ((k, v) ∷ r) = k == name || has_field name r

unfoldable pub parse_payout_fields : List (String × Json) → Parsed PayoutRequest
parse_payout_fields fields = do
  tenant_id ←
      require (text_where text_re (get "tenant_id" null fields))
        "tenant_id is required (1-64 chars)"
  attendant_id ←
      require (text_where text_re (get "attendant_id" null fields))
        "attendant_id is required (1-64 chars)"
  period ←
      require (text_where text_re (get "payout_period" null fields))
        "payout_period is required (1-64 chars)"
  msisdn ←
      require (text_where msisdn_re (get "msisdn" null fields))
        "msisdn must be 254 followed by 9 digits"
  amount ←
      require (positive_int (get "amount" null fields))
        "amount must be a positive integer in minor units"
  ok (record {
    tenant_id = tenant_id;
    attendant_id = attendant_id;
    payout_period = period;
    msisdn = msisdn;
    amount_minor = amount;
    currency = "KES";
  })

unfoldable pub parse_payout_request : Payload → Parsed PayoutRequest
unfolding parse_payout_fields has_field
parse_payout_request not_object = invalid "body must be a JSON object"
parse_payout_request (object fields) =
    if has_field "payout_key" fields
    then invalid "payout_key is derived server-side and must not be sent"
    else parse_payout_fields fields

-- mpesa/models.py
abbrev pub min_disbursement_minor : ℕ
min_disbursement_minor = 1000

abbrev pub max_disbursement_minor : ℕ
max_disbursement_minor = 25000000

unfoldable pub limit_error : Settings → ℕ → Option String
limit_error cfg amount_minor =
    if not (nat_eq (amount_minor % 100) 0)
    then some "amount_not_whole_shillings"
    else (if ltb amount_minor min_disbursement_minor
        then some "amount_below_minimum"
        else (if ltb (min cfg.payout_max_minor max_disbursement_minor) amount_minor
            then some "amount_above_ceiling"
            else none))
