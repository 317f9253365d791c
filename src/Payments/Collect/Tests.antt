-- ===== src/Payments/Collect/Tests.antt =====
-- A request body that is accepted.
use devops_g_9_tillflow.Base.{◌≡◌, ◌<◌, ◌≤◌, refl, true, some, [], ◌∷◌}
use devops_g_9_tillflow.Base.Integers.{pos}
use devops_g_9_tillflow.Base.Text.{codes, length}
use devops_g_9_tillflow.Payments.Common.{text_re, msisdn_re}
use devops_g_9_tillflow.Payments.Collect.Parse.{
  Payload, object, text, int, get, PaymentRequest, ok, parse_fields, parse_payment_request,
}
use devops_g_9_tillflow.Payments.Collect.Parse.Valid.{parsed_request_is_valid}

abbrev payload : Payload
payload = object (
    ("tenant_id", text "duka")
    ∷ ("msisdn", text "254700000001")
    ∷ ("amount", int (pos 25000))
    ∷ ("sale_id", text "sale-1")
    ∷ [])

abbrev request : PaymentRequest
request = record {
  tenant_id = "duka";
  msisdn = "254700000001";
  amount_minor = 25000;
  reference = "";
  sale_id = some "sale-1";
  currency = "KES";
}

parses : parse_payment_request payload ≡ ok request
unfolding parse_payment_request parse_fields get text_re msisdn_re
parses = refl

parsed_request_is_valid_example :
    (text_re request.tenant_id ≡ true)
    × (msisdn_re request.msisdn ≡ true)
    × (0 < request.amount_minor)
    × (length (codes request.reference) ≤ 12)
    × (request.currency ≡ "KES")
parsed_request_is_valid_example = parsed_request_is_valid payload parses
