-- ===== src/Gateway/Endpoints.antt =====
-- `initiate_payment`, `payment_webhook` and `refund_webhook` of Backend/app/routes/gateway.py. An
-- answer is the id of the payment.
use apna_mandla.Prelude.{ℕ, String, Option, none, some, if◌then◌else◌, get_or}
use apna_mandla.Prelude.Int.{pos, leb_ℤ}
use apna_mandla.Prelude.Text.{str_eq}
use apna_mandla.Money.{Decimal}
use apna_mandla.Schema.{GatewayProvider, razorpay, stripe, phonepe, paytm, manual}
use apna_mandla.Env.{Env}
use apna_mandla.Session.{M, ◌>>=◌, ◌>>◌, pure, raise_if, or_raise, http_exception}
use apna_mandla.Withdrawal.{answering, answering_500}
use apna_mandla.Gateway.Operations.{initiate, handle_webhook, handle_refund_webhook}

-- `GatewayProvider(value)`
unfoldable pub provider_of : String → Option GatewayProvider
provider_of value =
    if str_eq value "RAZORPAY"
    then some razorpay
    else if str_eq value "STRIPE"
    then some stripe
    else if str_eq value "PHONEPE"
    then some phonepe
    else if str_eq value "PAYTM"
    then some paytm
    else if str_eq value "MANUAL"
    then some manual
    else none

-- `x or y` on a header that may be missing.
abbrev pub or_header : Option String → String → String
or_header none y = y
or_header (some x) y = if str_eq x "" then y else x

-- The header of the provider, or the two others, or `X-Signature`.
unfoldable pub signature_of : Option String → Option String → Option String → String
signature_of x_razorpay stripe_header x_signature =
    or_header x_razorpay (or_header stripe_header (get_or x_signature ""))

-- `webhook_secret_map`; the settings have none of the four names, so the default holds.
unfoldable pub webhook_secret : GatewayProvider → String
webhook_secret manual = ""
webhook_secret _ = "REPLACE_ME"

module _ (env : Env) where
  unfoldable pub initiate_payment : ℕ → Decimal → String → Option ℕ → M ℕ
  initiate_payment user_id amount provider order_id = do
    p ← or_raise (provider_of (env.upper provider)) (http_exception 400)
    raise_if (leb_ℤ amount.coeff (pos 0)) (http_exception 400)
    gp ← answering_500 (initiate env user_id amount p order_id)
    pure gp.id

  -- A body that is not JSON is an exception that nothing catches.
  unfoldable pub payment_webhook :
      String → String → Option String → Option String → Option String → M ℕ
  payment_webhook provider raw_body x_razorpay stripe_header x_signature = do
    p ← or_raise (provider_of (env.upper provider)) (http_exception 400)
    payload ← or_raise (env.json.loads raw_body) (http_exception 500)
    let signature = signature_of x_razorpay stripe_header x_signature
    raise_if (str_eq signature "") (http_exception 400)
    gp ← answering (handle_webhook env p raw_body signature (webhook_secret p) payload)
    pure gp.id

  unfoldable pub refund_webhook :
      String → String → Option String → Option String → Option String → M ℕ
  refund_webhook provider raw_body x_razorpay stripe_header x_signature = do
    p ← or_raise (provider_of (env.upper provider)) (http_exception 400)
    payload ← or_raise (env.json.loads raw_body) (http_exception 500)
    let signature = signature_of x_razorpay stripe_header x_signature
    gp ← answering (handle_refund_webhook env p raw_body signature (webhook_secret p) payload)
    pure gp.id
