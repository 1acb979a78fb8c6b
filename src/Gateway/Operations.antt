-- ===== src/Gateway/Operations.antt =====
-- `GatewayService`: `initiate`, `handle_webhook`, `handle_refund_webhook` and `_verify_signature`.
use apna_mandla.Prelude.{ℕ, String, not, Option, none, some, [], ◌∷◌, if◌then◌else◌}
use apna_mandla.Prelude.Int.{ℤ}
use apna_mandla.Prelude.Text.{f_string}
use apna_mandla.Money.{Decimal, round, of_paise}
use apna_mandla.Json.{Json}
use apna_mandla.Schema.{
  GatewayPayment, GatewayProvider, razorpay, stripe, phonepe, paytm, manual, initiated, success,
  refunded, refund,
}
use apna_mandla.Env.{Env}
use apna_mandla.Session.{
  M, ◌>>=◌, ◌>>◌, pure, raise_if, or_raise, gets, now, new_uuid, new_hex12, payment_not_found,
  wrong_status, bad_signature, runtime_error,
}
use apna_mandla.Ledger.{posting, no_links, debit, topup_wallet}
use apna_mandla.Gateway.Payload.{extract_payment_id, extract_order_id, extract_amount_minor}
use apna_mandla.Gateway.Rows.{
  find_order, find_payment, is_initiated, is_success, is_refunded, save_payment, add_payment,
}

-- `provider.value`
abbrev pub provider_value : GatewayProvider → String
provider_value razorpay = "RAZORPAY"
provider_value stripe = "STRIPE"
provider_value phonepe = "PHONEPE"
provider_value paytm = "PAYTM"
provider_value manual = "MANUAL"

module _ (env : Env) where
  -- The column of the amount has two places.
  unfoldable pub initiate : ℕ → Decimal → GatewayProvider → Option ℕ → M GatewayPayment
  initiate user_id amount provider order_id = do
    hex ← new_hex12 env
    id ← gets (λ d. d.tables.next_gateway_payment_id)
    let gp : GatewayPayment = record {
      id = id;
      user_id = user_id;
      order_id = order_id;
      amount = round amount;
      provider = provider;
      status = initiated;
      gateway_order_id = some (f_string ("MOCK-" ∷ provider_value provider ∷ "-" ∷ hex ∷ []));
      gateway_payment_id = none;
      gateway_signature = none;
      ledger_correlation_id = none;
      completed_at = none;
      refunded_at = none;
    }
    add_payment gp
    pure gp

  unfoldable pub verify_signature : String → String → String → M (Unit {0})
  verify_signature raw_body signature secret = do
    equal ← or_raise (env.compare_digest (env.hmac secret raw_body) signature) runtime_error
    raise_if (not equal) bad_signature

  abbrev pub topup_key : Json → String
  topup_key payment_id = f_string ("gateway-topup-" ∷ env.json.str payment_id ∷ [])

  abbrev pub refund_key : Json → String
  refund_key payment_id = f_string ("gateway-refund-" ∷ env.json.str payment_id ∷ [])

  -- The row after the credit.
  unfoldable pub confirmed : GatewayPayment → Json → Option String → String → ℕ → GatewayPayment
  confirmed gp payment_id stored signature time = record gp {
    status = success;
    gateway_payment_id = stored;
    gateway_signature = some signature;
    completed_at = some time;
    ledger_correlation_id = some (topup_key payment_id);
  }

  -- What a webhook does for a payment that is not confirmed yet.
  unfoldable pub credit_payment : GatewayPayment → Json → ℤ → String → M GatewayPayment
  credit_payment gp payment_id amount signature = do
    raise_if (not (is_initiated gp.status)) wrong_status
    topup_wallet env gp.user_id (of_paise amount) (some (topup_key payment_id)) none
    time ← now env
    stored ← or_raise (env.json.bind_text payment_id) runtime_error
    let gp' = confirmed gp payment_id stored signature time
    save_payment gp'
    pure gp'

  unfoldable pub handle_webhook :
      GatewayProvider → String → String → String → Json → M GatewayPayment
  handle_webhook provider raw_body signature secret payload = do
    verify_signature raw_body signature secret
    payment_id ← or_raise (extract_payment_id provider payload) runtime_error
    order_id ← or_raise (extract_order_id provider payload) runtime_error
    amount ← extract_amount_minor env provider payload
    order ← or_raise (env.json.bind_text order_id) runtime_error
    found ← gets (λ d. find_order order d.tables.gateway_payments)
    gp ← or_raise found payment_not_found
    if is_success gp.status then pure gp else credit_payment gp payment_id amount signature

  -- What a refund webhook does for a payment that is not refunded yet.
  unfoldable pub refund_payment : GatewayPayment → Json → ℤ → M GatewayPayment
  refund_payment gp payment_id amount = do
    cid ← new_uuid env
    debit env (posting gp.user_id amount refund cid no_links (some (refund_key payment_id))) none
    time ← now env
    let gp' = record gp { status = refunded; refunded_at = some time }
    save_payment gp'
    pure gp'

  unfoldable pub handle_refund_webhook :
      GatewayProvider → String → String → String → Json → M GatewayPayment
  handle_refund_webhook provider raw_body signature secret payload = do
    verify_signature raw_body signature secret
    payment_id ← or_raise (extract_payment_id provider payload) runtime_error
    amount ← extract_amount_minor env provider payload
    stored ← or_raise (env.json.bind_text payment_id) runtime_error
    found ← gets (λ d. find_payment stored d.tables.gateway_payments)
    gp ← or_raise found payment_not_found
    if is_refunded gp.status then pure gp else refund_payment gp payment_id amount
