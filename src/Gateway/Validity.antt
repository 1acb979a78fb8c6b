-- ===== src/Gateway/Validity.antt =====
-- The gateway's calls and the invariant of the books.
use apna_mandla.Prelude.{ℕ, String, true, false, Option, arith}
use apna_mandla.Prelude.Int.{ℤ}
use apna_mandla.Money.{Decimal}
use apna_mandla.Json.{Json, null, boolean, number, real, text, array, object}
use apna_mandla.Schema.{GatewayPayment, GatewayProvider}
use apna_mandla.Env.{Env}
use apna_mandla.Session.Keeps.{Keeps}
use apna_mandla.Ledger.Validity.{Good, posting_rules, topup_wallet-Keeps}
use apna_mandla.Gateway.{
  initiate, save_payment, add_payment, verify_signature, int_of, extract_amount_minor,
  credit_payment, handle_webhook, refund_payment, handle_refund_webhook,
}

module _ (env : Env) where
  save_payment-Keeps : (g : GatewayPayment) → Keeps (Good env) (save_payment g)
  unfolding save_payment
  save_payment-Keeps g = record { at = λ d x d' v h. ground arith }

  add_payment-Keeps : (g : GatewayPayment) → Keeps (Good env) (add_payment g)
  unfolding add_payment
  add_payment-Keeps g = record { at = λ d x d' v h. ground arith }

  int_of-Keeps : (v : Json) → Keeps (Good env) (int_of env v)
  unfolding int_of
  int_of-Keeps null = search posting_rules
  int_of-Keeps (boolean true) = search posting_rules
  int_of-Keeps (boolean false) = search posting_rules
  int_of-Keeps (number n) = search posting_rules
  int_of-Keeps (real s) = search posting_rules
  int_of-Keeps (text s) = search posting_rules
  int_of-Keeps (array xs) = search posting_rules
  int_of-Keeps (object fs) = search posting_rules

  ruleset gateway_rules =
      (posting_rules, save_payment-Keeps, add_payment-Keeps, int_of-Keeps, topup_wallet-Keeps)

  pub initiate-Keeps :
      (u : ℕ) (a : Decimal) (p : GatewayProvider) (o : Option ℕ)
      → Keeps (Good env) (initiate env u a p o)
  unfolding initiate
  initiate-Keeps u a p o = search gateway_rules depth 20

  verify_signature-Keeps :
      (body signature secret : String)
      → Keeps (Good env) (verify_signature env body signature secret)
  unfolding verify_signature
  verify_signature-Keeps body signature secret = search gateway_rules depth 12

  extract_amount_minor-Keeps :
      (p : GatewayProvider) (payload : Json) → Keeps (Good env) (extract_amount_minor env p payload)
  unfolding extract_amount_minor
  extract_amount_minor-Keeps p payload = search gateway_rules depth 12

  credit_payment-Keeps :
      (g : GatewayPayment) (i : Json) (a : ℤ) (signature : String)
      → Keeps (Good env) (credit_payment env g i a signature)
  unfolding credit_payment
  credit_payment-Keeps g i a signature = search gateway_rules depth 20

  refund_payment-Keeps :
      (g : GatewayPayment) (i : Json) (a : ℤ) → Keeps (Good env) (refund_payment env g i a)
  unfolding refund_payment
  refund_payment-Keeps g i a = search gateway_rules depth 20

  ruleset webhook_rules = (
    gateway_rules, verify_signature-Keeps, extract_amount_minor-Keeps, credit_payment-Keeps,
    refund_payment-Keeps,
  )

  pub handle_webhook-Keeps :
      (p : GatewayProvider) (body signature secret : String) (payload : Json)
      → Keeps (Good env) (handle_webhook env p body signature secret payload)
  unfolding handle_webhook
  handle_webhook-Keeps p body signature secret payload = search webhook_rules depth 30

  pub handle_refund_webhook-Keeps :
      (p : GatewayProvider) (body signature secret : String) (payload : Json)
      → Keeps (Good env) (handle_refund_webhook env p body signature secret payload)
  unfolding handle_refund_webhook
  handle_refund_webhook-Keeps p body signature secret payload = search webhook_rules depth 30
