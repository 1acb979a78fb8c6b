-- ===== src/Gateway/Payload.antt =====
-- `_extract_payment_id`, `_extract_order_id` and `_extract_amount_minor` of gateway_service.py.
use apna_mandla.Prelude.{Bool, Option, [], ◌∷◌}
use apna_mandla.Prelude.Int.{ℤ, pos}
use apna_mandla.Json.{Json, null, boolean, number, real, text, array, object, get_path}
use apna_mandla.Schema.{GatewayProvider, razorpay, stripe}
use apna_mandla.Env.{Env}
use apna_mandla.Session.{M, ◌>>=◌, or_raise, raise, value_error, runtime_error, pure}

unfoldable pub extract_payment_id : GatewayProvider → Json → Option Json
extract_payment_id razorpay payload =
    get_path ("payload" ∷ "payment" ∷ "entity" ∷ "id" ∷ []) (text "") payload
extract_payment_id stripe payload =
    get_path ("data" ∷ "object" ∷ "payment_intent" ∷ []) (text "") payload
extract_payment_id _ payload = get_path ("payment_id" ∷ []) (text "") payload

unfoldable pub extract_order_id : GatewayProvider → Json → Option Json
extract_order_id razorpay payload =
    get_path ("payload" ∷ "payment" ∷ "entity" ∷ "order_id" ∷ []) (text "") payload
extract_order_id stripe payload =
    get_path ("data" ∷ "object" ∷ "metadata" ∷ "order_id" ∷ []) (text "") payload
extract_order_id _ payload = get_path ("order_id" ∷ []) (text "") payload

abbrev pub amount_value : GatewayProvider → Json → Option Json
amount_value razorpay payload =
    get_path ("payload" ∷ "payment" ∷ "entity" ∷ "amount" ∷ []) (number (pos 0)) payload
amount_value stripe payload = get_path ("data" ∷ "object" ∷ "amount" ∷ []) (number (pos 0)) payload
amount_value _ payload = get_path ("amount" ∷ []) (number (pos 0)) payload

module _ (env : Env) where
  -- `int(value)`: a text may raise ValueError, a real number OverflowError, and what is neither a
  -- number nor a text TypeError.
  unfoldable pub int_of : Json → M ℤ
  int_of (number n) = pure n
  int_of (boolean b) = elim b [ Bool.true ↦ pure (pos 1) | Bool.false ↦ pure (pos 0) ]
  int_of (text s) = or_raise (env.json.parse_int s) value_error
  int_of (real s) = or_raise (env.json.trunc s) runtime_error
  int_of null = raise runtime_error
  int_of (array _) = raise runtime_error
  int_of (object _) = raise runtime_error

  unfoldable pub extract_amount_minor : GatewayProvider → Json → M ℤ
  extract_amount_minor provider payload =
      or_raise (amount_value provider payload) runtime_error >>= int_of
