-- ===== src/Gateway/Reading.antt =====
-- The parts of a webhook that read only: the signature and the body.
use apna_mandla.Prelude.{
  ◌≡◌, if◌then◌else◌, String, true, false, Option, some, arith, inl, inr, Option-cases,
}
use apna_mandla.Prelude.Int.{ℤ}
use apna_mandla.Json.{Json, null, boolean, number, real, text, array, object}
use apna_mandla.Schema.{Db, GatewayPayment, GatewayProvider}
use apna_mandla.Env.{Env}
use apna_mandla.Session.{ok, Result-cases}
use apna_mandla.Gateway.{
  extract_payment_id, extract_order_id, extract_amount_minor, amount_value, int_of,
  verify_signature, find_order, is_success, credit_payment, handle_webhook,
}

module _ (env : Env) where
  int_of-same :
      (v : Json) (a : ℤ) (d e x : Db) → int_of env v d ≡ ok (a, e) → int_of env v x ≡ ok (a, x)
  unfolding int_of
  int_of-same null a d e x h = ground arith
  int_of-same (boolean true) a d e x h = ground arith
  int_of-same (boolean false) a d e x h = ground arith
  int_of-same (number n) a d e x h = ground arith
  int_of-same (real s) a d e x h = elim (Option-cases (env.json.trunc s)) [
    | inl bad ↦ absurd (ground arith)
    | inr (n, good) ↦ ground arith
  ]
  int_of-same (text s) a d e x h = elim (Option-cases (env.json.parse_int s)) [
    | inl bad ↦ absurd (ground arith)
    | inr (n, good) ↦ ground arith
  ]
  int_of-same (array xs) a d e x h = ground arith
  int_of-same (object fs) a d e x h = ground arith

  -- Reading the amount depends on no state and changes none.
  pub extract_amount_minor-same :
      (p : GatewayProvider) (payload : Json) (a : ℤ) (d e : Db)
      → extract_amount_minor env p payload d ≡ ok (a, e)
      → (x : Db) → extract_amount_minor env p payload x ≡ ok (a, x)
  unfolding extract_amount_minor
  extract_amount_minor-same p payload a d e h x = elim (Option-cases (amount_value p payload)) [
    | inl bad ↦ absurd (ground arith)
    | inr (v, good) ↦ ground (arith, int_of-same v a d e x)
  ]

  pub verify_signature-same :
      (body signature secret : String) (d e : Db)
      → verify_signature env body signature secret d ≡ ok (tt, e)
      → env.compare_digest (env.hmac secret body) signature ≡ some true
  unfolding verify_signature
  verify_signature-same body signature secret d e h =
      elim (Option-cases (env.compare_digest (env.hmac secret body) signature)) [
        | inl bad ↦ absurd (ground arith)
        | inr (true, good) ↦ good
        | inr (false, wrong) ↦ absurd (ground arith)
      ]

  pub verify_signature-passes :
      (body signature secret : String) (d : Db)
      → env.compare_digest (env.hmac secret body) signature ≡ some true
      → verify_signature env body signature secret d ≡ ok (tt, d)
  unfolding verify_signature
  verify_signature-passes body signature secret d h = ground arith

-- What a webhook that returned has read.
pub record Heard (env : Env) (p : GatewayProvider) (body signature secret : String) (payload : Json)
    (d : Db) : Type 0 where
  pub payment_id : Json
  pub order_id : Json
  pub amount : ℤ
  pub column : Option String
  pub gp : GatewayPayment
  pub signed : env.compare_digest (env.hmac secret body) signature ≡ some true
  pub has_payment_id : extract_payment_id p payload ≡ some payment_id
  pub has_order_id : extract_order_id p payload ≡ some order_id
  pub has_amount : (x : Db) → extract_amount_minor env p payload x ≡ ok (amount, x)
  pub bound : env.json.bind_text order_id ≡ some column
  pub found : find_order column d.tables.gateway_payments ≡ some gp

module _ (env : Env) (p : GatewayProvider) (body signature secret : String) (payload : Json) where
  rest :
      (d : Db) (i o : Json) (c : Option String) (a : ℤ) (e f : Db) {r : GatewayPayment × Db}
      → handle_webhook env p body signature secret payload d ≡ ok r
      → verify_signature env body signature secret d ≡ ok (tt, e)
      → e ≡ d
      → env.compare_digest (env.hmac secret body) signature ≡ some true
      → extract_payment_id p payload ≡ some i
      → extract_order_id p payload ≡ some o
      → extract_amount_minor env p payload e ≡ ok (a, f)
      → env.json.bind_text o ≡ some c
      → Heard env p body signature secret payload d
  unfolding handle_webhook
  rest d i o c a e f h verified here signed is_id is_order read bound =
      let has_amount = extract_amount_minor-same env p payload a e f read in
      elim (Option-cases (find_order c d.tables.gateway_payments)) [
        | inl absent ↦ absurd (ground (arith, has_amount d))
        | inr (g, found) ↦ record {
          payment_id = i;
          order_id = o;
          amount = a;
          column = c;
          gp = g;
          signed = signed;
          has_payment_id = is_id;
          has_order_id = is_order;
          has_amount = has_amount;
          bound = bound;
          found = found;
        }
      ]

  pub heard :
      (d : Db) {gp' : GatewayPayment} {d' : Db}
      → handle_webhook env p body signature secret payload d ≡ ok (gp', d')
      → Heard env p body signature secret payload d
  unfolding handle_webhook
  heard d h = elim (Result-cases (verify_signature env body signature secret d)) [
    | inl (x, failed) ↦ absurd (ground arith)
    | inr (_, e, verified) ↦ elim (Option-cases (extract_payment_id p payload)) [
      | inl bad ↦ absurd (ground arith)
      | inr (i, is_id) ↦ elim (Option-cases (extract_order_id p payload)) [
        | inl bad ↦ absurd (ground arith)
        | inr (o, is_order) ↦ elim (Result-cases (extract_amount_minor env p payload e)) [
          | inl (x, failed) ↦ absurd (ground arith)
          | inr (a, f, read) ↦ elim (Option-cases (env.json.bind_text o)) [
            | inl bad ↦ absurd (ground arith)
            | inr (c, bound) ↦
                let signed = verify_signature-same env body signature secret d e verified in
                let here : e ≡ d =
                  ground (arith, verify_signature-passes env body signature secret d signed) in
                rest d i o c a e f h verified here signed is_id is_order read bound
          ]
        ]
      ]
    ]
  ]

  -- What the webhook goes on with.
  pub handle_webhook-heard :
      (d : Db) (t : Heard env p body signature secret payload d)
      → handle_webhook env p body signature secret payload d ≡ (
          if is_success t.gp.status
          then ok (t.gp, d)
          else credit_payment env t.gp t.payment_id t.amount signature d)
  unfolding handle_webhook
  handle_webhook-heard d t = ground (
    arith,
    t.signed,
    t.has_payment_id,
    t.has_order_id,
    t.has_amount d,
    t.bound,
    t.found,
    verify_signature-passes env body signature secret d,
  )
