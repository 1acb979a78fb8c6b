-- ===== src/Gateway/RefundOutcomes.antt =====
-- What a refund webhook does: `handle_refund_webhook` of gateway_service.py.
use apna_mandla.Prelude.{
  ◌+◌, ◌≡◌, ◌⊎◌, refl, String, true, Bool, Option, none, some, arith, inl, inr, Option-cases, ◌∙◌,
  ap, Bool-cases, if◌then◌else◌, first,
}
use apna_mandla.Prelude.Int.{ℤ, pos, ◌-ℤ◌}
use apna_mandla.Money.Rounding.{round-of_paise}
use apna_mandla.Json.{Json}
use apna_mandla.Table.{
  put_row, Distinct, Updated, updated, first-find_row, first-passes, first-put_row,
}
use apna_mandla.Schema.{Db, GatewayPayment, GatewayProvider, refunded, refund}
use apna_mandla.Env.{Env}
use apna_mandla.Session.{ok, Result-cases}
use apna_mandla.Ledger.{posting, no_links, debit}
use apna_mandla.Ledger.Posting.{Posting}
use apna_mandla.Ledger.Invariant.{IsValid}
use apna_mandla.Ledger.Outcome.{debit_outcome}
use apna_mandla.Ledger.Refinement.{view, move, debit-move}
use apna_mandla.Gateway.{
  extract_payment_id, extract_amount_minor, verify_signature, find_payment, column_is, is_refunded,
  save_payment, refund_payment, handle_refund_webhook, refund_key,
}
use apna_mandla.Gateway.Reading.{
  extract_amount_minor-same, verify_signature-same, verify_signature-passes,
}
use apna_mandla.Gateway.WebhookOutcomes.{payment_ids, SameTerms, save_payment_lem}

-- What a refund webhook that returned has read.
pub record Heard (env : Env) (p : GatewayProvider) (body signature secret : String) (payload : Json)
    (d : Db) : Type 0 where
  pub payment_id : Json
  pub amount : ℤ
  pub column : Option String
  pub gp : GatewayPayment
  pub signed : env.compare_digest (env.hmac secret body) signature ≡ some true
  pub has_payment_id : extract_payment_id p payload ≡ some payment_id
  pub has_amount : (x : Db) → extract_amount_minor env p payload x ≡ ok (amount, x)
  pub bound : env.json.bind_text payment_id ≡ some column
  pub found : find_payment column d.tables.gateway_payments ≡ some gp

module _ (env : Env) (p : GatewayProvider) (body signature secret : String) (payload : Json) where
  rest :
      (d : Db) (i : Json) (c : Option String) (a : ℤ) (e f : Db) {r : GatewayPayment × Db}
      → handle_refund_webhook env p body signature secret payload d ≡ ok r
      → verify_signature env body signature secret d ≡ ok (tt, e)
      → e ≡ d
      → env.compare_digest (env.hmac secret body) signature ≡ some true
      → extract_payment_id p payload ≡ some i
      → extract_amount_minor env p payload e ≡ ok (a, f)
      → env.json.bind_text i ≡ some c
      → Heard env p body signature secret payload d
  unfolding handle_refund_webhook
  rest d i c a e f h verified here signed is_id read bound =
      let has_amount = extract_amount_minor-same env p payload a e f read in
      elim (Option-cases (find_payment c d.tables.gateway_payments)) [
        | inl absent ↦ absurd (ground (arith, has_amount d))
        | inr (g, found) ↦ record {
          payment_id = i;
          amount = a;
          column = c;
          gp = g;
          signed = signed;
          has_payment_id = is_id;
          has_amount = has_amount;
          bound = bound;
          found = found;
        }
      ]

  heard :
      (d : Db) {gp' : GatewayPayment} {d' : Db}
      → handle_refund_webhook env p body signature secret payload d ≡ ok (gp', d')
      → Heard env p body signature secret payload d
  unfolding handle_refund_webhook
  heard d h = elim (Result-cases (verify_signature env body signature secret d)) [
    | inl (x, failed) ↦ absurd (ground arith)
    | inr (_, e, verified) ↦ elim (Option-cases (extract_payment_id p payload)) [
      | inl bad ↦ absurd (ground arith)
      | inr (i, is_id) ↦ elim (Result-cases (extract_amount_minor env p payload e)) [
        | inl (x, failed) ↦ absurd (ground arith)
        | inr (a, f, read) ↦ elim (Option-cases (env.json.bind_text i)) [
          | inl bad ↦ absurd (ground arith)
          | inr (c, bound) ↦
              let signed = verify_signature-same env body signature secret d e verified in
              let here : e ≡ d =
                ground (arith, verify_signature-passes env body signature secret d signed) in
              rest d i c a e f h verified here signed is_id read bound
        ]
      ]
    ]
  ]

  handle_refund_webhook-heard :
      (d : Db) (t : Heard env p body signature secret payload d)
      → handle_refund_webhook env p body signature secret payload d ≡ (
          if is_refunded t.gp.status
          then ok (t.gp, d)
          else refund_payment env t.gp t.payment_id t.amount d)
  unfolding handle_refund_webhook
  handle_refund_webhook-heard d t = ground (
    arith,
    t.signed,
    t.has_payment_id,
    t.has_amount d,
    t.bound,
    t.found,
    verify_signature-passes env body signature secret d,
  )

-- The payment `before` of a refund became `after`, and its user was debited `amount`, to nobody.
pub record Repaid (env : Env) (payment_id : Json) (amount : ℤ) (before after : GatewayPayment)
    (d d' : Db) : Type 0 where
  pub row :
      Updated payment_ids before.id before after d.tables.gateway_payments
        d'.tables.gateway_payments
  pub rows : d'.tables.gateway_payments ≡ put_row payment_ids after d.tables.gateway_payments
  pub terms : SameTerms before after
  pub same_next : d'.tables.next_gateway_payment_id ≡ d.tables.next_gateway_payment_id
  pub same_payment : after.gateway_payment_id ≡ before.gateway_payment_id
  pub now_refunded : after.status ≡ refunded
  pub moved :
      view d'.books
      ≡ move before.user_id (some (refund_key env payment_id)) (pos 0 -ℤ amount) (view d.books)

module _ (env : Env) (gp : GatewayPayment) (payment_id : Json) (amount : ℤ) (d : Db)
    (gp' : GatewayPayment) (d' : Db) where
  abbrev returned : Posting
  returned =
      posting gp.user_id amount refund (env.uuid d.ticks) no_links
        (some (refund_key env payment_id))

  pub refund_payment_lem :
      IsValid env d.books
      → Distinct payment_ids d.tables.gateway_payments
      → (q : GatewayPayment → Bool) → first q d.tables.gateway_payments ≡ some gp
      → refund_payment env gp payment_id amount d ≡ ok (gp', d')
      → Repaid env payment_id amount gp gp' d d'
  unfolding refund_payment
  refund_payment_lem valid dis q found h =
      let d1 = record d { ticks = d.ticks + 1 } in
      elim (Result-cases (debit env returned none d1)) [
        | inl (x, failed) ↦ absurd (ground arith)
        | inr (entry, e, done) ↦
            let after = record gp { status = refunded; refunded_at = some (env.clock e.ticks) } in
            let e' = record e { ticks = e.ticks + 1 } in
            elim (Result-cases (save_payment after e')) [
              | inl (x, failed) ↦ absurd (ground arith)
              | inr (_, f, flushed) ↦
                  let final : (gp' ≡ after) × (d' ≡ f) = (ground arith, ground arith) in
                  let (rows, next, books) = save_payment_lem after e' f flushed in
                  let tables = (debit_outcome env returned none d1 entry e done).0 in
                  let changed =
                    rows ∙ ap (λ t. put_row payment_ids after t.gateway_payments) tables in
                  rw (final.0, final.1)
                    (record {
                      row =
                          updated payment_ids gp.id gp after d.tables.gateway_payments
                            f.tables.gateway_payments
                            (first-find_row payment_ids q d.tables.gateway_payments dis found) refl
                            changed;
                      rows = changed;
                      terms = record {
                        same_id = refl;
                        same_user = refl;
                        same_amount = refl;
                        same_order = refl;
                      };
                      same_next = next ∙ ap (λ t. t.next_gateway_payment_id) tables;
                      same_payment = refl;
                      now_refunded = refl;
                      moved =
                          ap view books
                          ∙ debit-move env returned d1 entry e valid none done
                          ∙ rw (round-of_paise amount) refl;
                    })
            ]
      ]

module _ (env : Env) (p : GatewayProvider) (body signature secret : String) (payload : Json)
    (d : Db) (gp : GatewayPayment) (d' : Db)
    (h : handle_refund_webhook env p body signature secret payload d ≡ ok (gp, d')) where
  abbrev read : Heard env p body signature secret payload d
  read = heard env p body signature secret payload d h

  refunded_now :
      IsValid env d.books
      → Distinct payment_ids d.tables.gateway_payments
      → is_refunded read.gp.status ≡ Bool.false
      → Repaid env read.payment_id read.amount read.gp gp d d'
  unfolding find_payment
  refunded_now valid dis fresh =
      let went = handle_refund_webhook-heard env p body signature secret payload d read in
      refund_payment_lem env read.gp read.payment_id read.amount d gp d' valid dis
        (λ g. column_is read.column g.gateway_payment_id) read.found (ground (arith, went))

  -- In valid books, where the ids of payments are distinct, a refund webhook that returns either
  -- found its payment refunded and changed nothing, or has marked a payment as refunded and
  -- changed no other one, and has taken the amount that the body names off the user's balance,
  -- once for the payment id, and given it to no other wallet.
  pub handle_refund_webhook_lem :
      IsValid env d.books
      → Distinct payment_ids d.tables.gateway_payments
      → ((gp.status ≡ refunded) × (d' ≡ d))
        ⊎ ((payment_id : Json) × (amount : ℤ) × (before : GatewayPayment) × (extract_payment_id p
                payload
              ≡ some payment_id)
            × (extract_amount_minor env p payload d ≡ ok (amount, d))
            × Repaid env payment_id amount before gp d d')
  handle_refund_webhook_lem valid dis =
      let went = handle_refund_webhook-heard env p body signature secret payload d read in
      elim (Bool-cases (is_refunded read.gp.status)) [
        | inl already ↦ inl (ground (arith, went), ground (arith, went))
        | inr fresh ↦ inr (
          read.payment_id,
          read.amount,
          read.gp,
          read.has_payment_id,
          read.has_amount d,
          refunded_now valid dis fresh,
        )
      ]

  pub handle_refund_webhook_twice :
      IsValid env d.books
      → Distinct payment_ids d.tables.gateway_payments
      → handle_refund_webhook env p body signature secret payload d' ≡ ok (gp, d')
  unfolding find_payment
  handle_refund_webhook_twice valid dis =
      let went = handle_refund_webhook-heard env p body signature secret payload d read in
      elim (Bool-cases (is_refunded read.gp.status)) [
        | inl already ↦
            let same : d' ≡ d = ground (arith, went) in
            ap (handle_refund_webhook env p body signature secret payload) same ∙ h ∙ rw same refl
        | inr fresh ↦
            let c = refunded_now valid dis fresh in
            let test = λ (g : GatewayPayment). column_is read.column g.gateway_payment_id in
            let passes =
              ap (column_is read.column) c.same_payment
              ∙ first-passes payment_ids test d.tables.gateway_payments read.found in
            let found : find_payment read.column d'.tables.gateway_payments ≡ some gp =
              ap (first test) c.rows
              ∙ first-put_row payment_ids test read.gp gp d.tables.gateway_payments dis read.found
                  c.terms.same_id passes in
            let again : Heard env p body signature secret payload d' = record {
              payment_id = read.payment_id;
              amount = read.amount;
              column = read.column;
              gp = gp;
              signed = read.signed;
              has_payment_id = read.has_payment_id;
              has_amount = read.has_amount;
              bound = read.bound;
              found = found;
            } in
            ground (
              arith,
              c.now_refunded,
              handle_refund_webhook-heard env p body signature secret payload d' again,
            )
      ]
