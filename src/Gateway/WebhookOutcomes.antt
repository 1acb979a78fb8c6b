-- ===== src/Gateway/WebhookOutcomes.antt =====
-- What a success webhook does: `handle_webhook` of gateway_service.py.
use apna_mandla.Prelude.{
  ℕ, ◌+◌, ◌≡◌, ◌⊎◌, refl, String, true, false, Option, none, some, arith, inl, inr, Option-cases,
  ◌∙◌, ap, Bool, Bool-cases, first,
}
use apna_mandla.Prelude.Int.{ℤ, pos, ◌-ℤ◌}
use apna_mandla.Money.{of_paise}
use apna_mandla.Money.Rounding.{round-of_paise}
use apna_mandla.Json.{Json}
use apna_mandla.Table.{
  put_row, Distinct, Updated, updated, first-find_row, first-passes, first-put_row,
}
use apna_mandla.Schema.{Db, Wallet, GatewayPayment, GatewayProvider, initiated, success}
use apna_mandla.Env.{Env}
use apna_mandla.Session.{ok, Result-cases}
use apna_mandla.Ledger.{platform_user_id, topup_wallet}
use apna_mandla.Ledger.Invariant.{IsValid}
use apna_mandla.Ledger.Refinement.{view, move}
use apna_mandla.Ledger.Topup.{topup_wallet-move, topup_wallet-tables}
use apna_mandla.Gateway.Reading.{Heard, heard, handle_webhook-heard}
use apna_mandla.Gateway.{
  column_is, extract_payment_id, extract_amount_minor, find_order, is_success, save_payment,
  payment_id_taken, confirmed, credit_payment, handle_webhook, topup_key,
}

abbrev pub payment_ids : GatewayPayment → ℕ
payment_ids g = g.id

-- What no webhook changes in a payment.
pub record SameTerms (before after : GatewayPayment) : Type 0 where
  pub same_id : after.id ≡ before.id
  pub same_user : after.user_id ≡ before.user_id
  pub same_amount : after.amount ≡ before.amount
  pub same_order : after.gateway_order_id ≡ before.gateway_order_id

-- The payment `before` of a webhook became `after` and its user was credited `amount` for `payment_id`.
pub record Confirmed (env : Env) (payment_id : Json) (amount : ℤ) (before after : GatewayPayment)
    (d d' : Db) : Type 0 where
  pub was_initiated : before.status ≡ initiated
  pub row :
      Updated payment_ids before.id before after d.tables.gateway_payments
        d'.tables.gateway_payments
  pub rows : d'.tables.gateway_payments ≡ put_row payment_ids after d.tables.gateway_payments
  pub terms : SameTerms before after
  pub same_next : d'.tables.next_gateway_payment_id ≡ d.tables.next_gateway_payment_id
  pub now_success : after.status ≡ success
  pub moved :
      view d'.books
      ≡ move platform_user_id none
          (pos 0 -ℤ amount)
          (move before.user_id (some (topup_key env payment_id)) amount (view d.books))

-- A flush that passed has put the row in the place of the row with its id.
pub save_payment_lem :
    (g : GatewayPayment) (d d' : Db)
    → save_payment g d ≡ ok (tt, d')
    → (d'.tables.gateway_payments ≡ put_row payment_ids g d.tables.gateway_payments)
      × (d'.tables.next_gateway_payment_id ≡ d.tables.next_gateway_payment_id)
      × (d'.books ≡ d.books)
unfolding save_payment
save_payment_lem g d d' h =
    elim (Bool-cases (payment_id_taken g.id g.gateway_payment_id d.tables.gateway_payments)) [
      | inl taken ↦ absurd (ground arith)
      | inr free ↦ (ground arith, ground arith, ground arith)
    ]

module _ (env : Env) (gp : GatewayPayment) (payment_id : Json) (amount : ℤ) (signature : String)
    (d : Db) (gp' : GatewayPayment) (d' : Db) where
  credited :
      (stored : Option String)
      → IsValid env d.books
      → Distinct payment_ids d.tables.gateway_payments
      → (q : GatewayPayment → Bool) → first q d.tables.gateway_payments ≡ some gp
      → gp.status ≡ initiated
      → (w : Wallet) (e f : Db)
      → topup_wallet env gp.user_id (of_paise amount) (some (topup_key env payment_id)) none d
        ≡ ok (w, e)
      → save_payment
          (confirmed env gp payment_id stored signature (env.clock e.ticks))
          (record e { ticks = e.ticks + 1 })
        ≡ ok (tt, f)
      → Confirmed env payment_id amount gp
          (confirmed env gp payment_id stored signature (env.clock e.ticks))
          d
          f
  unfolding confirmed
  credited stored valid dis q found status w e f done flushed =
      let key = some (topup_key env payment_id) in
      let after = confirmed env gp payment_id stored signature (env.clock e.ticks) in
      let tables = topup_wallet-tables env gp.user_id (of_paise amount) key none d w e done in
      let (rows, next, books) =
        save_payment_lem after (record e { ticks = e.ticks + 1 }) f flushed in
      let changed = rows ∙ ap (λ t. put_row payment_ids after t.gateway_payments) tables in
      record {
        was_initiated = status;
        row =
            updated payment_ids gp.id gp after d.tables.gateway_payments f.tables.gateway_payments
              (first-find_row payment_ids q d.tables.gateway_payments dis found) refl changed;
        rows = changed;
        terms = record { same_id = refl; same_user = refl; same_amount = refl; same_order = refl };
        same_next = next ∙ ap (λ t. t.next_gateway_payment_id) tables;
        now_success = refl;
        moved =
            ap view books
            ∙ topup_wallet-move env gp.user_id (of_paise amount) key none d w e valid done
            ∙ rw (round-of_paise amount) refl;
      }

  pub credit_payment_lem :
      IsValid env d.books
      → Distinct payment_ids d.tables.gateway_payments
      → (q : GatewayPayment → Bool) → first q d.tables.gateway_payments ≡ some gp
      → credit_payment env gp payment_id amount signature d ≡ ok (gp', d')
      → Confirmed env payment_id amount gp gp' d d'
  unfolding credit_payment confirmed
  credit_payment_lem valid dis q found h =
      elim (Result-cases
        (topup_wallet env gp.user_id (of_paise amount) (some (topup_key env payment_id)) none d)) [
          | inl (x, failed) ↦ absurd (ground arith)
          | inr (w, e, done) ↦ elim (Option-cases (env.json.bind_text payment_id)) [
            | inl refused ↦ absurd (ground arith)
            | inr (stored, bound) ↦
                let after = confirmed env gp payment_id stored signature (env.clock e.ticks) in
                let e' = record e { ticks = e.ticks + 1 } in
                elim (Result-cases (save_payment after e')) [
                  | inl (x, failed) ↦ absurd (ground arith)
                  | inr (_, f, flushed) ↦
                      let final : (gp' ≡ after) × (d' ≡ f) = (ground arith, ground arith) in
                      rw (final.0, final.1)
                        (credited stored valid dis q found (ground arith) w e f done flushed)
                ]
          ]
        ]

module _ (env : Env) (p : GatewayProvider) (body signature secret : String) (payload : Json)
    (d : Db) (gp : GatewayPayment) (d' : Db)
    (h : handle_webhook env p body signature secret payload d ≡ ok (gp, d')) where
  abbrev read : Heard env p body signature secret payload d
  read = heard env p body signature secret payload d h

  credited_now :
      IsValid env d.books
      → Distinct payment_ids d.tables.gateway_payments
      → is_success read.gp.status ≡ false
      → Confirmed env read.payment_id read.amount read.gp gp d d'
        × (column_is read.column gp.gateway_order_id ≡ true)
  unfolding find_order
  credited_now valid dis fresh =
      let went = handle_webhook-heard env p body signature secret payload d read in
      let test = λ (g : GatewayPayment). column_is read.column g.gateway_order_id in
      let c =
        credit_payment_lem env read.gp read.payment_id read.amount signature d gp d' valid dis test
          read.found (ground (arith, went)) in
      (
        c,
        ap (column_is read.column) (c.terms.same_order)
            ∙ first-passes payment_ids test d.tables.gateway_payments read.found,
      )

  -- In valid books, where the ids of payments are distinct, a success webhook that returns either
  -- found its payment confirmed and changed nothing, or has confirmed an initiated payment and
  -- changed no other one, and has moved the amount that the body names from the platform to the
  -- payment's user, the user's side once for the payment id.
  pub handle_webhook_lem :
      IsValid env d.books
      → Distinct payment_ids d.tables.gateway_payments
      → ((gp.status ≡ success) × (d' ≡ d))
        ⊎ ((payment_id : Json) × (amount : ℤ) × (before : GatewayPayment) × (extract_payment_id p
                payload
              ≡ some payment_id)
            × (extract_amount_minor env p payload d ≡ ok (amount, d))
            × Confirmed env payment_id amount before gp d d')
  handle_webhook_lem valid dis =
      let went = handle_webhook-heard env p body signature secret payload d read in
      elim (Bool-cases (is_success read.gp.status)) [
        | inl already ↦ inl (ground (arith, went), ground (arith, went))
        | inr fresh ↦ inr (
          read.payment_id,
          read.amount,
          read.gp,
          read.has_payment_id,
          read.has_amount d,
          (credited_now valid dis fresh).0,
        )
      ]

  -- In valid books, where the ids of payments are distinct, after a success webhook that returned,
  -- the same webhook returns the same payment and changes nothing.
  pub handle_webhook_twice :
      IsValid env d.books
      → Distinct payment_ids d.tables.gateway_payments
      → handle_webhook env p body signature secret payload d' ≡ ok (gp, d')
  unfolding find_order
  handle_webhook_twice valid dis =
      let went = handle_webhook-heard env p body signature secret payload d read in
      elim (Bool-cases (is_success read.gp.status)) [
        | inl already ↦
            let same : d' ≡ d = ground (arith, went) in
            ap (handle_webhook env p body signature secret payload) same ∙ h ∙ rw same refl
        | inr fresh ↦
            let (c, passes) = credited_now valid dis fresh in
            let test = λ (g : GatewayPayment). column_is read.column g.gateway_order_id in
            let found : find_order read.column d'.tables.gateway_payments ≡ some gp =
              ap (first test) c.rows
              ∙ first-put_row payment_ids test read.gp gp d.tables.gateway_payments dis read.found
                  c.terms.same_id passes in
            let again : Heard env p body signature secret payload d' = record {
              payment_id = read.payment_id;
              order_id = read.order_id;
              amount = read.amount;
              column = read.column;
              gp = gp;
              signed = read.signed;
              has_payment_id = read.has_payment_id;
              has_order_id = read.has_order_id;
              has_amount = read.has_amount;
              bound = read.bound;
              found = found;
            } in
            ground (
              arith,
              c.now_success,
              handle_webhook-heard env p body signature secret payload d' again,
            )
      ]
