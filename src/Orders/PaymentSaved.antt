-- ===== src/Orders/PaymentSaved.antt =====
-- How each call on a payment leaves the orders.
use apna_mandla.Prelude.{
  ℕ, ◌+◌, ◌≡◌, ◌≢◌, ◌⊎◌, refl, String, false, Bool, Option, none, some, [], ◌∷◌, arith, inl, inr,
  ◌==◌, ◌&&◌, Bool-cases, Option-cases, first,
}
use apna_mandla.Prelude.Text.{f_string, str, str_eq}
use apna_mandla.Table.{find_row, put_row, Distinct}
use apna_mandla.Schema.{Db, Order, Payment, created, cancelled, pay_success, delivered}
use apna_mandla.Env.{Env}
use apna_mandla.Session.{ok, Result-cases}
use apna_mandla.Ledger.{Split, process_order_payment, process_refund, commission_percent}
use apna_mandla.Ledger.Frame.{process_order_payment-Same, process_refund-Same}
use apna_mandla.Withdrawal.{answering}
use apna_mandla.Orders.{
  order, order_ids, payment_ids, find_shop, save_order, save_payment, pay_for_order, settle_payment,
  settle_order, payment_success, payment_failed, refund_payment, is_pay_initiated, is_pay_success,
}
use apna_mandla.Orders.PaymentOutcomes.{pay_for_order_lem}
use apna_mandla.Orders.Saved.{Saved, on_the_way}

-- The row of an order whose new status is neither delivered nor on the way.
Saved-off_the_way :
    (d d' : Db) (a : Order)
    → a.status ≢ delivered
    → on_the_way a.status ≡ false
    → d'.tables.orders ≡ put_row order_ids a d.tables.orders
    → Saved d d'
Saved-off_the_way d d' a undone off rows = record {
  after = a;
  rows = rows;
  undelivered = undone;
  manned = λ m p. absurd (cc (off, p));
}

module _ (env : Env) (d d' : Db) where
  pub pay_for_order-Saved :
      (user i : ℕ) (key : Option String) (x : Split)
      → Distinct order_ids d.tables.orders
      → pay_for_order env user i key d ≡ ok (x, d')
      → Saved d d'
  pay_for_order-Saved user i key x dis h =
      let (o, s, own, w) = pay_for_order_lem env user i key d x d' dis h in
      Saved-off_the_way d d' (record o { status = created }) (λ p. absurd (cc p)) refl w.rows

  settle_order-Saved :
      (p : Payment) (t : String) (x : ℕ) → settle_order env p t d ≡ ok (x, d') → Saved d d'
  unfolding settle_order save_order save_payment answering
  settle_order-Saved p t x h = elim (Option-cases (order p.order_id d)) [
    | inl absent ↦ absurd (ground arith)
    | inr (o, found) ↦ elim (Option-cases (find_shop o.shop_id d.tables.shops)) [
      | inl no_shop ↦ absurd (ground arith)
      | inr (s, shop) ↦
          let key = some (f_string ("gateway-" ∷ t ∷ [])) in
          let p' = record p {
            status = pay_success;
            transaction_id = some t;
            completed_at = some (env.clock d.ticks);
          } in
          let d1 = record d {
            ticks = d.ticks + 1;
            tables = record d.tables { payments = put_row payment_ids p' d.tables.payments };
          } in
          elim (Result-cases
            (process_order_payment env o.customer_id s.user_id p.amount o.id key none none d1)) [
              | inl (y, failed) ↦ absurd (ground arith)
              | inr (y, e, done) ↦
                  let tables =
                    (process_order_payment-Same env d1.tables o.customer_id s.user_id p.amount o.id
                        key none none).at
                      d1 y e refl done in
                  Saved-off_the_way d d' (record o { status = created }) (λ p. absurd (cc p)) refl
                    (ground (arith, tables))
            ]
    ]
  ]

  settle_payment-order :
      (p : Payment) (t : String) (r : ℕ × Db)
      → settle_payment env p t d ≡ ok r
      → settle_order env p t d ≡ ok r
  unfolding settle_payment
  settle_payment-order p t r h =
      elim (Option-cases (
        first (λ p. elim p.transaction_id [ none ↦ Bool.false | some x ↦ str_eq x t ])
          d.tables.payments)) [ inl fresh ↦ ground arith | inr (q, dup) ↦ ground arith ]

  pub payment_success-Saved :
      (user p : ℕ) (t : String) (x : ℕ)
      → payment_success env user p t d ≡ ok (x, d')
      → (d'.tables.orders ≡ d.tables.orders) ⊎ Saved d d'
  unfolding payment_success
  payment_success-Saved user p t x h =
      elim (Option-cases (first (λ x. x.id == p && x.user_id == user) d.tables.payments)) [
        | inl absent ↦ absurd (ground arith)
        | inr (q, found) ↦ elim (Bool-cases (is_pay_success q.status)) [
          | inl already ↦ inl (ground arith)
          | inr not_yet ↦
              inr (settle_order-Saved q t x (settle_payment-order q t (x, d') (ground arith)))
        ]
      ]

  pub payment_failed-Saved :
      (user p : ℕ) (reason : Option String) (x : ℕ)
      → payment_failed env user p reason d ≡ ok (x, d')
      → (d'.tables.orders ≡ d.tables.orders) ⊎ Saved d d'
  unfolding payment_failed save_order save_payment
  payment_failed-Saved user p reason x h =
      elim (Option-cases (
        first (λ x. x.id == p && (x.user_id == user && is_pay_initiated x.status))
          d.tables.payments)) [
            | inl absent ↦ absurd (ground arith)
            | inr (q, found) ↦ elim (Option-cases (order q.order_id d)) [
              | inl no_order ↦ inl (ground arith)
              | inr (o, its) ↦ inr (
                  Saved-off_the_way d d' (record o { status = cancelled }) (λ p. absurd (cc p)) refl
                    (ground arith))
            ]
          ]

  pub refund_payment-Saved : (p : ℕ) (x : ℕ) → refund_payment env p d ≡ ok (x, d') → Saved d d'
  unfolding refund_payment save_order save_payment answering
  refund_payment-Saved p x h = elim (Option-cases (find_row payment_ids p d.tables.payments)) [
    | inl absent ↦ absurd (ground arith)
    | inr (q, found) ↦ elim (Option-cases (order q.order_id d)) [
      | inl no_order ↦ absurd (ground arith)
      | inr (o, its) ↦ elim (Option-cases (find_shop o.shop_id d.tables.shops)) [
        | inl no_shop ↦ absurd (ground arith)
        | inr (s, shop) ↦
            let key = some (f_string ("refund-payment-" ∷ str p ∷ [])) in
            elim (Result-cases (
              process_refund env o.customer_id s.user_id q.amount o.id (commission_percent d) key
                none d)) [
                  | inl (y, failed) ↦ absurd (ground arith)
                  | inr (_, e, done) ↦
                      let tables =
                        (process_refund-Same env d.tables o.customer_id s.user_id q.amount o.id
                            (commission_percent d) key none).at
                          d tt e refl done in
                      Saved-off_the_way d d' (record o { status = cancelled }) (λ p. absurd (cc p))
                        refl (ground (arith, tables))
                ]
      ]
    ]
  ]
