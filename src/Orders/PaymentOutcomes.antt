-- ===== src/Orders/PaymentOutcomes.antt =====
-- What the payment of an order does: `pay_for_order` of Backend/app/routes/wallets.py, and
-- Backend/app/routes/payment.py.
use apna_mandla.Prelude.{
  ℕ, ◌≡◌, ◌≢◌, refl, String, Bool, Option, none, some, [], ◌∷◌, arith, inl, inr, ◌∙◌, ap, ◌==◌,
  ◌&&◌, Option-cases, first, sym,
}
use apna_mandla.Prelude.Text.{f_string, str, str_eq}
use apna_mandla.Money.{of_paise}
use apna_mandla.Table.{
  find_row, put_row, Distinct, first-find_row, first-passes, put_row-Distinct, Updated, updated,
}
use apna_mandla.Schema.{Db, Order, created, payment_pending, prepaid, Payment, pay_success, Shop}
use apna_mandla.Env.{Env}
use apna_mandla.Session.{ok, Result-cases}
use apna_mandla.Ledger.{Split, process_order_payment, key_or}
use apna_mandla.Ledger.Frame.{process_order_payment-Same}
use apna_mandla.Withdrawal.{answering}
use apna_mandla.Orders.{
  order, order_ids, payment, payment_ids, find_shop, save_order, pay_for_order, settle_payment,
  settle_order, payment_success,
}

abbrev pub pay_key : Option String → ℕ → Option String
pay_key key order_id = some (key_or key (f_string ("wallet-pay-order-" ∷ str order_id ∷ [])))

-- An order that waited for its payment from a wallet was paid to the shop `s`.
pub record PaidFor (env : Env) (user : ℕ) (key : Option String) (before : Order) (s : Shop)
    (split : Split) (d d' : Db) : Type 0 where
  pub own : before.customer_id ≡ user
  pub was_pending : before.status ≡ payment_pending
  pub was_prepaid : before.payment_mode ≡ prepaid
  pub shop : find_shop before.shop_id d.tables.shops ≡ some s
  pub after_payment : Db
  pub payment :
      process_order_payment env user s.user_id
        (of_paise before.total_amount)
        before.id
        (pay_key key before.id)
        none
        none
        d
      ≡ ok (split, after_payment)
  pub same_books : d'.books ≡ after_payment.books
  pub rows :
      d'.tables.orders ≡ put_row order_ids (record before { status = created }) d.tables.orders
  pub row :
      Updated order_ids before.id before
        (record before { status = created })
        d.tables.orders
        d'.tables.orders

module _ (env : Env) (user i : ℕ) (key : Option String) (d : Db) (split : Split) (d' : Db)
    (dis : Distinct order_ids d.tables.orders)
    (h : pay_for_order env user i key d ≡ ok (split, d')) where
  abbrev asked : Order → Bool
  asked o = o.id == i && o.customer_id == user

  -- Where the ids of orders are distinct, a payment of an order from a wallet that returns was of
  -- the caller's own prepaid order that waited for its payment, has booked what
  -- `process_order_payment` books for its total and its shop's user, has made the order created,
  -- and has changed no other order.
  pub pay_for_order_lem :
      (o : Order) × (s : Shop) × (o.id ≡ i) × PaidFor env user key o s split d d'
  unfolding pay_for_order save_order answering
  pay_for_order_lem = elim (Option-cases (first asked d.tables.orders)) [
    | inl absent ↦ absurd (ground arith)
    | inr (o, found) ↦ elim (Option-cases (find_shop o.shop_id d.tables.shops)) [
      | inl no_shop ↦ absurd (ground arith)
      | inr (s, shop) ↦
          elim (Result-cases (
            process_order_payment env user s.user_id (of_paise o.total_amount) o.id
              (pay_key key o.id) none none d)) [
                | inl (x, failed) ↦ absurd (ground arith)
                | inr (x, e, done) ↦
                    let passes = first-passes order_ids asked d.tables.orders found in
                    let tables =
                      (process_order_payment-Same env d.tables user s.user_id
                          (of_paise o.total_amount) o.id (pay_key key o.id) none none).at
                        d x e refl done in
                    (
                      o,
                      s,
                      ground (arith, passes),
                      record {
                        own = ground (arith, passes);
                        was_pending = ground arith;
                        was_prepaid = ground arith;
                        shop = shop;
                        after_payment = e;
                        payment = ground (arith, done);
                        same_books = ground arith;
                        rows = ground (arith, tables);
                        row =
                            updated order_ids o.id o (record o { status = created }) d.tables.orders
                              d'.tables.orders
                              (first-find_row order_ids asked d.tables.orders dis found) refl
                              (ground (arith, tables));
                      },
                    )
              ]
    ]
  ]

-- An order that does not wait for its payment is not paid from a wallet.
not_paid_again :
    (env : Env) (user i : ℕ) (key : Option String) (d : Db) (r : Split × Db) (o : Order)
    → Distinct order_ids d.tables.orders
    → order i d ≡ some o
    → o.status ≢ payment_pending
    → pay_for_order env user i key d ≢ ok r
unfolding pay_for_order
not_paid_again env user i key d r o dis there other h =
    elim (Option-cases (first (λ x. x.id == i && x.customer_id == user) d.tables.orders)) [
      | inl absent ↦ absurd (ground arith)
      | inr (x, found) ↦
          let test = λ (x : Order). x.id == i && x.customer_id == user in
          let passes = first-passes order_ids test d.tables.orders found in
          let here = first-find_row order_ids test d.tables.orders dis found in
          let own : x.id ≡ i = ground (arith, passes) in
          let same : x ≡ o =
            ground (arith, here, there, ap (λ j. find_row order_ids j d.tables.orders) own) in
          absurd (ground (arith, same))
    ]

settle_refuses :
    (env : Env) (t : String) (d : Db) (r : ℕ × Db) (o : Order) (pay : Payment)
    → order pay.order_id d ≡ some o
    → o.status ≢ payment_pending
    → settle_payment env pay t d ≢ ok r
unfolding settle_payment settle_order
settle_refuses env t d r o pay its_order other h =
    elim (Option-cases (
      first (λ p. elim p.transaction_id [ none ↦ Bool.false | some x ↦ str_eq x t ])
        d.tables.payments)) [
          | inl fresh ↦ absurd (ground arith)
          | inr (p, dup) ↦ absurd (ground arith)
        ]

-- Nor by a payment through the gateway.
not_settled_again :
    (env : Env) (user p : ℕ) (t : String) (d : Db) (r : ℕ × Db) (o : Order) (pay : Payment)
    → Distinct payment_ids d.tables.payments
    → payment p d ≡ some pay
    → pay.status ≢ pay_success
    → order pay.order_id d ≡ some o
    → o.status ≢ payment_pending
    → payment_success env user p t d ≢ ok r
unfolding payment_success
not_settled_again env user p t d r o pay dis there unpaid its_order other h =
    elim (Option-cases (first (λ x. x.id == p && x.user_id == user) d.tables.payments)) [
      | inl absent ↦ absurd (ground arith)
      | inr (x, found) ↦
          let test = λ (x : Payment). x.id == p && x.user_id == user in
          let passes = first-passes payment_ids test d.tables.payments found in
          let here = first-find_row payment_ids test d.tables.payments dis found in
          let own : x.id ≡ p = ground (arith, passes) in
          let same : x ≡ pay =
            ground (arith, here, there, ap (λ j. find_row payment_ids j d.tables.payments) own) in
          settle_refuses env t d r o x (ap (λ p. order p.order_id d) same ∙ its_order) other
            (ground (arith, ap (λ p. p.status) same))
    ]

module _ (env : Env) (user i : ℕ) (key : Option String) (d : Db) (split : Split) (d' : Db)
    (dis : Distinct order_ids d.tables.orders)
    (h : pay_for_order env user i key d ≡ ok (split, d')) where
  abbrev paid_order : Order
  paid_order = record (pay_for_order_lem env user i key d split d' dis h).0 { status = created }

  still : Distinct order_ids d'.tables.orders
  still =
      let (o, s, own, w) = pay_for_order_lem env user i key d split d' dis h in
      rw w.rows (put_row-Distinct order_ids paid_order d.tables.orders dis)

  now_paid : order i d' ≡ some paid_order
  now_paid =
      let (o, s, own, w) = pay_for_order_lem env user i key d split d' dis h in
      ap (λ j. order j d') (sym own) ∙ w.row.now_found

  -- Where the ids of orders are distinct, after a payment of an order from a wallet that returned,
  -- no other payment of that order from a wallet returns, whoever calls and under whatever key.
  pub pay_for_order_once :
      (other : ℕ) (other_key : Option String) (r : Split × Db)
      → pay_for_order env other i other_key d' ≢ ok r
  pay_for_order_once other other_key r =
      not_paid_again env other i other_key d' r paid_order still now_paid (λ x. absurd (cc x))

  -- Where the ids of orders, and after the call those of payments, are distinct, after a payment
  -- of an order from a wallet that returned, no success of a payment row of that order that is not
  -- yet successful returns.
  pub pay_for_order-ends_gateway :
      (other p : ℕ) (t : String) (pay : Payment) (q : ℕ × Db)
      → Distinct payment_ids d'.tables.payments
      → payment p d' ≡ some pay
      → pay.status ≢ pay_success
      → pay.order_id ≡ i
      → payment_success env other p t d' ≢ ok q
  pay_for_order-ends_gateway other p t pay q dis_p there unpaid own_pay =
      not_settled_again env other p t d' q paid_order pay dis_p there unpaid
        (ap (λ j. order j d') own_pay ∙ now_paid) (λ x. absurd (cc x))
