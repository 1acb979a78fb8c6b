-- ===== src/Orders/Payments.antt =====
-- The payment of an order: `add_money` and `pay_for_order` of Backend/app/routes/wallets.py, and
-- Backend/app/routes/payment.py.
use apna_mandla.Prelude.{
  ℕ, String, Bool, not, ◌&&◌, Option, none, some, [], ◌∷◌, ◌==◌, if◌then◌else◌, first,
}
use apna_mandla.Prelude.Text.{f_string, str, str_eq}
use apna_mandla.Money.{Decimal, of_paise}
use apna_mandla.Schema.{Wallet, created, cancelled, Payment, pay_success, pay_failed, pay_refunded}
use apna_mandla.Env.{Env}
use apna_mandla.Session.{
  M, ◌>>=◌, ◌>>◌, pure, raise_if, or_raise, if_found, gets, now, http_exception,
}
use apna_mandla.Ledger.{
  Split, topup_wallet, process_order_payment, process_refund, commission_percent, key_or,
}
use apna_mandla.Withdrawal.{answering}
use apna_mandla.Orders.Rows.{
  order_ids, payment_ids, is_payment_pending, is_prepaid, is_pay_initiated, is_pay_success,
  find_shop, same_number, save_order, save_payment,
}
use apna_mandla.Table.{find_row}

module _ (env : Env) where
  unfoldable pub add_money : ℕ → Decimal → Option String → M Wallet
  add_money user_id amount key = answering (topup_wallet env user_id amount key none)

  -- The payment of an order from its customer's wallet.
  unfoldable pub pay_for_order : ℕ → ℕ → Option String → M Split
  pay_for_order user_id order_id key = do
    found ← gets (λ d. first (λ o. o.id == order_id && o.customer_id == user_id) d.tables.orders)
    order ← or_raise found (http_exception 404)
    raise_if (not (is_payment_pending order.status)) (http_exception 400)
    raise_if (not (is_prepaid order.payment_mode)) (http_exception 400)
    owner ← gets (λ d. find_shop order.shop_id d.tables.shops)
    shop ← or_raise owner (http_exception 404)
    let ik = key_or key (f_string ("wallet-pay-order-" ∷ str order.id ∷ []))
    split ← answering (
        process_order_payment env user_id shop.user_id (of_paise order.total_amount) order.id
          (some ik) none none)
    save_order (record order { status = created })
    pure split

  -- The settlement of a payment's order, under a transaction id that no other payment has.
  unfoldable pub settle_order : Payment → String → M ℕ
  settle_order payment transaction_id = do
    found ← gets (λ d. find_row order_ids payment.order_id d.tables.orders)
    order ← or_raise found (http_exception 404)
    raise_if (not (is_payment_pending order.status)) (http_exception 400)
    raise_if (not (same_number payment.amount order.total_amount)) (http_exception 400)
    owner ← gets (λ d. find_shop order.shop_id d.tables.shops)
    shop ← or_raise owner (http_exception 404)
    time ← now env
    save_payment (record payment {
      status = pay_success;
      transaction_id = some transaction_id;
      completed_at = some time;
    })
    answering (
        process_order_payment env order.customer_id shop.user_id payment.amount order.id
          (some (f_string ("gateway-" ∷ transaction_id ∷ []))) none none)
    save_order (record order { status = created })
    pure payment.id

  -- What `payment_success` does for a payment that is not paid yet.
  unfoldable pub settle_payment : Payment → String → M ℕ
  settle_payment payment transaction_id = do
    raise_if (not (is_pay_initiated payment.status)) (http_exception 400)
    dup ← gets (λ d.
        first (λ p. elim p.transaction_id [ none ↦ Bool.false | some t ↦ str_eq t transaction_id ])
          d.tables.payments)
    if_found dup (λ p. raise_if (not (p.id == payment.id)) (http_exception 400)) (pure tt)
    settle_order payment transaction_id

  unfoldable pub payment_success : ℕ → ℕ → String → M ℕ
  payment_success user_id payment_id transaction_id = do
    found ← gets (λ d. first (λ p. p.id == payment_id && p.user_id == user_id) d.tables.payments)
    payment ← or_raise found (http_exception 404)
    if is_pay_success payment.status then pure payment.id else settle_payment payment transaction_id

  unfoldable pub payment_failed : ℕ → ℕ → Option String → M ℕ
  payment_failed user_id payment_id reason = do
    found ← gets (λ d.
        first (λ p. p.id == payment_id && (p.user_id == user_id && is_pay_initiated p.status))
          d.tables.payments)
    payment ← or_raise found (http_exception 404)
    time ← now env
    save_payment
        (record payment { status = pay_failed; failure_reason = reason; completed_at = some time })
    order ← gets (λ d. find_row order_ids payment.order_id d.tables.orders)
    if_found order (λ o. save_order (record o { status = cancelled })) (pure tt)
    pure payment.id

  unfoldable pub refund_payment : ℕ → M ℕ
  refund_payment payment_id = do
    found ← gets (λ d. find_row payment_ids payment_id d.tables.payments)
    payment ← or_raise found (http_exception 404)
    raise_if (not (is_pay_success payment.status)) (http_exception 400)
    its_order ← gets (λ d. find_row order_ids payment.order_id d.tables.orders)
    order ← or_raise its_order (http_exception 404)
    owner ← gets (λ d. find_shop order.shop_id d.tables.shops)
    shop ← or_raise owner (http_exception 404)
    pct ← gets commission_percent
    answering (
        process_refund env order.customer_id shop.user_id payment.amount order.id pct
          (some (f_string ("refund-payment-" ∷ str payment_id ∷ []))) none)
    time ← now env
    save_payment (record payment { status = pay_refunded; refunded_at = some time })
    save_order (record order { status = cancelled })
    pure payment.id
