-- ===== src/Orders/Validity.antt =====
-- The calls that pay for orders and the invariant of the books.
use apna_mandla.Prelude.{ℕ, String, Option, arith}
use apna_mandla.Money.{Decimal}
use apna_mandla.Schema.{Order, Payment}
use apna_mandla.Env.{Env}
use apna_mandla.Session.Keeps.{Keeps}
use apna_mandla.Ledger.Validity.{
  Good, posting_rules, topup_wallet-Keeps, process_order_payment-Keeps, process_refund-Keeps,
}
use apna_mandla.Withdrawal.Validity.{answering-Keeps}
use apna_mandla.Orders.{
  save_order, save_payment, add_money, pay_for_order, settle_order, settle_payment, payment_success,
  refund_payment,
}

module _ (env : Env) where
  save_order-Keeps : (o : Order) → Keeps (Good env) (save_order o)
  unfolding save_order
  save_order-Keeps o = record { at = λ d x d' v h. ground arith }

  save_payment-Keeps : (p : Payment) → Keeps (Good env) (save_payment p)
  unfolding save_payment
  save_payment-Keeps p = record { at = λ d x d' v h. ground arith }

  ruleset order_rules = (
    posting_rules, save_order-Keeps, save_payment-Keeps, answering-Keeps, topup_wallet-Keeps,
    process_order_payment-Keeps, process_refund-Keeps,
  )

  pub add_money-Keeps :
      (u : ℕ) (a : Decimal) (key : Option String) → Keeps (Good env) (add_money env u a key)
  unfolding add_money
  add_money-Keeps u a key = search order_rules depth 12

  pub pay_for_order-Keeps :
      (u i : ℕ) (key : Option String) → Keeps (Good env) (pay_for_order env u i key)
  unfolding pay_for_order
  pay_for_order-Keeps u i key = search order_rules depth 30

  settle_order-Keeps : (p : Payment) (t : String) → Keeps (Good env) (settle_order env p t)
  unfolding settle_order
  settle_order-Keeps p t = search order_rules depth 30

  settle_payment-Keeps : (p : Payment) (t : String) → Keeps (Good env) (settle_payment env p t)
  unfolding settle_payment
  settle_payment-Keeps p t = search (order_rules, settle_order-Keeps) depth 30

  pub payment_success-Keeps : (u p : ℕ) (t : String) → Keeps (Good env) (payment_success env u p t)
  unfolding payment_success
  payment_success-Keeps u p t = search (order_rules, settle_payment-Keeps) depth 30

  pub refund_payment-Keeps : (p : ℕ) → Keeps (Good env) (refund_payment env p)
  unfolding refund_payment
  refund_payment-Keeps p = search order_rules depth 30
