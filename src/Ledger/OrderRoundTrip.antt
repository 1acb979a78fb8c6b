-- ===== src/Ledger/OrderRoundTrip.antt =====
-- The payment of an order and its refund: `process_order_payment` and then `process_refund`.
use apna_mandla.Prelude.{ℕ, ◌≤◌, ◌≡◌, Option, String, ◌∙◌, ap}
use apna_mandla.Prelude.Int.{pos, ◌-ℤ◌, ◌≤ℤ◌}
use apna_mandla.Money.{Decimal, round}
use apna_mandla.Money.Rounding.{round-of_paise}
use apna_mandla.Schema.{Db}
use apna_mandla.Env.{Env}
use apna_mandla.Session.{ok}
use apna_mandla.Ledger.Rows.{platform_user_id}
use apna_mandla.Ledger.Operations.{
  Split, split_of, commission_percent, process_order_payment, process_refund,
}
use apna_mandla.Ledger.Invariant.{IsValid}
use apna_mandla.Ledger.Commission.{percent, split_of_shares}
use apna_mandla.Ledger.Effects.{balance_of, used}
use apna_mandla.Ledger.Payment.{IsNew, shares, paid, customer_side, shop_side, platform_fee}
use apna_mandla.Ledger.Shifts.{debit-Shift, when-credit-Shift}
use apna_mandla.Ledger.GiveBack.{Chain, add_to, Chain-balance, given_back}
use apna_mandla.Ledger.Refund.{IsNewRefund, refund-Chain}

module _ (env : Env) (customer shop : ℕ) (amount : Decimal) (o : ℕ) (key : Option String)
    (s : Option ℕ) (ip : Option String) (d d' : Db) (split : Split) (valid : IsValid env d.books)
    (fresh : IsNew customer shop key o d.books)
    (low_net : pos 0 ≤ℤ (paid env customer shop amount o key s ip d).net)
    (low_fee : pos 0 ≤ℤ (paid env customer shop amount o key s ip d).commission)
    (h : process_order_payment env customer shop amount o key s ip d ≡ ok (split, d')) where
  abbrev cut : Split
  cut = split_of (round amount) (commission_percent d)

  payment-Chain :
      (start : Db) × (start.books ≡ d.books)
      × Chain env customer shop platform_user_id
          (pos 0 -ℤ round amount)
          cut.net
          cut.commission
          start
          d'
  payment-Chain =
      let t = shares env customer shop amount o key s ip d split d' h in
      let take = customer_side env customer shop amount o key s ip d in
      let give = shop_side env customer shop amount o key s ip d in
      let fee = platform_fee env customer shop amount o key s ip d in
      let at_start = λ (v : ℕ) (k : Option String). ap (used v k) t.same_start in
      let one =
        debit-Shift env take t.start t.charged (rw t.same_start valid)
          (at_start customer take.idempotency_key ∙ fresh.customer_key) ip t.debited t.first_side in
      let two =
        when-credit-Shift env give t.charged t.shop_paid one.valid
          (one.others shop give.idempotency_key fresh.customer_ne_shop
            ∙ at_start shop give.idempotency_key
            ∙ fresh.shop_key)
          (rw (round-of_paise cut.net) low_net) (rw (round-of_paise cut.net) t.second_side) in
      let three =
        when-credit-Shift env fee t.shop_paid d' two.valid
          (two.others platform_user_id fee.idempotency_key fresh.shop_ne_platform
            ∙ one.others platform_user_id fee.idempotency_key fresh.customer_ne_platform
            ∙ at_start platform_user_id fee.idempotency_key
            ∙ fresh.platform_key)
          (rw (round-of_paise cut.commission) low_fee)
          (rw (round-of_paise cut.commission) t.third_side) in
      (
        t.start,
        t.same_start,
        record {
          one = t.charged;
          two = t.shop_paid;
          first_shift = (rw (round-of_paise (round amount)) at one);
          second_shift = (rw (round-of_paise cut.net) at two);
          third_shift = (rw (round-of_paise cut.commission) at three);
        },
      )

-- In valid books, where the commission in force is between 0 and 100 per cent with two places,
-- customer, shop and platform are three users and the amount is not negative: a payment of an
-- order that returns, under new keys, and then a refund of that order that returns, at the same
-- commission and under keys that are new then, leave the balance of every user as it was.
pub order_round_trip :
    (env : Env) (customer shop : ℕ) (amount : Decimal) (o : ℕ) (key undo_key : Option String)
    (s t : Option ℕ) (ip : Option String) (n h : ℕ) (d d' d'' : Db) (split : Split)
    → IsValid env d.books
    → IsNew customer shop key o d.books
    → round amount ≡ pos n
    → commission_percent d ≡ percent h
    → h ≤ 10_000
    → process_order_payment env customer shop amount o key s ip d ≡ ok (split, d')
    → IsNewRefund customer shop undo_key o d'.books
    → process_refund env customer shop amount o (percent h) undo_key t d' ≡ ok (tt, d'')
    → (v : ℕ) → balance_of v d''.books ≡ balance_of v d.books
order_round_trip env customer shop amount o key undo_key s t ip n h d d' d'' split valid fresh whole
      rate le pay fresh_refund undo v =
    let (low_fee, _, low_net, _) = split_of_shares n h le in
    let at_pay : split_of (round amount) (commission_percent d) ≡ split_of (pos n) (percent h) =
      rw (whole, rate) in
    let at_refund : split_of (round amount) (percent h) ≡ split_of (pos n) (percent h) = rw whole in
    let (d1, same1, there) =
      payment-Chain env customer shop amount o key s ip d d' split valid fresh (rw at_pay low_net)
        (rw at_pay low_fee) pay in
    let (d2, same2, again) =
      refund-Chain env customer shop amount o (percent h) undo_key t d' d'' there.third_shift.valid
        fresh.customer_ne_shop fresh.customer_ne_platform fresh.shop_ne_platform fresh_refund
        (rw at_refund low_net) (rw at_refund low_fee) undo in
    let parts = split_of (round amount) (percent h) in
    let total = round amount in
    let paid_out = (rw rate at there) in
    Chain-balance again v
    ∙ ap
        (λ b. add_to customer total v (
          add_to platform_user_id (pos 0 -ℤ parts.commission) v
            (add_to shop (pos 0 -ℤ parts.net) v b)))
        (ap (balance_of v) same2
          ∙ Chain-balance paid_out v
          ∙ ap
              (λ b.
                add_to platform_user_id parts.commission v
                  (add_to shop parts.net v (add_to customer (pos 0 -ℤ total) v b)))
              (ap (balance_of v) same1))
    ∙ given_back customer shop platform_user_id v total parts.net parts.commission
        (balance_of v d.books) fresh.customer_ne_shop fresh.customer_ne_platform
        fresh.shop_ne_platform
