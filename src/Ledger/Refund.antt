-- ===== src/Ledger/Refund.antt =====
-- The parts of `process_refund`.
use apna_mandla.Prelude.{
  ℕ, ◌+◌, ◌≡◌, ◌≢◌, refl, false, Option, none, [], ◌∷◌, arith, inl, inr, String, ◌∙◌, ap, sym,
}
use apna_mandla.Prelude.Int.{ℤ, pos, ◌-ℤ◌, ◌≤ℤ◌, ltb_ℤ}
use apna_mandla.Prelude.Text.{f_string, str}
use apna_mandla.Money.{Decimal, round}
use apna_mandla.Money.Rounding.{round-of_paise}
use apna_mandla.Schema.{LedgerEntry, Books, Db, refund}
use apna_mandla.Env.{Env}
use apna_mandla.Session.{ok, Result-cases}
use apna_mandla.Ledger.Rows.{platform_user_id, key_or}
use apna_mandla.Ledger.Posting.{Posting, credit, debit}
use apna_mandla.Ledger.Operations.{
  posting, for_order, side_key, when, Split, split_of, process_refund,
}
use apna_mandla.Ledger.Invariant.{IsValid}
use apna_mandla.Ledger.Effects.{used}
use apna_mandla.Ledger.Shifts.{credit-Shift, when-debit-Shift}
use apna_mandla.Ledger.GiveBack.{Chain}

abbrev pub refund_side_key : Option String → ℕ → String → Option String
refund_side_key key order_id suffix =
    side_key (key_or key (f_string ("refund-order-" ∷ str order_id ∷ []))) suffix

-- Three users, and keys that the refund of the order has not used.
pub record IsNewRefund (customer shop : ℕ) (key : Option String) (order_id : ℕ) (b : Books)
    : Type 0 where
  pub shop_key : used shop (refund_side_key key order_id "-shop-dr") b ≡ false
  pub platform_key : used platform_user_id (refund_side_key key order_id "-platform-dr") b ≡ false
  pub customer_key : used customer (refund_side_key key order_id "-customer-cr") b ≡ false

module _ (env : Env) (customer shop : ℕ) (amount : Decimal) (o : ℕ) (pct : Decimal)
    (key : Option String) (s : Option ℕ) (d d' : Db) where
  abbrev pub back : Split
  back = split_of (round amount) pct

  abbrev side : ℕ → ℤ → String → Posting
  side u x suffix =
      posting u x refund (env.uuid d.ticks) (for_order o s) (refund_side_key key o suffix)

  record Sides : Type 0 where
    start : Db
    shop_charged : Db
    all_charged : Db
    credited : LedgerEntry
    same_start : start.books ≡ d.books
    first_side :
        when (ltb_ℤ (pos 0) back.net) (debit env (side shop back.net "-shop-dr") none) start
        ≡ ok (tt, shop_charged)
    second_side :
        when
          (ltb_ℤ (pos 0) back.commission)
          (debit env (side platform_user_id back.commission "-platform-dr") none)
          shop_charged
        ≡ ok (tt, all_charged)
    third_side :
        credit env (side customer (round amount) "-customer-cr") all_charged ≡ ok (credited, d')

  sides : process_refund env customer shop amount o pct key s d ≡ ok (tt, d') → Sides
  unfolding process_refund
  sides h =
      let d1 = record d { ticks = d.ticks + 1 } in
      elim (Result-cases
        (when (ltb_ℤ (pos 0) back.net) (debit env (side shop back.net "-shop-dr") none) d1)) [
          | inl (x, failed) ↦ absurd (ground arith)
          | inr (_, d2, c1) ↦
              elim (Result-cases (
                when (ltb_ℤ (pos 0) back.commission)
                  (debit env (side platform_user_id back.commission "-platform-dr") none) d2)) [
                    | inl (x, failed) ↦ absurd (ground arith)
                    | inr (_, d3, c2) ↦
                        elim (Result-cases
                          (credit env (side customer (round amount) "-customer-cr") d3)) [
                            | inl (x, failed) ↦ absurd (ground arith)
                            | inr (e, d4, c3) ↦
                                let same : d4 ≡ d' = ground arith in
                                record {
                                  start = d1;
                                  shop_charged = d2;
                                  all_charged = d3;
                                  credited = e;
                                  same_start = refl;
                                  first_side = c1;
                                  second_side = c2;
                                  third_side = rw (← same) c3;
                                }
                          ]
                  ]
        ]

  pub refund-Chain :
      IsValid env d.books
      → customer ≢ shop
      → customer ≢ platform_user_id
      → shop ≢ platform_user_id
      → IsNewRefund customer shop key o d.books
      → pos 0 ≤ℤ back.net
      → pos 0 ≤ℤ back.commission
      → process_refund env customer shop amount o pct key s d ≡ ok (tt, d')
      → (start : Db) × (start.books ≡ d.books)
        × Chain env shop platform_user_id customer
            (pos 0 -ℤ back.net)
            (pos 0 -ℤ back.commission)
            (round amount)
            start
            d'
  refund-Chain valid cs cp sp fresh low_net low_fee h =
      let t = sides h in
      let from_shop = side shop back.net "-shop-dr" in
      let from_platform = side platform_user_id back.commission "-platform-dr" in
      let to_customer = side customer (round amount) "-customer-cr" in
      let at_start = λ (v : ℕ) (k : Option String). ap (used v k) t.same_start in
      let one =
        when-debit-Shift env from_shop t.start t.shop_charged (rw t.same_start valid)
          (at_start shop from_shop.idempotency_key ∙ fresh.shop_key) none
          (rw (round-of_paise back.net) low_net) (rw (round-of_paise back.net) t.first_side) in
      let two =
        when-debit-Shift env from_platform t.shop_charged t.all_charged one.valid
          (one.others platform_user_id from_platform.idempotency_key sp
            ∙ at_start platform_user_id from_platform.idempotency_key
            ∙ fresh.platform_key)
          none (rw (round-of_paise back.commission) low_fee)
          (rw (round-of_paise back.commission) t.second_side) in
      let three =
        credit-Shift env to_customer t.all_charged d' two.valid
          (two.others customer to_customer.idempotency_key (λ q. cp (sym q))
            ∙ one.others customer to_customer.idempotency_key (λ q. cs (sym q))
            ∙ at_start customer to_customer.idempotency_key
            ∙ fresh.customer_key)
          t.credited t.third_side in
      (
        t.start,
        t.same_start,
        record {
          one = t.shop_charged;
          two = t.all_charged;
          first_shift = (rw (round-of_paise back.net) at one);
          second_shift = (rw (round-of_paise back.commission) at two);
          third_shift = (rw (round-of_paise (round amount)) at three);
        },
      )
