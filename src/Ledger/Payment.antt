-- ===== src/Ledger/Payment.antt =====
-- `WalletService.process_order_payment`: the customer against shop and platform.
use apna_mandla.Prelude.{
  ℕ, ◌+◌, ◌≤◌, ◌≡◌, ◌≢◌, refl, false, Option, [], ◌∷◌, arith, inl, inr, String, ◌∙◌, ap, Bool-cases,
}
use apna_mandla.Prelude.Int.{pos, ◌+ℤ◌, ◌-ℤ◌, ◌≤ℤ◌, ltb_ℤ, int_laws, settle}
use apna_mandla.Prelude.Text.{f_string, str}
use apna_mandla.Money.{Decimal, round, of_paise}
use apna_mandla.Money.Rounding.{round-of_paise}
use apna_mandla.Schema.{LedgerEntry, Books, Db, order_payment, commission}
use apna_mandla.Env.{Env}
use apna_mandla.Session.{ok, Result-cases}
use apna_mandla.Ledger.Rows.{platform_user_id, key_or}
use apna_mandla.Ledger.Posting.{Posting, credit, debit}
use apna_mandla.Ledger.Operations.{
  posting, for_order, side_key, when, Split, split_of, commission_percent, process_order_payment,
}
use apna_mandla.Ledger.Invariant.{IsValid}
use apna_mandla.Ledger.Commission.{percent, split_of_shares}
use apna_mandla.Ledger.Validity.{credit-Keeps, debit-Keeps}
use apna_mandla.Ledger.Effects.{total, used}
use apna_mandla.Ledger.Refinement.{move, credit-move, credit-total, debit-move, debit-total}

module _ (env : Env) (p : Posting) (d : Db) (e : LedgerEntry) (d' : Db)
    (valid : IsValid env d.books) where
  -- A posting uses no key of another user.
  pub debit-used_other :
      (ip : Option String) (v : ℕ) (k : Option String)
      → debit env p ip d ≡ ok (e, d')
      → p.user_id ≢ v
      → used v k d'.books ≡ used v k d.books
  unfolding move
  debit-used_other ip v k h ne =
      ground (arith, ap (λ b. b.used_key v k) (debit-move env p d e d' valid ip h))

  pub credit-used_other :
      (v : ℕ) (k : Option String)
      → credit env p d ≡ ok (e, d')
      → p.user_id ≢ v
      → used v k d'.books ≡ used v k d.books
  unfolding move
  credit-used_other v k h ne =
      ground (arith, ap (λ b. b.used_key v k) (credit-move env p d e d' valid h))

-- A credit that is made only if its amount is positive.
record Credited (env : Env) (p : Posting) (d d' : Db) : Type 0 where
  still_valid : IsValid env d'.books
  total_is : total d'.books ≡ total d.books +ℤ round p.amount
  others : (v : ℕ) (k : Option String) → p.user_id ≢ v → used v k d'.books ≡ used v k d.books

when_positive :
    (env : Env) (p : Posting) (d d' : Db)
    → IsValid env d.books
    → pos 0 ≤ℤ round p.amount
    → used p.user_id p.idempotency_key d.books ≡ false
    → when (ltb_ℤ (pos 0) (round p.amount)) (credit env p) d ≡ ok (tt, d')
    → Credited env p d d'
unfolding when
when_positive env p d d' valid nonneg fresh h = elim (Bool-cases (ltb_ℤ (pos 0) (round p.amount))) [
  | inl positive ↦ elim (Result-cases (credit env p d)) [
    | inl (x, failed) ↦ absurd (ground arith)
    | inr (e, c, done) ↦
        let same : d' ≡ c = ground arith in
        record {
          still_valid = rw same ((credit-Keeps env p).at d e c valid done);
          total_is = rw same (ground (arith, credit-total env p d e c valid done));
          others = λ v k ne. rw same (credit-used_other env p d e c valid v k done ne);
        }
  ]
  | inr zero_amount ↦
      let same : d' ≡ d = ground arith in
      record {
        still_valid = rw same valid;
        total_is = rw same (grind int_laws);
        others = λ v k ne. rw same refl;
      }
]

abbrev pub payment_key : Option String → ℕ → String → Option String
payment_key key order_id suffix =
    side_key (key_or key (f_string ("order-" ∷ str order_id ∷ []))) suffix

-- A payment between three users, none of whose keys for the order was used.
pub record IsNew (customer shop : ℕ) (key : Option String) (order_id : ℕ) (b : Books) : Type 0 where
  pub customer_ne_shop : customer ≢ shop
  pub customer_ne_platform : customer ≢ platform_user_id
  pub shop_ne_platform : shop ≢ platform_user_id
  pub customer_key : used customer (payment_key key order_id "-customer-dr") b ≡ false
  pub shop_key : used shop (payment_key key order_id "-shop-cr") b ≡ false
  pub platform_key :
      used platform_user_id (payment_key key order_id "-platform-commission") b ≡ false

module _ (env : Env) (customer shop : ℕ) (amount : Decimal) (o : ℕ) (key : Option String)
    (s : Option ℕ) (ip : Option String) (d : Db) where
  abbrev pub paid : Split
  paid = split_of (round amount) (commission_percent d)

  abbrev pub customer_side : Posting
  customer_side =
      posting customer (round amount) order_payment (env.uuid d.ticks) (for_order o s)
        (payment_key key o "-customer-dr")

  abbrev pub shop_side : Posting
  shop_side =
      posting shop paid.net order_payment (env.uuid d.ticks) (for_order o s)
        (payment_key key o "-shop-cr")

  abbrev pub platform_fee : Posting
  platform_fee =
      posting platform_user_id paid.commission commission (env.uuid d.ticks) (for_order o s)
        (payment_key key o "-platform-commission")

  pub record Shares (split : Split) (d' : Db) : Type 0 where
    pub start : Db
    pub charged : Db
    pub shop_paid : Db
    pub debited : LedgerEntry
    pub same_start : start.books ≡ d.books
    pub first_side : debit env customer_side ip start ≡ ok (debited, charged)
    pub second_side :
        when (ltb_ℤ (pos 0) paid.net) (credit env shop_side) charged ≡ ok (tt, shop_paid)
    pub third_side :
        when (ltb_ℤ (pos 0) paid.commission) (credit env platform_fee) shop_paid ≡ ok (tt, d')
    pub answer : split ≡ paid

  pub shares :
      (split : Split) (d' : Db)
      → process_order_payment env customer shop amount o key s ip d ≡ ok (split, d')
      → Shares split d'
  unfolding process_order_payment commission_percent
  shares split d' h =
      let d1 = record d { ticks = d.ticks + 1 } in
      elim (Result-cases (debit env customer_side ip d1)) [
        | inl (x, failed) ↦ absurd (ground arith)
        | inr (e1, d2, c1) ↦
            elim (Result-cases (when (ltb_ℤ (pos 0) paid.net) (credit env shop_side) d2)) [
              | inl (x, failed) ↦ absurd (ground arith)
              | inr (_, d3, c2) ↦
                  elim (Result-cases
                    (when (ltb_ℤ (pos 0) paid.commission) (credit env platform_fee) d3)) [
                      | inl (x, failed) ↦ absurd (ground arith)
                      | inr (_, d4, c3) ↦ record {
                        start = d1;
                        charged = d2;
                        shop_paid = d3;
                        debited = e1;
                        same_start = refl;
                        first_side = c1;
                        second_side = c2;
                        third_side = ground arith;
                        answer = ground arith;
                      }
                    ]
            ]
      ]

  conserved :
      (split : Split) (d' : Db)
      → IsValid env d.books
      → IsNew customer shop key o d.books
      → pos 0 ≤ℤ paid.net
      → pos 0 ≤ℤ paid.commission
      → paid.net +ℤ paid.commission ≡ round amount
      → process_order_payment env customer shop amount o key s ip d ≡ ok (split, d')
      → total d'.books ≡ total d.books
  conserved split d' valid fresh net fee whole h =
      let t = shares split d' h in
      let v0 : IsValid env t.start.books = rw t.same_start valid in
      let v1 = (debit-Keeps env customer_side ip).at t.start t.debited t.charged v0 t.first_side in
      let new = λ (v : ℕ) (k : Option String). ap (used v k) t.same_start in
      let shop_new : used shop shop_side.idempotency_key t.charged.books ≡ false =
        debit-used_other env customer_side t.start t.debited t.charged v0 ip shop
          shop_side.idempotency_key t.first_side fresh.customer_ne_shop
        ∙ new shop shop_side.idempotency_key
        ∙ fresh.shop_key in
      let paid_shop =
        when_positive env shop_side t.charged t.shop_paid v1 (rw (round-of_paise paid.net) net)
          shop_new (rw (round-of_paise paid.net) t.second_side) in
      let platform_new : used platform_user_id platform_fee.idempotency_key t.shop_paid.books
          ≡ false =
        paid_shop.others platform_user_id platform_fee.idempotency_key fresh.shop_ne_platform
        ∙ debit-used_other env customer_side t.start t.debited t.charged v0 ip platform_user_id
            platform_fee.idempotency_key t.first_side fresh.customer_ne_platform
        ∙ new platform_user_id platform_fee.idempotency_key
        ∙ fresh.platform_key in
      let paid_platform =
        when_positive env platform_fee t.shop_paid d' paid_shop.still_valid
          (rw (round-of_paise paid.commission) fee) platform_new
          (rw (round-of_paise paid.commission) t.third_side) in
      paid_platform.total_is
      ∙ ap (λ x. x +ℤ round (of_paise paid.commission)) paid_shop.total_is
      ∙ ap (λ x. x +ℤ round (of_paise paid.net) +ℤ round (of_paise paid.commission))
          (debited_total t)
      ∙ rw (round-of_paise paid.commission, round-of_paise paid.net)
          (settle (total d.books) (round amount) paid.net paid.commission whole)
    where
      debited_total : (t : Shares split d') → total t.charged.books ≡ total d.books -ℤ round amount
      debited_total t = ground (
        arith,
        round-of_paise (round amount),
        ap total t.same_start,
        ap (used customer customer_side.idempotency_key) t.same_start,
        fresh.customer_key,
        debit-total env customer_side t.start t.debited t.charged (rw t.same_start valid) ip
            t.first_side,
      )

  -- In valid books, the payment of an order that returns creates and destroys no money, if
  -- customer, shop and platform are three users, none of the order's three keys was used, the
  -- amount is not negative and the commission in force is between 0 and 100 per cent with two
  -- places.
  pub process_order_payment-total :
      (n h : ℕ) (split : Split) (d' : Db)
      → IsValid env d.books
      → IsNew customer shop key o d.books
      → round amount ≡ pos n
      → commission_percent d ≡ percent h
      → h ≤ 10_000
      → process_order_payment env customer shop amount o key s ip d ≡ ok (split, d')
      → total d'.books ≡ total d.books
  process_order_payment-total n h split d' valid fresh whole rate le done =
      let (fee_low, fee_high, net_low, sum) = split_of_shares n h le in
      let same : paid ≡ split_of (pos n) (percent h) = rw (whole, rate) in
      conserved split d' valid fresh (rw same net_low) (rw same fee_low) (rw (same, whole) sum) done
