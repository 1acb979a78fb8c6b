-- ===== src/Ledger/Operations.antt =====
-- The double-entry operations of `WalletService`, and the shim `LedgerService`.
use apna_mandla.Prelude.{
  ℕ, String, Bool, Option, none, some, List, [], ◌∷◌, ltb, if◌then◌else◌, keep_if,
}
use apna_mandla.Prelude.Int.{ℤ, pos, ◌-ℤ◌, ltb_ℤ, leb_ℤ}
use apna_mandla.Prelude.Text.{f_string, str}
use apna_mandla.Money.{Decimal, round, of_paise, percent_of}
use apna_mandla.Schema.{
  Wallet, LedgerEntry, TransactionPurpose, topup, order_payment, refund, commission, withdrawal,
  delivery_fee, References, CommissionConfig, Db,
}
use apna_mandla.Env.{Env}
use apna_mandla.Session.{
  M, ◌>>=◌, ◌>>◌, pure, raise_if, gets, new_uuid, topup_not_positive, below_minimum_withdrawal,
}
use apna_mandla.Ledger.Rows.{platform_user_id, get_or_create_wallet, key_or}
use apna_mandla.Ledger.Posting.{Posting, credit, debit}

abbrev pub no_links : References
no_links = record {
  order_id = none;
  withdrawal_id = none;
  udhar_account_id = none;
  session_id = none;
}

abbrev pub for_session : Option ℕ → References
for_session session_id = record no_links { session_id = session_id }

abbrev pub for_order : ℕ → Option ℕ → References
for_order order_id session_id = record no_links {
  order_id = some order_id;
  session_id = session_id;
}

abbrev pub for_withdrawal : ℕ → Option ℕ → References
for_withdrawal withdrawal_id session_id = record no_links {
  withdrawal_id = some withdrawal_id;
  session_id = session_id;
}

abbrev pub posting : ℕ → ℤ → TransactionPurpose → String → References → Option String → Posting
posting user_id amount purpose cid links key = record {
  user_id = user_id;
  amount = of_paise amount;
  transaction_type = purpose;
  correlation_id = cid;
  links = links;
  idempotency_key = key;
}

-- The key of one side of an operation.
abbrev pub side_key : String → String → Option String
side_key ik_prefix suffix = some (f_string (ik_prefix ∷ suffix ∷ []))

unfoldable pub when : {A : Type 0} → Bool → M A → M (Unit {0})
when test m = if test then m >> pure tt else pure tt

-- `order_by(created_at.desc()).first()`
unfoldable pub newest_config : List CommissionConfig → Option CommissionConfig
newest_config [] = none
newest_config (c ∷ cs) = elim (newest_config cs) [
  | none ↦ some c
  | some l ↦ if ltb l.created_at c.created_at then some c else some l
]

-- The percentage of the active setting, or zero.
unfoldable pub commission_percent : Db → Decimal
commission_percent d =
    elim (newest_config (keep_if (λ c. c.is_active) d.tables.commission_configs)) [
      | none ↦ record { coeff = pos 0; places = 2 }
      | some c ↦ record { coeff = c.percent; places = 2 }
    ]

-- What an order's payment is split into.
pub record Split : Type 0 where
  pub total : ℤ
  pub net : ℤ
  pub commission : ℤ

unfoldable pub split_of : ℤ → Decimal → Split
split_of total pct =
    let fee = round (percent_of total pct) in
    record { total = total; net = round (of_paise (total -ℤ fee)); commission = fee }

module _ (env : Env) where
  unfoldable pub topup_wallet : ℕ → Decimal → Option String → Option ℕ → M Wallet
  topup_wallet user_id amount idempotency_key session_id = do
    cid ← new_uuid env
    let paise = round amount
    raise_if (leb_ℤ paise (pos 0)) topup_not_positive
    credit env (posting user_id paise topup cid (for_session session_id) idempotency_key)
    debit env (posting platform_user_id paise topup cid (for_session session_id) none) none
    get_or_create_wallet user_id

  unfoldable pub process_order_payment :
      ℕ → ℕ → Decimal → ℕ → Option String → Option ℕ → Option String → M Split
  process_order_payment customer_id shop_user_id total_amount order_id key session_id ip = do
    let total = round total_amount
    cid ← new_uuid env
    let ik_prefix = key_or key (f_string ("order-" ∷ str order_id ∷ []))
    pct ← gets commission_percent
    let split = split_of total pct
    let links = for_order order_id session_id
    debit env
        (posting customer_id total order_payment cid links (side_key ik_prefix "-customer-dr")) ip
    when (ltb_ℤ (pos 0) split.net) (
        credit env
          (posting shop_user_id split.net order_payment cid links (side_key ik_prefix "-shop-cr")))
    when (ltb_ℤ (pos 0) split.commission) (
        credit env (
          posting platform_user_id split.commission commission cid links
            (side_key ik_prefix "-platform-commission")))
    pure split

  unfoldable pub process_refund :
      ℕ → ℕ → Decimal → ℕ → Decimal → Option String → Option ℕ → M (Unit {0})
  process_refund customer_id shop_user_id total_amount order_id pct key session_id = do
    let total = round total_amount
    let split = split_of total pct
    cid ← new_uuid env
    let ik_prefix = key_or key (f_string ("refund-order-" ∷ str order_id ∷ []))
    let links = for_order order_id session_id
    when (ltb_ℤ (pos 0) split.net) (
        debit env (posting shop_user_id split.net refund cid links (side_key ik_prefix "-shop-dr"))
          none)
    when (ltb_ℤ (pos 0) split.commission) (
        debit env
          (posting platform_user_id split.commission refund cid links
            (side_key ik_prefix "-platform-dr"))
          none)
    credit env (posting customer_id total refund cid links (side_key ik_prefix "-customer-cr"))
    pure tt

  unfoldable pub credit_delivery_fee : ℕ → Decimal → ℕ → Option String → Option ℕ → M (Unit {0})
  credit_delivery_fee rider_user_id amount order_id key session_id = do
    let paise = round amount
    cid ← new_uuid env
    let ik_prefix = key_or key (f_string ("delivery-fee-" ∷ str order_id ∷ []))
    let links = for_order order_id session_id
    debit env
        (posting platform_user_id paise delivery_fee cid links (side_key ik_prefix "-platform-dr"))
        none
    credit env (posting rider_user_id paise delivery_fee cid links (side_key ik_prefix "-rider-cr"))
    pure tt

  unfoldable pub initiate_withdrawal :
      ℕ → Decimal → ℕ → Option String → Option ℕ → Option String → M LedgerEntry
  initiate_withdrawal user_id amount withdrawal_id key session_id ip = do
    let paise = round amount
    raise_if (ltb_ℤ paise env.settings.min_withdrawal_amount) below_minimum_withdrawal
    cid ← new_uuid env
    let ik_prefix = key_or key (f_string ("withdrawal-" ∷ str withdrawal_id ∷ []))
    let links = for_withdrawal withdrawal_id session_id
    dr_entry ←
        debit env (posting user_id paise withdrawal cid links (side_key ik_prefix "-user-dr")) ip
    credit env
        (posting platform_user_id paise withdrawal cid links (side_key ik_prefix "-platform-cr"))
    pure dr_entry

  unfoldable pub reverse_withdrawal : ℕ → Decimal → ℕ → Option ℕ → M (Unit {0})
  reverse_withdrawal user_id amount withdrawal_id session_id = do
    let paise = round amount
    cid ← new_uuid env
    let links = for_withdrawal withdrawal_id session_id
    debit env (posting platform_user_id paise refund cid links none) none
    credit env (posting user_id paise refund cid links none)
    pure tt

  -- `LedgerService.process_order_payment`, with a key of its own.
  unfoldable pub legacy_order_payment : ℕ → ℕ → Decimal → ℕ → M (Unit {0})
  legacy_order_payment customer_id shop_id total_amount order_id = do
    process_order_payment customer_id shop_id total_amount order_id
        (some (f_string ("order-" ∷ str order_id ∷ "-legacy" ∷ []))) none none
    pure tt

  -- `LedgerService.credit_rider_delivery_fee`
  unfoldable pub credit_rider_delivery_fee : ℕ → Decimal → ℕ → M (Unit {0})
  credit_rider_delivery_fee rider_id amount order_id =
      credit_delivery_fee rider_id amount order_id none none
