-- ===== src/Udhar/Operations.antt =====
-- The operations of `UdharService`, `add_udhar_debit`, and the interest job.
use apna_mandla.Prelude.{
  ℕ, ◌+◌, String, Bool, not, ◌&&◌, ◌||◌, Option, none, some, List, [], ◌∷◌, map, ◌==◌,
  if◌then◌else◌, first, keep_if, length, is_some,
}
use apna_mandla.Prelude.Int.{ℤ, pos, ◌+ℤ◌, ltb_ℤ, leb_ℤ}
use apna_mandla.Prelude.Text.{f_string, str}
use apna_mandla.Money.{Decimal, round}
use apna_mandla.Schema.{
  Db, UdharAccount, active, UdharTransaction, debit as debit_type, repayment, interest, udhar_debit,
  udhar_repayment, udhar_interest,
}
use apna_mandla.Env.{Env}
use apna_mandla.Session.{
  M, ok, err, ◌>>=◌, ◌>>◌, pure, raise_if, or_raise, if_found, gets, now, new_uuid, http_exception,
}
use apna_mandla.Ledger.{platform_user_id, posting, no_links, credit, debit, key_or, side_key}
use apna_mandla.Udhar.Rows.{
  find_account, find_transaction, is_active, is_closed, is_overdue, round_rate, save_account,
  add_transaction, add_account,
}
use apna_mandla.Udhar.Charges.{
  transaction, charged, repaid, accrued, interest_amount, bears_interest, is_due, mark,
  has_interest, existing_account,
}

-- `order_id or …`: zero is falsy.
abbrev pub order_or : Option ℕ → String → String
order_or none other = other
order_or (some n) other = if n == 0 then other else str n

module _ (env : Env) where
  -- `uuid.uuid4().hex[:8]`
  abbrev pub new_hex8 : M String
  new_hex8 d = ok (env.uuid_hex8 d.ticks, record d { ticks = d.ticks + 1 })

  abbrev pub in_limits : ℤ → ℤ → Bool
  in_limits credit_limit rate =
      not (leb_ℤ credit_limit (pos 0) || ltb_ℤ env.settings.udhar_max_credit_limit credit_limit)
      && not (ltb_ℤ rate (pos 0) || ltb_ℤ env.settings.udhar_max_interest_rate_pct rate)

  unfoldable pub create_account : ℕ → ℕ → Decimal → Decimal → ℕ → Option String → M UdharAccount
  create_account borrower_id lender_shop_id limit rate due_days key = do
    let credit_limit = round limit
    let interest_rate = round_rate rate
    raise_if (not (in_limits credit_limit interest_rate)) (http_exception 400)
    known ← gets (λ d. existing_account key d.tables.udhar_accounts)
    if_found known (λ a. pure a)
        (do
          pair ← gets (λ d.
              first (λ a. a.borrower_id == borrower_id && a.lender_shop_id == lender_shop_id)
                d.tables.udhar_accounts)
          raise_if (is_some pair) (http_exception 409)
          id ← gets (λ d. d.tables.next_udhar_account_id)
          let account : UdharAccount = record {
            id = id;
            borrower_id = borrower_id;
            lender_shop_id = lender_shop_id;
            credit_limit = credit_limit;
            interest_rate = interest_rate;
            due_days = due_days;
            due_date = none;
            outstanding_balance = pos 0;
            status = active;
            last_interest_applied_at = none;
            total_interest_accrued = pos 0;
            last_transaction_at = none;
            closed_at = none;
            idempotency_key = key;
          }
          add_account account
          pure account)

  unfoldable pub use_credit : ℕ → Decimal → ℕ → Option ℕ → Option String → M UdharTransaction
  use_credit udhar_account_id raw_amount shop_user_id order_id key = do
    let amount = round raw_amount
    hex ← new_hex8
    let ik =
        key_or key
          (f_string ("udhar-use-" ∷ str udhar_account_id ∷ "-" ∷ order_or order_id hex ∷ []))
    existing ← gets (λ d. find_transaction ik d.tables.udhar_transactions)
    if_found existing (λ txn. pure txn)
        (do
          found ← gets (λ d. find_account udhar_account_id d.tables.udhar_accounts)
          account ← or_raise found (http_exception 404)
          raise_if (not (is_active account.status)) (http_exception 400)
          raise_if (ltb_ℤ account.credit_limit (account.outstanding_balance +ℤ amount))
              (http_exception 400)
          time ← now env
          raise_if (is_overdue time account) (http_exception 400)
          cid ← new_uuid env
          let links = record no_links { order_id = order_id }
          credit env (posting shop_user_id amount udhar_debit cid links (side_key ik "-shop-cr"))
          debit env
              (posting platform_user_id amount udhar_debit cid links (side_key ik "-platform-dr"))
              none
          time ← now env
          let account' = charged account amount time
          save_account account'
          let txn = transaction account' order_id debit_type amount cid ik
          add_transaction txn
          pure txn)

  unfoldable pub repay : ℕ → ℕ → Decimal → Option String → M UdharTransaction
  repay udhar_account_id borrower_user_id raw_amount key = do
    let amount = round raw_amount
    hex ← new_hex8
    let ik = key_or key (f_string ("udhar-repay-" ∷ str udhar_account_id ∷ "-" ∷ hex ∷ []))
    existing ← gets (λ d. find_transaction ik d.tables.udhar_transactions)
    if_found existing (λ txn. pure txn)
        (do
          found ← gets (λ d. find_account udhar_account_id d.tables.udhar_accounts)
          account ← or_raise found (http_exception 404)
          raise_if (is_closed account.status) (http_exception 400)
          raise_if (ltb_ℤ account.outstanding_balance amount) (http_exception 400)
          cid ← new_uuid env
          debit env
              (posting borrower_user_id amount udhar_repayment cid no_links
                (side_key ik "-borrower-dr"))
              none
          credit env (
              posting platform_user_id amount udhar_repayment cid no_links
                (side_key ik "-platform-cr"))
          time ← now env
          let account' = repaid account amount time
          save_account account'
          let txn = transaction account' none repayment amount cid ik
          add_transaction txn
          pure txn)

  unfoldable pub interest_key : ℕ → ℕ → String
  interest_key account_id time =
      f_string ("udhar-interest-" ∷ str account_id ∷ "-" ∷ env.iso_date time ∷ [])

  unfoldable pub post_interest : UdharAccount → ℤ → String → String → M (Option UdharTransaction)
  post_interest account amount cid ik = do
    credit env
        (posting platform_user_id amount udhar_interest cid no_links (side_key ik "-platform-cr"))
    debit env
        (posting platform_user_id amount udhar_interest cid no_links (side_key ik "-platform-dr"))
        none
    time ← now env
    let account' = accrued account amount time
    save_account account'
    let txn = transaction account' none interest amount cid ik
    add_transaction txn
    pure (some txn)

  -- `None` is returned where nothing is to be charged.
  unfoldable pub apply_interest : ℕ → M (Option UdharTransaction)
  apply_interest account_id = do
    found ← gets (λ d. find_account account_id d.tables.udhar_accounts)
    if_found found
        (λ account.
          if bears_interest account && ltb_ℤ (pos 0) (interest_amount account)
          then (do
            cid ← new_uuid env
            time ← now env
            let ik = interest_key account.id time
            existing ← gets (λ d. find_transaction ik d.tables.udhar_transactions)
            if_found existing (λ txn. pure (some txn))
                (post_interest account (interest_amount account) cid ik))
          else pure none)
        (pure none)

  -- The number of accounts that were marked.
  unfoldable pub mark_overdue_accounts : M ℕ
  mark_overdue_accounts = do
    time ← now env
    accounts ← gets (λ d. d.tables.udhar_accounts)
    (λ d. ok (
      length (keep_if (is_due time) accounts),
      record d { tables = record d.tables { udhar_accounts = map (mark time) accounts } },
    ))

  -- `add_udhar_debit`, at delivery.
  unfoldable pub add_udhar_debit : ℕ → ℕ → ℕ → Decimal → M UdharTransaction
  add_udhar_debit shop_id customer_id order_id amount = do
    shop_row ← gets (λ d. first (λ s. s.id == shop_id) d.tables.shops)
    shop ← or_raise shop_row (http_exception 404)
    account_row ← gets (λ d.
        first (λ a. a.borrower_id == customer_id && a.lender_shop_id == shop_id)
          d.tables.udhar_accounts)
    account ← or_raise account_row (http_exception 404)
    use_credit account.id amount shop.user_id (some order_id) none

  -- The loop of the job `apply_udhar_interest` over the accounts that it has queried: `saved` is
  -- the committed state, to which `db.rollback()` returns. The result is the state at the commit
  -- and how many calls charged an account.
  unfoldable pub interest_loop : List ℕ → Db → ℕ → Db → ℕ × Db
  interest_loop [] saved applied d = (applied, d)
  interest_loop (id ∷ ids) saved applied d =
      let after : ℕ × Db = elim (apply_interest id d) [
        | err e ↦ (applied, saved)
        | ok (none, d') ↦ (applied, d')
        | ok (some txn, d') ↦ (applied + 1, d')
      ] in
      interest_loop ids saved after.0 after.1

  -- `apply_udhar_interest`
  unfoldable pub apply_udhar_interest : Db → ℕ × Db
  apply_udhar_interest d =
      interest_loop (map (λ a. a.id) (keep_if has_interest d.tables.udhar_accounts)) d 0 d
