-- ===== src/Ledger/Posting.antt =====
-- `_write_entry`, `_credit` and `_debit` of ledger_service.py.
use apna_mandla.Prelude.{
  ℕ, String, Bool, not, ◌||◌, Option, none, some, List, ◌∷◌, ◌==◌, if◌then◌else◌, is_some,
}
use apna_mandla.Prelude.Int.{ℤ, pos, ◌+ℤ◌, ◌-ℤ◌, ltb_ℤ}
use apna_mandla.Money.{Decimal, round, of_paise}
use apna_mandla.Schema.{Wallet, LedgerEntry, EntrySide, dr, cr, TransactionPurpose, References}
use apna_mandla.Env.{Env}
use apna_mandla.Session.{
  M, ok, ◌>>=◌, ◌>>◌, pure, raise, raise_if, gets, now, wallet_frozen, insufficient_balance,
  integrity_error,
}
use apna_mandla.Fraud.{pre_check}
use apna_mandla.Ledger.Rows.{
  platform_user_id, put_wallet, get_or_create_wallet, next_sequence, last_hash, compute_hash,
  find_key, check_idempotency,
}

-- What `_credit` and `_debit` are told.
pub record Posting : Type 0 where
  pub user_id : ℕ
  pub amount : Decimal
  pub transaction_type : TransactionPurpose
  pub correlation_id : String
  pub links : References
  pub idempotency_key : Option String

unfoldable pub save_wallet : Wallet → M (Unit {0})
save_wallet w d =
    ok (tt, record d { books = record d.books { wallets = put_wallet w d.books.wallets } })

abbrev pub key_taken : ℕ → Option String → List LedgerEntry → Bool
key_taken wallet_id none es = Bool.false
key_taken wallet_id (some key) es = is_some (find_key wallet_id key es)

-- `db.add(entry); db.flush()`: the constraints of the two tables are checked. They are
-- `amount > 0`, `balance >= 0` and the uniqueness of a key in a wallet.
unfoldable pub insert_entry : LedgerEntry → M (Unit {0})
insert_entry e d =
    if not (ltb_ℤ (pos 0) e.amount)
      || ltb_ℤ e.balance_after (pos 0)
      || key_taken e.wallet_id e.idempotency_key d.books.entries
    then raise integrity_error d
    else ok (tt, record d { books = record d.books { entries = e ∷ d.books.entries } })

module _ (env : Env) where
  -- The row that `_write_entry` builds, at a time and after the rows that are there.
  unfoldable pub entry_of :
      Posting → Wallet → EntrySide → ℤ → ℤ → ℕ → List LedgerEntry → LedgerEntry
  entry_of p wallet side amount balance_after time es = record {
    sequence_number = next_sequence es;
    previous_hash = last_hash es;
    entry_hash =
        compute_hash env wallet.id side amount balance_after (last_hash es) (env.isoformat time)
          p.correlation_id;
    wallet_id = wallet.id;
    entry_side = side;
    transaction_type = p.transaction_type;
    correlation_id = p.correlation_id;
    amount = amount;
    balance_after = balance_after;
    links = p.links;
    idempotency_key = p.idempotency_key;
    created_at = time;
  }

  unfoldable pub write_entry : Posting → Wallet → EntrySide → ℤ → ℤ → M LedgerEntry
  unfolding insert_entry
  write_entry p wallet side amount balance_after = do
    time ← now env
    es ← gets (λ d. d.books.entries)
    let entry = entry_of p wallet side amount balance_after time es
    insert_entry entry
    pure entry

  -- `wallet.balance = balance; return _write_entry(…)`
  unfoldable pub post : Posting → Wallet → EntrySide → ℤ → ℤ → M LedgerEntry
  unfolding save_wallet
  post p wallet side amount balance = do
    save_wallet (record wallet { balance = balance })
    write_entry p wallet side amount balance

  unfoldable pub credit : Posting → M LedgerEntry
  credit p = do
    let amount = round p.amount
    wallet ← get_or_create_wallet p.user_id
    existing ← gets (λ d. check_idempotency wallet.id p.idempotency_key d.books.entries)
    elim existing [
      | some e ↦ pure e
      | none ↦ do
        raise_if wallet.is_frozen wallet_frozen
        let balance = round (of_paise (wallet.balance +ℤ amount))
        post p wallet cr amount balance
    ]

  unfoldable pub fraud_guard : Posting → Wallet → ℤ → Option String → M (Unit {0})
  fraud_guard p wallet amount ip_address =
      if p.user_id == platform_user_id
      then pure tt
      else pre_check env
          (record { user_id = p.user_id; wallet_id = wallet.id; ip_address = ip_address }) amount

  unfoldable pub debit : Posting → Option String → M LedgerEntry
  debit p ip_address = do
    let amount = round p.amount
    wallet ← get_or_create_wallet p.user_id
    existing ← gets (λ d. check_idempotency wallet.id p.idempotency_key d.books.entries)
    elim existing [
      | some e ↦ pure e
      | none ↦ do
        raise_if wallet.is_frozen wallet_frozen
        fraud_guard p wallet amount ip_address
        raise_if (ltb_ℤ wallet.balance amount) insufficient_balance
        let balance = round (of_paise (wallet.balance -ℤ amount))
        post p wallet dr amount balance
    ]
