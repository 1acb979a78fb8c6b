-- ===== src/Schema/LedgerTables.antt =====
-- Wallets and ledger rows: Backend/app/models/wallet.py, Backend/app/models/ledger_entry.py.
-- The free text of a row (`description`) and its surrogate id are left out: no operation reads
-- them.
use apna_mandla.Prelude.{ℕ, String, Bool, Option, List}
use apna_mandla.Prelude.Int.{ℤ}

pub data EntrySide : Type 0 where
  dr cr : EntrySide

pub data TransactionPurpose : Type 0 where
  topup order_payment refund commission withdrawal delivery_fee : TransactionPurpose
  cod_settlement adjustment : TransactionPurpose
  udhar_debit udhar_repayment udhar_interest udhar_adjustment : TransactionPurpose

pub record Wallet : Type 0 where
  pub id : ℕ
  pub user_id : ℕ
  pub balance : ℤ
  pub is_frozen : Bool

-- The optional links of a row to what caused it.
pub record References : Type 0 where
  pub order_id : Option ℕ
  pub withdrawal_id : Option ℕ
  pub udhar_account_id : Option ℕ
  pub session_id : Option ℕ

pub record LedgerEntry : Type 0 where
  pub sequence_number : ℕ
  pub previous_hash : String
  pub entry_hash : String
  pub wallet_id : ℕ
  pub entry_side : EntrySide
  pub transaction_type : TransactionPurpose
  pub correlation_id : String
  pub amount : ℤ
  pub balance_after : ℤ
  pub links : References
  pub idempotency_key : Option String
  pub created_at : ℕ

-- `next_wallet_id` is the table's id sequence.
pub record Books : Type 0 where
  pub wallets : List Wallet
  pub entries : List LedgerEntry
  pub next_wallet_id : ℕ
