-- ===== src/Schema/UdharTables.antt =====
-- Credit accounts: Backend/app/models/udhar_account.py, Backend/app/models/udhar_transaction.py.
use apna_mandla.Prelude.{ℕ, String, Option}
use apna_mandla.Prelude.Int.{ℤ}

pub data UdharAccountStatus : Type 0 where
  pending active overdue closed suspended : UdharAccountStatus

-- `interest_rate` is in ten-thousandths, the other amounts are in paise.
pub record UdharAccount : Type 0 where
  pub id : ℕ
  pub borrower_id : ℕ
  pub lender_shop_id : ℕ
  pub credit_limit : ℤ
  pub interest_rate : ℤ
  pub due_days : ℕ
  pub due_date : Option ℕ
  pub outstanding_balance : ℤ
  pub status : UdharAccountStatus
  pub last_interest_applied_at : Option ℕ
  pub total_interest_accrued : ℤ
  pub last_transaction_at : Option ℕ
  pub closed_at : Option ℕ
  pub idempotency_key : Option String

pub data UdharTxType : Type 0 where
  debit repayment interest adjustment : UdharTxType

pub record UdharTransaction : Type 0 where
  pub udhar_account_id : ℕ
  pub order_id : Option ℕ
  pub transaction_type : UdharTxType
  pub amount : ℤ
  pub outstanding_after : ℤ
  pub ledger_correlation_id : Option String
  pub idempotency_key : Option String
