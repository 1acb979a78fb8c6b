-- ===== src/Schema/FraudTables.antt =====
-- Fraud flags: Backend/app/models/fraud_flag.py.
use apna_mandla.Prelude.{ℕ, String, Option}
use apna_mandla.Prelude.Int.{ℤ}

pub data FraudFlagType : Type 0 where
  rapid_transactions large_amount daily_limit_exceeded velocity_breach : FraudFlagType
  idempotency_collision unusual_pattern : FraudFlagType

pub data Severity : Type 0 where
  low medium high critical : Severity

pub record FraudFlag : Type 0 where
  pub user_id : ℕ
  pub wallet_id : ℕ
  pub flag_type : FraudFlagType
  pub severity : Severity
  pub amount : Option ℤ
  pub ip_address : Option String
