-- ===== src/Schema/RequestTables.antt =====
-- Withdrawal requests, gateway payments, commission settings and shops: withdrawal_request.py,
-- gateway_payment.py, commission.py and shop.py of Backend/app/models.
use apna_mandla.Prelude.{ℕ, String, Bool, Option}
use apna_mandla.Prelude.Int.{ℤ}

pub data WithdrawalStatus : Type 0 where
  pending processing completed rejected : WithdrawalStatus

pub record WithdrawalRequest : Type 0 where
  pub id : ℕ
  pub user_id : ℕ
  pub amount : ℤ
  pub status : WithdrawalStatus
  pub idempotency_key : Option String
  pub bank_details_snapshot : Option String
  pub admin_note : Option String
  pub processed_by_id : Option ℕ
  pub processed_at : Option ℕ

pub data GatewayProvider : Type 0 where
  razorpay stripe phonepe paytm manual : GatewayProvider

pub data GatewayPaymentStatus : Type 0 where
  initiated authorized captured success failed refunded : GatewayPaymentStatus

pub record GatewayPayment : Type 0 where
  pub id : ℕ
  pub user_id : ℕ
  pub order_id : Option ℕ
  pub amount : ℤ
  pub provider : GatewayProvider
  pub status : GatewayPaymentStatus
  pub gateway_order_id : Option String
  pub gateway_payment_id : Option String
  pub gateway_signature : Option String
  pub ledger_correlation_id : Option String
  pub completed_at : Option ℕ
  pub refunded_at : Option ℕ

-- `percent` has two places.
pub record CommissionConfig : Type 0 where
  pub percent : ℤ
  pub is_active : Bool
  pub created_at : ℕ

-- `has_profile` is whether `shop.profile` finds a row. The column `shop_profile_id` is never NULL and
-- its foreign key is enforced, so it does in a database that was written under the schema.
pub record Shop : Type 0 where
  pub id : ℕ
  pub user_id : ℕ
  pub has_profile : Bool
