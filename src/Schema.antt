-- ===== src/Schema.antt =====
-- The tables that the services read and write, as one database state. Rows stand newest first,
-- which is the order of insertion reversed.
mod LedgerTables
mod UdharTables
mod FraudTables
mod RequestTables
mod OrderTables
mod RatingTables
pub use LedgerTables.*
pub use UdharTables.*
pub use FraudTables.*
pub use RequestTables.*
pub use OrderTables.*
pub use RatingTables.*
use apna_mandla.Prelude.{ℕ, List}

-- The tables that no wallet operation touches, and the id sequences of some of them.
pub record Tables : Type 0 where
  pub commission_configs : List CommissionConfig
  pub withdrawal_requests : List WithdrawalRequest
  pub next_withdrawal_id : ℕ
  pub udhar_accounts : List UdharAccount
  pub next_udhar_account_id : ℕ
  pub udhar_transactions : List UdharTransaction
  pub gateway_payments : List GatewayPayment
  pub next_gateway_payment_id : ℕ
  pub shops : List Shop
  pub orders : List Order
  pub payments : List Payment
  pub parcels : List Parcel
  pub rider_profiles : List RiderProfile
  pub riders : List Rider
  pub order_items : List OrderItem
  pub ratings : List Rating
  pub next_rating_id : ℕ

-- `ticks` counts the readings of the clock, of the random source and of Redis so far.
pub record Db : Type 0 where
  pub books : Books
  pub tables : Tables
  pub flags : List FraudFlag
  pub ticks : ℕ
