-- ===== src/Schema/OrderTables.antt =====
-- Orders, their payments, parcels and riders: order.py, payment.py, parcel.py, rider.py and
-- rider_profile.py of Backend/app/models.
use apna_mandla.Prelude.{ℕ, String, Bool, Option}
use apna_mandla.Prelude.Int.{ℤ}
use apna_mandla.Money.{Decimal}

pub data OrderStatus : Type 0 where
  payment_pending created shop_accepted ready_for_pickup broadcasting : OrderStatus
  rider_assigned out_for_delivery delivered cancelled : OrderStatus

pub data PaymentMode : Type 0 where
  prepaid cod udhar : PaymentMode

-- `total_amount` has two places.
pub record Order : Type 0 where
  pub id : ℕ
  pub customer_id : ℕ
  pub shop_id : Option ℕ
  pub total_amount : ℤ
  pub status : OrderStatus
  pub payment_mode : PaymentMode
  pub delivery_otp : Option String
  pub assigned_rider_id : Option ℕ
  pub broadcast_deadline : Option ℕ
  pub broadcast_radius : ℕ
  pub transfer_count : ℕ
  pub is_archived : Bool

pub data PaymentStatus : Type 0 where
  pay_initiated pay_success pay_failed pay_refunded : PaymentStatus

-- `amount` is the decimal that the float prints as.
pub record Payment : Type 0 where
  pub id : ℕ
  pub order_id : ℕ
  pub user_id : ℕ
  pub amount : Decimal
  pub status : PaymentStatus
  pub transaction_id : Option String
  pub failure_reason : Option String
  pub completed_at : Option ℕ
  pub refunded_at : Option ℕ

pub data ParcelStatus : Type 0 where
  parcel_pending searching_for_rider assigned picked_up in_transit : ParcelStatus
  parcel_delivered parcel_cancelled : ParcelStatus

pub record Parcel : Type 0 where
  pub id : ℕ
  pub order_id : ℕ
  pub status : ParcelStatus

pub record RiderProfile : Type 0 where
  pub id : ℕ
  pub user_id : ℕ

pub record Rider : Type 0 where
  pub id : ℕ
  pub user_id : ℕ
  pub current_order_id : Option ℕ
