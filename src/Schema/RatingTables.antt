-- ===== src/Schema/RatingTables.antt =====
-- Ratings and the items of an order: rating.py and order_item.py of Backend/app/models. Comments,
-- and what an item costs, are left out.
use apna_mandla.Prelude.{ℕ, Option}
use apna_mandla.Prelude.Int.{ℤ}

pub data TargetType : Type 0 where
  target_shop target_rider target_customer : TargetType

pub record Rating : Type 0 where
  pub id : ℕ
  pub order_id : ℕ
  pub user_id : ℕ
  pub target_id : ℕ
  pub target_type : TargetType
  pub rating : ℤ

pub record OrderItem : Type 0 where
  pub id : ℕ
  pub order_id : ℕ
  pub shop_id : Option ℕ
