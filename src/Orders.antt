-- ===== src/Orders.antt =====
-- Orders: their payment (Backend/app/routes/wallets.py, Backend/app/routes/payment.py), the way to
-- the customer (Backend/app/routes/delivery.py, Backend/app/routes/order_flow.py,
-- Backend/app/services/rider_transfer_service.py) and the search for a rider
-- (Backend/app/services/rider_assignment_service.py, Backend/app/services/broadcast_service.py).
mod Rows
mod Payments
mod Delivery
mod Broadcast
mod Overrides
pub mod Search
pub mod PaymentOutcomes
pub mod Saved
pub mod PaymentSaved
pub mod OverridesSaved
pub mod Steps
pub mod LifeCycle
pub mod Validity
unfoldable pub use Rows.*
unfoldable pub use Payments.*
unfoldable pub use Delivery.*
unfoldable pub use Broadcast.*
unfoldable pub use Overrides.*
