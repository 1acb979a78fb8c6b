-- ===== src/Gateway.antt =====
-- Payments through a gateway: Backend/app/services/gateway_service.py and the endpoints of
-- Backend/app/routes/gateway.py that change state. `Payload` reads a webhook's body, `Rows` has the
-- queries, `Operations` the service, `Endpoints` the routes.
mod Payload
mod Rows
mod Operations
mod Endpoints
pub mod Reading
pub mod WebhookOutcomes
pub mod RefundOutcomes
pub mod Forgery
pub mod Validity
pub mod LifeCycle
unfoldable pub use Payload.*
unfoldable pub use Rows.*
unfoldable pub use Operations.*
unfoldable pub use Endpoints.*
