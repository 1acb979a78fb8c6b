-- ===== src/Stores.antt =====
-- The stores in the memory of a process that stand in for Redis: revoked tokens
-- (Backend/app/core/token_store.py) and requests (Backend/app/core/rate_limiter.py).
pub mod Dict
mod Limiter
mod Tokens
pub mod LimiterReference
pub mod Revocation
unfoldable pub use Limiter.*
unfoldable pub use Tokens.*
