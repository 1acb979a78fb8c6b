-- ===== src/Access.antt =====
-- Users' sessions and one-time codes: Backend/app/core/security.py, auth.py and csrf.py, and the
-- auth_*.py of Backend/app/routes.
mod Tables
mod Connection
mod Tokens
mod Sessions
mod Codes
mod Roles
pub mod Live
pub mod Quiet
pub mod Rotation
pub mod Revoking
pub mod Verification
pub mod CodeRows
pub mod Change
pub mod Requests
pub mod Steps
pub mod Refreshes
pub mod Endings
pub mod Isolation
pub mod CodeLimits
pub mod Kinds
pub mod Admission
unfoldable pub use Tables.*
unfoldable pub use Connection.*
unfoldable pub use Tokens.*
unfoldable pub use Sessions.*
unfoldable pub use Codes.*
unfoldable pub use Roles.*
