-- ===== src/Udhar.antt =====
-- Credit accounts ("udhar"): Backend/app/services/udhar_service.py, the properties of
-- Backend/app/models/udhar_account.py, and the interest job of
-- Backend/app/services/scheduled_jobs.py.
mod Rows
mod Charges
mod Operations
unfoldable pub use Rows.*
unfoldable pub use Charges.*
unfoldable pub use Operations.*
pub mod Accounts
pub mod Outcomes
pub mod Interest
pub mod Validity
