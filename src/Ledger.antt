-- ===== src/Ledger.antt =====
-- Wallets and the double-entry ledger: Backend/app/services/ledger_service.py and
-- Backend/app/models/ledger_entry.py. `Rows` has the queries, `Posting` the two primitives that
-- move a balance, `Operations` the operations of `WalletService`.
mod Rows
pub mod Posting
mod Operations
pub mod Wallets
pub mod Invariant
pub mod Outcome
pub mod Preserve
pub mod Validity
pub mod Effects
pub mod Refinement
pub mod Topup
pub mod Commission
pub mod Payment
pub mod Transfers
pub mod Frame
pub mod Shifts
pub mod GiveBack
pub mod Refund
pub mod OrderRoundTrip
unfoldable pub use Rows.*
unfoldable pub use Posting.*
unfoldable pub use Operations.*
