-- ===== src/Tests.antt =====
-- Concrete runs of the services, at which the theorems are applied.
pub mod State
pub mod Calls
pub mod Runs
pub mod ValidStates
pub mod AccessCalls
mod AccessRuns
mod WalletRuns
mod RequestRuns
mod UdharRuns
mod GatewayRuns
mod OrderRuns
mod StoreRuns
mod RatingRuns
