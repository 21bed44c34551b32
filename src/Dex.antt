-- ===== src/Dex.antt =====
-- backend/src/services/dex.ts: the trades of a rebalance on the exchange of the Stellar network.
pub mod Types
pub mod Limits
pub mod Settings
pub mod Exchange
pub mod Trade
pub mod Assess
pub mod Progress
pub mod Report
pub mod Rebalance
pub mod Agreement
pub mod Tracking
pub mod Completion
pub mod Loss
pub mod Rollback
mod Tests
