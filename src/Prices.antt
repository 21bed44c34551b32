-- ===== src/Prices.antt =====
-- backend/src/services/reflector.ts: the price feed.
pub mod Types
pub mod Cache
pub mod Sources
pub mod Redis
pub mod Resolve
pub mod Lookups
pub mod Walk
pub mod Paths
pub mod Genuine
pub mod Interval
pub mod Availability
pub mod Answers
pub mod Stored
pub mod Tuning
mod Tests
