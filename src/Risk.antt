-- ===== src/Risk.antt =====
-- backend/src/services/riskManagements.ts
pub mod Types
pub mod Correlation
pub mod Stats
pub mod Scores
pub mod Breakers
pub mod Decision
pub mod Cooldown
pub mod Crash
pub mod Ladder
pub mod Histories
pub mod Symmetry
pub mod Bounds
mod Tests
