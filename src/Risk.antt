-- ===== src/Risk.antt =====
-- The deterministic risk engine: backend/stockbrain/risk.
pub mod Config
pub mod Models
pub mod Spread
pub mod Gates
pub mod Conviction
pub mod Caps
pub mod Factors
pub mod Sizing
pub mod Engine
pub mod Exits
pub mod Operations
pub mod Samples
mod Tests
mod RuleTests
