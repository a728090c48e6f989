-- ===== src/Execution.antt =====
-- Sending orders: backend/stockbrain/execution.
pub mod Settings
pub mod Provider
pub mod Service
pub mod Rejection
pub mod Sending
pub mod Run
pub mod Effects
pub mod Reconciliation
pub mod Transmission
pub mod Preflight
pub mod Samples
mod Tests
