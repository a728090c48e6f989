-- ===== src/Proposals.antt =====
-- The trade proposals: backend/stockbrain/proposals.
pub mod StateMachine
pub mod Evaluation
pub mod Lifecycle
pub mod Authorization
pub mod Rebalance
