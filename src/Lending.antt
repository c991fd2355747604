-- ===== src/Lending.antt =====
-- Loans, repayments, penalties and early liquidation (src/modules/loans, src/modules/repayments).
pub mod State
pub mod Completion
pub mod Balance
pub mod Repayments
pub mod Liquidation
pub mod Penalties
pub mod DelayCharges
pub mod Settlement
pub mod Stale
pub mod Tests
pub mod Disputes
pub mod Recording
pub mod Reach
pub mod Sound
pub mod Resync
pub mod Sweep
