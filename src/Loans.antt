-- ===== src/Loans.antt =====
-- Raising, deciding and disbursing loans (src/modules/loans).
pub mod State
pub mod Samples
pub mod Schedule
pub mod Disbursement
pub mod Consent
pub mod Decisions
pub mod Verification
pub mod Completion
pub mod Pending
pub mod Fees
pub mod Applications
pub mod Moves
pub mod Reach
pub mod Tests
