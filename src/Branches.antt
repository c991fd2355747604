-- ===== src/Branches.antt =====
-- The funds of branches (src/modules/branches).
pub mod Funds
pub mod Funding
pub mod Taken
pub mod Tests
