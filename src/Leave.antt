-- ===== src/Leave.antt =====
-- Leave applications and balances (src/modules/hr).
pub mod Balance
pub mod Applications
pub mod Usage
pub mod Tests
