-- ===== src/Accounting.antt =====
-- The double-entry ledger (src/modules/accounting).
pub mod Journal
pub mod Reports
pub mod Posting
pub mod Trial
pub mod Tests
