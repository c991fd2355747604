-- ===== src/Rbac.antt =====
-- Roles and capabilities (src/platform/rbac).
pub mod Service
pub mod Edits
pub mod Tests
