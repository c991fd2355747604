-- ===== src/Workflow.antt =====
-- The maker-checker workflow engine (src/platform/workflow-engine).
pub mod Types
pub mod Engine
pub mod Chains
pub mod Maker
pub mod Invariant
pub mod Queries
pub mod Races
pub mod Tests
pub mod Authority
pub mod Approval
