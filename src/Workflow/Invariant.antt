-- ===== src/Workflow/Invariant.antt =====
-- What holds of a workflow request between two calls: how far its chain has got, and who acted.
pub mod Steps
pub mod Rounds
pub mod Sound
pub mod Keeps
pub mod Reach
