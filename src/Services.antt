-- ===== src/Services.antt =====
-- The services that stand between callers and the repository.
pub mod Transitions
pub mod Jobs
