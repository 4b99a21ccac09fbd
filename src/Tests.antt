-- ===== src/Tests.antt =====
-- Concrete stores, commands, connectors and keys, and what the theorems say of them.
pub mod World
pub mod Commands
pub mod Claims
pub mod Connectors
pub mod Eligibility
pub mod Keys
pub mod Attempts
pub mod Phases
pub mod Pipeline
