-- ===== src/Model.antt =====
-- The immutable models of schemabridge/models/: their fields, their enums, and the validation
-- that their constructors make.
pub mod Status
pub mod Gates
pub mod Workflow
pub mod Event
pub mod Progress
pub mod Job
pub mod Attempt
