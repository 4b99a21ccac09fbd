-- ===== src/Validation.antt =====
-- Validation of a migration: schemabridge/validation/key_batches.py and primary_key.py,
-- and models/validation.py.
pub mod KeyBatches
pub mod PrimaryKey
