-- ===== src/Transport.antt =====
-- Batch transport: schemabridge/models/transport.py and schemabridge/services/batch_transport.py.
pub mod Batch
pub mod Service
pub mod Evidence
pub mod Transfer
pub mod Success
pub mod Profiles
