-- ===== src/Repository.antt =====
-- persistence/postgresql.py: the repository. `Store` is the schema of the control-plane database
-- and what the transactions share; the other children are the transactions on workflows and on
-- jobs. A transaction takes the store and returns its result with the new store, or raises,
-- and then its writes are rolled back.
pub mod Store
pub mod Jobs
pub mod Workflows
pub mod Attempts
pub mod Commands
