-- ===== src/Lib.antt =====
-- SchemaBridge: the control plane of database migrations, its batch transport and its key
-- validation, as executable definitions with their theorems.
--
-- The program's parts and their files (paths from the repository's root, under schemabridge/):
--
-- - Model: the immutable models. Status: MigrationWorkflowStatus and ALLOWED_TRANSITIONS of
--   models/workflow.py, with the paths through them in Gates. Workflow: relations, workflows and
--   artifacts of the same file. Event: its audit events. Job: models/migration_job.py. Progress:
--   BatchTransportProgress of models/transport.py. A constructor's `__post_init__` is a Boolean
--   `valid_...` on the record.
-- - Repository: PostgreSQLWorkflowRepository of persistence/postgresql.py. Store: the tables, and
--   `_idem`, `_insert_idem`, `_insert_event`. Workflows: create_workflow, transition_status,
--   append_artifact, append_artifact_operation. Jobs: the transactions on migration_jobs. Attempts:
--   those on the tables of staging loads, executions on the target and validation runs, whose
--   models are Model.Attempt (models/workflow_transport.py, execution.py, workflow_validation.py).
--   Commands: any sequence of these transactions, in the order in which they commit. The children
--   of each say what a transaction does to the store, and from that what every sequence keeps.
-- - Services: transition_status of services/workflows/persistence.py, which reads the workflow in
--   one transaction and calls the repository in another, so it takes two stores. Jobs:
--   services/jobs/pipeline.py (Staging, Execution, Validation, Pipeline), worker.py (Pipeline) and
--   lifecycle.py (Steps); Ends, Confirmed, Results and Worker hold what is proved of them. A `Program` of several transactions keeps what was committed when a later
--   step raises. The four workflow orchestrators are a record of programs, about which nothing is
--   assumed; `now` is what the clock of the completion service says.
-- - Transport: models/transport.py (Batch) and services/batch_transport.py (Service: transfer;
--   Profiles: prepare, cleanup_staging, run). Readers, writers and reporters are parameters, and so
--   is the strategy that a run uses.
-- - Validation: validation/key_batches.py with PrimaryKeyReconciliation of models/validation.py;
--   Validation/PrimaryKey: validation/primary_key.py with what it reads of the plan and the tables.
-- - Base: shared tests, lists, texts, tables and results. Tests: concrete runs.
--
-- Conventions. A UUID is a number and an instant a number of microseconds. A text is the list of
-- its code points. What `isinstance` checks holds by typing. A transaction either commits or raises
-- and then changes nothing; failures of the database driver are not modelled. Rows that another
-- transaction holds under SKIP LOCKED are named by the argument `locked`. The conversion of a
-- duration to milliseconds, a computation on floats, is the parameter `millis`; SHA-256 and the
-- reading of JSON columns are the record `Platform`. UNIQUE constraints are checked on insertion,
-- and so are the foreign keys that a transaction relies on.
-- The timeouts that a connector receives are part of the connector. The commands on workflows
-- receive the digest of their request, and the service receives its event identifier and its time.
--
-- Fuel. Only `read_primary_key_batches` has fuel, one unit for each query. More units than there
-- are keys are enough, since each query before the last returns a key.
--
-- Not modelled: the orchestrators, which come next, and the submission of jobs; the choice of a
-- transport strategy; the mapping suggestions and the generation of SQL; artifact payloads;
-- connectors, queues, HTTP and configuration, which are input and output.
pub mod Base
pub mod Model
pub mod Repository
pub mod Services
pub mod Transport
pub mod Validation
pub mod Tests
