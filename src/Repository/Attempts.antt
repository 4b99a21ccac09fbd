-- ===== src/Repository/Attempts.antt =====
-- PostgreSQLWorkflowRepository: the transactions on the attempts of a workflow. The parts that the
-- three tables share are here, one child module has the transactions of each table.
pub mod Rows
pub mod Running
pub mod Transport
pub mod Execution
pub mod Validation
pub mod Writes
pub mod Life
use schemabridge.Base.{
  ℕ, suc, Bool, true, false, not, ◌&&◌, Option, none, some, List, [], ◌∷◌, ◌==◌, if◌then◌else◌, any,
}
use schemabridge.Base.Text.{Text}
use schemabridge.Base.Outcome.{
  Outcome, Error, ok, raise, ◌>>=◌, ◌>>◌, require, workflow_not_found, workflow_conflict,
  persistence_error,
}
use schemabridge.Base.Table.{find, update, insert}
use schemabridge.Model.Workflow.{MigrationWorkflow}
use schemabridge.Model.Event.{MigrationAuditEvent}
use schemabridge.Model.Attempt.{Kind}
use schemabridge.Repository.Store.{
  Store, Scope, IdempotencyRow, workflow_key, or_raise, recorded, insert_event,
}
use schemabridge.Repository.Workflows.{insert_optional_event}

module _ {R : Type 0} (k : Kind R) where
  -- `_transport_attempt(row)`, `_attempt(row)` and `_validation_run(row)`
  unfoldable pub load_row : R → Outcome R
  load_row r = if k.valid r then ok r else raise persistence_error

  -- SELECT 1 FROM ... WHERE workflow_id = w AND status IN (...) LIMIT 1
  unfoldable pub blocked : ℕ → List R → Bool
  blocked w rs = any (λ r. (k.owner r == w) && k.blocks r) rs

  -- mark_transport_running, mark_execution_running and mark_validation_running: `start` writes the
  -- columns status and running_at.
  restart : ℕ → (R → R) → R → List R → Outcome ((R × Bool) × List R)
  unfolding load_row
  restart id start attempt rs = do
    rows ← or_raise workflow_conflict (update k.key id (λ r. k.rank r == 0) start rs)
    row ← or_raise persistence_error (find k.key id rows)
    running ← load_row row
    ok ((running, true), rows)

  unfoldable pub mark_running : ℕ → (R → R) → List R → Outcome ((R × Bool) × List R)
  unfolding restart load_row
  mark_running id start rs = do
    row ← or_raise workflow_not_found (find k.key id rs)
    attempt ← load_row row
    if k.rank attempt == 0 then restart id start attempt rs else ok ((attempt, false), rs)

  -- get_transport_attempt_by_command, get_execution_attempt_by_command and
  -- get_validation_run_by_command
  attempt_of : Option IdempotencyRow → List R → Outcome (Option R)
  unfolding load_row
  attempt_of none rs = ok none
  attempt_of (some r) rs = do
    row ← or_raise persistence_error (find k.key r.result_reference rs)
    attempt ← load_row row
    ok (some attempt)

  unfoldable pub get_by_command : Scope → Text → Text → List R → Store → Outcome (Option R)
  unfolding attempt_of
  get_by_command scope key digest rs s = do row ← recorded scope key digest s; attempt_of row rs

-- UPDATE migration_workflows ... WHERE workflow_id = w AND version = expected, and then the events
-- of the transaction.
unfoldable pub write_workflow :
    ℕ
    → ℕ
    → (MigrationWorkflow → MigrationWorkflow)
    → Option MigrationAuditEvent
    → MigrationAuditEvent
    → ℕ
    → Store
    → Outcome Store
write_workflow w expected change artifact_event transition_event version s = do
  rows ←
      or_raise workflow_conflict
        (update workflow_key w (λ r. r.version == expected) change s.workflows)
  noted ← insert_optional_event artifact_event version (record s { workflows = rows })
  insert_event transition_event version noted
