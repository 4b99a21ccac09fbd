-- ===== src/Repository/Attempts/Execution.antt =====
-- PostgreSQLWorkflowRepository: migration_execution_attempts.
pub mod Effects
use schemabridge.Base.{
  ℕ, suc, Bool, true, false, not, ◌&&◌, Option, none, some, List, [], ◌∷◌, ◌==◌,
}
use schemabridge.Base.Text.{Text}
use schemabridge.Base.Outcome.{
  Outcome, ok, raise, ◌>>=◌, ◌>>◌, require, workflow_not_found, workflow_conflict,
  invalid_workflow_transition, persistence_error, execution_already_in_progress,
}
use schemabridge.Base.Table.{find, update, insert}
use schemabridge.Model.Status.{WorkflowStatus, same_status, execution_ready, executing}
use schemabridge.Model.Workflow.{
  MigrationWorkflow, WorkflowArtifact, execution_evidence, same_artifact_type,
}
use schemabridge.Model.Event.{MigrationAuditEvent, holds_status}
use schemabridge.Model.Attempt.Execution.{
  MigrationExecutionAttempt, MigrationExecutionEvidence, running, is_claimed, without_result,
  is_running,
}
use schemabridge.Model.Attempt.Kinds.{execution_kind}
use schemabridge.Repository.Store.{
  Store, Attempts, IdempotencyRow, execution_scope, find_workflow, or_raise, load_workflow,
  recorded, insert_idempotency,
}
use schemabridge.Repository.Workflows.{insert_artifact, names_id}
use schemabridge.Repository.Attempts.{
  load_row, blocked, mark_running, get_by_command, write_workflow,
}
use schemabridge.Repository.Attempts.Transport.{with_phase, with_outcome}

abbrev pub with_executions : Store → List MigrationExecutionAttempt → Store
with_executions s rows = record s { attempts = record s.attempts { executions = rows } }

unfoldable pub claim_new :
    ℕ
    → ℕ
    → MigrationExecutionAttempt
    → MigrationAuditEvent
    → Text
    → Text
    → Store
    → Outcome ((MigrationWorkflow × MigrationExecutionAttempt × Bool) × Store)
claim_new w expected attempt event key digest s = do
  row ← or_raise workflow_not_found (find_workflow w s)
  old ← load_workflow row
  require (old.version == expected) workflow_conflict
  require (same_status old.status execution_ready) invalid_workflow_transition
  require (not (blocked execution_kind w s.attempts.executions)) execution_already_in_progress
  rows ←
      or_raise persistence_error
        (insert execution_kind.key (without_result attempt) s.attempts.executions)
  logged ←
      write_workflow w expected (with_phase executing (suc old.version) attempt.claimed_at) none
        event (suc old.version) (with_executions s rows)
  result ← load_workflow (with_phase executing (suc old.version) attempt.claimed_at old)
  ok (
    (result, attempt, true),
    insert_idempotency (execution_scope w) key digest w attempt.attempt_id logged,
  )

unfoldable pub replay_claim :
    ℕ
    → IdempotencyRow
    → Store
    → Outcome ((MigrationWorkflow × MigrationExecutionAttempt × Bool) × Store)
replay_claim w r s = do
  row ← or_raise persistence_error (find_workflow w s)
  workflow ← load_workflow row
  stored ←
      or_raise persistence_error (find execution_kind.key r.result_reference s.attempts.executions)
  attempt ← load_row execution_kind stored
  ok ((workflow, attempt, false), s)

claim_or_replay :
    Option IdempotencyRow
    → ℕ
    → ℕ
    → MigrationExecutionAttempt
    → MigrationAuditEvent
    → Text
    → Text
    → Store
    → Outcome ((MigrationWorkflow × MigrationExecutionAttempt × Bool) × Store)
unfolding claim_new replay_claim
claim_or_replay none w expected attempt event key digest s =
    claim_new w expected attempt event key digest s
claim_or_replay (some r) w expected attempt event key digest s = replay_claim w r s

unfoldable pub claim_execution_attempt :
    ℕ
    → ℕ
    → MigrationExecutionAttempt
    → MigrationAuditEvent
    → Text
    → Text
    → Store
    → Outcome ((MigrationWorkflow × MigrationExecutionAttempt × Bool) × Store)
unfolding claim_or_replay
claim_execution_attempt w expected attempt event key digest s = do
  require ((attempt.workflow_id == w) && is_claimed attempt.status) persistence_error
  require
      ((event.workflow_id == w)
        && (holds_status execution_ready event.previous_status
            && holds_status executing event.new_status))
      persistence_error
  replay ← recorded (execution_scope w) key digest s
  claim_or_replay replay w expected attempt event key digest s

abbrev pub start_attempt : ℕ → MigrationExecutionAttempt → MigrationExecutionAttempt
start_attempt at a = record a { status = running; running_at = some at }

unfoldable pub mark_execution_running :
    ℕ → ℕ → Store → Outcome ((MigrationExecutionAttempt × Bool) × Store)
mark_execution_running id at s = do
  answer ← mark_running execution_kind id (start_attempt at) s.attempts.executions
  ok (answer.0, with_executions s answer.1)

unfoldable pub get_execution_attempt_by_command :
    ℕ → Text → Text → Store → Outcome (Option MigrationExecutionAttempt)
get_execution_attempt_by_command w key digest s =
    get_by_command execution_kind (execution_scope w) key digest s.attempts.executions s

-- The columns that the result of an execution writes.
abbrev pub finish_attempt :
    MigrationExecutionEvidence → ℕ → MigrationExecutionAttempt → MigrationExecutionAttempt
finish_attempt e evidence a = record a {
  status = e.status;
  completed_at = some e.completed_at;
  evidence_artifact_id = some evidence;
  failure_category = e.failure_category;
}

-- The writes of a completion, once the workflow and the attempt are found to wait for it. The
-- foreign keys on (workflow_id, artifact_id) hold for the attempt and for the event of the artifact.
unfoldable pub write_outcome :
    ℕ
    → ℕ
    → ℕ
    → MigrationWorkflow
    → MigrationExecutionAttempt
    → MigrationExecutionEvidence
    → WorkflowArtifact
    → MigrationAuditEvent
    → WorkflowStatus
    → MigrationAuditEvent
    → Store
    → Outcome ((MigrationWorkflow × MigrationExecutionAttempt × WorkflowArtifact) × Store)
write_outcome w expected id old attempt evidence artifact artifact_event new event s = do
  stored ← or_raise persistence_error (insert_artifact artifact s.artifacts)
  require ((attempt.workflow_id == w) && (artifact_event.workflow_id == w)) persistence_error
  rows ← or_raise workflow_conflict (
      update execution_kind.key id (λ r. is_running r.status)
        (finish_attempt evidence artifact.artifact_id) s.attempts.executions)
  logged ←
      write_workflow w expected
        (with_outcome new (suc old.version) evidence.completed_at artifact.artifact_version)
        (some artifact_event) event (suc old.version)
        (record (with_executions s rows) { artifacts = stored })
  updated ← load_row execution_kind (finish_attempt evidence artifact.artifact_id attempt)
  result ←
      load_workflow
        (with_outcome new (suc old.version) evidence.completed_at artifact.artifact_version old)
  ok ((result, updated, artifact), logged)

unfoldable pub settle :
    ℕ
    → ℕ
    → ℕ
    → MigrationExecutionEvidence
    → WorkflowArtifact
    → MigrationAuditEvent
    → WorkflowStatus
    → MigrationAuditEvent
    → Store
    → Outcome ((MigrationWorkflow × MigrationExecutionAttempt × WorkflowArtifact) × Store)
settle w expected id evidence artifact artifact_event new event s = do
  row ← or_raise workflow_not_found (find_workflow w s)
  old ← load_workflow row
  require
      ((old.version == expected)
        && (same_status old.status executing
            && (artifact.artifact_version == suc old.latest_artifact_version)))
      workflow_conflict
  held ← or_raise workflow_not_found (find execution_kind.key id s.attempts.executions)
  attempt ← load_row execution_kind held
  require (is_running attempt.status) workflow_conflict
  write_outcome w expected id old attempt evidence artifact artifact_event new event s

unfoldable pub complete_execution_attempt :
    ℕ
    → ℕ
    → ℕ
    → MigrationExecutionEvidence
    → WorkflowArtifact
    → MigrationAuditEvent
    → WorkflowStatus
    → MigrationAuditEvent
    → Store
    → Outcome ((MigrationWorkflow × MigrationExecutionAttempt × WorkflowArtifact) × Store)
complete_execution_attempt w expected id evidence artifact artifact_event new event s = do
  require
      ((evidence.attempt_id == id)
        && ((evidence.workflow_id == w)
            && ((artifact.workflow_id == w)
                && same_artifact_type artifact.artifact_type execution_evidence)))
      persistence_error
  require (names_id artifact_event.artifact_id artifact.artifact_id && (event.workflow_id == w))
      persistence_error
  settle w expected id evidence artifact artifact_event new event s
