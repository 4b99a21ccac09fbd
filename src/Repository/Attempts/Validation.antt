-- ===== src/Repository/Attempts/Validation.antt =====
-- PostgreSQLWorkflowRepository: migration_validation_runs.
pub mod Effects
use schemabridge.Base.{
  ℕ, suc, ◌-◌, Bool, true, false, not, ◌&&◌, Option, none, some, List, [], ◌∷◌, ◌==◌, is_some,
  if◌then◌else◌, any,
}
use schemabridge.Base.Text.{Text}
use schemabridge.Base.Outcome.{
  Outcome, ok, raise, ◌>>=◌, ◌>>◌, require, workflow_not_found, workflow_conflict,
  invalid_workflow_transition, persistence_error, validation_already_in_progress,
}
use schemabridge.Base.Table.{find, update, insert}
use schemabridge.Model.Status.{WorkflowStatus, same_status, executed, validating, validated}
use schemabridge.Model.Workflow.{
  MigrationWorkflow, WorkflowArtifact, validation_preview, validation_execution_report,
  same_artifact_type,
}
use schemabridge.Model.Event.{MigrationAuditEvent, holds_status}
use schemabridge.Model.Attempt.Validation.{
  WorkflowValidationRun, WorkflowValidationRunStatus, running, succeeded, review_required,
  outcome_uncertain, is_claimed, without_result, is_running,
}
use schemabridge.Model.Attempt.Kinds.{execution_kind, validation_kind}
use schemabridge.Repository.Store.{
  Store, Attempts, IdempotencyRow, validation_scope, find_workflow, or_raise, load_workflow,
  recorded, insert_idempotency,
}
use schemabridge.Repository.Workflows.{Platform, load_artifact, insert_artifact, names_id}
use schemabridge.Repository.Attempts.{
  load_row, blocked, mark_running, get_by_command, write_workflow,
}
use schemabridge.Repository.Attempts.Transport.{with_outcome}

abbrev pub with_validations : Store → List WorkflowValidationRun → Store
with_validations s rows = record s { attempts = record s.attempts { validations = rows } }

-- INSERT INTO migration_validation_runs, with the foreign key on execution_attempt_id.
insert_run : WorkflowValidationRun → Store → Outcome (List WorkflowValidationRun)
insert_run r s = do
  require (is_some (find execution_kind.key r.execution_attempt_id s.attempts.executions))
      persistence_error
  or_raise persistence_error (insert validation_kind.key (without_result r) s.attempts.validations)

-- The foreign key on (workflow_id, artifact_id) holds for the event of the artifact.
unfoldable pub claim_new :
    ℕ
    → ℕ
    → WorkflowValidationRun
    → WorkflowArtifact
    → MigrationAuditEvent
    → MigrationAuditEvent
    → Text
    → Text
    → Store
    → Outcome ((MigrationWorkflow × WorkflowValidationRun × WorkflowArtifact × Bool) × Store)
unfolding insert_run
claim_new w expected run artifact artifact_event event key digest s = do
  row ← or_raise workflow_not_found (find_workflow w s)
  old ← load_workflow row
  require (old.version == expected) workflow_conflict
  require (same_status old.status executed) invalid_workflow_transition
  require
      ((artifact.artifact_version == suc old.latest_artifact_version)
        && (run.validation_preview_artifact_version == artifact.artifact_version))
      workflow_conflict
  require (not (blocked validation_kind w s.attempts.validations)) validation_already_in_progress
  stored ← or_raise persistence_error (insert_artifact artifact s.artifacts)
  rows ← insert_run run s
  require (artifact_event.workflow_id == w) persistence_error
  logged ←
      write_workflow w expected
        (with_outcome validating (suc old.version) run.claimed_at artifact.artifact_version)
        (some artifact_event) event (suc old.version)
        (record (with_validations s rows) { artifacts = stored })
  result ←
      load_workflow
        (with_outcome validating (suc old.version) run.claimed_at artifact.artifact_version old)
  ok (
    (result, run, artifact, true),
    insert_idempotency (validation_scope w) key digest w run.run_id logged,
  )

-- SELECT ... FROM migration_workflow_artifacts WHERE workflow_id = w AND artifact_version = v
unfoldable pub find_version : ℕ → ℕ → List WorkflowArtifact → Option WorkflowArtifact
find_version w v [] = none
find_version w v (a ∷ rows) =
    if (a.workflow_id == w) && (a.artifact_version == v) then some a else find_version w v rows

unfoldable pub replay_claim :
    Platform
    → ℕ
    → IdempotencyRow
    → Store
    → Outcome ((MigrationWorkflow × WorkflowValidationRun × WorkflowArtifact × Bool) × Store)
unfolding find_version
replay_claim p w r s = do
  row ← or_raise persistence_error (find_workflow w s)
  workflow ← load_workflow row
  held ←
      or_raise persistence_error
        (find validation_kind.key r.result_reference s.attempts.validations)
  run ← load_row validation_kind held
  stored ←
      or_raise persistence_error
        (find_version w run.validation_preview_artifact_version s.artifacts)
  artifact ← load_artifact p stored
  ok ((workflow, run, artifact, false), s)

claim_or_replay :
    Platform
    → Option IdempotencyRow
    → ℕ
    → ℕ
    → WorkflowValidationRun
    → WorkflowArtifact
    → MigrationAuditEvent
    → MigrationAuditEvent
    → Text
    → Text
    → Store
    → Outcome ((MigrationWorkflow × WorkflowValidationRun × WorkflowArtifact × Bool) × Store)
unfolding claim_new replay_claim
claim_or_replay p none w expected run artifact artifact_event event key digest s =
    claim_new w expected run artifact artifact_event event key digest s
claim_or_replay p (some r) w expected run artifact artifact_event event key digest s =
    replay_claim p w r s

unfoldable pub claim_validation_run :
    Platform
    → ℕ
    → ℕ
    → WorkflowValidationRun
    → WorkflowArtifact
    → MigrationAuditEvent
    → MigrationAuditEvent
    → Text
    → Text
    → Store
    → Outcome ((MigrationWorkflow × WorkflowValidationRun × WorkflowArtifact × Bool) × Store)
unfolding claim_or_replay
claim_validation_run p w expected run artifact artifact_event event key digest s = do
  require
      ((run.workflow_id == w)
        && (is_claimed run.status
            && ((artifact.workflow_id == w)
                && same_artifact_type artifact.artifact_type validation_preview)))
      persistence_error
  require
      (names_id artifact_event.artifact_id artifact.artifact_id
        && (holds_status executed event.previous_status
            && holds_status validating event.new_status))
      persistence_error
  replay ← recorded (validation_scope w) key digest s
  claim_or_replay p replay w expected run artifact artifact_event event key digest s

abbrev pub start_run : ℕ → WorkflowValidationRun → WorkflowValidationRun
start_run at r = record r { status = running; running_at = some at }

unfoldable pub mark_validation_running :
    ℕ → ℕ → Store → Outcome ((WorkflowValidationRun × Bool) × Store)
mark_validation_running id at s = do
  answer ← mark_running validation_kind id (start_run at) s.attempts.validations
  ok (answer.0, with_validations s answer.1)

unfoldable pub get_validation_run_by_command :
    ℕ → Text → Text → Store → Outcome (Option WorkflowValidationRun)
get_validation_run_by_command w key digest s =
    get_by_command validation_kind (validation_scope w) key digest s.attempts.validations s

-- The artifact of a report with its event: both or none, as the report is there or not.
abbrev pub Proof : Type 0
Proof = WorkflowArtifact × MigrationAuditEvent

unfoldable pub bundle :
    Bool → Option WorkflowArtifact → Option MigrationAuditEvent → Outcome (Option Proof)
bundle false none none = ok none
bundle true (some artifact) (some event) = ok (some (artifact, event))
bundle _ _ _ = raise persistence_error

unfoldable pub artifact_matches : ℕ → Option Proof → Bool
artifact_matches w none = true
artifact_matches w (some (artifact, event)) =
    (artifact.workflow_id == w)
    && (same_artifact_type artifact.artifact_type validation_execution_report
        && names_id event.artifact_id artifact.artifact_id)

-- The foreign keys on (workflow_id, artifact_id) hold for the run and for the event of the
-- artifact.
unfoldable pub store_report :
    ℕ
    → MigrationWorkflow
    → WorkflowValidationRun
    → Option Proof
    → List WorkflowArtifact
    → Outcome (List WorkflowArtifact)
store_report w old run none rows = ok rows
store_report w old run (some (artifact, event)) rows = do
  require (artifact.artifact_version == suc old.latest_artifact_version) workflow_conflict
  stored ← or_raise persistence_error (insert_artifact artifact rows)
  require ((run.workflow_id == w) && (event.workflow_id == w)) persistence_error
  ok stored

abbrev pub terminal_of : Option Proof → WorkflowStatus → WorkflowValidationRunStatus
terminal_of none new = outcome_uncertain
terminal_of (some proof) new = if same_status new validated then succeeded else review_required

abbrev pub evidence_id : Option Proof → Option ℕ
evidence_id none = none
evidence_id (some proof) = some proof.0.artifact_id

abbrev pub latest_version : MigrationWorkflow → Option Proof → ℕ
latest_version old none = old.latest_artifact_version
latest_version old (some proof) = proof.0.artifact_version

abbrev pub event_of : Option Proof → Option MigrationAuditEvent
event_of none = none
event_of (some proof) = some proof.1

abbrev pub artifact_of : Option Proof → Option WorkflowArtifact
artifact_of none = none
artifact_of (some proof) = some proof.0

-- `max(0, int((completed_at - run.running_at).total_seconds() * 1000))`; a run without a start is a
-- TypeError. The float computation `millis` is a parameter.
unfoldable pub duration_of : (ℕ → ℕ) → ℕ → Option ℕ → Outcome ℕ
duration_of millis at none = raise persistence_error
duration_of millis at (some start) = ok (millis (at - start))

abbrev pub finish_run :
    WorkflowValidationRunStatus
    → ℕ
    → ℕ
    → Option ℕ
    → Option Text
    → WorkflowValidationRun
    → WorkflowValidationRun
finish_run terminal at duration evidence failure r = record r {
  status = terminal;
  completed_at = some at;
  duration_ms = some duration;
  evidence_artifact_id = evidence;
  failure_category = failure;
}

-- The writes of a completion, once the workflow and the run are found to wait for it.
unfoldable pub write_outcome :
    (ℕ → ℕ)
    → ℕ
    → ℕ
    → ℕ
    → MigrationWorkflow
    → WorkflowValidationRun
    → Option Proof
    → WorkflowStatus
    → MigrationAuditEvent
    → ℕ
    → Option Text
    → Store
    → Outcome ((MigrationWorkflow × WorkflowValidationRun × Option WorkflowArtifact) × Store)
write_outcome millis w expected id old run proof new event at failure s = do
  stored ← store_report w old run proof s.artifacts
  duration ← duration_of millis at run.running_at
  rows ← or_raise workflow_conflict (
      update validation_kind.key id (λ r. is_running r.status)
        (finish_run (terminal_of proof new) at duration (evidence_id proof) failure)
        s.attempts.validations)
  logged ←
      write_workflow w expected (with_outcome new (suc old.version) at (latest_version old proof))
        (event_of proof) event (suc old.version)
        (record (with_validations s rows) { artifacts = stored })
  updated ←
      load_row validation_kind
        (finish_run (terminal_of proof new) at duration (evidence_id proof) failure run)
  result ← load_workflow (with_outcome new (suc old.version) at (latest_version old proof) old)
  ok ((result, updated, artifact_of proof), logged)

unfoldable pub settle :
    (ℕ → ℕ)
    → ℕ
    → ℕ
    → ℕ
    → Option Proof
    → WorkflowStatus
    → MigrationAuditEvent
    → ℕ
    → Option Text
    → Store
    → Outcome ((MigrationWorkflow × WorkflowValidationRun × Option WorkflowArtifact) × Store)
settle millis w expected id proof new event at failure s = do
  row ← or_raise workflow_not_found (find_workflow w s)
  old ← load_workflow row
  require ((old.version == expected) && same_status old.status validating) workflow_conflict
  held ← or_raise workflow_not_found (find validation_kind.key id s.attempts.validations)
  run ← load_row validation_kind held
  require (is_running run.status) workflow_conflict
  write_outcome millis w expected id old run proof new event at failure s

-- `reported`: whether there is a report.
unfoldable pub complete_validation_run :
    (ℕ → ℕ)
    → ℕ
    → ℕ
    → ℕ
    → Bool
    → Option WorkflowArtifact
    → Option MigrationAuditEvent
    → WorkflowStatus
    → MigrationAuditEvent
    → ℕ
    → Option Text
    → Store
    → Outcome ((MigrationWorkflow × WorkflowValidationRun × Option WorkflowArtifact) × Store)
complete_validation_run millis w expected id reported artifact artifact_event new event at failure
      s =
    do
      proof ← bundle reported artifact artifact_event
      require (artifact_matches w proof) persistence_error
      settle millis w expected id proof new event at failure s
