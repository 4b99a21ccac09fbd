-- ===== src/Repository/Commands.antt =====
-- Any interleaving of the repository's transactions, from any number of callers, as a list of
-- commands. A command that raises leaves the store as it was.
pub mod Change
pub mod Consistent
pub mod Replay
pub mod Life
pub mod Claims
pub mod Attempts
use schemabridge.Base.{ℕ, Bool, ◌≡◌, Option, List, [], ◌∷◌, true}
use schemabridge.Base.Text.{Text}
use schemabridge.Base.Outcome.{Outcome, ok, raise, ◌>>=◌}
use schemabridge.Model.Status.{WorkflowStatus}
use schemabridge.Model.Workflow.{MigrationWorkflow, WorkflowArtifact, valid_workflow}
use schemabridge.Model.Event.{MigrationAuditEvent}
use schemabridge.Model.Progress.{BatchTransportProgress}
use schemabridge.Model.Job.{MigrationJob, JobStage, JobStatus, valid_job}
use schemabridge.Model.Attempt.Transport.{
  WorkflowTransportAttempt, WorkflowTransportEvidence, valid_transport_attempt,
}
use schemabridge.Model.Attempt.Execution.{
  MigrationExecutionAttempt, MigrationExecutionEvidence, valid_execution_attempt,
}
use schemabridge.Model.Attempt.Validation.{WorkflowValidationRun, valid_validation_run}
use schemabridge.Repository.Store.{Store}
use schemabridge.Repository.Attempts.Transport.{
  claim_transport_attempt, mark_transport_running, complete_transport_attempt,
}
use schemabridge.Repository.Attempts.Execution.{
  claim_execution_attempt, mark_execution_running, complete_execution_attempt,
}
use schemabridge.Repository.Attempts.Validation.{
  claim_validation_run, mark_validation_running, complete_validation_run,
}
use schemabridge.Repository.Jobs.{
  create_migration_job, claim_next_migration_job, claim_migration_job, update_migration_job_stage,
  update_migration_job_progress, finish_migration_job,
}
use schemabridge.Repository.Workflows.{
  Platform, create_workflow, transition_status, append_artifact, append_artifact_operation,
}

pub data Command : Type 0 where
  create : MigrationWorkflow → MigrationAuditEvent → Text → Text → Command
  transition : ℕ → ℕ → WorkflowStatus → MigrationAuditEvent → Option Text → Text → Text → Command
  append : ℕ → ℕ → WorkflowArtifact → MigrationAuditEvent → Text → Text → Command
  operate :
      ℕ
      → ℕ
      → WorkflowArtifact
      → MigrationAuditEvent
      → Option WorkflowStatus
      → Option MigrationAuditEvent
      → Text
      → Text
      → Command
  create_job : MigrationJob → Command
  claim_next : (ℕ → Bool) → ℕ → Command
  claim : (ℕ → Bool) → ℕ → ℕ → Command
  advance : ℕ → JobStage → JobStage → Command
  progress : ℕ → BatchTransportProgress → ℕ → Command
  finish : ℕ → JobStage → JobStatus → ℕ → Option Text → Command
  claim_transport : ℕ → ℕ → WorkflowTransportAttempt → MigrationAuditEvent → Text → Text → Command
  start_transport : ℕ → ℕ → Command
  complete_transport :
      ℕ
      → ℕ
      → ℕ
      → Option WorkflowTransportEvidence
      → Option WorkflowArtifact
      → Option MigrationAuditEvent
      → WorkflowStatus
      → MigrationAuditEvent
      → ℕ
      → Option Text
      → Command
  claim_execution : ℕ → ℕ → MigrationExecutionAttempt → MigrationAuditEvent → Text → Text → Command
  start_execution : ℕ → ℕ → Command
  complete_execution :
      ℕ
      → ℕ
      → ℕ
      → MigrationExecutionEvidence
      → WorkflowArtifact
      → MigrationAuditEvent
      → WorkflowStatus
      → MigrationAuditEvent
      → Command
  claim_validation :
      ℕ
      → ℕ
      → WorkflowValidationRun
      → WorkflowArtifact
      → MigrationAuditEvent
      → MigrationAuditEvent
      → Text
      → Text
      → Command
  start_validation : ℕ → ℕ → Command
  complete_validation :
      ℕ
      → ℕ
      → ℕ
      → Bool
      → Option WorkflowArtifact
      → Option MigrationAuditEvent
      → WorkflowStatus
      → MigrationAuditEvent
      → ℕ
      → Option Text
      → Command

-- What the constructors of the models guarantee of the objects that a caller hands over: a new
-- workflow has passed its validation and is at version one with no artifact, and a job or an attempt
-- has passed its validation. The transition event of a validation run is of the workflow it moves:
-- the repository does not compare them, its callers build the event from the workflow.
abbrev pub IsWellFormed : Command → Type 0
IsWellFormed (create w e key digest) =
    (valid_workflow w ≡ true) × (w.version ≡ 1) × (w.latest_artifact_version ≡ 0)
IsWellFormed (create_job job) = valid_job job ≡ true
IsWellFormed (claim_transport w v a e key digest) = valid_transport_attempt a ≡ true
IsWellFormed (claim_execution w v a e key digest) = valid_execution_attempt a ≡ true
IsWellFormed (claim_validation w v r a ae e key digest) =
    (valid_validation_run r ≡ true) × (e.workflow_id ≡ w)
IsWellFormed (complete_validation w v id reported a ae new e at failure) = e.workflow_id ≡ w
IsWellFormed _ = Unit

abbrev pub store_of : {A : Type 0} → Outcome (A × Store) → Outcome Store
store_of m = m >>= λ p. ok p.1

unfoldable pub execute : Platform → (ℕ → ℕ) → Command → Store → Outcome Store
execute p millis (create w e key digest) s = store_of (create_workflow w e key digest s)
execute p millis (transition w v new e error key digest) s =
    store_of (transition_status w v new e error key digest s)
execute p millis (append w v a e key digest) s = store_of (append_artifact p w v a e key digest s)
execute p millis (operate w v a e new t key digest) s =
    store_of (append_artifact_operation p w v a e new t key digest s)
execute p millis (create_job job) s = store_of (create_migration_job job s)
execute p millis (claim_next locked at) s = store_of (claim_next_migration_job locked at s)
execute p millis (claim locked id at) s = store_of (claim_migration_job locked id at s)
execute p millis (advance id expected new) s =
    store_of (update_migration_job_stage id expected new s)
execute p millis (progress id snapshot at) s =
    store_of (update_migration_job_progress id snapshot at s)
execute p millis (finish id expected outcome at category) s =
    store_of (finish_migration_job millis id expected outcome at category s)
execute p millis (claim_transport w v a e key digest) s =
    store_of (claim_transport_attempt w v a e key digest s)
execute p millis (start_transport id at) s = store_of (mark_transport_running id at s)
execute p millis (complete_transport w v id evidence a ae new e at failure) s =
    store_of (complete_transport_attempt w v id evidence a ae new e at failure s)
execute p millis (claim_execution w v a e key digest) s =
    store_of (claim_execution_attempt w v a e key digest s)
execute p millis (start_execution id at) s = store_of (mark_execution_running id at s)
execute p millis (complete_execution w v id evidence a ae new e) s =
    store_of (complete_execution_attempt w v id evidence a ae new e s)
execute p millis (claim_validation w v r a ae e key digest) s =
    store_of (claim_validation_run p w v r a ae e key digest s)
execute p millis (start_validation id at) s = store_of (mark_validation_running id at s)
execute p millis (complete_validation w v id reported a ae new e at failure) s =
    store_of (complete_validation_run millis w v id reported a ae new e at failure s)

abbrev pub or_keep : Store → Outcome Store → Store
or_keep s (ok t) = t
or_keep s (raise e) = s

unfoldable pub run : Platform → (ℕ → ℕ) → List Command → Store → Store
run p millis [] s = s
run p millis (c ∷ cs) s = run p millis cs (or_keep s (execute p millis c s))
