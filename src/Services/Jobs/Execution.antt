-- ===== src/Services/Jobs/Execution.antt =====
-- services/jobs/pipeline.py: MigrationJobExecutionStep.
use schemabridge.Base.{ℕ, ◌&&◌, Option, none, some, ◌++◌, is_some}
use schemabridge.Base.Text.{Text, codes}
use schemabridge.Base.Outcome
use schemabridge.Base.Outcome.{
  Error, job_transition, artifact_validation, mapping_approval_required, operation_unavailable,
  preview_compilation, required_artifact, stale_artifact, execution_confirmed_failure,
  execution_already_in_progress, execution_outcome_uncertain, staging_cleanup,
  target_profile_not_write_capable, target_profile_unavailable, unsafe_generated_statement,
  unsupported_execution_connector,
}
use schemabridge.Model.Workflow.{MigrationWorkflow, WorkflowArtifact, ActorType, service}
use schemabridge.Model.Job.{
  MigrationJob, same_job_status, same_stage, running, transforming, executing, cleaning_up,
  validating,
}
use schemabridge.Services.Jobs.Program.{Program, ◌>>=◌, ◌>>◌, return, query, trying}
use schemabridge.Services.Jobs.Steps.{read_job, same_job, advance, fail, require_recovery}
use schemabridge.Services.Jobs.Staging.{MigrationJobStagingResult, TransportResult, worker, check}

-- The arguments of WorkflowPlanningOrchestrator.preview_transformation: no staging names, and an
-- INSERT ... SELECT.
pub record PreviewRequest : Type 0 where
  pub workflow_id : ℕ
  pub expected_version : ℕ
  pub approved_mapping_artifact_version : ℕ
  pub idempotency_key : Text
  pub actor_type : ActorType
  pub actor_reference : Text

-- What the step reads of a WorkflowPlanningResult.
pub record PreviewResult : Type 0 where
  pub workflow : MigrationWorkflow
  pub artifact : WorkflowArtifact

-- The arguments of WorkflowExecutionOrchestrator.execute.
pub record ExecutionRequest : Type 0 where
  pub workflow_id : ℕ
  pub expected_version : ℕ
  pub approved_mapping_artifact_version : ℕ
  pub transformation_preview_artifact_version : ℕ
  pub target_profile_id : Text
  pub timeout_seconds : ℕ
  pub idempotency_key : Text
  pub actor_type : ActorType
  pub actor_reference : Text

-- What the steps read of a WorkflowExecutionResult; the evidence of the cleanup is named by the
-- artifact that holds it.
pub record ExecutionResult : Type 0 where
  pub workflow : MigrationWorkflow
  pub artifact : WorkflowArtifact
  pub cleanup_evidence : Option ℕ

pub record MigrationJobExecutionStepResult : Type 0 where
  pub job : MigrationJob
  pub preview : Option PreviewResult
  pub execution : Option ExecutionResult

-- `_key`
unfoldable pub job_key_of : (ℕ → Text) → MigrationJob → Text → Text
job_key_of hex job operation = codes "job-" ++ (hex job.job_id ++ (codes "-" ++ operation))

module _ (hex : ℕ → Text) (millis : ℕ → ℕ) (now : ℕ)
    (preview_with : PreviewRequest → Program PreviewResult)
    (execute_with : ExecutionRequest → Program ExecutionResult) where
  abbrev pub preview_request : MigrationJob → TransportResult → PreviewRequest
  preview_request job transport = record {
    workflow_id = job.workflow_id;
    expected_version = transport.workflow.version;
    approved_mapping_artifact_version = job.approved_mapping_artifact_version;
    idempotency_key = job_key_of hex job (codes "transformation");
    actor_type = service;
    actor_reference = worker;
  }

  abbrev pub execution_request : MigrationJob → PreviewResult → ExecutionRequest
  execution_request job preview = record {
    workflow_id = job.workflow_id;
    expected_version = preview.workflow.version;
    approved_mapping_artifact_version = job.approved_mapping_artifact_version;
    transformation_preview_artifact_version = preview.artifact.artifact_version;
    target_profile_id = job.target_profile_id;
    timeout_seconds = job.timeout_seconds;
    idempotency_key = job_key_of hex job (codes "execution");
    actor_type = service;
    actor_reference = worker;
  }

  abbrev pub ended :
      Option PreviewResult
      → Option ExecutionResult
      → MigrationJob
      → Program MigrationJobExecutionStepResult
  ended preview execution job =
      return (record { job = job; preview = preview; execution = execution })

  abbrev pub not_compiled : MigrationJob → Option (Program MigrationJobExecutionStepResult)
  not_compiled job = some (
      fail millis now job.job_id transforming (codes "TRANSFORMATION_COMPILATION_FAILED")
      >>= ended none none)

  unfoldable pub preview_failure :
      MigrationJob → Error → Option (Program MigrationJobExecutionStepResult)
  preview_failure job artifact_validation = not_compiled job
  preview_failure job mapping_approval_required = not_compiled job
  preview_failure job operation_unavailable = not_compiled job
  preview_failure job preview_compilation = not_compiled job
  preview_failure job required_artifact = not_compiled job
  preview_failure job stale_artifact = not_compiled job
  preview_failure job _ = none

  abbrev pub not_prepared :
      MigrationJob → PreviewResult → Option (Program MigrationJobExecutionStepResult)
  not_prepared job preview = some (
      fail millis now job.job_id executing (codes "TARGET_EXECUTION_PREPARATION_FAILED")
      >>= ended (some preview) none)

  abbrev pub target_uncertain :
      MigrationJob → PreviewResult → Option (Program MigrationJobExecutionStepResult)
  target_uncertain job preview = some (
      require_recovery millis now job.job_id executing (codes "TARGET_OUTCOME_UNCERTAIN")
      >>= ended (some preview) none)

  unfoldable pub execution_failure :
      MigrationJob → PreviewResult → Error → Option (Program MigrationJobExecutionStepResult)
  execution_failure job preview execution_confirmed_failure = some (
      fail millis now job.job_id executing (codes "TARGET_EXECUTION_FAILED")
      >>= ended (some preview) none)
  execution_failure job preview execution_already_in_progress = target_uncertain job preview
  execution_failure job preview execution_outcome_uncertain = target_uncertain job preview
  execution_failure job preview staging_cleanup = some (
      advance job.job_id executing cleaning_up >>= (λ cleanup.
        require_recovery millis now cleanup.job_id cleaning_up (codes "STAGING_CLEANUP_FAILED")
        >>= ended (some preview) none))
  execution_failure job preview operation_unavailable = not_prepared job preview
  execution_failure job preview required_artifact = not_prepared job preview
  execution_failure job preview stale_artifact = not_prepared job preview
  execution_failure job preview target_profile_not_write_capable = not_prepared job preview
  execution_failure job preview target_profile_unavailable = not_prepared job preview
  execution_failure job preview unsafe_generated_statement = not_prepared job preview
  execution_failure job preview unsupported_execution_connector = not_prepared job preview
  execution_failure job preview _ = none

  -- The end of the step: the cleanup must be confirmed by evidence.
  unfoldable pub confirm_cleanup :
      PreviewResult
      → ExecutionResult
      → Option ℕ
      → MigrationJob
      → Program MigrationJobExecutionStepResult
  confirm_cleanup preview execution none cleanup =
      require_recovery millis now cleanup.job_id cleaning_up (codes "STAGING_CLEANUP_NOT_CONFIRMED")
      >>= ended (some preview) (some execution)
  confirm_cleanup preview execution (some evidence) cleanup =
      advance cleanup.job_id cleaning_up validating >>= ended (some preview) (some execution)

  unfoldable pub after_checks :
      MigrationJob → Option TransportResult → Program MigrationJobExecutionStepResult
  unfolding confirm_cleanup
  after_checks job none = λ s. (Outcome.raise job_transition, s)
  after_checks job (some transport) =
      trying (preview_with (preview_request job transport)) (preview_failure job) (λ preview.
        advance job.job_id transforming executing >>= λ stage.
        trying (execute_with (execution_request job preview)) (execution_failure job preview)
          (λ execution.
            advance stage.job_id executing cleaning_up
            >>= confirm_cleanup preview execution execution.cleanup_evidence))

  unfoldable pub run_execution : MigrationJobStagingResult → Program MigrationJobExecutionStepResult
  unfolding after_checks
  run_execution staged = do
    durable ← query (read_job staged.job.job_id)
    check
        (is_some staged.transport
          && (same_job durable staged.job
              && (same_job_status staged.job.status running
                  && same_stage staged.job.stage transforming)))
        job_transition
    after_checks staged.job staged.transport
