-- ===== src/Services/Jobs/Validation.antt =====
-- services/jobs/pipeline.py: MigrationJobValidationStep.
use schemabridge.Base.{ℕ, Bool, false, ◌&&◌, Option, none, some, is_some}
use schemabridge.Base.Text.{Text, codes}
use schemabridge.Base.Outcome
use schemabridge.Base.Outcome.{
  Error, job_transition, operation_unavailable, required_artifact, stale_artifact,
  execution_outcome_uncertain, validation_already_in_progress, validation_execution,
  validation_outcome_uncertain, validation_not_ready, unsafe_validation_query,
}
use schemabridge.Model.Workflow.{ActorType, service}
use schemabridge.Model.Job.{MigrationJob, same_job_status, same_stage, running, validating}
use schemabridge.Services.Jobs.Program.{Program, ◌>>=◌, ◌>>◌, return, query, trying}
use schemabridge.Services.Jobs.Steps.{read_job, same_job, succeed, require_recovery, require_review}
use schemabridge.Services.Jobs.Staging.{worker, check}
use schemabridge.Services.Jobs.Execution.{
  MigrationJobExecutionStepResult, ExecutionResult, job_key_of,
}

-- models/validation.py: MigrationValidationStatus
pub data MigrationValidationStatus : Type 0 where
  passed failed incomplete : MigrationValidationStatus

-- The arguments of WorkflowValidationOrchestrator.validate.
pub record ValidationRequest : Type 0 where
  pub workflow_id : ℕ
  pub expected_version : ℕ
  pub execution_evidence_artifact_version : ℕ
  pub approved_mapping_artifact_version : ℕ
  pub source_profile_id : Text
  pub target_profile_id : Text
  pub timeout_seconds : ℕ
  pub idempotency_key : Text
  pub actor_type : ActorType
  pub actor_reference : Text

-- What the step reads of a WorkflowValidationResult: the status of its report.
pub record ValidationResult : Type 0 where
  pub report_status : MigrationValidationStatus

pub record MigrationJobValidationStepResult : Type 0 where
  pub job : MigrationJob
  pub validation : Option ValidationResult

module _ (hex : ℕ → Text) (millis : ℕ → ℕ) (now : ℕ)
    (validate_with : ValidationRequest → Program ValidationResult) where
  abbrev pub validation_request : MigrationJob → ExecutionResult → ValidationRequest
  validation_request job execution = record {
    workflow_id = job.workflow_id;
    expected_version = execution.workflow.version;
    execution_evidence_artifact_version = execution.artifact.artifact_version;
    approved_mapping_artifact_version = job.approved_mapping_artifact_version;
    source_profile_id = job.source_profile_id;
    target_profile_id = job.target_profile_id;
    timeout_seconds = job.timeout_seconds;
    idempotency_key = job_key_of hex job (codes "validation");
    actor_type = service;
    actor_reference = worker;
  }

  abbrev pub concluded :
      Option ValidationResult → MigrationJob → Program MigrationJobValidationStepResult
  concluded validation job = return (record { job = job; validation = validation })

  abbrev pub not_trusted : MigrationJob → Option (Program MigrationJobValidationStepResult)
  not_trusted job = some (
      require_recovery millis now job.job_id validating (codes "VALIDATION_OUTCOME_UNCERTAIN")
      >>= concluded none)

  abbrev pub not_validated : MigrationJob → Option (Program MigrationJobValidationStepResult)
  not_validated job = some (
      require_review millis now job.job_id (codes "VALIDATION_PREPARATION_FAILED")
      >>= concluded none)

  unfoldable pub validation_failure :
      MigrationJob → Error → Option (Program MigrationJobValidationStepResult)
  validation_failure job execution_outcome_uncertain = not_trusted job
  validation_failure job validation_already_in_progress = not_trusted job
  validation_failure job validation_execution = not_trusted job
  validation_failure job validation_outcome_uncertain = not_trusted job
  validation_failure job operation_unavailable = not_validated job
  validation_failure job required_artifact = not_validated job
  validation_failure job stale_artifact = not_validated job
  validation_failure job unsafe_validation_query = not_validated job
  validation_failure job validation_not_ready = not_validated job
  validation_failure job _ = none

  -- The outcome of the job by the status of the report.
  unfoldable pub conclude : MigrationJob → MigrationValidationStatus → Program MigrationJob
  conclude job passed = succeed millis now job.job_id
  conclude job failed = require_review millis now job.job_id (codes "VALIDATION_MISMATCH")
  conclude job incomplete = require_review millis now job.job_id (codes "VALIDATION_INCOMPLETE")

  unfoldable pub validate_execution :
      MigrationJob → Option ExecutionResult → Program MigrationJobValidationStepResult
  validate_execution job none = λ s. (Outcome.raise job_transition, s)
  validate_execution job (some execution) =
      trying (validate_with (validation_request job execution)) (validation_failure job)
        (λ validation. conclude job validation.report_status >>= concluded (some validation))

  abbrev pub is_clean : Option ExecutionResult → Bool
  is_clean none = false
  is_clean (some execution) = is_some execution.cleanup_evidence

  unfoldable pub run_validation :
      MigrationJobExecutionStepResult → Program MigrationJobValidationStepResult
  unfolding validate_execution
  run_validation executed = do
    durable ← query (read_job executed.job.job_id)
    check
        (is_clean executed.execution
          && (same_job durable executed.job
              && (same_job_status executed.job.status running
                  && same_stage executed.job.stage validating)))
        job_transition
    validate_execution executed.job executed.execution
