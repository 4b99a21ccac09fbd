-- ===== src/Services/Jobs/Pipeline.antt =====
-- services/jobs/pipeline.py: MigrationJobPipelineProcessor, and services/jobs/worker.py.
use schemabridge.Base.{ℕ, Bool, ◌&&◌, Option, none, some, ◌==◌, if◌then◌else◌}
use schemabridge.Base.Text.{Text}
use schemabridge.Base.Outcome.{processor_contract, job_transition}
use schemabridge.Model.Job.{MigrationJob, is_terminal}
use schemabridge.Repository.Workflows.{Platform}
use schemabridge.Repository.Jobs.{claim_migration_job, claim_next_migration_job}
use schemabridge.Services.Jobs.Program.{Program, ◌>>=◌, ◌>>◌, return, transaction}
use schemabridge.Services.Jobs.Staging.{
  TransportRequest, TransportResult, MigrationJobStagingResult, run_staging, check,
}
use schemabridge.Services.Jobs.Execution.{
  PreviewRequest, PreviewResult, ExecutionRequest, ExecutionResult, MigrationJobExecutionStepResult,
  run_execution,
}
use schemabridge.Services.Jobs.Validation.{
  ValidationRequest, ValidationResult, MigrationJobValidationStepResult, run_validation,
}

-- The four orchestrators that the steps call. Each may commit transactions of its own before it
-- returns or raises.
pub record Orchestrators : Type 0 where
  pub transport : TransportRequest → Program TransportResult
  pub preview : PreviewRequest → Program PreviewResult
  pub execution : ExecutionRequest → Program ExecutionResult
  pub validation : ValidationRequest → Program ValidationResult

module _ (p : Platform) (hex : ℕ → Text) (millis : ℕ → ℕ) (now : ℕ) (o : Orchestrators) where
  unfoldable pub finish_validation : MigrationJobValidationStepResult → Program MigrationJob
  finish_validation validated =
      check (is_terminal validated.job.status) job_transition >> return validated.job

  unfoldable pub after_execution : MigrationJobExecutionStepResult → Program MigrationJob
  unfolding finish_validation
  after_execution executed =
      if is_terminal executed.job.status
      then return executed.job
      else run_validation hex millis now o.validation executed >>= finish_validation

  unfoldable pub after_staging : MigrationJobStagingResult → Program MigrationJob
  unfolding after_execution
  after_staging staged =
      if is_terminal staged.job.status
      then return staged.job
      else run_execution hex millis now o.preview o.execution staged >>= after_execution

  -- MigrationJobPipelineProcessor.process
  unfoldable pub process : MigrationJob → Program MigrationJob
  unfolding after_staging
  process job = run_staging p hex millis now o.transport job >>= after_staging

-- MigrationJobWorker: `processor` is its processor, `now` its clock.
module _ (processor : MigrationJob → Program MigrationJob) where
  unfoldable pub process_claimed : Option MigrationJob → Program (Option MigrationJob)
  process_claimed none = return none
  process_claimed (some claimed) = do
    result ← processor claimed
    check ((result.job_id == claimed.job_id) && is_terminal result.status) processor_contract
    return (some result)

  unfoldable pub run_once : (ℕ → Bool) → ℕ → Program (Option MigrationJob)
  unfolding process_claimed
  run_once locked now = transaction (claim_next_migration_job locked now) >>= process_claimed

  unfoldable pub run_named : (ℕ → Bool) → ℕ → ℕ → Program (Option MigrationJob)
  unfolding process_claimed
  run_named locked id now = transaction (claim_migration_job locked id now) >>= process_claimed
