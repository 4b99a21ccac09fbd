-- ===== src/Services/Jobs/Ends/Validation.antt =====
-- MigrationJobValidationStep: where its job stands when it returns, and what SUCCEEDED rests on.
use schemabridge.Base.{ℕ, ◌≡◌, refl, sym, ◌∙◌, ◌&&◌, Option, none, some}
use schemabridge.Base.Text.{Text}
use schemabridge.Base.Outcome.{
  Error, job_transition, operation_unavailable, required_artifact, stale_artifact,
  execution_outcome_uncertain, validation_already_in_progress, validation_execution,
  validation_outcome_uncertain, validation_not_ready, unsafe_validation_query,
}
use schemabridge.Model.Job.{
  MigrationJob, JobStatus, validating, same_job_status, same_stage, running, succeeded,
  review_required,
}
use schemabridge.Repository.Workflows.{Platform}
use schemabridge.Services.Jobs.Program.{Program, ◌>>=◌, return, query}
use schemabridge.Services.Jobs.Steps.{require_recovery, require_review, succeed, read_job, same_job}
use schemabridge.Services.Jobs.Staging.{check}
use schemabridge.Services.Jobs.Execution.{ExecutionResult, MigrationJobExecutionStepResult}
use schemabridge.Services.Jobs.Validation.{
  ValidationResult, MigrationValidationStatus, passed, incomplete, MigrationJobValidationStepResult,
  run_validation, validate_execution, conclude, is_clean, validation_failure, validation_request,
}
use schemabridge.Services.Jobs.Pipeline.{Orchestrators}
use schemabridge.Services.Jobs.Ends.{
  Ends, Rescues, Rescues-map, Ends-bind, Ends-trying, Ends-wrap, finish-Ends,
}
use schemabridge.Services.Jobs.Ends.Failures.{Unsuccessful, recovery-Ends}

unfoldable pub validation_job : MigrationJobValidationStepResult → MigrationJob
validation_job r = r.job

module _ (p : Platform) (hex : ℕ → Text) (millis : ℕ → ℕ) (now : ℕ) (o : Orchestrators) where
  -- The job is not SUCCEEDED.
  unfoldable pub Ended : MigrationJobValidationStepResult → Type 0
  Ended r = Unsuccessful r.job.status

  review-Unsuccessful : (x : JobStatus) → x ≡ review_required → Unsuccessful x
  unfolding Unsuccessful
  review-Unsuccessful x e q = cc (sym e ∙ q)

  review-Ends :
      (job : MigrationJob) (category : Text) (validation : Option ValidationResult)
      → Ends job.job_id validation_job Ended (
          require_review millis now job.job_id category
          >>= (λ j. return (record { job = j; validation = validation })))
  unfolding require_review validation_job Ended
  review-Ends job category validation =
      Ends-wrap job.job_id validation_job Ended (require_review millis now job.job_id category)
        (λ j. record { job = j; validation = validation }) (λ j. j.status ≡ review_required)
        (finish-Ends millis job.job_id validating review_required now (some category)) (λ j. refl)
        (λ j e. review-Unsuccessful j.status e)

  not_trusted-Ends :
      (job : MigrationJob) (category : Text)
      → Ends job.job_id validation_job Ended (
          require_recovery millis now job.job_id validating category
          >>= (λ j. return (record { job = j; validation = none })))
  unfolding validation_job Ended
  not_trusted-Ends job category =
      recovery-Ends millis now validation_job Ended job.job_id validating category
        (λ j. record { job = j; validation = none }) (λ j. refl) (λ j u. u)

  pub validation_failure-Ends :
      (job : MigrationJob) (e : Error)
      → Rescues
          (Ends job.job_id validation_job Ended)
          (validation_failure hex millis now o.validation job e)
  unfolding validation_failure
  validation_failure-Ends job execution_outcome_uncertain = not_trusted-Ends job _
  validation_failure-Ends job validation_already_in_progress = not_trusted-Ends job _
  validation_failure-Ends job validation_execution = not_trusted-Ends job _
  validation_failure-Ends job validation_outcome_uncertain = not_trusted-Ends job _
  validation_failure-Ends job operation_unavailable = review-Ends job _ none
  validation_failure-Ends job required_artifact = review-Ends job _ none
  validation_failure-Ends job stale_artifact = review-Ends job _ none
  validation_failure-Ends job unsafe_validation_query = review-Ends job _ none
  validation_failure-Ends job validation_not_ready = review-Ends job _ none
  validation_failure-Ends job _ = tt

  -- Only a PASSED report makes the job SUCCEEDED.
  unfoldable pub Concluded : MigrationValidationStatus → MigrationJobValidationStepResult → Type 0
  Concluded status r = r.job.status ≡ succeeded → status ≡ passed

  review-Concluded :
      (job : MigrationJob) (status : MigrationValidationStatus) (category : Text)
      (validation : Option ValidationResult)
      → Ends job.job_id validation_job (Concluded status) (
          require_review millis now job.job_id category
          >>= (λ j. return (record { job = j; validation = validation })))
  unfolding Concluded Ended Unsuccessful
  review-Concluded job status category validation s t r q =
      let (found, u) = review-Ends job category validation s t r q in (found, λ e. absurd (u e))

  pub conclude-Ends :
      (job : MigrationJob) (status : MigrationValidationStatus)
      (validation : Option ValidationResult)
      → Ends job.job_id validation_job (Concluded status) (
          conclude hex millis now o.validation job status
          >>= (λ j. return (record { job = j; validation = validation })))
  unfolding conclude validation_job Concluded succeed
  conclude-Ends job passed validation =
      Ends-wrap job.job_id validation_job (Concluded passed) (succeed millis now job.job_id)
        (λ j. record { job = j; validation = validation }) (λ j. j.status ≡ succeeded)
        (finish-Ends millis job.job_id validating succeeded now none) (λ j. refl) (λ j e q. refl)
  conclude-Ends job MigrationValidationStatus.failed validation =
      review-Concluded job MigrationValidationStatus.failed _ validation
  conclude-Ends job incomplete validation = review-Concluded job incomplete _ validation

  abbrev Stored : MigrationJobValidationStepResult → Type 0
  Stored r = Unit

  only-Stored :
      (id : ℕ) (Q : MigrationJobValidationStepResult → Type 0)
      (m : Program MigrationJobValidationStepResult)
      → Ends id validation_job Q m
      → Ends id validation_job Stored m
  only-Stored id Q m h s t r q = ((h s t r q).0, tt)

  validate_execution-Ends :
      (job : MigrationJob) (execution : Option ExecutionResult)
      → Ends job.job_id validation_job Stored
          (validate_execution hex millis now o.validation job execution)
  unfolding validate_execution
  validate_execution-Ends job none = λ s t r q. cc q
  validate_execution-Ends job (some x) =
      Ends-trying job.job_id validation_job Stored
        (o.validation (validation_request hex millis now o.validation job x))
        (validation_failure hex millis now o.validation job) _
        (λ e.
          Rescues-map (Ends job.job_id validation_job Ended) (Ends job.job_id validation_job Stored)
            (validation_failure hex millis now o.validation job e) (only-Stored job.job_id Ended)
            (validation_failure-Ends job e))
        (λ validation s u e.
          only-Stored job.job_id (Concluded validation.report_status) _
            (conclude-Ends job validation.report_status (some validation)))

  pub run_validation-Ends :
      (executed : MigrationJobExecutionStepResult)
      → Ends executed.job.job_id validation_job
          (λ r. Unit)
          (run_validation hex millis now o.validation executed)
  unfolding run_validation
  run_validation-Ends executed =
      Ends-bind executed.job.job_id validation_job Stored (query (read_job executed.job.job_id)) _
        (λ durable.
          Ends-bind executed.job.job_id validation_job Stored
            (check
              (is_clean hex millis now o.validation executed.execution
                && (same_job durable executed.job
                    && (same_job_status executed.job.status running
                        && same_stage executed.job.stage validating)))
              job_transition)
            _ (λ u. validate_execution-Ends executed.job executed.execution))
