-- ===== src/Services/Jobs/Ends/Execution.antt =====
-- MigrationJobExecutionStep: where its job stands when it returns, and where its result is from.
use schemabridge.Base.{ℕ, ◌≡◌, refl, subst, ◌&&◌, Option, none, some, is_some}
use schemabridge.Base.Text.{Text}
use schemabridge.Base.Outcome.{
  Error, job_transition, operation_unavailable, required_artifact, stale_artifact,
  artifact_validation, mapping_approval_required, preview_compilation, execution_confirmed_failure,
  execution_already_in_progress, execution_outcome_uncertain, staging_cleanup,
  target_profile_not_write_capable, target_profile_unavailable, unsafe_generated_statement,
  unsupported_execution_connector,
}
use schemabridge.Model.Job.{
  MigrationJob, JobStage, transforming, executing, cleaning_up, validating, same_job_status,
  same_stage, running,
}
use schemabridge.Repository.Workflows.{Platform}
use schemabridge.Services.Jobs.Program.{◌>>=◌, return, query}
use schemabridge.Services.Jobs.Steps.{advance, fail, require_recovery, read_job, same_job}
use schemabridge.Services.Jobs.Staging.{TransportResult, MigrationJobStagingResult, check}
use schemabridge.Services.Jobs.Execution.{
  PreviewResult, ExecutionResult, MigrationJobExecutionStepResult, run_execution, after_checks,
  confirm_cleanup, preview_failure, execution_failure, preview_request, execution_request,
}
use schemabridge.Services.Jobs.Pipeline.{Orchestrators}
use schemabridge.Services.Jobs.Ends.{
  Ends, Rescues, Ends-bind, Ends-trying, Ends-after, advance-Ends,
}
use schemabridge.Services.Jobs.Ends.Failures.{Unsuccessful, fail-Ends, recovery-Ends, advanced-Ends}

unfoldable pub execution_job : MigrationJobExecutionStepResult → MigrationJob
execution_job r = r.job

-- The job is not SUCCEEDED.
unfoldable pub Ended : MigrationJobExecutionStepResult → Type 0
Ended r = Unsuccessful r.job.status

module _ (p : Platform) (hex : ℕ → Text) (millis : ℕ → ℕ) (now : ℕ) (o : Orchestrators) where
  step_fail-Ends :
      (job : MigrationJob) (stage : JobStage) (category : Text) (preview : Option PreviewResult)
      → Ends job.job_id execution_job Ended (
          fail millis now job.job_id stage category
          >>= (λ j. return (record { job = j; preview = preview; execution = none })))
  unfolding execution_job Ended
  step_fail-Ends job stage category preview =
      fail-Ends millis now execution_job Ended job.job_id stage category
        (λ j. record { job = j; preview = preview; execution = none }) (λ j. refl) (λ j u. u)

  step_recovery-Ends :
      (id : ℕ) (stage : JobStage) (category : Text) (preview : Option PreviewResult)
      (execution : Option ExecutionResult)
      → Ends id execution_job Ended (
          require_recovery millis now id stage category
          >>= (λ j. return (record { job = j; preview = preview; execution = execution })))
  unfolding execution_job Ended
  step_recovery-Ends id stage category preview execution =
      recovery-Ends millis now execution_job Ended id stage category
        (λ j. record { job = j; preview = preview; execution = execution }) (λ j. refl) (λ j u. u)

  preview_failure-Ends :
      (job : MigrationJob) (e : Error)
      → Rescues
          (Ends job.job_id execution_job Ended)
          (preview_failure hex millis now o.preview o.execution job e)
  unfolding preview_failure
  preview_failure-Ends job artifact_validation = step_fail-Ends job transforming _ none
  preview_failure-Ends job mapping_approval_required = step_fail-Ends job transforming _ none
  preview_failure-Ends job operation_unavailable = step_fail-Ends job transforming _ none
  preview_failure-Ends job preview_compilation = step_fail-Ends job transforming _ none
  preview_failure-Ends job required_artifact = step_fail-Ends job transforming _ none
  preview_failure-Ends job stale_artifact = step_fail-Ends job transforming _ none
  preview_failure-Ends job _ = tt

  cleanup_failed-Ends :
      (job : MigrationJob) (preview : PreviewResult) (category : Text)
      → Ends job.job_id execution_job Ended (
          advance job.job_id executing cleaning_up >>= (λ cleanup.
            require_recovery millis now cleanup.job_id cleaning_up category
            >>= (λ j. return (record { job = j; preview = some preview; execution = none }))))
  cleanup_failed-Ends job preview category =
      Ends-after job.job_id execution_job Ended (advance job.job_id executing cleaning_up) _
        (λ j. j.status ≡ running) (advance-Ends job.job_id executing cleaning_up)
        (λ cleanup same.
          rw same (step_recovery-Ends job.job_id cleaning_up category (some preview) none))

  execution_failure-Ends :
      (job : MigrationJob) (preview : PreviewResult) (e : Error)
      → Rescues
          (Ends job.job_id execution_job Ended)
          (execution_failure hex millis now o.preview o.execution job preview e)
  unfolding execution_failure
  execution_failure-Ends job preview execution_confirmed_failure =
      step_fail-Ends job executing _ (some preview)
  execution_failure-Ends job preview execution_already_in_progress =
      step_recovery-Ends job.job_id executing _ (some preview) none
  execution_failure-Ends job preview execution_outcome_uncertain =
      step_recovery-Ends job.job_id executing _ (some preview) none
  execution_failure-Ends job preview staging_cleanup = cleanup_failed-Ends job preview _
  execution_failure-Ends job preview operation_unavailable =
      step_fail-Ends job executing _ (some preview)
  execution_failure-Ends job preview required_artifact =
      step_fail-Ends job executing _ (some preview)
  execution_failure-Ends job preview stale_artifact = step_fail-Ends job executing _ (some preview)
  execution_failure-Ends job preview target_profile_not_write_capable =
      step_fail-Ends job executing _ (some preview)
  execution_failure-Ends job preview target_profile_unavailable =
      step_fail-Ends job executing _ (some preview)
  execution_failure-Ends job preview unsafe_generated_statement =
      step_fail-Ends job executing _ (some preview)
  execution_failure-Ends job preview unsupported_execution_connector =
      step_fail-Ends job executing _ (some preview)
  execution_failure-Ends job preview _ = tt

  confirm_cleanup-Ends :
      (preview : PreviewResult) (x : ExecutionResult) (evidence : Option ℕ) (job : MigrationJob)
      → Ends job.job_id execution_job Ended
          (confirm_cleanup hex millis now o.preview o.execution preview x evidence job)
  unfolding confirm_cleanup execution_job Ended
  confirm_cleanup-Ends preview x none job =
      step_recovery-Ends job.job_id cleaning_up _ (some preview) (some x)
  confirm_cleanup-Ends preview x (some evidence) job =
      advanced-Ends millis now execution_job Ended job.job_id cleaning_up validating
        (λ j. record { job = j; preview = some preview; execution = some x }) (λ j. refl) (λ j u. u)

  after_checks-Ends :
      (job : MigrationJob) (transport : Option TransportResult)
      → Ends job.job_id execution_job Ended
          (after_checks hex millis now o.preview o.execution job transport)
  unfolding after_checks
  after_checks-Ends job none = λ s t r q. cc q
  after_checks-Ends job (some transport) =
      Ends-trying job.job_id execution_job Ended
        (o.preview (preview_request hex millis now o.preview o.execution job transport))
        (preview_failure hex millis now o.preview o.execution job) _ (preview_failure-Ends job)
        (λ preview s v e.
          Ends-after job.job_id execution_job Ended (advance job.job_id transforming executing) _
            (λ j. j.status ≡ running) (advance-Ends job.job_id transforming executing)
            (λ stage same.
              Ends-trying job.job_id execution_job Ended
                (o.execution (execution_request hex millis now o.preview o.execution job preview))
                (execution_failure hex millis now o.preview o.execution job preview) _
                (execution_failure-Ends job preview)
                (λ x s₁ v₁ e₁. rw same (
                  Ends-after job.job_id execution_job Ended
                    (advance job.job_id executing cleaning_up) _ (λ j. j.status ≡ running)
                    (advance-Ends job.job_id executing cleaning_up)
                    (λ cleanup is.
                      subst
                        (λ i. Ends i execution_job Ended (
                          confirm_cleanup hex millis now o.preview o.execution preview x
                            x.cleanup_evidence cleanup))
                        is (confirm_cleanup-Ends preview x x.cleanup_evidence cleanup))))))

  pub run_execution-Ends :
      (staged : MigrationJobStagingResult)
      → Ends staged.job.job_id execution_job Ended
          (run_execution hex millis now o.preview o.execution staged)
  unfolding run_execution
  run_execution-Ends staged =
      Ends-bind staged.job.job_id execution_job Ended (query (read_job staged.job.job_id)) _
        (λ durable.
          Ends-bind staged.job.job_id execution_job Ended
            (check
              (is_some staged.transport
                && (same_job durable staged.job
                    && (same_job_status staged.job.status running
                        && same_stage staged.job.stage transforming)))
              job_transition)
            _ (λ u. after_checks-Ends staged.job staged.transport))
