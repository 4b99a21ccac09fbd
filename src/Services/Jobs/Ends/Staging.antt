-- ===== src/Services/Jobs/Ends/Staging.antt =====
-- MigrationJobStagingStep: where its job stands when it returns.
use schemabridge.Base.{ℕ, ◌≡◌, refl, none, some}
use schemabridge.Base.Text.{Text, codes}
use schemabridge.Base.Outcome.{
  Error, operation_unavailable, required_artifact, stale_artifact, transport_already_in_progress,
  transport_confirmed_failure, transport_outcome_uncertain, batch_transport,
}
use schemabridge.Model.Job.{MigrationJob, preparing, staging, transforming, running}
use schemabridge.Repository.Workflows.{Platform}
use schemabridge.Services.Jobs.Program.{◌>>=◌, return}
use schemabridge.Services.Jobs.Steps.{advance, fail, require_recovery}
use schemabridge.Services.Jobs.Staging.{
  MigrationJobStagingResult, prepare_job, run_staging, preparation_failure, staging_failure,
  transport_request,
}
use schemabridge.Services.Jobs.Pipeline.{Orchestrators}
use schemabridge.Services.Jobs.Ends.{Ends, Rescues, Ends-trying, Ends-after, advance-Ends}
use schemabridge.Services.Jobs.Ends.Failures.{Unsuccessful, fail-Ends, recovery-Ends, advanced-Ends}

unfoldable pub staging_job : MigrationJobStagingResult → MigrationJob
staging_job r = r.job

unfoldable pub Unfinished : MigrationJobStagingResult → Type 0
Unfinished r = Unsuccessful r.job.status

module _ (p : Platform) (hex : ℕ → Text) (millis : ℕ → ℕ) (now : ℕ) (o : Orchestrators) where
  preparation_failure-Ends :
      (job : MigrationJob) (e : Error)
      → Rescues
          (Ends job.job_id staging_job Unfinished)
          (preparation_failure p hex millis now o.transport job e)
  unfolding preparation_failure staging_job Unfinished
  preparation_failure-Ends job operation_unavailable =
      fail-Ends millis now staging_job Unfinished job.job_id preparing
        (codes "JOB_PREPARATION_FAILED") (λ j. record { job = j; transport = none }) (λ j. refl)
        (λ j u. u)
  preparation_failure-Ends job required_artifact =
      fail-Ends millis now staging_job Unfinished job.job_id preparing
        (codes "JOB_PREPARATION_FAILED") (λ j. record { job = j; transport = none }) (λ j. refl)
        (λ j u. u)
  preparation_failure-Ends job stale_artifact =
      fail-Ends millis now staging_job Unfinished job.job_id preparing
        (codes "JOB_PREPARATION_FAILED") (λ j. record { job = j; transport = none }) (λ j. refl)
        (λ j u. u)
  preparation_failure-Ends job _ = tt

  unprepared-Ends :
      (job : MigrationJob) (category : Text)
      → Ends job.job_id staging_job Unfinished (
          fail millis now job.job_id staging category
          >>= (λ j. return (record { job = j; transport = none })))
  unfolding staging_job Unfinished
  unprepared-Ends job category =
      fail-Ends millis now staging_job Unfinished job.job_id staging category
        (λ j. record { job = j; transport = none }) (λ j. refl) (λ j u. u)

  uncertain-Ends :
      (job : MigrationJob) (category : Text)
      → Ends job.job_id staging_job Unfinished (
          require_recovery millis now job.job_id staging category
          >>= (λ j. return (record { job = j; transport = none })))
  unfolding staging_job Unfinished
  uncertain-Ends job category =
      recovery-Ends millis now staging_job Unfinished job.job_id staging category
        (λ j. record { job = j; transport = none }) (λ j. refl) (λ j u. u)

  staging_failure-Ends :
      (job : MigrationJob) (e : Error)
      → Rescues
          (Ends job.job_id staging_job Unfinished)
          (staging_failure p hex millis now o.transport job e)
  unfolding staging_failure
  staging_failure-Ends job transport_confirmed_failure = unprepared-Ends job _
  staging_failure-Ends job transport_already_in_progress = uncertain-Ends job _
  staging_failure-Ends job transport_outcome_uncertain = uncertain-Ends job _
  staging_failure-Ends job batch_transport = unprepared-Ends job _
  staging_failure-Ends job operation_unavailable = unprepared-Ends job _
  staging_failure-Ends job required_artifact = unprepared-Ends job _
  staging_failure-Ends job stale_artifact = unprepared-Ends job _
  staging_failure-Ends job _ = tt

  pub run_staging-Ends :
      (job : MigrationJob)
      → Ends job.job_id staging_job Unfinished (run_staging p hex millis now o.transport job)
  unfolding run_staging staging_job Unfinished
  run_staging-Ends job =
      Ends-trying job.job_id staging_job Unfinished (prepare_job p job)
        (preparation_failure p hex millis now o.transport job) _ (preparation_failure-Ends job)
        (λ u s v e.
          Ends-after job.job_id staging_job Unfinished (advance job.job_id preparing staging) _
            (λ j. j.status ≡ running) (advance-Ends job.job_id preparing staging)
            (λ stage same.
              Ends-trying job.job_id staging_job Unfinished
                (o.transport (transport_request p hex millis now o.transport job))
                (staging_failure p hex millis now o.transport job) _ (staging_failure-Ends job)
                (λ loaded s₁ v₁ e₁. rw same (
                  advanced-Ends millis now staging_job Unfinished job.job_id staging transforming
                    (λ j. record { job = j; transport = some loaded }) (λ j. refl) (λ j x. x)))))
