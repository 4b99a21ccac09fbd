-- ===== src/Services/Jobs/Confirmed/Handlers.antt =====
-- MigrationJobExecutionStep: its handlers return results without evidence of a cleanup.
use schemabridge.Base.{ℕ, ◌≡◌, refl, subst, Bool, false, Option, none, some, is_some}
use schemabridge.Base.Text.{Text, codes}
use schemabridge.Base.Outcome.{
  Error, operation_unavailable, required_artifact, stale_artifact, artifact_validation,
  mapping_approval_required, preview_compilation, execution_confirmed_failure,
  execution_already_in_progress, execution_outcome_uncertain, staging_cleanup,
  target_profile_not_write_capable, target_profile_unavailable, unsafe_generated_statement,
  unsupported_execution_connector,
}
use schemabridge.Model.Job.{MigrationJob, executing, cleaning_up}
use schemabridge.Services.Jobs.Program.{Program, ◌>>=◌, return, after-eq-ok}
use schemabridge.Services.Jobs.Steps.{advance, require_recovery}
use schemabridge.Services.Jobs.Execution.{
  PreviewResult, ExecutionResult, MigrationJobExecutionStepResult, preview_failure,
  execution_failure,
}
use schemabridge.Services.Jobs.Pipeline.{Orchestrators}
use schemabridge.Services.Jobs.Ends.{Rescues}
use schemabridge.Services.Jobs.Confirmed.{Returns, wrapped}

module _ (o : Orchestrators) where
  abbrev pub has_evidence : Option ExecutionResult → Bool
  has_evidence none = false
  has_evidence (some x) = is_some x.cleanup_evidence

  module _ (hex : ℕ → Text) (millis : ℕ → ℕ) (now : ℕ) where
    -- The staging table is not known to be cleaned up.
    unfoldable pub WithoutEvidence : MigrationJobExecutionStepResult → Type 0
    WithoutEvidence r = has_evidence r.execution ≡ false

    failed-Returns :
        (m : Program MigrationJob) (preview : Option PreviewResult)
        → Returns WithoutEvidence
            (m >>= (λ j. return (record { job = j; preview = preview; execution = none })))
    unfolding WithoutEvidence
    failed-Returns m preview s t r q =
        let (j, _, e) =
          wrapped m (λ j. record { job = j; preview = preview; execution = none }) s t r q in
        subst (λ (x : MigrationJobExecutionStepResult). has_evidence x.execution ≡ false) e refl

    pub preview_failure-Returns :
        (job : MigrationJob) (e : Error)
        → Rescues
            (Returns WithoutEvidence)
            (preview_failure hex millis now o.preview o.execution job e)
    unfolding preview_failure
    preview_failure-Returns job artifact_validation = failed-Returns _ _
    preview_failure-Returns job mapping_approval_required = failed-Returns _ _
    preview_failure-Returns job operation_unavailable = failed-Returns _ _
    preview_failure-Returns job preview_compilation = failed-Returns _ _
    preview_failure-Returns job required_artifact = failed-Returns _ _
    preview_failure-Returns job stale_artifact = failed-Returns _ _
    preview_failure-Returns job _ = tt

    pub execution_failure-Returns :
        (job : MigrationJob) (preview : PreviewResult) (e : Error)
        → Rescues
            (Returns WithoutEvidence)
            (execution_failure hex millis now o.preview o.execution job preview e)
    unfolding execution_failure
    execution_failure-Returns job preview execution_confirmed_failure = failed-Returns _ _
    execution_failure-Returns job preview execution_already_in_progress = failed-Returns _ _
    execution_failure-Returns job preview execution_outcome_uncertain = failed-Returns _ _
    execution_failure-Returns job preview staging_cleanup = λ s t r q.
        let (c, u, _, n) = after-eq-ok (advance job.job_id executing cleaning_up s) _ q in
        failed-Returns
          (require_recovery millis now c.job_id cleaning_up (codes "STAGING_CLEANUP_FAILED"))
          (some preview) u t r n
    execution_failure-Returns job preview operation_unavailable = failed-Returns _ _
    execution_failure-Returns job preview required_artifact = failed-Returns _ _
    execution_failure-Returns job preview stale_artifact = failed-Returns _ _
    execution_failure-Returns job preview target_profile_not_write_capable = failed-Returns _ _
    execution_failure-Returns job preview target_profile_unavailable = failed-Returns _ _
    execution_failure-Returns job preview unsafe_generated_statement = failed-Returns _ _
    execution_failure-Returns job preview unsupported_execution_connector = failed-Returns _ _
    execution_failure-Returns job preview _ = tt
