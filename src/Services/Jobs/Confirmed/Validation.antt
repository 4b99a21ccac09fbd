-- ===== src/Services/Jobs/Confirmed/Validation.antt =====
-- MigrationJobValidationStep: how it comes to a job that has succeeded.
use schemabridge.Base.{ℕ, ◌≡◌, refl, sym, ap, ◌∙◌, subst, ◌&&◌, Option, some, inl, inr}
use schemabridge.Base.Text.{Text}
use schemabridge.Base.Outcome.{ok, job_transition}
use schemabridge.Model.Job.{
  MigrationJob, validating, same_job_status, same_stage, running, succeeded,
}
use schemabridge.Repository.Store.{Store}
use schemabridge.Repository.Workflows.{Platform}
use schemabridge.Services.Jobs.Program.{◌>>=◌, return, after-eq-ok, query}
use schemabridge.Services.Jobs.Steps.{succeed, read_job, same_job}
use schemabridge.Services.Jobs.Staging.{check}
use schemabridge.Services.Jobs.Execution.{ExecutionResult, MigrationJobExecutionStepResult}
use schemabridge.Services.Jobs.Validation.{
  ValidationRequest, ValidationResult, MigrationValidationStatus, passed,
  MigrationJobValidationStepResult, run_validation, validate_execution, conclude, is_clean,
  validation_failure, validation_request,
}
use schemabridge.Services.Jobs.Pipeline.{Orchestrators}
use schemabridge.Services.Jobs.Ends.{Ends, Rescues-map}
use schemabridge.Services.Jobs.Ends.Failures.{Unsuccessful}
use schemabridge.Services.Jobs.Ends.Validation.{
  validation_job, Ended, Concluded, validation_failure-Ends, conclude-Ends,
}
use schemabridge.Services.Jobs.Confirmed.{Returns, otherwise-eq-ok, wrapped, check-ok}

-- The validation is asked for the job and this execution: its workflow at the version after the
-- execution, the evidence that the execution wrote, and the two profiles of the job.
pub record AsksValidation (job : MigrationJob) (x : ExecutionResult) (q : ValidationRequest)
    : Type 0 where
  pub workflow : q.workflow_id ≡ job.workflow_id
  pub version : q.expected_version ≡ x.workflow.version
  pub evidence : q.execution_evidence_artifact_version ≡ x.artifact.artifact_version
  pub plan : q.approved_mapping_artifact_version ≡ job.approved_mapping_artifact_version
  pub source : q.source_profile_id ≡ job.source_profile_id
  pub target : q.target_profile_id ≡ job.target_profile_id
  pub timeout : q.timeout_seconds ≡ job.timeout_seconds

module _ (o : Orchestrators) (millis : ℕ → ℕ) (now : ℕ) where
  -- From `s` to `t`, the execution of the job has been validated with a PASSED report, and the job
  -- has been completed as SUCCEEDED.
  pub record Validated (job done : MigrationJob) (x : ExecutionResult) (s t : Store) : Type 0 where
    pub request : ValidationRequest
    pub validation : ValidationResult
    pub s₁ : Store
    pub asks : AsksValidation job x request
    pub validated : o.validation request s ≡ (ok validation, s₁)
    pub report_passed : validation.report_status ≡ passed
    pub finished : succeed millis now job.job_id s₁ ≡ (ok done, t)

  module _ (p : Platform) (hex : ℕ → Text) where
    finishing :
        (job : MigrationJob) (status : MigrationValidationStatus) (v : Option ValidationResult)
        (s t : Store) (r : MigrationJobValidationStepResult)
        → status ≡ passed
        → (conclude hex millis now o.validation job status
              >>= (λ j. return (record { job = j; validation = v })))
            s
          ≡ (ok r, t)
        → succeed millis now job.job_id s ≡ (ok r.job, t)
    unfolding conclude
    finishing job status v s t r is h =
        let h₁ =
          subst
            (λ x.
              (conclude hex millis now o.validation job x
                  >>= (λ j. return (record { job = j; validation = v })))
                s
              ≡ (ok r, t))
            is h in
        let (j, e, same) =
          wrapped (succeed millis now job.job_id) (λ j. record { job = j; validation = v }) s t r
            h₁ in
        subst
          (λ (y : MigrationJobValidationStepResult).
            succeed millis now job.job_id s ≡ (ok y.job, t))
          same e

    validate_execution-Validated :
        (job : MigrationJob) (x : ExecutionResult) (s t : Store)
        (r : MigrationJobValidationStepResult)
        → validate_execution hex millis now o.validation job (some x) s ≡ (ok r, t)
        → r.job.status ≡ succeeded
        → Validated job r.job x s t
    unfolding validate_execution Ended Unsuccessful Concluded
    validate_execution-Validated job x s t r h won =
        elim (otherwise-eq-ok ((Ended p hex millis now o))
          (o.validation (validation_request hex millis now o.validation job x) s)
          (validation_failure hex millis now o.validation job) _ t r
          (λ e.
            Rescues-map (Ends job.job_id validation_job (Ended p hex millis now o))
              (Returns (Ended p hex millis now o))
              (validation_failure hex millis now o.validation job e)
              (λ m k s₁ t₁ r₁ q. (k s₁ t₁ r₁ q).1)
              ((validation_failure-Ends p hex millis now o) job e))
          h) [
            | inr ended ↦ absurd (ended won)
            | inl (v, s₁, validated, h₁) ↦
                let is : v.report_status ≡ passed =
                  ((conclude-Ends p hex millis now o) job v.report_status (some v) s₁ t r h₁).1
                    won in
                record {
                  request = validation_request hex millis now o.validation job x;
                  validation = v;
                  s₁ = s₁;
                  asks = record {
                    workflow = refl;
                    version = refl;
                    evidence = refl;
                    plan = refl;
                    source = refl;
                    target = refl;
                    timeout = refl;
                  };
                  validated = validated;
                  report_passed = is;
                  finished = finishing job v.report_status (some v) s₁ t r is h₁;
                }
          ]

    -- A validation result with a succeeded job rests on the execution that is given.
    pub run_validation-Validated :
        (executed : MigrationJobExecutionStepResult) (x : ExecutionResult) (s t : Store)
        (r : MigrationJobValidationStepResult)
        → run_validation hex millis now o.validation executed s ≡ (ok r, t)
        → executed.execution ≡ some x
        → r.job.status ≡ succeeded
        → Validated executed.job r.job x s t
    unfolding run_validation
    run_validation-Validated executed x s t r h is won =
        let (durable, u, read, h₁) = after-eq-ok (query (read_job executed.job.job_id) s) _ h in
        let test =
          is_clean hex millis now o.validation executed.execution
          && (same_job durable executed.job
              && (same_job_status executed.job.status running
                  && same_stage executed.job.stage validating)) in
        let (_, v, q, h₂) = after-eq-ok (check test job_transition u) _ h₁ in
        let same : v ≡ s = sym (ap (λ y. y.1) read ∙ (check-ok test job_transition u v q).1) in
        validate_execution-Validated executed.job x s t r
          (subst
            (λ y.
              validate_execution hex millis now o.validation executed.job (some x) y ≡ (ok r, t))
            same
            (subst
              (λ y. validate_execution hex millis now o.validation executed.job y v ≡ (ok r, t)) is
              h₂))
          won
