-- ===== src/Services/Jobs/Confirmed/Execution.antt =====
-- MigrationJobExecutionStep: how it comes to a result whose staging table is cleaned up.
use schemabridge.Base.{
  ℕ, ◌≡◌, refl, sym, ap, ◌∙◌, subst, true, false, ◌&&◌, Option, none, some, is_some, inl, inr,
}
use schemabridge.Base.Text.{Text, codes}
use schemabridge.Base.Outcome.{ok, job_transition}
use schemabridge.Base.Table.{find-key}
use schemabridge.Model.Job.{
  MigrationJob, transforming, executing, cleaning_up, validating, same_job_status, same_stage,
  running,
}
use schemabridge.Repository.Store.{Store, job_key, find_job}
use schemabridge.Services.Jobs.Program.{after-eq-ok, query}
use schemabridge.Services.Jobs.Steps.{advance, require_recovery, read_job, same_job}
use schemabridge.Services.Jobs.Staging.{TransportResult, MigrationJobStagingResult, check}
use schemabridge.Services.Jobs.Execution.{
  PreviewRequest, PreviewResult, ExecutionRequest, ExecutionResult, MigrationJobExecutionStepResult,
  run_execution, after_checks, confirm_cleanup, preview_request, execution_request,
}
use schemabridge.Services.Jobs.Pipeline.{Orchestrators}
use schemabridge.Services.Jobs.Ends.{advance-Ends}
use schemabridge.Services.Jobs.Confirmed.{otherwise-eq-ok, wrapped, contradiction, check-ok}
use schemabridge.Services.Jobs.Confirmed.Handlers.{
  has_evidence, WithoutEvidence, preview_failure-Returns, execution_failure-Returns,
}

-- The preview is asked for the job, at the version of the workflow after the load.
pub record AsksPreview (job : MigrationJob) (loaded : TransportResult) (q : PreviewRequest)
    : Type 0 where
  pub workflow : q.workflow_id ≡ job.workflow_id
  pub version : q.expected_version ≡ loaded.workflow.version
  pub plan : q.approved_mapping_artifact_version ≡ job.approved_mapping_artifact_version

-- The execution is asked for the job and the preview: the statement that was compiled, on the
-- target of the job.
pub record AsksExecution (job : MigrationJob) (preview : PreviewResult) (q : ExecutionRequest)
    : Type 0 where
  pub workflow : q.workflow_id ≡ job.workflow_id
  pub version : q.expected_version ≡ preview.workflow.version
  pub plan : q.approved_mapping_artifact_version ≡ job.approved_mapping_artifact_version
  pub statement : q.transformation_preview_artifact_version ≡ preview.artifact.artifact_version
  pub target : q.target_profile_id ≡ job.target_profile_id
  pub timeout : q.timeout_seconds ≡ job.timeout_seconds

module _ (o : Orchestrators) where
  -- From `s` to `t`, the job has been compiled, moved to EXECUTING, executed, moved to CLEANING_UP
  -- and, on the evidence of the cleanup, to VALIDATING.
  pub record Executed (job executed : MigrationJob) (loaded : TransportResult) (x : ExecutionResult)
      (s t : Store) : Type 0 where
    pub preview : PreviewResult
    pub stage : MigrationJob
    pub cleanup : MigrationJob
    pub compile : PreviewRequest
    pub request : ExecutionRequest
    pub evidence : ℕ
    pub s₁ : Store
    pub s₂ : Store
    pub s₃ : Store
    pub s₄ : Store
    pub asks_preview : AsksPreview job loaded compile
    pub compiled : o.preview compile s ≡ (ok preview, s₁)
    pub started : advance job.job_id transforming executing s₁ ≡ (ok stage, s₂)
    pub asks_execution : AsksExecution job preview request
    pub executes : o.execution request s₂ ≡ (ok x, s₃)
    pub moved : advance job.job_id executing cleaning_up s₃ ≡ (ok cleanup, s₄)
    pub cleaned : x.cleanup_evidence ≡ some evidence
    pub ready : advance job.job_id cleaning_up validating s₄ ≡ (ok executed, t)

  module _ (hex : ℕ → Text) (millis : ℕ → ℕ) (now : ℕ) where
    -- The end of the step, on the job that was moved to CLEANING_UP.
    confirm_cleanup_evidence :
        (id : ℕ) (preview : PreviewResult) (x : ExecutionResult) (c : Option ℕ)
        (cleanup : MigrationJob) (s t : Store) (r : MigrationJobExecutionStepResult)
        → cleanup.job_id ≡ id
        → x.cleanup_evidence ≡ c
        → confirm_cleanup hex millis now o.preview o.execution preview x c cleanup s ≡ (ok r, t)
        → has_evidence o r.execution ≡ true
        → (evidence : ℕ) × (c ≡ some evidence)
          × (r.execution ≡ some x)
          × (advance id cleaning_up validating s ≡ (ok r.job, t))
    unfolding confirm_cleanup
    confirm_cleanup_evidence id preview x none cleanup s t r same c q clean =
        let (j, _, e) =
          wrapped
            (require_recovery millis now cleanup.job_id cleaning_up
              (codes "STAGING_CLEANUP_NOT_CONFIRMED"))
            (λ j. record { job = j; preview = some preview; execution = some x }) s t r q in
        let lost : has_evidence o r.execution ≡ false =
          subst (λ (y : MigrationJobExecutionStepResult). has_evidence o y.execution ≡ false) e
            (ap is_some c) in
        contradiction (has_evidence o r.execution) clean lost
    confirm_cleanup_evidence id preview x (some n) cleanup s t r same c q clean =
        let (j, m, e) =
          wrapped (advance cleanup.job_id cleaning_up validating)
            (λ j. record { job = j; preview = some preview; execution = some x }) s t r q in
        let m₁ : advance id cleaning_up validating s ≡ (ok j, t) =
          subst (λ i. advance i cleaning_up validating s ≡ (ok j, t)) same m in
        (
          n,
          refl,
          sym (ap (λ (y : MigrationJobExecutionStepResult). y.execution) e),
          subst
              (λ (y : MigrationJobExecutionStepResult).
                advance id cleaning_up validating s ≡ (ok y.job, t))
              e m₁,
        )

    moved_id : (id : ℕ) (s t : Store) (j : MigrationJob) → (find_job id t ≡ some j) → j.job_id ≡ id
    moved_id id s t j found = find-key job_key id t.jobs j found

    after_checks-Executed :
        (job : MigrationJob) (loaded : TransportResult) (s t : Store)
        (r : MigrationJobExecutionStepResult)
        → after_checks hex millis now o.preview o.execution job (some loaded) s ≡ (ok r, t)
        → has_evidence o r.execution ≡ true
        → (x : ExecutionResult) × (r.execution ≡ some x) × Executed job r.job loaded x s t
    unfolding after_checks WithoutEvidence
    after_checks-Executed job loaded s t r h clean =
        elim (otherwise-eq-ok (WithoutEvidence o hex millis now)
          (o.preview (preview_request hex millis now o.preview o.execution job loaded) s) _ _ t r
          ((preview_failure-Returns o hex millis now) job) h) [
            | inr lost ↦ contradiction (has_evidence o r.execution) clean lost
            | inl (preview, s₁, compiled, h₁) ↦
                let (stage, s₂, started, h₂) =
                  after-eq-ok (advance job.job_id transforming executing s₁) _ h₁ in
                let stage_id : stage.job_id ≡ job.job_id =
                  moved_id job.job_id s₁ s₂ stage
                    (advance-Ends job.job_id transforming executing s₁ s₂ stage started).0 in
                elim (otherwise-eq-ok (WithoutEvidence o hex millis now)
                  (o.execution (execution_request hex millis now o.preview o.execution job preview)
                    s₂)
                  _ _ t r ((execution_failure-Returns o hex millis now) job preview) h₂) [
                    | inr lost ↦ contradiction (has_evidence o r.execution) clean lost
                    | inl (x, s₃, executes, h₃) ↦
                        let (cleanup, s₄, moved, h₄) =
                          after-eq-ok (advance stage.job_id executing cleaning_up s₃) _ h₃ in
                        let moved₁ : advance job.job_id executing cleaning_up s₃
                            ≡ (ok cleanup, s₄) =
                          subst (λ i. advance i executing cleaning_up s₃ ≡ (ok cleanup, s₄))
                            stage_id moved in
                        let cleanup_id : cleanup.job_id ≡ job.job_id =
                          moved_id job.job_id s₃ s₄ cleanup
                            (advance-Ends job.job_id executing cleaning_up s₃ s₄ cleanup
                              moved₁).0 in
                        let (evidence, c, is, ready) =
                          confirm_cleanup_evidence job.job_id preview x x.cleanup_evidence cleanup
                            s₄ t r cleanup_id refl h₄ clean in
                        (
                          x,
                          is,
                          record {
                            preview = preview;
                            stage = stage;
                            cleanup = cleanup;
                            compile =
                                preview_request hex millis now o.preview o.execution job loaded;
                            request =
                                execution_request hex millis now o.preview o.execution job preview;
                            evidence = evidence;
                            s₁ = s₁;
                            s₂ = s₂;
                            s₃ = s₃;
                            s₄ = s₄;
                            asks_preview = record { workflow = refl; version = refl; plan = refl };
                            compiled = compiled;
                            started = started;
                            asks_execution = record {
                              workflow = refl;
                              version = refl;
                              plan = refl;
                              statement = refl;
                              target = refl;
                              timeout = refl;
                            };
                            executes = executes;
                            moved = moved₁;
                            cleaned = c;
                            ready = ready;
                          },
                        )
                  ]
          ]

    with_transport :
        (job : MigrationJob) (m : Option TransportResult) (s t : Store)
        (r : MigrationJobExecutionStepResult)
        → after_checks hex millis now o.preview o.execution job m s ≡ (ok r, t)
        → has_evidence o r.execution ≡ true
        → (loaded : TransportResult) × (x : ExecutionResult) × (m ≡ some loaded)
          × (r.execution ≡ some x)
          × Executed job r.job loaded x s t
    unfolding after_checks
    with_transport job none s t r h clean = cc h
    with_transport job (some loaded) s t r h clean =
        let (x, e, done) = after_checks-Executed job loaded s t r h clean in
        (loaded, x, refl, e, done)

    -- An execution result with evidence of its cleanup comes from the staged job that is given.
    pub run_execution-Executed :
        (staged : MigrationJobStagingResult) (s t : Store) (r : MigrationJobExecutionStepResult)
        → run_execution hex millis now o.preview o.execution staged s ≡ (ok r, t)
        → has_evidence o r.execution ≡ true
        → (loaded : TransportResult) × (x : ExecutionResult) × (staged.transport ≡ some loaded)
          × (r.execution ≡ some x)
          × Executed staged.job r.job loaded x s t
    unfolding run_execution after_checks
    run_execution-Executed staged s t r h clean =
        let (durable, u, read, h₁) = after-eq-ok (query (read_job staged.job.job_id) s) _ h in
        let (_, v, q, h₂) =
          after-eq-ok
            (check
              (is_some staged.transport
                && (same_job durable staged.job
                    && (same_job_status staged.job.status running
                        && same_stage staged.job.stage transforming)))
              job_transition u)
            _ h₁ in
        let same : v ≡ s = sym (
          ap (λ y. y.1) read
          ∙ (check-ok
              (is_some staged.transport
                && (same_job durable staged.job
                    && (same_job_status staged.job.status running
                        && same_stage staged.job.stage transforming)))
              job_transition u v q).1) in
        with_transport staged.job staged.transport s t r
          (subst
            (λ y.
              after_checks hex millis now o.preview o.execution staged.job staged.transport y
              ≡ (ok r, t))
            same h₂)
          clean
