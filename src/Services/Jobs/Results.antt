-- ===== src/Services/Jobs/Results.antt =====
-- services/jobs/pipeline.py: where a job stands when its processing returns.
use schemabridge.Base.{
  ℕ, ◌≡◌, refl, sym, ◌∙◌, ap, subst, true, ◌&&◌, Option, none, some, Bool-cases, inl, inr, is_some,
  and_left, arith,
}
use schemabridge.Base.Text.{Text}
use schemabridge.Base.Outcome.{ok, job_transition, ok-injective}
use schemabridge.Base.Table.{find-key}
use schemabridge.Model.Job.{
  MigrationJob, validating, is_terminal, same_job_status, same_stage, running, succeeded,
}
use schemabridge.Repository.Store.{Store, job_key, find_job}
use schemabridge.Repository.Workflows.{Platform}
use schemabridge.Services.Jobs.Program.{after-eq-ok, query, return}
use schemabridge.Services.Jobs.Steps.{read_job, same_job}
use schemabridge.Services.Jobs.Staging.{
  TransportResult, MigrationJobStagingResult, check, run_staging,
}
use schemabridge.Services.Jobs.Execution.{
  ExecutionResult, MigrationJobExecutionStepResult, run_execution,
}
use schemabridge.Services.Jobs.Validation.{
  MigrationJobValidationStepResult, run_validation, is_clean,
}
use schemabridge.Services.Jobs.Pipeline.{
  Orchestrators, process, after_staging, after_execution, finish_validation,
}
use schemabridge.Services.Jobs.Ends.Failures.{Unsuccessful}
use schemabridge.Services.Jobs.Ends.Staging.{staging_job, Unfinished, run_staging-Ends}
use schemabridge.Services.Jobs.Ends.Execution.{execution_job, Ended, run_execution-Ends}
use schemabridge.Services.Jobs.Ends.Validation.{validation_job, run_validation-Ends}
use schemabridge.Services.Jobs.Confirmed.{check-ok}
use schemabridge.Services.Jobs.Confirmed.Staging.{Staged, run_staging-Staged}
use schemabridge.Services.Jobs.Confirmed.Handlers.{has_evidence}
use schemabridge.Services.Jobs.Confirmed.Execution.{Executed, run_execution-Executed}
use schemabridge.Services.Jobs.Confirmed.Validation.{Validated, run_validation-Validated}

value_or : {A : Type 0} → A → Option A → A
value_or d none = d
value_or d (some x) = x

some-injective : {A : Type 0} {a b : A} → some a ≡ some b → a ≡ b
unfolding value_or
some-injective {a} h = ap (value_or a) h

module _ (p : Platform) (hex : ℕ → Text) (millis : ℕ → ℕ) (now : ℕ) (o : Orchestrators) where
  run_validation_clean :
      (executed : MigrationJobExecutionStepResult) (s t : Store)
      (r : MigrationJobValidationStepResult)
      → run_validation hex millis now o.validation executed s ≡ (ok r, t)
      → is_clean hex millis now o.validation executed.execution ≡ true
  unfolding run_validation
  run_validation_clean executed s t r h =
      let (durable, u, _, h₁) = after-eq-ok (query (read_job executed.job.job_id) s) _ h in
      let (_, v, q, _) =
        after-eq-ok
          (check
            (is_clean hex millis now o.validation executed.execution
              && (same_job durable executed.job
                  && (same_job_status executed.job.status running
                      && same_stage executed.job.stage validating)))
            job_transition u)
          _ h₁ in
      and_left (is_clean hex millis now o.validation executed.execution) _
        (check-ok _ job_transition u v q).0

  -- The run of a job from `s` to `t` that ends with the SUCCEEDED job `done`: its load, the execution
  -- of what was loaded, and the validation of this execution. Between the steps the repository holds
  -- the job as `staged` and as `executed`.
  pub record Confirmed (job done : MigrationJob) (s t : Store) : Type 0 where
    pub loaded : TransportResult
    pub execution : ExecutionResult
    pub staged : MigrationJob
    pub executed : MigrationJob
    pub s₁ : Store
    pub s₂ : Store
    pub loading : Staged p o job staged loaded s s₁
    pub transforming : Executed o staged executed loaded execution s₁ s₂
    pub checking : Validated o millis now executed done execution s₂ t
    pub same_staged : staged.job_id ≡ job.job_id
    pub same_executed : executed.job_id ≡ job.job_id

  -- How the last two steps and the last step come to a SUCCEEDED job.
  FromExecution : MigrationJobExecutionStepResult → MigrationJob → Store → Store → Type 0
  FromExecution executed j u t =
      (x : ExecutionResult) × (executed.execution ≡ some x)
      × (has_evidence o executed.execution ≡ true)
      × Validated o millis now executed.job j x u t

  FromStaging : MigrationJobStagingResult → MigrationJob → Store → Store → Type 0
  FromStaging staged j u t =
      (loaded : TransportResult) × (x : ExecutionResult) × (executed : MigrationJob) × (v : Store)
      × (staged.transport ≡ some loaded)
      × (executed.job_id ≡ staged.job.job_id)
      × Executed o staged.job executed loaded x u v
      × Validated o millis now executed j x v t

  -- How a step ends the processing.
  Done : ℕ → MigrationJob → Store → Type 0 → Type 0
  Done id j t C =
      (find_job id t ≡ some j) × (is_terminal j.status ≡ true) × (j.status ≡ succeeded → C)

  result_of :
      (e : Option ExecutionResult)
      → is_clean hex millis now o.validation e ≡ true
      → (x : ExecutionResult) × (e ≡ some x)
  result_of none h = absurd (ground arith)
  result_of (some x) h = (x, refl)

  evidence_of :
      (e : Option ExecutionResult)
      → is_clean hex millis now o.validation e ≡ true
      → has_evidence o e ≡ true
  evidence_of none h = absurd (ground arith)
  evidence_of (some x) h = h

  -- A job that is terminal already is returned as it is, and has not succeeded.
  stopped :
      (C : Type 0) (job j : MigrationJob) (u t : Store)
      → find_job job.job_id u ≡ some job
      → is_terminal job.status ≡ true
      → Unsuccessful job.status
      → return job u ≡ (ok j, t)
      → Done job.job_id j t C
  unfolding Done Unsuccessful
  stopped C job j u t found q e n =
      let stores : u ≡ t = ap (λ x. x.1) n in
      let is : job ≡ j = ok-injective (ap (λ x. x.0) n) in
      (
        subst (λ x. find_job job.job_id x ≡ some j) stores (found ∙ ap some is),
        subst (λ (x : MigrationJob). is_terminal x.status ≡ true) is q,
        λ won. absurd (e (ap (λ (x : MigrationJob). x.status) is ∙ won)),
      )

  after_execution-Done :
      (executed : MigrationJobExecutionStepResult) (u t : Store) (j : MigrationJob)
      → find_job executed.job.job_id u ≡ some executed.job
      → Unsuccessful executed.job.status
      → after_execution p hex millis now o executed u ≡ (ok j, t)
      → Done executed.job.job_id j t (FromExecution executed j u t)
  unfolding after_execution finish_validation Done FromExecution validation_job
  after_execution-Done executed u t j found e h =
      elim (Bool-cases (is_terminal executed.job.status)) [
        | inl q ↦ stopped (FromExecution executed j u t) executed.job j u t found q e (rw q at h)
        | inr q ↦
            let n = rw q at h in
            let (r, v, ran, h₁) =
              after-eq-ok (run_validation hex millis now o.validation executed u) _ n in
            let (stored, _) = (run_validation-Ends p hex millis now o) executed u v r ran in
            let clean = run_validation_clean executed u v r ran in
            let (x, known) = result_of executed.execution clean in
            let (_, w, c, h₂) =
              after-eq-ok (check (is_terminal r.job.status) job_transition v) _ h₁ in
            let (terminal, same) = check-ok _ job_transition v w c in
            let stores : v ≡ t = same ∙ ap (λ x. x.1) h₂ in
            let is : r.job ≡ j = ok-injective (ap (λ x. x.0) h₂) in
            (
              subst (λ x. find_job executed.job.job_id x ≡ some j) stores (stored ∙ ap some is),
              subst (λ (x : MigrationJob). is_terminal x.status ≡ true) is terminal,
              λ won.
                  let y =
                    (run_validation-Validated o millis now) p hex executed x u v r ran known
                      (ap (λ (x : MigrationJob). x.status) is ∙ won) in
                  (
                    x,
                    known,
                    evidence_of executed.execution clean,
                    subst (λ z. Validated o millis now executed.job j x u z) stores
                        (subst (λ z. Validated o millis now executed.job z x u v) is y),
                  ),
            )
      ]

  after_staging-Done :
      (staged : MigrationJobStagingResult) (u t : Store) (j : MigrationJob)
      → find_job staged.job.job_id u ≡ some staged.job
      → Unfinished staged
      → after_staging p hex millis now o staged u ≡ (ok j, t)
      → Done staged.job.job_id j t (FromStaging staged j u t)
  unfolding after_staging Done Unfinished execution_job FromStaging FromExecution Ended
  after_staging-Done staged u t j found e h = elim (Bool-cases (is_terminal staged.job.status)) [
    | inl q ↦ stopped (FromStaging staged j u t) staged.job j u t found q e (rw q at h)
    | inr q ↦
        let n = rw q at h in
        let (r, v, ran, h₁) =
          after-eq-ok (run_execution hex millis now o.preview o.execution staged u) _ n in
        let (stored, ends) = (run_execution-Ends p hex millis now o) staged u v r ran in
        let same : r.job.job_id ≡ staged.job.job_id =
          find-key job_key staged.job.job_id v.jobs r.job stored in
        let (there, terminal, known) =
          after_execution-Done r v t j (subst (λ i. find_job i v ≡ some r.job) (sym same) stored)
            ends h₁ in
        (
          subst (λ i. find_job i t ≡ some j) same there,
          terminal,
          λ won.
              let (x, is, evidence, validated) = known won in
              let (loaded, y, m, is₁, executed) =
                (run_execution-Executed o hex millis now) staged u v r ran evidence in
              let both : y ≡ x = some-injective (sym is₁ ∙ is) in
              (
                loaded,
                x,
                r.job,
                v,
                m,
                same,
                subst (λ z. Executed o staged.job r.job loaded z u v) both executed,
                validated,
              ),
        )
  ]

  process-Done :
      (job j : MigrationJob) (s t : Store)
      → process p hex millis now o job s ≡ (ok j, t)
      → Done job.job_id j t (Confirmed job j s t)
  unfolding process staging_job Done FromStaging
  process-Done job j s t h =
      let (r, u, ran, h₁) = after-eq-ok (run_staging p hex millis now o.transport job s) _ h in
      let (stored, ends) = (run_staging-Ends p hex millis now o) job s u r ran in
      let same : r.job.job_id ≡ job.job_id = find-key job_key job.job_id u.jobs r.job stored in
      let (there, terminal, known) =
        after_staging-Done r u t j (subst (λ i. find_job i u ≡ some r.job) (sym same) stored) ends
          h₁ in
      (
        subst (λ i. find_job i t ≡ some j) same there,
        terminal,
        λ won.
            let (loaded, x, executed, v, m, same₁, executes, validates) = known won in
            let (loaded₁, m₁, loads) =
              (run_staging-Staged p o hex millis now) job s u r ran (ap is_some m) in
            let both : loaded₁ ≡ loaded = some-injective (sym m₁ ∙ m) in
            record {
              loaded = loaded;
              execution = x;
              staged = r.job;
              executed = executed;
              s₁ = u;
              s₂ = v;
              loading = subst (λ z. Staged p o job r.job z s u) both loads;
              transforming = executes;
              checking = validates;
              same_staged = same;
              same_executed = same₁ ∙ same;
            },
      )

  -- The job that the processor returns is the one that the repository holds, under the identifier of
  -- the job it was given, and it has a terminal status. The orchestrators may do anything.
  pub process-stored :
      (job j : MigrationJob) (s t : Store)
      → process p hex millis now o job s ≡ (ok j, t)
      → (find_job job.job_id t ≡ some j) × (is_terminal j.status ≡ true)
  unfolding Done
  process-stored job j s t h =
      let (found, terminal, _) = process-Done job j s t h in (found, terminal)

  -- A job that the processor returns as SUCCEEDED was prepared, loaded by a request for exactly this
  -- job, compiled and executed at the versions that the calls before returned, its staging table was
  -- removed with evidence, and the validation of exactly this execution returned a PASSED report,
  -- upon which the job was completed. These calls and the changes of the job's stage lead from the
  -- store at the start to the store at the end, each from the store that the one before has left;
  -- the requests after the load are for the row that the repository then holds under the job's
  -- identifier. The orchestrators may do anything.
  pub process-Confirmed :
      (job j : MigrationJob) (s t : Store)
      → process p hex millis now o job s ≡ (ok j, t)
      → j.status ≡ succeeded
      → Confirmed job j s t
  unfolding Done
  process-Confirmed job j s t h won = let (_, _, known) = process-Done job j s t h in known won
