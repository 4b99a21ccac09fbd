-- ===== src/Services/Jobs/Confirmed/Staging.antt =====
-- MigrationJobStagingStep: how it comes to a result with a loaded staging table.
use schemabridge.Base.{ℕ, ◌≡◌, refl, sym, ap, subst, true, false, none, some, is_some, inl, inr}
use schemabridge.Base.Text.{Text}
use schemabridge.Base.Outcome.{
  Error, ok, operation_unavailable, required_artifact, stale_artifact,
  transport_already_in_progress, transport_confirmed_failure, transport_outcome_uncertain,
  batch_transport,
}
use schemabridge.Base.Table.{find-key}
use schemabridge.Model.Job.{MigrationJob, preparing, staging, transforming}
use schemabridge.Repository.Store.{Store, job_key}
use schemabridge.Repository.Workflows.{Platform}
use schemabridge.Services.Jobs.Program.{Program, ◌>>=◌, return, after-eq-ok}
use schemabridge.Services.Jobs.Steps.{advance}
use schemabridge.Services.Jobs.Staging.{
  TransportRequest, TransportResult, MigrationJobStagingResult, prepare_job, run_staging,
  preparation_failure, staging_failure, transport_request,
}
use schemabridge.Services.Jobs.Pipeline.{Orchestrators}
use schemabridge.Services.Jobs.Ends.{Rescues, advance-Ends}
use schemabridge.Services.Jobs.Confirmed.{Returns, otherwise-eq-ok, wrapped, contradiction}

-- The load is asked for the job: its workflow at the version that it expects, with its artifacts,
-- profiles and limits.
pub record AsksTransport (job : MigrationJob) (q : TransportRequest) : Type 0 where
  pub workflow : q.workflow_id ≡ job.workflow_id
  pub version : q.expected_version ≡ job.expected_workflow_version
  pub discovery : q.source_discovery_artifact_version ≡ job.source_discovery_artifact_version
  pub plan : q.approved_mapping_artifact_version ≡ job.approved_mapping_artifact_version
  pub source : q.source_profile_id ≡ job.source_profile_id
  pub target : q.target_profile_id ≡ job.target_profile_id
  pub size : q.batch_size ≡ job.batch_size
  pub timeout : q.timeout_seconds ≡ job.timeout_seconds

module _ (p : Platform) (o : Orchestrators) where
  -- From `s` to `t`, the job has been prepared, moved to STAGING, loaded, and moved to TRANSFORMING.
  pub record Staged (job staged : MigrationJob) (loaded : TransportResult) (s t : Store)
      : Type 0 where
    pub stage : MigrationJob
    pub request : TransportRequest
    pub s₁ : Store
    pub s₂ : Store
    pub s₃ : Store
    pub prepared : prepare_job p job s ≡ (ok tt, s₁)
    pub started : advance job.job_id preparing staging s₁ ≡ (ok stage, s₂)
    pub asks : AsksTransport job request
    pub transported : o.transport request s₂ ≡ (ok loaded, s₃)
    pub moved : advance job.job_id staging transforming s₃ ≡ (ok staged, t)

  module _ (hex : ℕ → Text) (millis : ℕ → ℕ) (now : ℕ) where
    WithoutTransport : MigrationJobStagingResult → Type 0
    WithoutTransport r = is_some r.transport ≡ false

    failed-Returns :
        (m : Program MigrationJob)
        → Returns WithoutTransport (m >>= (λ j. return (record { job = j; transport = none })))
    unfolding WithoutTransport
    failed-Returns m s t r q =
        let (j, _, e) = wrapped m (λ j. record { job = j; transport = none }) s t r q in
        subst (λ (x : MigrationJobStagingResult). is_some x.transport ≡ false) e refl

    preparation_failure-Returns :
        (job : MigrationJob) (e : Error)
        → Rescues
            (Returns WithoutTransport)
            (preparation_failure p hex millis now o.transport job e)
    unfolding preparation_failure
    preparation_failure-Returns job operation_unavailable = failed-Returns _
    preparation_failure-Returns job required_artifact = failed-Returns _
    preparation_failure-Returns job stale_artifact = failed-Returns _
    preparation_failure-Returns job _ = tt

    staging_failure-Returns :
        (job : MigrationJob) (e : Error)
        → Rescues (Returns WithoutTransport) (staging_failure p hex millis now o.transport job e)
    unfolding staging_failure
    staging_failure-Returns job transport_confirmed_failure = failed-Returns _
    staging_failure-Returns job transport_already_in_progress = failed-Returns _
    staging_failure-Returns job transport_outcome_uncertain = failed-Returns _
    staging_failure-Returns job batch_transport = failed-Returns _
    staging_failure-Returns job operation_unavailable = failed-Returns _
    staging_failure-Returns job required_artifact = failed-Returns _
    staging_failure-Returns job stale_artifact = failed-Returns _
    staging_failure-Returns job _ = tt

    -- A staging result with a transport comes from a completed load of the job.
    pub run_staging-Staged :
        (job : MigrationJob) (s t : Store) (r : MigrationJobStagingResult)
        → run_staging p hex millis now o.transport job s ≡ (ok r, t)
        → is_some r.transport ≡ true
        → (loaded : TransportResult) × (r.transport ≡ some loaded) × Staged job r.job loaded s t
    unfolding run_staging WithoutTransport
    run_staging-Staged job s t r h clean =
        elim (otherwise-eq-ok WithoutTransport (prepare_job p job s) _ _ t r
          (preparation_failure-Returns job) h) [
            | inr unloaded ↦ contradiction (is_some r.transport) clean unloaded
            | inl (_, s₁, prepared, h₁) ↦
                let (stage, s₂, started, h₂) =
                  after-eq-ok (advance job.job_id preparing staging s₁) _ h₁ in
                let same : stage.job_id ≡ job.job_id =
                  find-key job_key job.job_id s₂.jobs stage
                    (advance-Ends job.job_id preparing staging s₁ s₂ stage started).0 in
                elim (otherwise-eq-ok WithoutTransport
                  (o.transport (transport_request p hex millis now o.transport job) s₂) _ _ t r
                  (staging_failure-Returns job) h₂) [
                    | inr unloaded ↦ contradiction (is_some r.transport) clean unloaded
                    | inl (loaded, s₃, transported, h₃) ↦
                        let (next, e, is) =
                          wrapped (advance stage.job_id staging transforming)
                            (λ j. record { job = j; transport = some loaded }) s₃ t r h₃ in
                        let e₁ : advance job.job_id staging transforming s₃ ≡ (ok next, t) =
                          subst (λ i. advance i staging transforming s₃ ≡ (ok next, t)) same e in
                        (
                          loaded,
                          sym (ap (λ (x : MigrationJobStagingResult). x.transport) is),
                          record {
                            stage = stage;
                            request = transport_request p hex millis now o.transport job;
                            s₁ = s₁;
                            s₂ = s₂;
                            s₃ = s₃;
                            prepared = prepared;
                            started = started;
                            asks = record {
                              workflow = refl;
                              version = refl;
                              discovery = refl;
                              plan = refl;
                              source = refl;
                              target = refl;
                              size = refl;
                              timeout = refl;
                            };
                            transported = transported;
                            moved =
                                subst
                                  (λ (x : MigrationJobStagingResult).
                                    advance job.job_id staging transforming s₃ ≡ (ok x.job, t))
                                  is e₁;
                          },
                        )
                  ]
          ]
