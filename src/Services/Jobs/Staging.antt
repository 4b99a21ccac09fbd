-- ===== src/Services/Jobs/Staging.antt =====
-- services/jobs/pipeline.py: MigrationJobStagingStep.
use schemabridge.Base.{ℕ, Bool, true, false, ◌&&◌, Option, none, some, ◌++◌, ◌==◌}
use schemabridge.Base.Text.{Text, text_eq, codes}
use schemabridge.Base.Outcome.{
  Error, job_transition, operation_unavailable, required_artifact, stale_artifact,
  transport_already_in_progress, transport_confirmed_failure, transport_outcome_uncertain,
  batch_transport,
}
use schemabridge.Model.Status.{same_status, mapping_approved}
use schemabridge.Model.Workflow.{
  MigrationWorkflow, WorkflowArtifact, ArtifactType, ActorType, service, source_discovery,
  approved_mapping_plan, same_artifact_type,
}
use schemabridge.Model.Progress.{BatchTransportProgress}
use schemabridge.Model.Job.{
  MigrationJob, same_job_status, same_stage, running, preparing, staging, transforming,
}
use schemabridge.Repository.Workflows.{Platform}
use schemabridge.Services.Jobs.Program.{Program, ◌>>=◌, ◌>>◌, return, fail_with, query, trying}
use schemabridge.Services.Jobs.Steps.{
  read_job, read_workflow, read_artifact, read_latest, same_job, advance, record_batch, fail,
  require_recovery,
}

-- The arguments of WorkflowTransportOrchestrator.run.
pub record TransportRequest : Type 0 where
  pub workflow_id : ℕ
  pub expected_version : ℕ
  pub source_discovery_artifact_version : ℕ
  pub approved_mapping_artifact_version : ℕ
  pub source_profile_id : Text
  pub target_profile_id : Text
  pub batch_size : ℕ
  pub timeout_seconds : ℕ
  pub idempotency_key : Text
  pub actor_type : ActorType
  pub actor_reference : Text
  pub report : BatchTransportProgress → ℕ → Program MigrationJob

-- What the later steps read of a WorkflowTransportResult.
pub record TransportResult : Type 0 where
  pub workflow : MigrationWorkflow

pub record MigrationJobStagingResult : Type 0 where
  pub job : MigrationJob
  pub transport : Option TransportResult

-- `"migration-job-worker"`
abbrev pub worker : Text
worker = codes "migration-job-worker"

-- `if not test: raise error`
abbrev pub check : Bool → Error → Program (Unit {0})
check true e = return tt
check false e = fail_with e

module _ (p : Platform) where
  fits : ArtifactType → ℕ → WorkflowArtifact → Option WorkflowArtifact → Bool
  fits type version a none = false
  fits type version a (some latest) =
      same_artifact_type a.artifact_type type && (latest.artifact_version == version)

  -- One turn of the loop over the two artifacts of `_prepare`.
  check_found : ℕ → ℕ → ArtifactType → Option WorkflowArtifact → Program (Unit {0})
  unfolding fits
  check_found w version type none = fail_with required_artifact
  check_found w version type (some a) = do
    latest ← query (read_latest p w type)
    check (fits type version a latest) stale_artifact

  check_artifact : ℕ → ℕ → ArtifactType → Program (Unit {0})
  unfolding check_found
  check_artifact w version type = do
    found ← query (read_artifact p w version)
    check_found w version type found

  unfoldable pub prepare_job : MigrationJob → Program (Unit {0})
  unfolding check_artifact
  prepare_job job = do
    durable ← query (read_job job.job_id)
    check
        (same_job durable job
          && (same_job_status job.status running && same_stage job.stage preparing))
        job_transition
    workflow ← query (read_workflow job.workflow_id)
    check
        ((workflow.version == job.expected_workflow_version)
          && (same_status workflow.status mapping_approved
              && (text_eq workflow.source_profile_id job.source_profile_id
                  && text_eq workflow.target_profile_id job.target_profile_id)))
        operation_unavailable
    check_artifact job.workflow_id job.source_discovery_artifact_version source_discovery
    check_artifact job.workflow_id job.approved_mapping_artifact_version approved_mapping_plan

module _ (p : Platform) (hex : ℕ → Text) (millis : ℕ → ℕ) (now : ℕ)
    (transport : TransportRequest → Program TransportResult) where
  -- `_staging_key`
  unfoldable pub staging_key : MigrationJob → Text
  staging_key job = codes "job-" ++ (hex job.job_id ++ codes "-staging")

  abbrev pub transport_request : MigrationJob → TransportRequest
  transport_request job = record {
    workflow_id = job.workflow_id;
    expected_version = job.expected_workflow_version;
    source_discovery_artifact_version = job.source_discovery_artifact_version;
    approved_mapping_artifact_version = job.approved_mapping_artifact_version;
    source_profile_id = job.source_profile_id;
    target_profile_id = job.target_profile_id;
    batch_size = job.batch_size;
    timeout_seconds = job.timeout_seconds;
    idempotency_key = staging_key job;
    actor_type = service;
    actor_reference = worker;
    report = λ progress time. record_batch job.job_id progress time;
  }

  abbrev pub without_transport : MigrationJob → Program MigrationJobStagingResult
  without_transport job = return (record { job = job; transport = none })

  unfoldable pub preparation_failure :
      MigrationJob → Error → Option (Program MigrationJobStagingResult)
  preparation_failure job operation_unavailable =
      some (
        fail millis now job.job_id preparing (codes "JOB_PREPARATION_FAILED") >>= without_transport)
  preparation_failure job required_artifact =
      some (
        fail millis now job.job_id preparing (codes "JOB_PREPARATION_FAILED") >>= without_transport)
  preparation_failure job stale_artifact =
      some (
        fail millis now job.job_id preparing (codes "JOB_PREPARATION_FAILED") >>= without_transport)
  preparation_failure job _ = none

  abbrev pub staging_unprepared : MigrationJob → Option (Program MigrationJobStagingResult)
  staging_unprepared job = some (
      fail millis now job.job_id staging (codes "STAGING_PREPARATION_FAILED") >>= without_transport)

  abbrev pub staging_uncertain : MigrationJob → Option (Program MigrationJobStagingResult)
  staging_uncertain job = some (
      require_recovery millis now job.job_id staging (codes "STAGING_OUTCOME_UNCERTAIN")
      >>= without_transport)

  unfoldable pub staging_failure : MigrationJob → Error → Option (Program MigrationJobStagingResult)
  staging_failure job transport_confirmed_failure =
      some (fail millis now job.job_id staging (codes "STAGING_LOAD_FAILED") >>= without_transport)
  staging_failure job transport_already_in_progress = staging_uncertain job
  staging_failure job transport_outcome_uncertain = staging_uncertain job
  staging_failure job batch_transport = staging_unprepared job
  staging_failure job operation_unavailable = staging_unprepared job
  staging_failure job required_artifact = staging_unprepared job
  staging_failure job stale_artifact = staging_unprepared job
  staging_failure job _ = none

  unfoldable pub run_staging : MigrationJob → Program MigrationJobStagingResult
  run_staging job = trying (prepare_job p job) (preparation_failure job) (λ u.
      advance job.job_id preparing staging >>= λ stage.
      trying (transport (transport_request job)) (staging_failure job) (λ loaded.
        advance stage.job_id staging transforming >>= λ next.
        return (record { job = next; transport = some loaded })))
