-- ===== src/Services/Jobs/Steps.antt =====
-- services/jobs/lifecycle.py and the reads of the persistence service that the steps of a job use.
use schemabridge.Base.{
  ℕ, Bool, true, false, ◌&&◌, Option, none, some, List, [], ◌∷◌, ◌==◌, if◌then◌else◌, ltb,
}
use schemabridge.Base.Text.{Text, text_eq}
use schemabridge.Base.Outcome
use schemabridge.Base.Outcome.{
  Outcome, Error, ok, raise, job_not_found, workflow_not_found, require,
}
use schemabridge.Model.Workflow.{
  MigrationWorkflow, WorkflowArtifact, ArtifactType, ActorType, system, user, service,
  same_artifact_type,
}
use schemabridge.Model.Progress.{BatchTransportProgress}
use schemabridge.Model.Job.{
  MigrationJob, JobStage, same_job_status, same_stage, validating, succeeded, failed,
  review_required, recovery_required,
}
use schemabridge.Repository.Store.{
  Store, find_job, find_workflow, load_job, load_workflow, or_raise,
}
use schemabridge.Repository.Jobs.{
  update_migration_job_stage, update_migration_job_progress, finish_migration_job,
}
use schemabridge.Repository.Workflows.{Platform, load_artifact}
use schemabridge.Repository.Attempts.Validation.{find_version}
use schemabridge.Services.Jobs.Program.{Program, transaction}

-- get_migration_job and get_workflow
unfoldable pub read_job : ℕ → Store → Outcome MigrationJob
read_job id s = Outcome.◌>>=◌ (or_raise job_not_found (find_job id s)) load_job

unfoldable pub read_workflow : ℕ → Store → Outcome MigrationWorkflow
read_workflow id s = Outcome.◌>>=◌ (or_raise workflow_not_found (find_workflow id s)) load_workflow

-- ORDER BY artifact_version DESC LIMIT 1
newer : WorkflowArtifact → Option WorkflowArtifact → WorkflowArtifact
newer a none = a
newer a (some b) = if ltb a.artifact_version b.artifact_version then b else a

unfoldable pub latest_of_type : ℕ → ArtifactType → List WorkflowArtifact → Option WorkflowArtifact
unfolding newer
latest_of_type w type [] = none
latest_of_type w type (a ∷ rows) =
    if (a.workflow_id == w) && same_artifact_type a.artifact_type type
    then some (newer a (latest_of_type w type rows))
    else latest_of_type w type rows

load_optional : Platform → Option WorkflowArtifact → Outcome (Option WorkflowArtifact)
load_optional p none = ok none
load_optional p (some a) = Outcome.◌>>=◌ (load_artifact p a) (λ b. ok (some b))

-- get_artifact and get_latest_artifact
unfoldable pub read_artifact : Platform → ℕ → ℕ → Store → Outcome (Option WorkflowArtifact)
unfolding load_optional
read_artifact p w version s =
    Outcome.◌>>=◌ (or_raise workflow_not_found (find_workflow w s))
      (λ row. load_optional p (find_version w version s.artifacts))

unfoldable pub read_latest : Platform → ℕ → ArtifactType → Store → Outcome (Option WorkflowArtifact)
unfolding load_optional
read_latest p w type s =
    Outcome.◌>>=◌ (or_raise workflow_not_found (find_workflow w s))
      (λ row. load_optional p (latest_of_type w type s.artifacts))

actor_index : ActorType → ℕ
actor_index system = 0
actor_index user = 1
actor_index service = 2

same_number : Option ℕ → Option ℕ → Bool
same_number none none = true
same_number (some a) (some b) = a == b
same_number _ _ = false

same_text : Option Text → Option Text → Bool
same_text none none = true
same_text (some a) (some b) = text_eq a b
same_text _ _ = false

same_snapshot : Option BatchTransportProgress → Option BatchTransportProgress → Bool
unfolding same_number
same_snapshot none none = true
same_snapshot (some a) (some b) =
    (a.batches_completed == b.batches_completed)
    && ((a.rows_read == b.rows_read)
        && ((a.rows_written == b.rows_written)
            && same_number a.total_rows_estimate b.total_rows_estimate))
same_snapshot _ _ = false

same_request : MigrationJob → MigrationJob → Bool
unfolding same_text actor_index
same_request a b =
    (a.job_id == b.job_id)
    && ((a.workflow_id == b.workflow_id)
        && ((a.expected_workflow_version == b.expected_workflow_version)
            && ((a.source_discovery_artifact_version == b.source_discovery_artifact_version)
                && ((a.approved_mapping_artifact_version == b.approved_mapping_artifact_version)
                    && (text_eq a.source_profile_id b.source_profile_id
                        && (text_eq a.target_profile_id b.target_profile_id
                            && ((a.batch_size == b.batch_size)
                                && ((a.timeout_seconds == b.timeout_seconds)
                                    && (text_eq a.job_fingerprint b.job_fingerprint
                                        && ((a.queued_at == b.queued_at)
                                            && ((actor_index a.actor_type
                                                  == actor_index b.actor_type)
                                                && (text_eq a.idempotency_key b.idempotency_key
                                                    && same_text a.actor_reference
                                                        b.actor_reference))))))))))))

-- `durable == job`, the equality of the dataclass.
unfoldable pub same_job : MigrationJob → MigrationJob → Bool
unfolding same_request same_number same_text same_snapshot
same_job a b =
    same_request a b
    && (same_job_status a.status b.status
        && (same_stage a.stage b.stage
            && (same_number a.started_at b.started_at
                && (same_number a.completed_at b.completed_at
                    && (same_number a.duration_ms b.duration_ms
                        && (same_text a.failure_category b.failure_category
                            && (same_snapshot a.batch_progress b.batch_progress
                                && same_number a.progress_updated_at b.progress_updated_at)))))))

-- MigrationJobProgressService.advance and record_batch
unfoldable pub advance : ℕ → JobStage → JobStage → Program MigrationJob
advance id expected new = transaction (update_migration_job_stage id expected new)

unfoldable pub record_batch : ℕ → BatchTransportProgress → ℕ → Program MigrationJob
record_batch id progress now = transaction (update_migration_job_progress id progress now)

-- MigrationJobCompletionService: `now` is what its clock says.
module _ (millis : ℕ → ℕ) (now : ℕ) where
  unfoldable pub succeed : ℕ → Program MigrationJob
  succeed id = transaction (finish_migration_job millis id validating succeeded now none)

  unfoldable pub fail : ℕ → JobStage → Text → Program MigrationJob
  fail id stage category =
      transaction (finish_migration_job millis id stage failed now (some category))

  unfoldable pub require_recovery : ℕ → JobStage → Text → Program MigrationJob
  require_recovery id stage category =
      transaction (finish_migration_job millis id stage recovery_required now (some category))

  unfoldable pub require_review : ℕ → Text → Program MigrationJob
  require_review id category =
      transaction (finish_migration_job millis id validating review_required now (some category))
