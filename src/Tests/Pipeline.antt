-- ===== src/Tests/Pipeline.antt =====
-- A job that runs through the whole pipeline.
use schemabridge.Base.{ℕ, ◌≡◌, refl, true, false, none, some, [], ◌∷◌}
use schemabridge.Base.Text.{Text, codes, text_eq, valid_text, valid_hash, valid_code}
use schemabridge.Base.Outcome.{ok}
use schemabridge.Base.Table.{find, update}
use schemabridge.Model.Status.{mapping_approved, same_status}
use schemabridge.Model.Workflow.{
  WorkflowArtifact, ArtifactType, source_discovery, approved_mapping_plan, execution_evidence,
  same_artifact_type, valid_workflow, valid_identity, valid_relation, valid_codes,
  is_strictly_sorted,
}
use schemabridge.Model.Job.{
  MigrationJob, JobStatus, JobStage, valid_job, valid_inputs, valid_times, valid_progress_fields,
  valid_lifecycle, is_terminal, same_job_status, same_stage, is_inner_stage, next_stages,
}
use schemabridge.Repository.Store.{Store, find_job, load_job, load_workflow}
use schemabridge.Repository.Jobs.{
  start_row, claim_next_migration_job, oldest_queued, claim_row, is_before,
  update_migration_job_stage, is_valid_advance, finish_migration_job, is_exact_replay,
  is_valid_finish, is_failure, store_outcome, finished_job,
}
use schemabridge.Repository.Workflows.{load_artifact, valid_artifact}
use schemabridge.Repository.Attempts.Validation.{find_version}
use schemabridge.Services.Jobs.Program.{return}
use schemabridge.Services.Jobs.Steps.{
  read_job, read_workflow, read_artifact, read_latest, latest_of_type, same_job, advance, succeed,
}
use schemabridge.Services.Jobs.Staging.{run_staging, prepare_job}
use schemabridge.Services.Jobs.Execution.{run_execution, after_checks, confirm_cleanup}
use schemabridge.Services.Jobs.Validation.{run_validation, validate_execution, conclude, passed}
use schemabridge.Services.Jobs.Pipeline.{
  Orchestrators, process, after_staging, after_execution, finish_validation, run_once,
  process_claimed,
}
use schemabridge.Services.Jobs.Results.{process-stored, process-Confirmed, Confirmed}
use schemabridge.Services.Jobs.Worker.{Turn, run_once-Turn}
use schemabridge.Tests.World.{digest, platform, millis, sample, job, world}

abbrev hex : ℕ → Text
hex n = codes "07"

abbrev stored_artifact : ℕ → ℕ → ArtifactType → WorkflowArtifact
stored_artifact id version type = record {
  artifact_id = id;
  workflow_id = 1;
  artifact_type = type;
  artifact_version = version;
  schema_version = 1;
  payload = [];
  payload_sha256 = digest;
  created_at = 10;
}

abbrev queued_store : Store
queued_store = record world {
  workflows = record sample { status = mapping_approved } ∷ [];
  artifacts =
      stored_artifact 54 4 approved_mapping_plan ∷ stored_artifact 51 1 source_discovery ∷ [];
}

abbrev claimed_job : MigrationJob
claimed_job = start_row 25 job

abbrev claimed_store : Store
claimed_store = record queued_store { jobs = claimed_job ∷ [] }

-- Orchestrators that succeed at once.
abbrev helpful : Orchestrators
helpful = record {
  transport = λ r. return (record { workflow = sample });
  preview = λ r.
      return (record { workflow = sample; artifact = stored_artifact 55 5 execution_evidence });
  execution = λ r. return (record {
    workflow = sample;
    artifact = stored_artifact 56 6 execution_evidence;
    cleanup_evidence = some 57;
  });
  validation = λ r. return (record { report_status = passed });
}

abbrev finished : MigrationJob
finished =
    finished_job millis JobStatus.succeeded 90 none
      (record claimed_job { stage = JobStage.validating })

abbrev finished_store : Store
finished_store = record claimed_store { jobs = finished ∷ [] }

processed :
    process platform hex millis 90 helpful claimed_job claimed_store ≡ (ok finished, finished_store)
unfolding process run_staging prepare_job read_job read_workflow read_artifact read_latest
    latest_of_type same_job advance succeed run_execution after_checks confirm_cleanup
    run_validation validate_execution conclude after_staging after_execution finish_validation find
    update same_status same_artifact_type valid_workflow valid_identity valid_relation valid_codes
    is_strictly_sorted valid_job valid_inputs valid_times valid_progress_fields valid_lifecycle
    is_terminal same_job_status same_stage is_inner_stage next_stages load_job load_workflow
    update_migration_job_stage is_valid_advance finish_migration_job is_exact_replay is_valid_finish
    store_outcome load_artifact valid_artifact find_version text_eq valid_text valid_hash valid_code
    is_failure
processed = refl

process-stored_example :
    (find_job 7 finished_store ≡ some finished) × (is_terminal finished.status ≡ true)
process-stored_example =
    process-stored platform hex millis 90 helpful claimed_job finished claimed_store finished_store
      processed

process-Confirmed_example :
    Confirmed platform hex millis 90 helpful claimed_job finished claimed_store finished_store
process-Confirmed_example =
    process-Confirmed platform hex millis 90 helpful claimed_job finished claimed_store
      finished_store processed refl

claims :
    claim_next_migration_job (λ i. false) 25 queued_store ≡ ok (some claimed_job, claimed_store)
unfolding claim_next_migration_job oldest_queued claim_row load_job valid_job valid_inputs
    valid_text valid_hash valid_times valid_progress_fields valid_lifecycle same_job_status
    is_inner_stage update is_before
claims = refl

turned :
    run_once (process platform hex millis 90 helpful) (λ i. false) 25 queued_store
    ≡ (ok (some finished), finished_store)
unfolding run_once process_claimed is_terminal
turned = rw (claims, processed) refl

run_once-Turn_example :
    Turn
      (process platform hex millis 90 helpful)
      (λ i. false)
      25
      queued_store
      (run_once (process platform hex millis 90 helpful) (λ i. false) 25 queued_store)
run_once-Turn_example =
    run_once-Turn (process platform hex millis 90 helpful) (λ i. false) 25 queued_store
