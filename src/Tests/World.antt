-- ===== src/Tests/World.antt =====
-- A store with one draft workflow, its first event and one queued job.
use schemabridge.Base.{ℕ, ◌≡◌, refl, true, none, some, [], ◌∷◌, arith}
use schemabridge.Base.Text.{Text, codes, valid_text, valid_hash}
use schemabridge.Base.Table.{find}
use schemabridge.Model.Status.{draft}
use schemabridge.Model.Workflow.{
  WorkflowRelation, MigrationWorkflow, user, valid_workflow, valid_identity, valid_relation,
  valid_codes, is_strictly_sorted,
}
use schemabridge.Model.Event.{MigrationAuditEvent, workflow_created}
use schemabridge.Model.Job.{
  MigrationJob, JobStatus, JobStage, valid_job, valid_inputs, valid_times, valid_progress_fields,
  valid_lifecycle, is_terminal,
}
use schemabridge.Repository.Store.{Store, last_sequence}
use schemabridge.Repository.Jobs.{is_active}
use schemabridge.Repository.Jobs.Change.{active_count}
use schemabridge.Repository.Attempts.Rows.{blocking_count}
use schemabridge.Repository.Workflows.{Platform}
use schemabridge.Repository.Commands.Consistent.{
  IsConsistent, versions_of, sequences_of, newest_version,
}

abbrev pub digest : Text
digest = codes "00112233445566778899aabbccddeeff00112233445566778899aabbccddeeff"

abbrev pub platform : Platform
platform = record { sha256 = λ bytes. digest; reread = λ bytes. bytes }

abbrev pub millis : ℕ → ℕ
millis n = n

abbrev customers : WorkflowRelation
customers = record {
  catalog_name = none;
  schema_name = codes "sales";
  object_name = codes "customers";
  system = codes "postgresql";
}

abbrev pub sample : MigrationWorkflow
sample = record {
  workflow_id = 1;
  display_name = codes "Customers";
  source_profile_id = codes "local";
  target_profile_id = codes "warehouse";
  source_relation = customers;
  target_relation = customers;
  status = draft;
  version = 1;
  created_at = 10;
  updated_at = 10;
  latest_artifact_version = 0;
  last_error_code = none;
  warnings = [];
}

abbrev creation : MigrationAuditEvent
creation = record {
  sequence_number = 1;
  event_id = 100;
  workflow_id = 1;
  event_type = workflow_created;
  previous_status = none;
  new_status = some draft;
  workflow_version = 1;
  artifact_id = none;
  artifact_type = none;
  actor_type = user;
  actor_reference = none;
  request_id = none;
  idempotency_key = codes "create-1";
  occurred_at = 10;
  reason_code = none;
}

abbrev pub job : MigrationJob
job = record {
  job_id = 7;
  workflow_id = 1;
  expected_workflow_version = 1;
  source_discovery_artifact_version = 1;
  approved_mapping_artifact_version = 4;
  source_profile_id = codes "local";
  target_profile_id = codes "warehouse";
  batch_size = 500;
  timeout_seconds = 30;
  job_fingerprint = digest;
  status = JobStatus.queued;
  stage = JobStage.queued;
  queued_at = 20;
  actor_type = user;
  idempotency_key = codes "job-1";
  actor_reference = none;
  started_at = none;
  completed_at = none;
  duration_ms = none;
  failure_category = none;
  batch_progress = none;
  progress_updated_at = none;
}

abbrev pub world : Store
world = record {
  workflows = sample ∷ [];
  artifacts = [];
  events = creation ∷ [];
  idempotency = [];
  jobs = job ∷ [];
  attempts = record { transports = []; executions = []; validations = [] };
}

pub sample_valid : valid_workflow sample ≡ true
unfolding valid_workflow valid_identity valid_text valid_relation valid_codes is_strictly_sorted
sample_valid = refl

pub job_valid : valid_job job ≡ true
unfolding valid_job valid_inputs valid_text valid_hash valid_times valid_progress_fields
    valid_lifecycle
job_valid = refl

pub world-IsConsistent : IsConsistent world
unfolding blocking_count find versions_of sequences_of newest_version last_sequence active_count
    is_active is_terminal
world-IsConsistent = record {
  valid_workflows = (sample_valid, tt);
  distinct_workflows = (refl, tt);
  artifact_versions = λ w. ground arith;
  event_numbers = λ w. ground arith;
  audited = λ w. ground arith;
  valid_jobs = (job_valid, tt);
  distinct_jobs = (refl, tt);
  one_active = λ w. ground arith;
  attempts = record {
    transports = record { all_valid = tt; distinct = tt; one_blocking = λ w. omega arith };
    executions = record { all_valid = tt; distinct = tt; one_blocking = λ w. omega arith };
    validations = record { all_valid = tt; distinct = tt; one_blocking = λ w. omega arith };
  };
}
