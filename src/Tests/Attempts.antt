-- ===== src/Tests/Attempts.antt =====
-- One claimed attempt of each kind, and the life of a staging load and of an execution that are
-- claimed twice.
use schemabridge.Base.{◌≡◌, refl, true, none, some, [], ◌∷◌, arith}
use schemabridge.Base.Text.{codes, valid_text, valid_hash, valid_code}
use schemabridge.Base.Outcome.{ok}
use schemabridge.Base.Table.{find, update}
use schemabridge.Model.Workflow.{user}
use schemabridge.Model.Attempt.{Progresses}
use schemabridge.Model.Attempt.Kinds.{transport_kind, execution_kind, validation_kind}
use schemabridge.Model.Attempt.Transport
use schemabridge.Model.Attempt.Transport.{WorkflowTransportAttempt, valid_transport_attempt}
use schemabridge.Model.Attempt.Execution
use schemabridge.Model.Attempt.Execution.{
  MigrationExecutionAttempt, MigrationExecutionEvidence, valid_execution_attempt,
}
use schemabridge.Model.Attempt.Validation
use schemabridge.Model.Attempt.Validation.{WorkflowValidationRun, valid_validation_run}
use schemabridge.Model.Job.{follows}
use schemabridge.Repository.Store.{Store}
use schemabridge.Repository.Attempts.{load_row, mark_running}
use schemabridge.Repository.Attempts.Rows.{blocking_count}
use schemabridge.Repository.Attempts.Transport.{mark_transport_running, start_attempt as start_load}
use schemabridge.Repository.Attempts.Execution.{mark_execution_running, start_attempt}
use schemabridge.Repository.Attempts.Validation.{mark_validation_running, start_run}
use schemabridge.Repository.Commands.{start_execution, start_transport, start_validation, run}
use schemabridge.Repository.Commands.Attempts.{
  run-transport, run-execution, run-validation, mark_execution_running-once,
  mark_transport_running-once, mark_validation_running-once,
}
use schemabridge.Repository.Commands.Consistent.{IsConsistent}
use schemabridge.Tests.World.{digest, platform, millis, world, world-IsConsistent}

abbrev pub execution : MigrationExecutionAttempt
execution = record {
  attempt_id = 31;
  workflow_id = 1;
  approved_mapping_artifact_version = 4;
  transformation_preview_artifact_version = 5;
  target_profile_id = codes "warehouse";
  execution_fingerprint = digest;
  status = Execution.claimed;
  timeout_seconds = 30;
  claimed_at = 40;
  actor_type = user;
  idempotency_key = codes "execute-1";
  actor_reference = none;
  running_at = none;
  completed_at = none;
  evidence_artifact_id = none;
  failure_category = none;
}

abbrev pub load : WorkflowTransportAttempt
load = record {
  attempt_id = 21;
  workflow_id = 1;
  source_discovery_artifact_version = 1;
  approved_mapping_artifact_version = 4;
  source_profile_id = codes "local";
  target_profile_id = codes "warehouse";
  staging_relation = record {
    catalog_name = none;
    schema_name = codes "staging";
    object_name = codes "customers";
  };
  batch_size = 500;
  timeout_seconds = 30;
  transport_fingerprint = digest;
  status = Transport.claimed;
  claimed_at = 40;
  actor_type = user;
  idempotency_key = codes "load-1";
  actor_reference = none;
  running_at = none;
  completed_at = none;
  evidence_artifact_id = none;
  failure_category = none;
}

abbrev pub validation : WorkflowValidationRun
validation = record {
  run_id = 41;
  workflow_id = 1;
  execution_attempt_id = 31;
  execution_evidence_artifact_version = 6;
  approved_mapping_artifact_version = 4;
  validation_preview_artifact_version = 1;
  source_profile_id = codes "local";
  target_profile_id = codes "warehouse";
  validation_fingerprint = digest;
  status = Validation.claimed;
  timeout_seconds = 30;
  claimed_at = 40;
  actor_type = user;
  idempotency_key = codes "validate-1";
  actor_reference = none;
  running_at = none;
  completed_at = none;
  duration_ms = none;
  evidence_artifact_id = none;
  failure_category = none;
}

pub execution_valid : valid_execution_attempt execution ≡ true
unfolding valid_execution_attempt Execution.valid_claim valid_text valid_hash valid_code
execution_valid = refl

pub load_valid : valid_transport_attempt load ≡ true
unfolding valid_transport_attempt Transport.valid_claim valid_text valid_hash valid_code
load_valid = refl

pub validation_valid : valid_validation_run validation ≡ true
unfolding valid_validation_run Validation.valid_claim valid_text valid_hash valid_code
validation_valid = refl

-- A claimed attempt of each kind.
abbrev busy : Store
busy = record world {
  attempts = record {
    transports = load ∷ [];
    executions = execution ∷ [];
    validations = validation ∷ [];
  };
}

busy-IsConsistent : IsConsistent busy
unfolding blocking_count find
busy-IsConsistent = record {
  valid_workflows = world-IsConsistent.valid_workflows;
  distinct_workflows = world-IsConsistent.distinct_workflows;
  artifact_versions = world-IsConsistent.artifact_versions;
  event_numbers = world-IsConsistent.event_numbers;
  audited = world-IsConsistent.audited;
  valid_jobs = world-IsConsistent.valid_jobs;
  distinct_jobs = world-IsConsistent.distinct_jobs;
  one_active = world-IsConsistent.one_active;
  attempts = record {
    transports = record {
      all_valid = (load_valid, tt);
      distinct = (refl, tt);
      one_blocking = λ w. ground arith;
    };
    executions = record {
      all_valid = (execution_valid, tt);
      distinct = (refl, tt);
      one_blocking = λ w. ground arith;
    };
    validations = record {
      all_valid = (validation_valid, tt);
      distinct = (refl, tt);
      one_blocking = λ w. ground arith;
    };
  };
}

-- The stores after one start.
abbrev execution_started : Store
execution_started = record busy {
  attempts = record busy.attempts { executions = start_attempt 45 execution ∷ [] };
}

abbrev load_started : Store
load_started = record busy {
  attempts = record busy.attempts { transports = start_load 45 load ∷ [] };
}

abbrev validation_started : Store
validation_started = record busy {
  attempts = record busy.attempts { validations = start_run 45 validation ∷ [] };
}

execution_starts :
    mark_execution_running 31 45 busy ≡ ok ((start_attempt 45 execution, true), execution_started)
unfolding mark_execution_running mark_running load_row valid_execution_attempt Execution.valid_claim
    valid_text valid_hash valid_code find update
execution_starts = refl

load_starts : mark_transport_running 21 45 busy ≡ ok ((start_load 45 load, true), load_started)
unfolding mark_transport_running mark_running load_row valid_transport_attempt Transport.valid_claim
    valid_text valid_hash valid_code find update follows
load_starts = refl

validation_starts :
    mark_validation_running 41 45 busy ≡ ok ((start_run 45 validation, true), validation_started)
unfolding mark_validation_running mark_running load_row valid_validation_run Validation.valid_claim
    valid_text valid_hash valid_code find update
validation_starts = refl

mark_execution_running-once_example : ¬ (
    mark_execution_running 31 46 execution_started
    ≡ ok ((start_attempt 45 execution, true), execution_started))
unfolding run
mark_execution_running-once_example =
    mark_execution_running-once platform millis [] 31 45 46 (start_attempt 45 execution)
      (start_attempt 45 execution) busy execution_started execution_started tt busy-IsConsistent
      execution_starts

mark_transport_running-once_example :
    ¬ (mark_transport_running 21 46 load_started ≡ ok ((start_load 45 load, true), load_started))
unfolding run
mark_transport_running-once_example =
    mark_transport_running-once platform millis [] 21 45 46 (start_load 45 load)
      (start_load 45 load) busy load_started load_started tt busy-IsConsistent load_starts

mark_validation_running-once_example : ¬ (
    mark_validation_running 41 46 validation_started
    ≡ ok ((start_run 45 validation, true), validation_started))
unfolding run
mark_validation_running-once_example =
    mark_validation_running-once platform millis [] 41 45 46 (start_run 45 validation)
      (start_run 45 validation) busy validation_started validation_started tt busy-IsConsistent
      validation_starts

run-execution_example :
    (b : MigrationExecutionAttempt) × (find execution_kind.key 31
        (run platform millis (start_execution 31 45 ∷ []) busy).attempts.executions
      ≡ some b)
    × Progresses execution_kind execution b
unfolding find
run-execution_example =
    run-execution platform millis (start_execution 31 45 ∷ []) busy 31 execution (tt, tt)
      busy-IsConsistent refl

run-transport_example :
    (b : WorkflowTransportAttempt) × (find transport_kind.key 21
        (run platform millis (start_transport 21 45 ∷ []) busy).attempts.transports
      ≡ some b)
    × Progresses transport_kind load b
unfolding find
run-transport_example =
    run-transport platform millis (start_transport 21 45 ∷ []) busy 21 load (tt, tt)
      busy-IsConsistent refl

run-validation_example :
    (b : WorkflowValidationRun) × (find validation_kind.key 41
        (run platform millis (start_validation 41 45 ∷ []) busy).attempts.validations
      ≡ some b)
    × Progresses validation_kind validation b
unfolding find
run-validation_example =
    run-validation platform millis (start_validation 41 45 ∷ []) busy 41 validation (tt, tt)
      busy-IsConsistent refl
