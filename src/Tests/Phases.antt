-- ===== src/Tests/Phases.antt =====
-- An execution and a staging load that fail and are claimed again, and a validation run.
use schemabridge.Base.{ℕ, ◌≡◌, refl, true, none, some, List, [], ◌∷◌, arith}
use schemabridge.Base.Text.{codes, text_eq, valid_text, valid_hash, valid_code}
use schemabridge.Base.Outcome.{ok}
use schemabridge.Base.Table.{find, update, insert}
use schemabridge.Model.Status.{
  WorkflowStatus, mapping_approved, staging, staged, execution_ready, executing, executed,
  validating, same_status,
}
use schemabridge.Model.Workflow.{
  MigrationWorkflow, WorkflowArtifact, ArtifactType, user, valid_workflow, valid_identity,
  valid_relation, valid_codes, is_strictly_sorted, execution_evidence, validation_preview,
  staging_load_evidence, same_artifact_type,
}
use schemabridge.Model.Event.{MigrationAuditEvent, status_changed, artifact_appended}
use schemabridge.Model.Attempt.Kinds.{transport_kind, execution_kind}
use schemabridge.Model.Attempt.Transport
use schemabridge.Model.Attempt.Transport.{
  WorkflowTransportAttempt, WorkflowTransportEvidence, valid_transport_attempt, same_relation,
}
use schemabridge.Model.Attempt.Execution
use schemabridge.Model.Attempt.Execution.{
  MigrationExecutionAttempt, MigrationExecutionEvidence, valid_execution_attempt, rolled_back,
}
use schemabridge.Model.Attempt.Validation
use schemabridge.Model.Attempt.Validation.{WorkflowValidationRun, valid_validation_run}
use schemabridge.Model.Job.{follows}
use schemabridge.Repository.Store.{
  Store, find_workflow, last_sequence, load_workflow, recorded, find_idempotency, insert_event,
  insert_idempotency, same_scope,
}
use schemabridge.Repository.Workflows.{insert_artifact, names_id}
use schemabridge.Repository.Workflows.{insert_artifact, names_id}
use schemabridge.Repository.Attempts.{load_row, blocked, mark_running, write_workflow}
use schemabridge.Repository.Attempts.Rows.{blocking_count}
use schemabridge.Repository.Attempts.Transport.{
  claim_transport_attempt, mark_transport_running, complete_transport_attempt, bundle, terminal_of,
  store_evidence, evidence_matches, with_phase, with_outcome, finish_attempt as finish_load,
  settle as settle_load, write_outcome as write_load, start_attempt as start_load,
}
use schemabridge.Repository.Attempts.Transport.Settled.{Settled, complete_transport_attempt-Settled}
use schemabridge.Repository.Attempts.Execution.{
  claim_execution_attempt, mark_execution_running, complete_execution_attempt, settle,
  write_outcome,
}
use schemabridge.Repository.Attempts.Validation.{claim_validation_run}
use schemabridge.Repository.Commands.{
  Command, start_execution, complete_execution, start_transport, complete_transport, execute,
  claim_execution, claim_transport, claim_validation, or_keep, run,
}
use schemabridge.Repository.Commands.Attempts.Claims.{
  claim_execution_attempt-again, claim_transport_attempt-again, claim_validation_run-once,
}
use schemabridge.Repository.Commands.Consistent.{IsConsistent, versions_of, newest_version}
use schemabridge.Tests.World.{digest, platform, millis, sample, world, world-IsConsistent}
use schemabridge.Tests.Attempts.{
  execution, load, validation, execution_valid, load_valid, validation_valid,
}

-- The workflow in a phase.
abbrev workflow_at : WorkflowStatus → MigrationWorkflow
workflow_at status = record sample { status = status }

abbrev store_at : WorkflowStatus → Store
store_at status = record world { workflows = workflow_at status ∷ [] }

workflow_at_valid : (status : WorkflowStatus) → valid_workflow (workflow_at status) ≡ true
unfolding valid_workflow valid_identity valid_text valid_relation valid_codes is_strictly_sorted
workflow_at_valid status = refl

store_at-IsConsistent : (status : WorkflowStatus) → IsConsistent (store_at status)
unfolding find versions_of newest_version
store_at-IsConsistent status = record {
  valid_workflows = (workflow_at_valid status, tt);
  distinct_workflows = (refl, tt);
  artifact_versions = λ w. ground arith;
  event_numbers = world-IsConsistent.event_numbers;
  audited = λ w. ground arith;
  valid_jobs = world-IsConsistent.valid_jobs;
  distinct_jobs = world-IsConsistent.distinct_jobs;
  one_active = world-IsConsistent.one_active;
  attempts = world-IsConsistent.attempts;
}

abbrev change_event : ℕ → WorkflowStatus → WorkflowStatus → MigrationAuditEvent
change_event id old new = record {
  sequence_number = 1;
  event_id = id;
  workflow_id = 1;
  event_type = status_changed;
  previous_status = some old;
  new_status = some new;
  workflow_version = 2;
  artifact_id = none;
  artifact_type = none;
  actor_type = user;
  actor_reference = none;
  request_id = none;
  idempotency_key = codes "change";
  occurred_at = 40;
  reason_code = none;
}

abbrev artifact_event : ℕ → WorkflowArtifact → WorkflowStatus → MigrationAuditEvent
artifact_event id a status = record (change_event id status status) {
  event_type = artifact_appended;
  artifact_id = some a.artifact_id;
  artifact_type = some a.artifact_type;
}

abbrev artifact_of : ArtifactType → WorkflowArtifact
artifact_of type = record {
  artifact_id = 61;
  workflow_id = 1;
  artifact_type = type;
  artifact_version = 1;
  schema_version = 1;
  payload = [];
  payload_sha256 = digest;
  created_at = 50;
}

abbrev failure : MigrationExecutionEvidence
failure = record {
  attempt_id = 31;
  workflow_id = 1;
  status = Execution.failed_rolled_back;
  statement_count = 1;
  affected_rows = none;
  target_relation = (none, codes "sales", codes "customers");
  target_profile_id = codes "warehouse";
  connector_type = codes "postgresql";
  started_at = 45;
  completed_at = 50;
  duration_ms = 5;
  transaction_outcome = rolled_back;
  approved_mapping_artifact_version = 4;
  transformation_preview_artifact_version = 5;
  execution_fingerprint = digest;
  failure_category = some (codes "CONNECTION_LOST");
}

abbrev second_execution : MigrationExecutionAttempt
second_execution = record execution { attempt_id = 32; claimed_at = 60 }

-- The commands between the two claims of an execution.
abbrev failing : List Command
failing =
    start_execution 31 45
    ∷ complete_execution 1 2 31 failure (artifact_of execution_evidence)
        (artifact_event 102 (artifact_of execution_evidence) executing) execution_ready
        (change_event 103 executing execution_ready)
    ∷ []

abbrev executing_store : Store
executing_store = or_keep (store_at execution_ready) (
    execute platform millis
      (claim_execution 1 1 execution (change_event 101 execution_ready executing)
        (codes "execute-1") digest)
      (store_at execution_ready))

abbrev again_store : Store
again_store = or_keep (run platform millis failing executing_store) (
    execute platform millis
      (claim_execution 1 3 second_execution (change_event 104 execution_ready executing)
        (codes "execute-2") digest)
      (run platform millis failing executing_store))

second_execution_valid : valid_execution_attempt second_execution ≡ true
unfolding valid_execution_attempt Execution.valid_claim valid_text valid_hash valid_code
second_execution_valid = refl

first_claim :
    claim_execution_attempt 1 1 execution
      (change_event 101 execution_ready executing)
      (codes "execute-1")
      digest
      (store_at execution_ready)
    ≡ ok (
      (with_phase executing 2 40 (workflow_at execution_ready), execution, true),
      executing_store,
    )
unfolding claim_execution_attempt execute recorded find_idempotency same_status load_workflow
    valid_workflow valid_identity valid_text valid_relation valid_codes is_strictly_sorted blocked
    insert find update write_workflow insert_event last_sequence insert_idempotency
first_claim = refl

second_claim :
    claim_execution_attempt 1 3 second_execution
      (change_event 104 execution_ready executing)
      (codes "execute-2")
      digest
      (run platform millis failing executing_store)
    ≡ ok (
      (
        with_phase executing 4 60
            (with_outcome execution_ready 3 50 1 (workflow_at execution_ready)),
        second_execution,
        true,
      ),
      again_store,
    )
unfolding claim_execution_attempt run execute recorded find_idempotency same_scope same_status
    load_workflow valid_workflow valid_identity valid_text valid_relation valid_codes
    is_strictly_sorted blocked insert find update write_workflow insert_event last_sequence
    insert_idempotency mark_execution_running mark_running load_row valid_execution_attempt
    Execution.valid_claim valid_hash valid_code complete_execution_attempt names_id
    same_artifact_type insert_artifact text_eq settle write_outcome
second_claim = refl

claim_execution_attempt-again_example :
    (b : MigrationExecutionAttempt) × (find execution_kind.key 31
        (run platform millis failing executing_store).attempts.executions
      ≡ some b)
    × (b.status ≡ Execution.failed_rolled_back)
claim_execution_attempt-again_example =
    claim_execution_attempt-again platform millis failing 1 1 3 execution second_execution execution
      second_execution (change_event 101 execution_ready executing)
      (change_event 104 execution_ready executing) (codes "execute-1") (codes "execute-2") digest
      digest (store_at execution_ready) executing_store again_store
      (with_phase executing 2 40 (workflow_at execution_ready))
      (with_phase executing 4 60
        (with_outcome execution_ready 3 50 1 (workflow_at execution_ready)))
      (tt, (tt, tt)) (store_at-IsConsistent execution_ready) execution_valid second_execution_valid
      first_claim second_claim

abbrev second_load : WorkflowTransportAttempt
second_load = record load { attempt_id = 22; claimed_at = 60 }

second_load_valid : valid_transport_attempt second_load ≡ true
unfolding valid_transport_attempt Transport.valid_claim valid_text valid_hash valid_code
second_load_valid = refl

-- The commands between the two claims of a load.
abbrev cleaning : List Command
cleaning =
    start_transport 21 45
    ∷ complete_transport 1 2 21 none none none mapping_approved
        (change_event 103 staging mapping_approved) 50 (some (codes "CONNECTION_LOST"))
    ∷ []

abbrev staging_store : Store
staging_store = or_keep (store_at mapping_approved) (
    execute platform millis
      (claim_transport 1 1 load (change_event 101 mapping_approved staging) (codes "load-1") digest)
      (store_at mapping_approved))

abbrev again_staging_store : Store
again_staging_store = or_keep (run platform millis cleaning staging_store) (
    execute platform millis
      (claim_transport 1 3 second_load (change_event 104 mapping_approved staging) (codes "load-2")
        digest)
      (run platform millis cleaning staging_store))

first_load_claim :
    claim_transport_attempt 1 1 load
      (change_event 101 mapping_approved staging)
      (codes "load-1")
      digest
      (store_at mapping_approved)
    ≡ ok ((with_phase staging 2 40 (workflow_at mapping_approved), load, true), staging_store)
unfolding claim_transport_attempt execute recorded find_idempotency same_status load_workflow
    valid_workflow valid_identity valid_text valid_relation valid_codes is_strictly_sorted blocked
    insert find update write_workflow insert_event last_sequence insert_idempotency
first_load_claim = refl

second_load_claim :
    claim_transport_attempt 1 3 second_load
      (change_event 104 mapping_approved staging)
      (codes "load-2")
      digest
      (run platform millis cleaning staging_store)
    ≡ ok (
      (
        with_phase staging 4 60
            (with_outcome mapping_approved 3 50 0 (workflow_at mapping_approved)),
        second_load,
        true,
      ),
      again_staging_store,
    )
unfolding claim_transport_attempt run execute recorded find_idempotency same_scope same_status
    load_workflow valid_workflow valid_identity valid_text valid_relation valid_codes
    is_strictly_sorted blocked insert find update write_workflow insert_event last_sequence
    insert_idempotency mark_transport_running mark_running load_row valid_transport_attempt
    Transport.valid_claim valid_hash valid_code complete_transport_attempt bundle terminal_of
    settle_load write_load store_evidence text_eq follows
second_load_claim = refl

claim_transport_attempt-again_example :
    (b : WorkflowTransportAttempt) × (find transport_kind.key 21
        (run platform millis cleaning staging_store).attempts.transports
      ≡ some b)
    × (b.status ≡ Transport.failed_cleaned_up)
claim_transport_attempt-again_example =
    claim_transport_attempt-again platform millis cleaning 1 1 3 load second_load load second_load
      (change_event 101 mapping_approved staging) (change_event 104 mapping_approved staging)
      (codes "load-1") (codes "load-2") digest digest (store_at mapping_approved) staging_store
      again_staging_store (with_phase staging 2 40 (workflow_at mapping_approved))
      (with_phase staging 4 60
        (with_outcome mapping_approved 3 50 0 (workflow_at mapping_approved)))
      (tt, (tt, tt)) (store_at-IsConsistent mapping_approved) load_valid second_load_valid
      first_load_claim second_load_claim

abbrev evidence : WorkflowTransportEvidence
evidence = record {
  attempt_id = 21;
  workflow_id = 1;
  source_relation = load.staging_relation;
  staging_relation = load.staging_relation;
  source_profile_id = codes "local";
  target_profile_id = codes "warehouse";
  batch_size = 500;
  batch_count = 1;
  column_count = 2;
  rows_read = 3;
  rows_written = 3;
  started_at = 45;
  completed_at = 50;
  duration_ms = 5;
  source_discovery_artifact_version = 1;
  approved_mapping_artifact_version = 4;
  transport_fingerprint = digest;
}

abbrev loading_store : Store
loading_store = run platform millis (start_transport 21 45 ∷ []) staging_store

abbrev loaded_store : Store
loaded_store = or_keep loading_store (
    execute platform millis
      (complete_transport 1 2 21 (some evidence) (some (artifact_of staging_load_evidence))
        (some (artifact_event 102 (artifact_of staging_load_evidence) staging)) staged
        (change_event 103 staging staged) 50 none)
      loading_store)

abbrev loaded_row : WorkflowTransportAttempt
loaded_row = finish_load Transport.succeeded 50 (some 61) none (start_load 45 load)

load_completes :
    complete_transport_attempt 1 2 21
      (some evidence)
      (some (artifact_of staging_load_evidence))
      (some (artifact_event 102 (artifact_of staging_load_evidence) staging))
      staged
      (change_event 103 staging staged)
      50
      none
      loading_store
    ≡ ok (
      (
        with_outcome staged 3 50 1 (with_phase staging 2 40 (workflow_at mapping_approved)),
        loaded_row,
        some (artifact_of staging_load_evidence),
      ),
      loaded_store,
    )
unfolding claim_transport_attempt run execute recorded find_idempotency same_scope same_status
    load_workflow valid_workflow valid_identity valid_text valid_relation valid_codes
    is_strictly_sorted blocked insert find update write_workflow insert_event last_sequence
    insert_idempotency mark_transport_running mark_running load_row valid_transport_attempt
    Transport.valid_claim valid_hash valid_code complete_transport_attempt bundle terminal_of
    settle_load write_load store_evidence text_eq follows evidence_matches same_relation
    insert_artifact names_id same_artifact_type
load_completes = refl

complete_transport_attempt-Settled_example :
    (staged ≡ staged)
    × (find_workflow 1 loaded_store
        ≡ some
            (with_outcome staged 3 50 1 (with_phase staging 2 40 (workflow_at mapping_approved))))
    × (find transport_kind.key 21 loaded_store.attempts.transports ≡ some loaded_row)
    × Settled 1 loaded_store.artifacts staged loaded_row
complete_transport_attempt-Settled_example =
    complete_transport_attempt-Settled 1 2 21 (some evidence)
      (some (artifact_of staging_load_evidence))
      (some (artifact_event 102 (artifact_of staging_load_evidence) staging)) staged
      (change_event 103 staging staged) 50 none loading_store loaded_store
      (with_outcome staged 3 50 1 (with_phase staging 2 40 (workflow_at mapping_approved)))
      loaded_row (some (artifact_of staging_load_evidence)) load_completes

-- An executed workflow with its execution.
abbrev executed_store : Store
executed_store = record (store_at executed) {
  attempts = record { transports = []; executions = execution ∷ []; validations = [] };
}

executed_store-IsConsistent : IsConsistent executed_store
unfolding find blocking_count versions_of newest_version
executed_store-IsConsistent = record {
  valid_workflows = (workflow_at_valid executed, tt);
  distinct_workflows = (refl, tt);
  artifact_versions = λ w. ground arith;
  event_numbers = world-IsConsistent.event_numbers;
  audited = λ w. ground arith;
  valid_jobs = world-IsConsistent.valid_jobs;
  distinct_jobs = world-IsConsistent.distinct_jobs;
  one_active = world-IsConsistent.one_active;
  attempts = record {
    transports = world-IsConsistent.attempts.transports;
    executions = record {
      all_valid = (execution_valid, tt);
      distinct = (refl, tt);
      one_blocking = λ w. ground arith;
    };
    validations = world-IsConsistent.attempts.validations;
  };
}

abbrev validating_store : Store
validating_store = or_keep executed_store (
    execute platform millis
      (claim_validation 1 1 validation (artifact_of validation_preview)
        (artifact_event 102 (artifact_of validation_preview) executed)
        (change_event 101 executed validating) (codes "validate-1") digest)
      executed_store)

validation_claim :
    claim_validation_run platform 1 1 validation
      (artifact_of validation_preview)
      (artifact_event 102 (artifact_of validation_preview) executed)
      (change_event 101 executed validating)
      (codes "validate-1")
      digest
      executed_store
    ≡ ok (
      (
        with_outcome validating 2 40 1 (workflow_at executed),
        validation,
        artifact_of validation_preview,
        true,
      ),
      validating_store,
    )
unfolding claim_validation_run execute recorded find_idempotency same_status load_workflow
    valid_workflow valid_identity valid_text valid_relation valid_codes is_strictly_sorted blocked
    insert find update write_workflow insert_event last_sequence insert_idempotency names_id
    same_artifact_type insert_artifact
validation_claim = refl

second_run_valid : valid_validation_run (record validation { run_id = 42 }) ≡ true
unfolding valid_validation_run Validation.valid_claim valid_text valid_hash valid_code
second_run_valid = refl

claim_validation_run-once_example : ¬ (
    claim_validation_run platform 1 2
      (record validation { run_id = 42 })
      (artifact_of validation_preview)
      (artifact_event 102 (artifact_of validation_preview) executed)
      (change_event 101 executed validating)
      (codes "validate-2")
      digest
      validating_store
    ≡ ok (
      (
        with_outcome validating 3 40 2 (workflow_at executed),
        record validation { run_id = 42 },
        artifact_of validation_preview,
        true,
      ),
      validating_store,
    ))
unfolding run
claim_validation_run-once_example =
    claim_validation_run-once platform millis [] 1 1 2 validation
      (record validation { run_id = 42 }) validation (record validation { run_id = 42 })
      (artifact_of validation_preview) (artifact_of validation_preview)
      (artifact_of validation_preview) (artifact_of validation_preview)
      (artifact_event 102 (artifact_of validation_preview) executed)
      (artifact_event 102 (artifact_of validation_preview) executed)
      (change_event 101 executed validating) (change_event 101 executed validating)
      (codes "validate-1") (codes "validate-2") digest digest executed_store validating_store
      validating_store (with_outcome validating 2 40 1 (workflow_at executed))
      (with_outcome validating 3 40 2 (workflow_at executed)) tt executed_store-IsConsistent
      validation_valid refl second_run_valid refl validation_claim
