-- ===== src/Repository/Attempts/Transport.antt =====
-- PostgreSQLWorkflowRepository: migration_transport_attempts.
pub mod Effects
pub mod Settled
use schemabridge.Base.{
  ℕ, suc, Bool, true, false, not, ◌&&◌, Option, none, some, List, [], ◌∷◌, leb, ◌==◌, if◌then◌else◌,
  is_none, is_some,
}
use schemabridge.Base.Text.{Text, text_eq}
use schemabridge.Base.Outcome.{
  Outcome, ok, raise, ◌>>=◌, ◌>>◌, require, workflow_not_found, workflow_conflict,
  invalid_workflow_transition, persistence_error, transport_already_in_progress,
}
use schemabridge.Base.Table.{find, update, insert}
use schemabridge.Model.Status.{
  WorkflowStatus, same_status, mapping_approved, staging, staged, staging_recovery_required,
}
use schemabridge.Model.Workflow.{
  MigrationWorkflow, WorkflowArtifact, staging_load_evidence, same_artifact_type,
}
use schemabridge.Model.Event.{MigrationAuditEvent, holds_status}
use schemabridge.Model.Progress.{same_bool}
use schemabridge.Model.Attempt.Transport.{
  WorkflowTransportAttempt, WorkflowTransportAttemptStatus, WorkflowTransportEvidence, running,
  succeeded, failed_cleaned_up, outcome_uncertain, is_claimed, without_result, is_running,
  same_relation,
}
use schemabridge.Model.Attempt.Kinds.{transport_kind}
use schemabridge.Repository.Store.{
  Store, Attempts, IdempotencyRow, transport_scope, find_workflow, or_raise, load_workflow,
  recorded, insert_idempotency,
}
use schemabridge.Repository.Workflows.{insert_artifact, names_id}
use schemabridge.Repository.Attempts.{
  load_row, blocked, mark_running, get_by_command, write_workflow,
}

abbrev pub with_transports : Store → List WorkflowTransportAttempt → Store
with_transports s rows = record s { attempts = record s.attempts { transports = rows } }

-- INSERT INTO migration_transport_attempts, with the CHECK on batch_size.
insert_attempt :
    WorkflowTransportAttempt
    → List WorkflowTransportAttempt
    → Outcome (List WorkflowTransportAttempt)
insert_attempt a rows = do
  require (leb a.batch_size 10000) persistence_error
  or_raise persistence_error (insert transport_kind.key (without_result a) rows)

-- The columns of the workflow that a claim and a completion write.
abbrev pub with_phase : WorkflowStatus → ℕ → ℕ → MigrationWorkflow → MigrationWorkflow
with_phase status version at w = record w { status = status; version = version; updated_at = at }

unfoldable pub claim_new :
    ℕ
    → ℕ
    → WorkflowTransportAttempt
    → MigrationAuditEvent
    → Text
    → Text
    → Store
    → Outcome ((MigrationWorkflow × WorkflowTransportAttempt × Bool) × Store)
unfolding insert_attempt
claim_new w expected attempt event key digest s = do
  row ← or_raise workflow_not_found (find_workflow w s)
  old ← load_workflow row
  require (old.version == expected) workflow_conflict
  require (same_status old.status mapping_approved) invalid_workflow_transition
  require (not (blocked transport_kind w s.attempts.transports)) transport_already_in_progress
  rows ← insert_attempt attempt s.attempts.transports
  logged ←
      write_workflow w expected (with_phase staging (suc old.version) attempt.claimed_at) none event
        (suc old.version) (with_transports s rows)
  result ← load_workflow (with_phase staging (suc old.version) attempt.claimed_at old)
  ok (
    (result, attempt, true),
    insert_idempotency (transport_scope w) key digest w attempt.attempt_id logged,
  )

unfoldable pub replay_claim :
    ℕ
    → IdempotencyRow
    → Store
    → Outcome ((MigrationWorkflow × WorkflowTransportAttempt × Bool) × Store)
replay_claim w r s = do
  row ← or_raise persistence_error (find_workflow w s)
  workflow ← load_workflow row
  stored ←
      or_raise persistence_error (find transport_kind.key r.result_reference s.attempts.transports)
  attempt ← load_row transport_kind stored
  ok ((workflow, attempt, false), s)

claim_or_replay :
    Option IdempotencyRow
    → ℕ
    → ℕ
    → WorkflowTransportAttempt
    → MigrationAuditEvent
    → Text
    → Text
    → Store
    → Outcome ((MigrationWorkflow × WorkflowTransportAttempt × Bool) × Store)
unfolding claim_new replay_claim
claim_or_replay none w expected attempt event key digest s =
    claim_new w expected attempt event key digest s
claim_or_replay (some r) w expected attempt event key digest s = replay_claim w r s

unfoldable pub claim_transport_attempt :
    ℕ
    → ℕ
    → WorkflowTransportAttempt
    → MigrationAuditEvent
    → Text
    → Text
    → Store
    → Outcome ((MigrationWorkflow × WorkflowTransportAttempt × Bool) × Store)
unfolding claim_or_replay
claim_transport_attempt w expected attempt event key digest s = do
  require ((attempt.workflow_id == w) && is_claimed attempt.status) persistence_error
  require
      ((event.workflow_id == w)
        && (holds_status mapping_approved event.previous_status
            && holds_status staging event.new_status))
      persistence_error
  replay ← recorded (transport_scope w) key digest s
  claim_or_replay replay w expected attempt event key digest s

abbrev pub start_attempt : ℕ → WorkflowTransportAttempt → WorkflowTransportAttempt
start_attempt at a = record a { status = running; running_at = some at }

unfoldable pub mark_transport_running :
    ℕ → ℕ → Store → Outcome ((WorkflowTransportAttempt × Bool) × Store)
mark_transport_running id at s = do
  answer ← mark_running transport_kind id (start_attempt at) s.attempts.transports
  ok (answer.0, with_transports s answer.1)

unfoldable pub get_transport_attempt_by_command :
    ℕ → Text → Text → Store → Outcome (Option WorkflowTransportAttempt)
get_transport_attempt_by_command w key digest s =
    get_by_command transport_kind (transport_scope w) key digest s.attempts.transports s

-- The evidence of a load, its artifact and the event of the artifact: all three or none.
abbrev pub Proof : Type 0
Proof = WorkflowTransportEvidence × WorkflowArtifact × MigrationAuditEvent

unfoldable pub bundle :
    Option WorkflowTransportEvidence
    → Option WorkflowArtifact
    → Option MigrationAuditEvent
    → Outcome (Option Proof)
bundle none none none = ok none
bundle (some evidence) (some artifact) (some event) = ok (some (evidence, artifact, event))
bundle _ _ _ = raise persistence_error

-- The status of the attempt that goes with the new status of the workflow: evidence and no failure
-- for a loaded stage, the reverse for the other two.
unfoldable pub terminal_of :
    WorkflowStatus → Option Proof → Option Text → Outcome WorkflowTransportAttemptStatus
terminal_of staged (some proof) none =
    if same_artifact_type proof.1.artifact_type staging_load_evidence
    then ok succeeded
    else raise persistence_error
terminal_of mapping_approved none (some category) = ok failed_cleaned_up
terminal_of staging_recovery_required none (some category) = ok outcome_uncertain
terminal_of _ _ _ = raise persistence_error

abbrev pub artifact_matches : ℕ → Option Proof → Bool
artifact_matches w none = true
artifact_matches w (some (evidence, artifact, event)) =
    (artifact.workflow_id == w) && names_id event.artifact_id artifact.artifact_id

-- The evidence is that of the attempt.
unfoldable pub evidence_matches :
    ℕ → ℕ → WorkflowTransportAttempt → WorkflowTransportEvidence → Bool
evidence_matches w id attempt e =
    (e.attempt_id == id)
    && ((e.workflow_id == w)
        && (text_eq e.transport_fingerprint attempt.transport_fingerprint
            && ((e.source_discovery_artifact_version == attempt.source_discovery_artifact_version)
                && ((e.approved_mapping_artifact_version
                      == attempt.approved_mapping_artifact_version)
                    && same_relation e.staging_relation attempt.staging_relation))))

-- The artifact of the evidence is inserted. Its event and the attempt refer to it with their own
-- workflow, by the foreign keys on (workflow_id, artifact_id).
unfoldable pub store_evidence :
    ℕ
    → ℕ
    → MigrationWorkflow
    → WorkflowTransportAttempt
    → Option Proof
    → List WorkflowArtifact
    → Outcome (List WorkflowArtifact)
store_evidence w id old attempt none rows = ok rows
store_evidence w id old attempt (some (evidence, artifact, event)) rows = do
  require (evidence_matches w id attempt evidence) persistence_error
  require (artifact.artifact_version == suc old.latest_artifact_version) workflow_conflict
  stored ← or_raise persistence_error (insert_artifact artifact rows)
  require ((attempt.workflow_id == w) && (event.workflow_id == w)) persistence_error
  ok stored

abbrev pub evidence_id : Option Proof → Option ℕ
evidence_id none = none
evidence_id (some proof) = some proof.1.artifact_id

abbrev pub latest_version : MigrationWorkflow → Option Proof → ℕ
latest_version old none = old.latest_artifact_version
latest_version old (some proof) = proof.1.artifact_version

abbrev pub event_of : Option Proof → Option MigrationAuditEvent
event_of none = none
event_of (some proof) = some proof.2

abbrev pub artifact_of : Option Proof → Option WorkflowArtifact
artifact_of none = none
artifact_of (some proof) = some proof.1

abbrev pub finish_attempt :
    WorkflowTransportAttemptStatus
    → ℕ
    → Option ℕ
    → Option Text
    → WorkflowTransportAttempt
    → WorkflowTransportAttempt
finish_attempt terminal at evidence failure a = record a {
  status = terminal;
  completed_at = some at;
  evidence_artifact_id = evidence;
  failure_category = failure;
}

-- The columns of the workflow that a completion writes.
abbrev pub with_outcome : WorkflowStatus → ℕ → ℕ → ℕ → MigrationWorkflow → MigrationWorkflow
with_outcome status version at latest w = record w {
  status = status;
  version = version;
  updated_at = at;
  latest_artifact_version = latest;
}

-- The writes of a completion, once the workflow and the attempt are found to wait for it.
unfoldable pub write_outcome :
    ℕ
    → ℕ
    → ℕ
    → MigrationWorkflow
    → WorkflowTransportAttempt
    → Option Proof
    → WorkflowTransportAttemptStatus
    → WorkflowStatus
    → MigrationAuditEvent
    → ℕ
    → Option Text
    → Store
    → Outcome ((MigrationWorkflow × WorkflowTransportAttempt × Option WorkflowArtifact) × Store)
write_outcome w expected id old attempt proof terminal new event at failure s = do
  stored ← store_evidence w id old attempt proof s.artifacts
  rows ← or_raise workflow_conflict (
      update transport_kind.key id (λ r. is_running r.status)
        (finish_attempt terminal at (evidence_id proof) failure) s.attempts.transports)
  logged ←
      write_workflow w expected (with_outcome new (suc old.version) at (latest_version old proof))
        (event_of proof) event (suc old.version)
        (record (with_transports s rows) { artifacts = stored })
  updated ← load_row transport_kind (finish_attempt terminal at (evidence_id proof) failure attempt)
  result ← load_workflow (with_outcome new (suc old.version) at (latest_version old proof) old)
  ok ((result, updated, artifact_of proof), logged)

unfoldable pub settle :
    ℕ
    → ℕ
    → ℕ
    → Option Proof
    → WorkflowTransportAttemptStatus
    → WorkflowStatus
    → MigrationAuditEvent
    → ℕ
    → Option Text
    → Store
    → Outcome ((MigrationWorkflow × WorkflowTransportAttempt × Option WorkflowArtifact) × Store)
settle w expected id proof terminal new event at failure s = do
  row ← or_raise workflow_not_found (find_workflow w s)
  old ← load_workflow row
  require ((old.version == expected) && same_status old.status staging) workflow_conflict
  held ← or_raise workflow_not_found (find transport_kind.key id s.attempts.transports)
  attempt ← load_row transport_kind held
  require (is_running attempt.status) workflow_conflict
  write_outcome w expected id old attempt proof terminal new event at failure s

unfoldable pub complete_transport_attempt :
    ℕ
    → ℕ
    → ℕ
    → Option WorkflowTransportEvidence
    → Option WorkflowArtifact
    → Option MigrationAuditEvent
    → WorkflowStatus
    → MigrationAuditEvent
    → ℕ
    → Option Text
    → Store
    → Outcome ((MigrationWorkflow × WorkflowTransportAttempt × Option WorkflowArtifact) × Store)
complete_transport_attempt w expected id evidence artifact artifact_event new event at failure s =
    do
      proof ← bundle evidence artifact artifact_event
      terminal ← terminal_of new proof failure
      require
          ((event.workflow_id == w)
            && (holds_status staging event.previous_status && holds_status new event.new_status))
          persistence_error
      require (artifact_matches w proof) persistence_error
      settle w expected id proof terminal new event at failure s
