-- ===== src/Repository/Workflows.antt =====
-- PostgreSQLWorkflowRepository: the transactions on workflows, artifacts and audit events.
pub mod Write
pub mod Effects
pub mod Results
pub mod Replays
pub mod Guards
use schemabridge.Base.{
  ℕ, suc, ◌+◌, Bool, true, false, not, ◌&&◌, ◌||◌, Option, none, some, List, [], ◌∷◌, leb, ◌==◌,
  if◌then◌else◌, any, is_none,
}
use schemabridge.Base.Text.{Text, text_eq, valid_hash}
use schemabridge.Base.Outcome.{
  Outcome, ok, raise, ◌>>=◌, ◌>>◌, require, workflow_not_found, workflow_conflict,
  invalid_workflow_transition, persistence_error, artifact_validation,
}
use schemabridge.Base.Table.{find, update, insert}
use schemabridge.Model.Status.{WorkflowStatus, same_status}
use schemabridge.Model.Workflow.{
  MigrationWorkflow, WorkflowArtifact, ArtifactType, same_artifact_type,
}
use schemabridge.Model.Event.{MigrationAuditEvent}
use schemabridge.Repository.Store.{
  Store, IdempotencyRow, create_scope, status_scope, artifact_scope, orchestration_scope,
  workflow_key, artifact_key, find_workflow, or_raise, load_workflow, recorded, insert_event,
  insert_idempotency,
}

-- What the repository uses and does not implement: SHA-256 in hexadecimal, and the bytes that
-- come back from a JSONB column when its value is made canonical again.
pub record Platform : Type 0 where
  pub sha256 : List ℕ → Text
  pub reread : List ℕ → List ℕ

-- WorkflowArtifact.__post_init__
unfoldable pub valid_artifact : (List ℕ → Text) → WorkflowArtifact → Bool
valid_artifact sha256 a =
    leb 1 a.artifact_version
    && (leb 1 a.schema_version
        && (valid_hash a.payload_sha256 && text_eq (sha256 a.payload) a.payload_sha256))

-- The UNIQUE constraints of migration_workflow_artifacts: the identifier, and the version within
-- the workflow.
unfoldable pub insert_artifact :
    WorkflowArtifact → List WorkflowArtifact → Option (List WorkflowArtifact)
insert_artifact a as_rows =
    if any (λ x. (x.workflow_id == a.workflow_id) && (x.artifact_version == a.artifact_version))
      as_rows
    then none
    else insert artifact_key a as_rows

-- create_workflow
unfoldable pub replay_created : IdempotencyRow → Store → Outcome (MigrationWorkflow × Store)
replay_created r s = do
  row ← or_raise persistence_error (find_workflow r.workflow_id s)
  workflow ← load_workflow row
  ok (workflow, s)

unfoldable pub insert_workflow :
    MigrationWorkflow
    → MigrationAuditEvent
    → Text
    → Text
    → Store
    → Outcome (MigrationWorkflow × Store)
insert_workflow workflow event key digest s = do
  rows ← or_raise persistence_error (insert workflow_key workflow s.workflows)
  logged ← insert_event event workflow.version (record s { workflows = rows })
  ok (
    workflow,
    insert_idempotency create_scope key digest workflow.workflow_id workflow.workflow_id logged,
  )

create_or_replay :
    Option IdempotencyRow
    → MigrationWorkflow
    → MigrationAuditEvent
    → Text
    → Text
    → Store
    → Outcome (MigrationWorkflow × Store)
unfolding replay_created insert_workflow
create_or_replay none workflow event key digest s = insert_workflow workflow event key digest s
create_or_replay (some r) workflow event key digest s = replay_created r s

unfoldable pub create_workflow :
    MigrationWorkflow
    → MigrationAuditEvent
    → Text
    → Text
    → Store
    → Outcome (MigrationWorkflow × Store)
unfolding create_or_replay
create_workflow workflow event key digest s = do
  require (event.workflow_id == workflow.workflow_id) persistence_error
  replay ← recorded create_scope key digest s
  create_or_replay replay workflow event key digest s

-- transition_status
unfoldable pub reread_workflow : ℕ → Store → Outcome (MigrationWorkflow × Store)
reread_workflow workflow_id s = do
  row ← or_raise persistence_error (find_workflow workflow_id s)
  workflow ← load_workflow row
  ok (workflow, s)

-- The columns that a status change writes.
abbrev pub with_status :
    WorkflowStatus → ℕ → ℕ → Option Text → MigrationWorkflow → MigrationWorkflow
with_status new version at error w = record w {
  status = new;
  version = version;
  updated_at = at;
  last_error_code = error;
}

unfoldable pub apply_transition :
    ℕ
    → ℕ
    → WorkflowStatus
    → MigrationAuditEvent
    → Option Text
    → Text
    → Text
    → Store
    → Outcome (MigrationWorkflow × Store)
apply_transition workflow_id expected new event error key digest s = do
  row ← or_raise workflow_not_found (find_workflow workflow_id s)
  old ← load_workflow row
  require (old.version == expected) workflow_conflict
  require (not (same_status old.status new)) invalid_workflow_transition
  rows ← or_raise workflow_conflict (
      update workflow_key workflow_id (λ r. r.version == expected)
        (with_status new (suc old.version) event.occurred_at error) s.workflows)
  logged ← insert_event event (suc old.version) (record s { workflows = rows })
  result ← load_workflow (with_status new (suc old.version) event.occurred_at error old)
  ok (
    result,
    insert_idempotency (status_scope workflow_id) key digest workflow_id workflow_id logged,
  )

transition_or_replay :
    Option IdempotencyRow
    → ℕ
    → ℕ
    → WorkflowStatus
    → MigrationAuditEvent
    → Option Text
    → Text
    → Text
    → Store
    → Outcome (MigrationWorkflow × Store)
unfolding reread_workflow apply_transition
transition_or_replay none workflow_id expected new event error key digest s =
    apply_transition workflow_id expected new event error key digest s
transition_or_replay (some r) workflow_id expected new event error key digest s =
    reread_workflow workflow_id s

unfoldable pub transition_status :
    ℕ
    → ℕ
    → WorkflowStatus
    → MigrationAuditEvent
    → Option Text
    → Text
    → Text
    → Store
    → Outcome (MigrationWorkflow × Store)
unfolding transition_or_replay
transition_status workflow_id expected new event error key digest s = do
  require (event.workflow_id == workflow_id) persistence_error
  replay ← recorded (status_scope workflow_id) key digest s
  transition_or_replay replay workflow_id expected new event error key digest s

-- append_artifact and append_artifact_operation
module _ (platform : Platform) where
  -- `_artifact(row)`
  unfoldable pub load_artifact : WorkflowArtifact → Outcome WorkflowArtifact
  unfolding valid_artifact
  load_artifact a =
      let b = record a { payload = platform.reread a.payload } in
      if valid_artifact platform.sha256 b then ok b else raise persistence_error

  unfoldable pub replay_artifact :
      ℕ → IdempotencyRow → Store → Outcome ((MigrationWorkflow × WorkflowArtifact) × Store)
  replay_artifact workflow_id r s = do
    row ← or_raise persistence_error (find_workflow workflow_id s)
    workflow ← load_workflow row
    stored ← or_raise persistence_error (find artifact_key r.result_reference s.artifacts)
    artifact ← load_artifact stored
    ok ((workflow, artifact), s)

unfoldable pub names_id : Option ℕ → ℕ → Bool
names_id none i = false
names_id (some j) i = j == i

names_type : Option ArtifactType → ArtifactType → Bool
names_type none k = false
names_type (some l) k = same_artifact_type l k

-- `event.artifact_id == artifact.artifact_id`, and the same type
unfoldable pub names_artifact : MigrationAuditEvent → WorkflowArtifact → Bool
unfolding names_id names_type
names_artifact e a =
    names_id e.artifact_id a.artifact_id && names_type e.artifact_type a.artifact_type

-- The columns that an append writes, with the status as it stands or the new one.
abbrev pub with_artifact :
    WorkflowStatus → ℕ → WorkflowArtifact → MigrationWorkflow → MigrationWorkflow
with_artifact status version a w = record w {
  status = status;
  version = version;
  updated_at = a.created_at;
  latest_artifact_version = a.artifact_version;
}

abbrev pub keep_artifact : WorkflowArtifact → ℕ → MigrationWorkflow → MigrationWorkflow
keep_artifact a version w = record w {
  version = version;
  updated_at = a.created_at;
  latest_artifact_version = a.artifact_version;
}

unfoldable pub apply_append :
    ℕ
    → ℕ
    → WorkflowArtifact
    → MigrationAuditEvent
    → Text
    → Text
    → Store
    → Outcome ((MigrationWorkflow × WorkflowArtifact) × Store)
apply_append workflow_id expected a event key digest s = do
  row ← or_raise workflow_not_found (find_workflow workflow_id s)
  old ← load_workflow row
  require ((old.version == expected) && (a.artifact_version == suc old.latest_artifact_version))
      workflow_conflict
  stored ← or_raise persistence_error (insert_artifact a s.artifacts)
  rows ← or_raise workflow_conflict (
      update workflow_key workflow_id (λ r. r.version == expected)
        (keep_artifact a (suc old.version)) s.workflows)
  logged ← insert_event event (suc old.version) (record s { workflows = rows; artifacts = stored })
  result ← load_workflow (keep_artifact a (suc old.version) old)
  ok (
    (result, a),
    insert_idempotency (artifact_scope workflow_id) key digest workflow_id a.artifact_id logged,
  )

append_or_replay :
    Platform
    → Option IdempotencyRow
    → ℕ
    → ℕ
    → WorkflowArtifact
    → MigrationAuditEvent
    → Text
    → Text
    → Store
    → Outcome ((MigrationWorkflow × WorkflowArtifact) × Store)
unfolding replay_artifact apply_append
append_or_replay p none workflow_id expected a event key digest s =
    apply_append workflow_id expected a event key digest s
append_or_replay p (some r) workflow_id expected a event key digest s =
    replay_artifact p workflow_id r s

unfoldable pub append_artifact :
    Platform
    → ℕ
    → ℕ
    → WorkflowArtifact
    → MigrationAuditEvent
    → Text
    → Text
    → Store
    → Outcome ((MigrationWorkflow × WorkflowArtifact) × Store)
unfolding append_or_replay
append_artifact p workflow_id expected a event key digest s = do
  require (a.workflow_id == workflow_id) artifact_validation
  require ((event.workflow_id == workflow_id) && names_artifact event a) persistence_error
  replay ← recorded (artifact_scope workflow_id) key digest s
  append_or_replay p replay workflow_id expected a event key digest s

-- `new_status or old.status`
abbrev pub or_else : Option WorkflowStatus → WorkflowStatus → WorkflowStatus
or_else none old = old
or_else (some new) old = new

abbrev pub insert_optional_event : Option MigrationAuditEvent → ℕ → Store → Outcome Store
insert_optional_event none version s = ok s
insert_optional_event (some e) version s = insert_event e version s

abbrev pub optional_event_of : ℕ → Option MigrationAuditEvent → Bool
optional_event_of workflow_id none = true
optional_event_of workflow_id (some e) = e.workflow_id == workflow_id

unfoldable pub apply_operation :
    ℕ
    → ℕ
    → WorkflowArtifact
    → MigrationAuditEvent
    → Option WorkflowStatus
    → Option MigrationAuditEvent
    → Text
    → Text
    → Store
    → Outcome ((MigrationWorkflow × WorkflowArtifact) × Store)
apply_operation workflow_id expected a event new transition key digest s = do
  row ← or_raise workflow_not_found (find_workflow workflow_id s)
  old ← load_workflow row
  require ((old.version == expected) && (a.artifact_version == suc old.latest_artifact_version))
      workflow_conflict
  stored ← or_raise persistence_error (insert_artifact a s.artifacts)
  rows ← or_raise workflow_conflict (
      update workflow_key workflow_id (λ r. r.version == expected)
        (with_artifact (or_else new old.status) (suc old.version) a) s.workflows)
  logged ← insert_event event (suc old.version) (record s { workflows = rows; artifacts = stored })
  moved ← insert_optional_event transition (suc old.version) logged
  result ← load_workflow (with_artifact (or_else new old.status) (suc old.version) a old)
  ok (
    (result, a),
    insert_idempotency (orchestration_scope workflow_id a.artifact_type) key digest workflow_id
        a.artifact_id moved,
  )

operation_or_replay :
    Platform
    → Option IdempotencyRow
    → ℕ
    → ℕ
    → WorkflowArtifact
    → MigrationAuditEvent
    → Option WorkflowStatus
    → Option MigrationAuditEvent
    → Text
    → Text
    → Store
    → Outcome ((MigrationWorkflow × WorkflowArtifact) × Store)
unfolding replay_artifact apply_operation
operation_or_replay p none workflow_id expected a event new transition key digest s =
    apply_operation workflow_id expected a event new transition key digest s
operation_or_replay p (some r) workflow_id expected a event new transition key digest s =
    replay_artifact p workflow_id r s

abbrev pub both_or_neither : Option WorkflowStatus → Option MigrationAuditEvent → Bool
both_or_neither none none = true
both_or_neither (some s) (some e) = true
both_or_neither _ _ = false

unfoldable pub append_artifact_operation :
    Platform
    → ℕ
    → ℕ
    → WorkflowArtifact
    → MigrationAuditEvent
    → Option WorkflowStatus
    → Option MigrationAuditEvent
    → Text
    → Text
    → Store
    → Outcome ((MigrationWorkflow × WorkflowArtifact) × Store)
unfolding operation_or_replay
append_artifact_operation p workflow_id expected a event new transition key digest s = do
  require (a.workflow_id == workflow_id) artifact_validation
  require ((event.workflow_id == workflow_id) && names_artifact event a) persistence_error
  require (both_or_neither new transition) persistence_error
  require (optional_event_of workflow_id transition) persistence_error
  replay ← recorded (orchestration_scope workflow_id a.artifact_type) key digest s
  operation_or_replay p replay workflow_id expected a event new transition key digest s
