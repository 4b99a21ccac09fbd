-- ===== src/Repository/Store.antt =====
-- PostgreSQLWorkflowRepository: the tables, and the helpers `_idem`, `_insert_idem` and
-- `_insert_event`. A row holds the fields of its model; to read it is to validate it again.
use schemabridge.Base.{
  ℕ, suc, max, ◌≡◌, refl, Bool, true, false, ◌&&◌, Option, none, some, List, [], ◌∷◌, ◌==◌,
  if◌then◌else◌, arith, any, Bool-cases, inl, inr,
}
use schemabridge.Base.Text.{Text, text_eq, eq_of_text_eq}
use schemabridge.Base.Outcome.{Outcome, ok, raise, Error, persistence_error, idempotency_conflict}
use schemabridge.Base.Table
use schemabridge.Model.Workflow.{
  MigrationWorkflow, WorkflowArtifact, ArtifactType, artifact_type_index, valid_workflow,
  artifact_type_index-injective,
}
use schemabridge.Model.Event.{MigrationAuditEvent}
use schemabridge.Model.Job.{MigrationJob, valid_job}
use schemabridge.Model.Attempt.Transport.{WorkflowTransportAttempt}
use schemabridge.Model.Attempt.Execution.{MigrationExecutionAttempt}
use schemabridge.Model.Attempt.Validation.{WorkflowValidationRun}

-- The text of a command scope: "CREATE", "<workflow>:STATUS", "<workflow>:ARTIFACT",
-- "<workflow>:ORCHESTRATION:<type>", "<workflow>:MIGRATION_JOB", "<workflow>:TRANSPORT",
-- "<workflow>:EXECUTION" and "<workflow>:VALIDATION".
pub data Scope : Type 0 where
  create_scope : Scope
  status_scope : ℕ → Scope
  artifact_scope : ℕ → Scope
  orchestration_scope : ℕ → ArtifactType → Scope
  migration_job_scope : ℕ → Scope
  transport_scope : ℕ → Scope
  execution_scope : ℕ → Scope
  validation_scope : ℕ → Scope

unfoldable pub same_scope : Scope → Scope → Bool
same_scope create_scope create_scope = true
same_scope (status_scope a) (status_scope b) = a == b
same_scope (artifact_scope a) (artifact_scope b) = a == b
same_scope (orchestration_scope a k) (orchestration_scope b l) =
    (a == b) && (artifact_type_index k == artifact_type_index l)
same_scope (migration_job_scope a) (migration_job_scope b) = a == b
same_scope (transport_scope a) (transport_scope b) = a == b
same_scope (execution_scope a) (execution_scope b) = a == b
same_scope (validation_scope a) (validation_scope b) = a == b
same_scope _ _ = false

-- A row of migration_idempotency.
pub record IdempotencyRow : Type 0 where
  pub command_scope : Scope
  pub idempotency_key : Text
  pub request_sha256 : Text
  pub workflow_id : ℕ
  pub result_reference : ℕ

-- The tables migration_transport_attempts, migration_execution_attempts and
-- migration_validation_runs.
pub record Attempts : Type 0 where
  pub transports : List WorkflowTransportAttempt
  pub executions : List MigrationExecutionAttempt
  pub validations : List WorkflowValidationRun

pub record Store : Type 0 where
  pub workflows : List MigrationWorkflow
  pub artifacts : List WorkflowArtifact
  pub events : List MigrationAuditEvent
  pub idempotency : List IdempotencyRow
  pub jobs : List MigrationJob
  pub attempts : Attempts

abbrev pub workflow_key : MigrationWorkflow → ℕ
workflow_key w = w.workflow_id

abbrev pub artifact_key : WorkflowArtifact → ℕ
artifact_key a = a.artifact_id

abbrev pub job_key : MigrationJob → ℕ
job_key j = j.job_id

abbrev pub find_workflow : ℕ → Store → Option MigrationWorkflow
find_workflow k s = Table.find workflow_key k s.workflows

abbrev pub find_job : ℕ → Store → Option MigrationJob
find_job k s = Table.find job_key k s.jobs

-- A missing row, or a row count other than 1.
abbrev pub or_raise {ℓ} : {A : Type ℓ} → Error → Option A → Outcome A
or_raise e none = raise e
or_raise e (some a) = ok a

-- `_workflow(row)` and `_migration_job(row)`: a row that fails validation is a ValueError, which
-- the repository turns into WorkflowPersistenceError.
unfoldable pub load_workflow : MigrationWorkflow → Outcome MigrationWorkflow
load_workflow w = if valid_workflow w then ok w else raise persistence_error

unfoldable pub load_job : MigrationJob → Outcome MigrationJob
load_job j = if valid_job j then ok j else raise persistence_error

-- SELECT ... FROM migration_idempotency WHERE command_scope = ... AND idempotency_key = ...
unfoldable pub find_idempotency : Scope → Text → List IdempotencyRow → Option IdempotencyRow
find_idempotency scope key [] = none
find_idempotency scope key (r ∷ rs) =
    if same_scope r.command_scope scope && text_eq r.idempotency_key key
    then some r
    else find_idempotency scope key rs

check_digest : Text → Option IdempotencyRow → Outcome (Option IdempotencyRow)
check_digest digest none = ok none
check_digest digest (some r) =
    if text_eq r.request_sha256 digest then ok (some r) else raise idempotency_conflict

-- `_idem`: the recorded result of the command, none for a new one, and an error when the key was
-- used for another request.
unfoldable pub recorded : Scope → Text → Text → Store → Outcome (Option IdempotencyRow)
unfolding check_digest
recorded scope key digest s = check_digest digest (find_idempotency scope key s.idempotency)

-- COALESCE(MAX(sequence_number), 0) over the events of a workflow.
unfoldable pub last_sequence : ℕ → List MigrationAuditEvent → ℕ
last_sequence w [] = 0
last_sequence w (e ∷ es) =
    if e.workflow_id == w then max e.sequence_number (last_sequence w es) else last_sequence w es

-- The row that `_insert_event` writes: the next number of the workflow, and the version after the
-- change.
abbrev pub numbered : MigrationAuditEvent → ℕ → List MigrationAuditEvent → MigrationAuditEvent
numbered e version es = record e {
  sequence_number = suc (last_sequence e.workflow_id es);
  workflow_version = version;
}

-- `_insert_event`; the column event_id is UNIQUE.
unfoldable pub insert_event : MigrationAuditEvent → ℕ → Store → Outcome Store
insert_event e version s =
    if any (λ x. x.event_id == e.event_id) s.events
    then raise persistence_error
    else ok (record s { events = numbered e version s.events ∷ s.events })

abbrev pub result_row : Scope → Text → Text → ℕ → ℕ → IdempotencyRow
result_row scope key digest workflow result = record {
  command_scope = scope;
  idempotency_key = key;
  request_sha256 = digest;
  workflow_id = workflow;
  result_reference = result;
}

-- `_insert_idem`
unfoldable pub insert_idempotency : Scope → Text → Text → ℕ → ℕ → Store → Store
insert_idempotency scope key digest workflow result s = record s {
  idempotency = result_row scope key digest workflow result ∷ s.idempotency;
}

pub or_raise-eq-ok {ℓ} :
    {A : Type ℓ} (e : Error) (o : Option A) {a : A} → or_raise e o ≡ ok a → o ≡ some a
or_raise-eq-ok e none h = cc
or_raise-eq-ok e (some x) h = cc

pub load_job-eq-ok : (j k : MigrationJob) → load_job j ≡ ok k → (valid_job j ≡ true) × (j ≡ k)
unfolding load_job
load_job-eq-ok j k h = ground arith

pub load_workflow-eq-ok :
    (w v : MigrationWorkflow) → load_workflow w ≡ ok v → (valid_workflow w ≡ true) × (w ≡ v)
unfolding load_workflow
load_workflow-eq-ok w v h = ground arith

pub insert_event-eq-ok :
    (e : MigrationAuditEvent) (v : ℕ) (s : Store) {t : Store}
    → insert_event e v s ≡ ok t
    → t ≡ record s { events = numbered e v s.events ∷ s.events }
unfolding insert_event
insert_event-eq-ok e v s h = ground arith

-- `_idem` reports nothing only for a key without a row, and a row only if its digest is the same.
pub recorded-none :
    (scope : Scope) (key digest : Text) (s : Store)
    → recorded scope key digest s ≡ ok none
    → find_idempotency scope key s.idempotency ≡ none
unfolding recorded
recorded-none scope key digest s h = ground arith

pub recorded-some :
    (scope : Scope) (key digest : Text) (s : Store) (r : IdempotencyRow)
    → find_idempotency scope key s.idempotency ≡ some r
    → text_eq r.request_sha256 digest ≡ true
    → recorded scope key digest s ≡ ok (some r)
unfolding recorded
recorded-some scope key digest s r h q = ground arith

pub same_scope_refl : (x : Scope) → same_scope x x ≡ true
unfolding same_scope
same_scope_refl create_scope = refl
same_scope_refl (status_scope a) = ground arith
same_scope_refl (artifact_scope a) = ground arith
same_scope_refl (orchestration_scope a k) = ground arith
same_scope_refl (migration_job_scope a) = ground arith
same_scope_refl (transport_scope a) = ground arith
same_scope_refl (execution_scope a) = ground arith
same_scope_refl (validation_scope a) = ground arith

pub eq_of_same_scope : (x y : Scope) → same_scope x y ≡ true → x ≡ y
unfolding same_scope
eq_of_same_scope create_scope create_scope h = refl
eq_of_same_scope (status_scope a) (status_scope b) h = ground arith
eq_of_same_scope (artifact_scope a) (artifact_scope b) h = ground arith
eq_of_same_scope (orchestration_scope a k) (orchestration_scope b l) h =
    ground (arith, artifact_type_index-injective k l)
eq_of_same_scope (migration_job_scope a) (migration_job_scope b) h = ground arith
eq_of_same_scope (transport_scope a) (transport_scope b) h = ground arith
eq_of_same_scope (execution_scope a) (execution_scope b) h = ground arith
eq_of_same_scope (validation_scope a) (validation_scope b) h = ground arith
eq_of_same_scope _ _ h = cc

-- A row put under a free key hides no other row.
pub find_idempotency-cons :
    (x : Scope) (key : Text) (row r : IdempotencyRow) (rows : List IdempotencyRow)
    → find_idempotency row.command_scope row.idempotency_key rows ≡ none
    → find_idempotency x key rows ≡ some r
    → find_idempotency x key (row ∷ rows) ≡ some r
unfolding find_idempotency
find_idempotency-cons x key row r rows free h =
    elim (Bool-cases (same_scope row.command_scope x && text_eq row.idempotency_key key)) [
      | inl hit ↦ absurd (
          ground
            (arith, eq_of_same_scope row.command_scope x, eq_of_text_eq row.idempotency_key key))
      | inr miss ↦ rw miss h
    ]
