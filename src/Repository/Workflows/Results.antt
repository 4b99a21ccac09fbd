-- ===== src/Repository/Workflows/Results.antt =====
-- A transaction on workflows that succeeds either repeats a recorded command, and changes nothing,
-- or is a `Write` under a key that was free.
use schemabridge.Base.{
  ℕ, ◌≡◌, ◌⊎◌, inl, inr, true, ◌&&◌, Option, none, some, ◌∷◌, ◌==◌, and_left, ==_iff, arith,
}
use schemabridge.Base.Text.{Text}
use schemabridge.Base.Outcome.{
  ok, >>=-eq-ok, require, require-eq-ok, persistence_error, artifact_validation,
}
use schemabridge.Base.Table.{insert, insert_inv}
use schemabridge.Model.Status.{WorkflowStatus}
use schemabridge.Model.Workflow.{MigrationWorkflow, WorkflowArtifact}
use schemabridge.Model.Event.{MigrationAuditEvent}
use schemabridge.Repository.Store.{
  Store, Scope, IdempotencyRow, create_scope, status_scope, artifact_scope, orchestration_scope,
  workflow_key, find_workflow, or_raise, or_raise-eq-ok, recorded, recorded-none, find_idempotency,
  insert_event, insert_event-eq-ok, insert_idempotency, result_row,
}
use schemabridge.Repository.Workflows.{
  Platform, create_workflow, create_or_replay, insert_workflow, replay_created, transition_status,
  transition_or_replay, reread_workflow, append_artifact, append_or_replay, replay_artifact,
  names_artifact, append_artifact_operation, operation_or_replay, both_or_neither,
  optional_event_of,
}
use schemabridge.Repository.Workflows.Write.{Logged, first, Recording}
use schemabridge.Repository.Workflows.Effects.{
  apply_transition-Write, apply_append-Write, apply_operation-Write,
}

abbrev pub IsFree : Scope → Text → Store → Type 0
IsFree scope key s = find_idempotency scope key s.idempotency ≡ none

-- A new workflow with its first event and its recorded result.
pub record Created (w : MigrationWorkflow) (row : IdempotencyRow) (s t : Store) : Type 0 where
  pub fresh : find_workflow w.workflow_id s ≡ none
  pub workflows : t.workflows ≡ w ∷ s.workflows
  pub artifacts : t.artifacts ≡ s.artifacts
  pub events : Logged w.workflow_id w.version s.events t.events
  pub jobs : t.jobs ≡ s.jobs
  pub idempotency : t.idempotency ≡ row ∷ s.idempotency
  pub attempts : t.attempts ≡ s.attempts

insert_workflow-Created :
    (w : MigrationWorkflow) (e : MigrationAuditEvent) (key digest : Text) (s t : Store)
    → e.workflow_id ≡ w.workflow_id
    → {r : MigrationWorkflow} → insert_workflow w e key digest s ≡ ok (r, t)
    → Created w (result_row create_scope key digest w.workflow_id w.workflow_id) s t
unfolding insert_workflow insert_idempotency
insert_workflow-Created w e key digest s t own {r} h =
    let (rows, i, h₁) =
      >>=-eq-ok (or_raise persistence_error (insert workflow_key w s.workflows)) _ h in
    let (fresh, z) =
      insert_inv workflow_key w s.workflows rows (or_raise-eq-ok persistence_error _ i) in
    let (logged, l, h₂) =
      >>=-eq-ok (insert_event e w.version (record s { workflows = rows })) _ h₁ in
    let log = insert_event-eq-ok e w.version (record s { workflows = rows }) l in
    record {
      fresh = fresh;
      workflows = ground arith;
      artifacts = ground arith;
      events = first e own (ground arith);
      jobs = ground arith;
      idempotency = ground arith;
      attempts = ground arith;
    }

replay_created_same :
    (row : IdempotencyRow) (s t : Store) {r : MigrationWorkflow}
    → replay_created row s ≡ ok (r, t)
    → t ≡ s
unfolding replay_created
replay_created_same row s t h = ground arith

reread_same :
    (w : ℕ) (s t : Store) {r : MigrationWorkflow} → reread_workflow w s ≡ ok (r, t) → t ≡ s
unfolding reread_workflow
reread_same w s t h = ground arith

replay_artifact_same :
    (p : Platform) (w : ℕ) (row : IdempotencyRow) (s t : Store)
    {r : MigrationWorkflow × WorkflowArtifact}
    → replay_artifact p w row s ≡ ok (r, t)
    → t ≡ s
unfolding replay_artifact
replay_artifact_same p w row s t h = ground arith

create_branches :
    (o : Option IdempotencyRow) (w : MigrationWorkflow) (e : MigrationAuditEvent)
    (key digest : Text) (s t : Store)
    → e.workflow_id ≡ w.workflow_id
    → recorded create_scope key digest s ≡ ok o
    → {r : MigrationWorkflow} → create_or_replay o w e key digest s ≡ ok (r, t)
    → (t ≡ s)
      ⊎ (Created w (result_row create_scope key digest w.workflow_id w.workflow_id) s t
          × IsFree create_scope key s)
unfolding create_or_replay
create_branches none w e key digest s t own q h =
    inr
      (insert_workflow-Created w e key digest s t own h, recorded-none create_scope key digest s q)
create_branches (some row) w e key digest s t own q h = inl (replay_created_same row s t h)

pub create_workflow_result :
    (w : MigrationWorkflow) (e : MigrationAuditEvent) (key digest : Text) (s t : Store)
    {r : MigrationWorkflow}
    → create_workflow w e key digest s ≡ ok (r, t)
    → (t ≡ s)
      ⊎ (Created w (result_row create_scope key digest w.workflow_id w.workflow_id) s t
          × IsFree create_scope key s)
unfolding create_workflow
create_workflow_result w e key digest s t h =
    let (_, own, h₁) = >>=-eq-ok (require (e.workflow_id == w.workflow_id) persistence_error) _ h in
    let (o, q, h₂) = >>=-eq-ok (recorded create_scope key digest s) _ h₁ in
    create_branches o w e key digest s t ((==_iff _ _).0 (require-eq-ok _ persistence_error own)) q
      h₂

transition_branches :
    (o : Option IdempotencyRow) (w v : ℕ) (new : WorkflowStatus) (e : MigrationAuditEvent)
    (error : Option Text) (key digest : Text) (s t : Store)
    → e.workflow_id ≡ w
    → recorded (status_scope w) key digest s ≡ ok o
    → {r : MigrationWorkflow} → transition_or_replay o w v new e error key digest s ≡ ok (r, t)
    → (t ≡ s)
      ⊎ (Recording w (result_row (status_scope w) key digest w w) s t
          × IsFree (status_scope w) key s)
unfolding transition_or_replay
transition_branches none w v new e error key digest s t own q h = inr (
  apply_transition-Write w v new e error key digest s own h,
  recorded-none (status_scope w) key digest s q,
)
transition_branches (some row) w v new e error key digest s t own q h = inl (reread_same w s t h)

pub transition_status_result :
    (w v : ℕ) (new : WorkflowStatus) (e : MigrationAuditEvent) (error : Option Text)
    (key digest : Text) (s t : Store) {r : MigrationWorkflow}
    → transition_status w v new e error key digest s ≡ ok (r, t)
    → (t ≡ s)
      ⊎ (Recording w (result_row (status_scope w) key digest w w) s t
          × IsFree (status_scope w) key s)
unfolding transition_status
transition_status_result w v new e error key digest s t h =
    let (_, own, h₁) = >>=-eq-ok (require (e.workflow_id == w) persistence_error) _ h in
    let (o, q, h₂) = >>=-eq-ok (recorded (status_scope w) key digest s) _ h₁ in
    transition_branches o w v new e error key digest s t
      ((==_iff _ _).0 (require-eq-ok _ persistence_error own)) q h₂

append_branches :
    (p : Platform) (o : Option IdempotencyRow) (w v : ℕ) (a : WorkflowArtifact)
    (e : MigrationAuditEvent) (key digest : Text) (s t : Store)
    → a.workflow_id ≡ w
    → e.workflow_id ≡ w
    → recorded (artifact_scope w) key digest s ≡ ok o
    → {r : MigrationWorkflow × WorkflowArtifact}
    → append_or_replay p o w v a e key digest s ≡ ok (r, t)
    → (t ≡ s)
      ⊎ (Recording w (result_row (artifact_scope w) key digest w a.artifact_id) s t
          × IsFree (artifact_scope w) key s)
unfolding append_or_replay
append_branches p none w v a e key digest s t mine own q h = inr (
  apply_append-Write w v a e key digest s mine own h,
  recorded-none (artifact_scope w) key digest s q,
)
append_branches p (some row) w v a e key digest s t mine own q h =
    inl (replay_artifact_same p w row s t h)

pub append_artifact_result :
    (p : Platform) (w v : ℕ) (a : WorkflowArtifact) (e : MigrationAuditEvent) (key digest : Text)
    (s t : Store) {r : MigrationWorkflow × WorkflowArtifact}
    → append_artifact p w v a e key digest s ≡ ok (r, t)
    → (t ≡ s)
      ⊎ (Recording w (result_row (artifact_scope w) key digest w a.artifact_id) s t
          × IsFree (artifact_scope w) key s)
unfolding append_artifact
append_artifact_result p w v a e key digest s t h =
    let (_, mine, h₁) = >>=-eq-ok (require (a.workflow_id == w) artifact_validation) _ h in
    let (_, own, h₂) =
      >>=-eq-ok (require ((e.workflow_id == w) && names_artifact e a) persistence_error) _ h₁ in
    let (o, q, h₃) = >>=-eq-ok (recorded (artifact_scope w) key digest s) _ h₂ in
    append_branches p o w v a e key digest s t
      ((==_iff _ _).0 (require-eq-ok _ artifact_validation mine))
      ((==_iff _ _).0 (and_left _ (names_artifact e a) (require-eq-ok _ persistence_error own))) q
      h₃

operation_branches :
    (p : Platform) (o : Option IdempotencyRow) (w v : ℕ) (a : WorkflowArtifact)
    (e : MigrationAuditEvent) (new : Option WorkflowStatus) (f : Option MigrationAuditEvent)
    (key digest : Text) (s t : Store)
    → a.workflow_id ≡ w
    → e.workflow_id ≡ w
    → optional_event_of w f ≡ true
    → recorded (orchestration_scope w a.artifact_type) key digest s ≡ ok o
    → {r : MigrationWorkflow × WorkflowArtifact}
    → operation_or_replay p o w v a e new f key digest s ≡ ok (r, t)
    → (t ≡ s)
      ⊎ (Recording w
            (result_row (orchestration_scope w a.artifact_type) key digest w a.artifact_id)
            s
            t
          × IsFree (orchestration_scope w a.artifact_type) key s)
unfolding operation_or_replay
operation_branches p none w v a e new f key digest s t mine own second q h = inr (
  apply_operation-Write w v a e new f key digest s mine own second h,
  recorded-none (orchestration_scope w a.artifact_type) key digest s q,
)
operation_branches p (some row) w v a e new f key digest s t mine own second q h =
    inl (replay_artifact_same p w row s t h)

pub append_artifact_operation_result :
    (p : Platform) (w v : ℕ) (a : WorkflowArtifact) (e : MigrationAuditEvent)
    (new : Option WorkflowStatus) (f : Option MigrationAuditEvent) (key digest : Text) (s t : Store)
    {r : MigrationWorkflow × WorkflowArtifact}
    → append_artifact_operation p w v a e new f key digest s ≡ ok (r, t)
    → (t ≡ s)
      ⊎ (Recording w
            (result_row (orchestration_scope w a.artifact_type) key digest w a.artifact_id)
            s
            t
          × IsFree (orchestration_scope w a.artifact_type) key s)
unfolding append_artifact_operation
append_artifact_operation_result p w v a e new f key digest s t h =
    let (_, mine, h₁) = >>=-eq-ok (require (a.workflow_id == w) artifact_validation) _ h in
    let (_, own, h₂) =
      >>=-eq-ok (require ((e.workflow_id == w) && names_artifact e a) persistence_error) _ h₁ in
    let (_, _, h₃) = >>=-eq-ok (require (both_or_neither new f) persistence_error) _ h₂ in
    let (_, second, h₄) = >>=-eq-ok (require (optional_event_of w f) persistence_error) _ h₃ in
    let (o, q, h₅) =
      >>=-eq-ok (recorded (orchestration_scope w a.artifact_type) key digest s) _ h₄ in
    operation_branches p o w v a e new f key digest s t
      ((==_iff _ _).0 (require-eq-ok _ artifact_validation mine))
      ((==_iff _ _).0 (and_left _ (names_artifact e a) (require-eq-ok _ persistence_error own)))
      (require-eq-ok _ persistence_error second) q h₅
