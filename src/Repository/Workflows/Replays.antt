-- ===== src/Repository/Workflows/Replays.antt =====
-- A transition whose key has a recorded result: it is repeated, or it is refused.
use schemabridge.Base.{ℕ, ◌≡◌, refl, true, false, Option, none, some, ◌==◌, arith}
use schemabridge.Base.Text.{Text, text_eq, text_eq_refl, eq_of_text_eq}
use schemabridge.Base.Outcome.{
  ok, raise, >>=-eq-ok, require, require-eq-ok, persistence_error, idempotency_conflict,
}
use schemabridge.Base.Table.{find-modify}
use schemabridge.Model.Status.{WorkflowStatus}
use schemabridge.Model.Workflow.{MigrationWorkflow, valid_workflow}
use schemabridge.Model.Event.{MigrationAuditEvent}
use schemabridge.Repository.Store.{
  Store, Scope, IdempotencyRow, status_scope, workflow_key, find_workflow, load_workflow, or_raise,
  or_raise-eq-ok, find_idempotency, recorded, recorded-some, result_row, same_scope_refl,
}
use schemabridge.Repository.Workflows.{transition_status, transition_or_replay, reread_workflow}
use schemabridge.Repository.Workflows.Write.{Recording}
use schemabridge.Repository.Workflows.Effects.{apply_transition-Write}

-- The result of the command `digest` is recorded under its key.
pub record HasResult (scope : Scope) (key digest : Text) (s : Store) : Type 0 where
  pub row : IdempotencyRow
  pub found : find_idempotency scope key s.idempotency ≡ some row
  pub digest_eq : text_eq row.request_sha256 digest ≡ true

recorded-HasResult :
    (scope : Scope) (key digest : Text) (s : Store) (r : IdempotencyRow)
    → recorded scope key digest s ≡ ok (some r)
    → HasResult scope key digest s
unfolding recorded
recorded-HasResult scope key digest s r h = record {
  row = r;
  found = ground arith;
  digest_eq = ground arith;
}

Write-HasResult :
    (w : ℕ) (scope : Scope) (key digest : Text) (i j : ℕ) (s t : Store)
    → Recording w (result_row scope key digest i j) s t
    → HasResult scope key digest t
unfolding find_idempotency
Write-HasResult w scope key digest i j s t x = record {
  row = result_row scope key digest i j;
  found = rw (x.idempotency, same_scope_refl, text_eq_refl);
  digest_eq = text_eq_refl digest;
}

reread_same :
    (w : ℕ) (s t : Store) {r : MigrationWorkflow} → reread_workflow w s ≡ ok (r, t) → t ≡ s
unfolding reread_workflow
reread_same w s t h = ground arith

branches :
    (o : Option IdempotencyRow) (w v : ℕ) (new : WorkflowStatus) (e : MigrationAuditEvent)
    (error : Option Text) (key digest : Text) (s t : Store)
    → e.workflow_id ≡ w
    → recorded (status_scope w) key digest s ≡ ok o
    → {r : MigrationWorkflow} → transition_or_replay o w v new e error key digest s ≡ ok (r, t)
    → HasResult (status_scope w) key digest t
unfolding transition_or_replay
branches none w v new e error key digest s t own q h =
    Write-HasResult w (status_scope w) key digest w w s t
      (apply_transition-Write w v new e error key digest s own h)
branches (some row) w v new e error key digest s t own q h =
    rw (reread_same w s t h) (recorded-HasResult (status_scope w) key digest s row q)

-- A transition that succeeds has its event's workflow, and leaves its result recorded.
pub transition_status-HasResult :
    (w v : ℕ) (new : WorkflowStatus) (e : MigrationAuditEvent) (error : Option Text)
    (key digest : Text) (s t : Store) {r : MigrationWorkflow}
    → transition_status w v new e error key digest s ≡ ok (r, t)
    → (e.workflow_id ≡ w) × HasResult (status_scope w) key digest t
unfolding transition_status
transition_status-HasResult w v new e error key digest s t h =
    let (_, own, h₁) = >>=-eq-ok (require (e.workflow_id == w) persistence_error) _ h in
    let (o, q, h₂) = >>=-eq-ok (recorded (status_scope w) key digest s) _ h₁ in
    let mine : e.workflow_id ≡ w = ground (arith, require-eq-ok _ persistence_error own) in
    (mine, branches o w v new e error key digest s t mine q h₂)

find_reread :
    (w : ℕ) (s t : Store) {r : MigrationWorkflow}
    → reread_workflow w s ≡ ok (r, t)
    → (u : MigrationWorkflow) × (find_workflow w t ≡ some u)
unfolding reread_workflow
find_reread w s t {r} h =
    let (row, i, h₁) = >>=-eq-ok (or_raise persistence_error (find_workflow w s)) _ h in
    (row, rw (reread_same w s t h) (or_raise-eq-ok persistence_error _ i))

find_branches :
    (o : Option IdempotencyRow) (w v : ℕ) (new : WorkflowStatus) (e : MigrationAuditEvent)
    (error : Option Text) (key digest : Text) (s t : Store)
    → e.workflow_id ≡ w
    → {r : MigrationWorkflow} → transition_or_replay o w v new e error key digest s ≡ ok (r, t)
    → (u : MigrationWorkflow) × (find_workflow w t ≡ some u)
unfolding transition_or_replay
find_branches none w v new e error key digest s t own h =
    let x = apply_transition-Write w v new e error key digest s own h in
    (
      x.change x.old,
      rw (x.workflows, find-modify workflow_key x.change x.same_id w s.workflows, x.found) refl,
    )
find_branches (some row) w v new e error key digest s t own h = find_reread w s t h

pub transition_status_found :
    (w v : ℕ) (new : WorkflowStatus) (e : MigrationAuditEvent) (error : Option Text)
    (key digest : Text) (s t : Store) {r : MigrationWorkflow}
    → transition_status w v new e error key digest s ≡ ok (r, t)
    → (u : MigrationWorkflow) × (find_workflow w t ≡ some u)
unfolding transition_status
transition_status_found w v new e error key digest s t h =
    let (_, own, h₁) = >>=-eq-ok (require (e.workflow_id == w) persistence_error) _ h in
    let (o, q, h₂) = >>=-eq-ok (recorded (status_scope w) key digest s) _ h₁ in
    find_branches o w v new e error key digest s t
      (ground (arith, require-eq-ok _ persistence_error own)) h₂

pub transition_status_again :
    (w v : ℕ) (new : WorkflowStatus) (e : MigrationAuditEvent) (error : Option Text)
    (key digest : Text) (s : Store) (u : MigrationWorkflow)
    → e.workflow_id ≡ w
    → HasResult (status_scope w) key digest s
    → find_workflow w s ≡ some u
    → valid_workflow u ≡ true
    → transition_status w v new e error key digest s ≡ ok (u, s)
unfolding transition_status transition_or_replay reread_workflow load_workflow
transition_status_again w v new e error key digest s u own x found valid =
    let known = recorded-some (status_scope w) key digest s x.row x.found x.digest_eq in
    ground arith

pub transition_status_conflict :
    (w v : ℕ) (new : WorkflowStatus) (e : MigrationAuditEvent) (error : Option Text)
    (key digest other : Text) (s : Store)
    → e.workflow_id ≡ w
    → HasResult (status_scope w) key digest s
    → text_eq digest other ≡ false
    → transition_status w v new e error key other s ≡ raise idempotency_conflict
unfolding transition_status recorded
transition_status_conflict w v new e error key digest other s own x differs =
    let same : x.row.request_sha256 ≡ digest =
      eq_of_text_eq x.row.request_sha256 digest x.digest_eq in
    let refused : text_eq x.row.request_sha256 other ≡ false = rw same differs in
    let found = x.found in ground arith
