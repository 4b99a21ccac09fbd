-- ===== src/Repository/Workflows/Guards.antt =====
-- The conditions under which a transition that is not a repetition is committed.
use schemabridge.Base.{
  ℕ, suc, ◌≡◌, sym, ◌∙◌, ap, ◌⊎◌, inl, inr, false, not, Option, none, some, ◌==◌, ==_iff, arith,
}
use schemabridge.Base.Text.{Text}
use schemabridge.Base.Outcome.{
  ok, >>=-eq-ok, require, require-eq-ok, persistence_error, workflow_not_found, workflow_conflict,
  invalid_workflow_transition, ok-injective,
}
use schemabridge.Base.Table.{update}
use schemabridge.Model.Status.{WorkflowStatus, same_status}
use schemabridge.Model.Workflow.{MigrationWorkflow}
use schemabridge.Model.Event.{MigrationAuditEvent}
use schemabridge.Repository.Store.{
  Store, IdempotencyRow, status_scope, workflow_key, find_workflow, or_raise, or_raise-eq-ok,
  load_workflow, load_workflow-eq-ok, recorded, insert_event,
}
use schemabridge.Repository.Workflows.{
  transition_status, transition_or_replay, reread_workflow, apply_transition, with_status,
}

-- The row that a transition found and the row that it returns.
pub record Moved (w expected : ℕ) (new : WorkflowStatus) (at : ℕ) (error : Option Text) (s : Store)
    (r : MigrationWorkflow) : Type 0 where
  pub old : MigrationWorkflow
  pub found : find_workflow w s ≡ some old
  pub version : old.version ≡ expected
  pub another : same_status old.status new ≡ false
  pub result : r ≡ with_status new (suc old.version) at error old

apply_transition-Moved :
    (w expected : ℕ) (new : WorkflowStatus) (event : MigrationAuditEvent) (error : Option Text)
    (key digest : Text) (s t : Store) (r : MigrationWorkflow)
    → apply_transition w expected new event error key digest s ≡ ok (r, t)
    → Moved w expected new event.occurred_at error s r
unfolding apply_transition
apply_transition-Moved w expected new event error key digest s t r h =
    let (row, found, h₁) = >>=-eq-ok (or_raise workflow_not_found (find_workflow w s)) _ h in
    let (old, loaded, h₂) = >>=-eq-ok (load_workflow row) _ h₁ in
    let (v, e) = load_workflow-eq-ok row old loaded in
    let (_, same, h₃) = >>=-eq-ok (require (old.version == expected) workflow_conflict) _ h₂ in
    let (_, other, h₄) =
      >>=-eq-ok (require (not (same_status old.status new)) invalid_workflow_transition) _ h₃ in
    let change = with_status new (suc old.version) event.occurred_at error in
    let (rows, u, h₅) =
      >>=-eq-ok
        (or_raise workflow_conflict
          (update workflow_key w (λ r. r.version == expected) change s.workflows))
        _ h₄ in
    let (logged, l, h₆) =
      >>=-eq-ok (insert_event event (suc old.version) (record s { workflows = rows })) _ h₅ in
    let (res, loaded', h₇) = >>=-eq-ok (load_workflow (change old)) _ h₆ in
    let (v', q) = load_workflow-eq-ok (change old) res loaded' in
    record {
      old = old;
      found = or_raise-eq-ok workflow_not_found _ found ∙ ap some e;
      version = (==_iff _ _).0 (require-eq-ok _ workflow_conflict same);
      another = ground (arith, require-eq-ok _ invalid_workflow_transition other);
      result = ap (λ p. p.0) (sym (ok-injective h₇)) ∙ sym q;
    }

reread_same :
    (w : ℕ) (s t : Store) {r : MigrationWorkflow} → reread_workflow w s ≡ ok (r, t) → t ≡ s
unfolding reread_workflow
reread_same w s t h = ground arith

branches :
    (o : Option IdempotencyRow) (w v : ℕ) (new : WorkflowStatus) (e : MigrationAuditEvent)
    (error : Option Text) (key digest : Text) (s t : Store) (r : MigrationWorkflow)
    → transition_or_replay o w v new e error key digest s ≡ ok (r, t)
    → (t ≡ s) ⊎ Moved w v new e.occurred_at error s r
unfolding transition_or_replay
branches none w v new e error key digest s t r h =
    inr (apply_transition-Moved w v new e error key digest s t r h)
branches (some row) w v new e error key digest s t r h = inl (reread_same w s t h)

pub transition_status-Moved :
    (w v : ℕ) (new : WorkflowStatus) (e : MigrationAuditEvent) (error : Option Text)
    (key digest : Text) (s t : Store) (r : MigrationWorkflow)
    → transition_status w v new e error key digest s ≡ ok (r, t)
    → (t ≡ s) ⊎ Moved w v new e.occurred_at error s r
unfolding transition_status
transition_status-Moved w v new e error key digest s t r h =
    let (_, own, h₁) = >>=-eq-ok (require (e.workflow_id == w) persistence_error) _ h in
    let (o, q, h₂) = >>=-eq-ok (recorded (status_scope w) key digest s) _ h₁ in
    branches o w v new e error key digest s t r h₂
