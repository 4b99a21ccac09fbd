-- ===== src/Repository/Workflows/Effects.antt =====
-- Each transaction on workflows that succeeds and is not a replay is a `Write`.
use schemabridge.Base.{
  ℕ, suc, ◌≡◌, refl, sym, ◌∙◌, ap, subst, true, not, ◌&&◌, Option, none, some, List, ◌∷◌, ◌==◌,
  and_right, ==_iff, arith,
}
use schemabridge.Base.Text.{Text}
use schemabridge.Base.Outcome.{
  ok, >>=-eq-ok, require, require-eq-ok, persistence_error, workflow_not_found, workflow_conflict,
  invalid_workflow_transition, ok-injective,
}
use schemabridge.Base.Table.{update, update_inv, insert_inv}
use schemabridge.Model.Status.{WorkflowStatus, same_status}
use schemabridge.Model.Workflow.{MigrationWorkflow, WorkflowArtifact}
use schemabridge.Model.Event.{MigrationAuditEvent}
use schemabridge.Repository.Store.{
  Store, status_scope, artifact_scope, orchestration_scope, workflow_key, artifact_key,
  find_workflow, or_raise, or_raise-eq-ok, load_workflow, load_workflow-eq-ok, insert_event,
  insert_event-eq-ok, insert_idempotency, numbered, result_row,
}
use schemabridge.Repository.Workflows.{
  with_status, apply_transition, insert_artifact, keep_artifact, apply_append, with_artifact,
  or_else, insert_optional_event, optional_event_of, apply_operation,
}
use schemabridge.Repository.Workflows.Write.{Logged, first, another, kept, appended, Recording}

pub apply_transition-Write :
    (w expected : ℕ) (new : WorkflowStatus) (event : MigrationAuditEvent) (error : Option Text)
    (key digest : Text) (s : Store)
    → event.workflow_id ≡ w
    → {r : MigrationWorkflow} {t : Store}
    → apply_transition w expected new event error key digest s ≡ ok (r, t)
    → Recording w (result_row (status_scope w) key digest w w) s t
unfolding apply_transition insert_idempotency
apply_transition-Write w expected new event error key digest s own {r} {t} h =
    let (row, found, h₁) = >>=-eq-ok (or_raise workflow_not_found (find_workflow w s)) _ h in
    let (old, loaded, h₂) = >>=-eq-ok (load_workflow row) _ h₁ in
    let (v, e) = load_workflow-eq-ok row old loaded in
    let (_, _, h₃) = >>=-eq-ok (require (old.version == expected) workflow_conflict) _ h₂ in
    let (_, _, h₄) =
      >>=-eq-ok (require (not (same_status old.status new)) invalid_workflow_transition) _ h₃ in
    let change = with_status new (suc old.version) event.occurred_at error in
    let (rows, u, h₅) =
      >>=-eq-ok
        (or_raise workflow_conflict
          (update workflow_key w (λ r. r.version == expected) change s.workflows))
        _ h₄ in
    let (x, _, _, z) =
      update_inv workflow_key w _ change s.workflows rows (or_raise-eq-ok workflow_conflict _ u) in
    let (logged, l, h₆) =
      >>=-eq-ok (insert_event event (suc old.version) (record s { workflows = rows })) _ h₅ in
    let log = insert_event-eq-ok event (suc old.version) (record s { workflows = rows }) l in
    let (res, loaded', h₇) = >>=-eq-ok (load_workflow (change old)) _ h₆ in
    let (v', _) = load_workflow-eq-ok (change old) res loaded' in
    record {
      old = old;
      change = change;
      found = or_raise-eq-ok workflow_not_found _ found ∙ ap some e;
      old_valid = rw e at v;
      new_valid = v';
      same_id = λ x. refl;
      next_version = refl;
      workflows = ground arith;
      artifacts = kept (ground arith) refl;
      events = first event own (ground arith);
      jobs = ground arith;
      idempotency = ground arith;
      attempts = ground arith;
    }

pub insert_artifact_inv :
    (a : WorkflowArtifact) (rows bs : List WorkflowArtifact)
    → insert_artifact a rows ≡ some bs
    → bs ≡ a ∷ rows
unfolding insert_artifact
insert_artifact_inv a rows bs h = ground (arith, insert_inv artifact_key a rows bs)

pub apply_append-Write :
    (w expected : ℕ) (a : WorkflowArtifact) (event : MigrationAuditEvent) (key digest : Text)
    (s : Store)
    → a.workflow_id ≡ w
    → event.workflow_id ≡ w
    → {r : MigrationWorkflow × WorkflowArtifact} {t : Store}
    → apply_append w expected a event key digest s ≡ ok (r, t)
    → Recording w (result_row (artifact_scope w) key digest w a.artifact_id) s t
unfolding apply_append insert_idempotency
apply_append-Write w expected a event key digest s mine own {r} {t} h =
    let (row, found, h₁) = >>=-eq-ok (or_raise workflow_not_found (find_workflow w s)) _ h in
    let (old, loaded, h₂) = >>=-eq-ok (load_workflow row) _ h₁ in
    let (v, e) = load_workflow-eq-ok row old loaded in
    let (_, test, h₃) =
      >>=-eq-ok
        (require
          ((old.version == expected) && (a.artifact_version == suc old.latest_artifact_version))
          workflow_conflict)
        _ h₂ in
    let next : a.artifact_version ≡ suc old.latest_artifact_version =
      (==_iff _ _).0
        (and_right (old.version == expected) _ (require-eq-ok _ workflow_conflict test)) in
    let (stored, i, h₄) =
      >>=-eq-ok (or_raise persistence_error (insert_artifact a s.artifacts)) _ h₃ in
    let added = insert_artifact_inv a s.artifacts stored (or_raise-eq-ok persistence_error _ i) in
    let change = keep_artifact a (suc old.version) in
    let (rows, u, h₅) =
      >>=-eq-ok
        (or_raise workflow_conflict
          (update workflow_key w (λ r. r.version == expected) change s.workflows))
        _ h₄ in
    let (x, _, _, z) =
      update_inv workflow_key w _ change s.workflows rows (or_raise-eq-ok workflow_conflict _ u) in
    let s₁ : Store = record s { workflows = rows; artifacts = stored } in
    let (logged, l, h₆) = >>=-eq-ok (insert_event event (suc old.version) s₁) _ h₅ in
    let log = insert_event-eq-ok event (suc old.version) s₁ l in
    let (res, loaded', h₇) = >>=-eq-ok (load_workflow (change old)) _ h₆ in
    let (v', _) = load_workflow-eq-ok (change old) res loaded' in
    record {
      old = old;
      change = change;
      found = or_raise-eq-ok workflow_not_found _ found ∙ ap some e;
      old_valid = rw e at v;
      new_valid = v';
      same_id = λ x. refl;
      next_version = refl;
      workflows = ground arith;
      artifacts = appended a mine next refl (ground arith);
      events = first event own (ground arith);
      jobs = ground arith;
      idempotency = ground arith;
      attempts = ground arith;
    }

-- The second event of an operation.
optional-Logged :
    (w v : ℕ) (es : List MigrationAuditEvent) (o : Option MigrationAuditEvent) (s : Store)
    {t : Store}
    → optional_event_of w o ≡ true
    → insert_optional_event o v s ≡ ok t
    → Logged w v es s.events
    → Logged w v es t.events × (t ≡ record s { events = t.events })
optional-Logged w v es none s {t} own h l =
    let q : s ≡ t = ok-injective h in
    (subst (λ (x : Store). Logged w v es x.events) q l, ground arith)
optional-Logged w v es (some e) s {t} own h l =
    let q : t ≡ record s { events = numbered e v s.events ∷ s.events } =
      insert_event-eq-ok e v s h in
    (another e l ((==_iff e.workflow_id w).0 own) (ground arith), ground arith)

pub apply_operation-Write :
    (w expected : ℕ) (a : WorkflowArtifact) (event : MigrationAuditEvent)
    (new : Option WorkflowStatus) (transition : Option MigrationAuditEvent) (key digest : Text)
    (s : Store)
    → a.workflow_id ≡ w
    → event.workflow_id ≡ w
    → optional_event_of w transition ≡ true
    → {r : MigrationWorkflow × WorkflowArtifact} {t : Store}
    → apply_operation w expected a event new transition key digest s ≡ ok (r, t)
    → Recording w
        (result_row (orchestration_scope w a.artifact_type) key digest w a.artifact_id)
        s
        t
unfolding apply_operation insert_idempotency
apply_operation-Write w expected a event new transition key digest s mine own second {r} {t} h =
    let (row, found, h₁) = >>=-eq-ok (or_raise workflow_not_found (find_workflow w s)) _ h in
    let (old, loaded, h₂) = >>=-eq-ok (load_workflow row) _ h₁ in
    let (v, e) = load_workflow-eq-ok row old loaded in
    let (_, test, h₃) =
      >>=-eq-ok
        (require
          ((old.version == expected) && (a.artifact_version == suc old.latest_artifact_version))
          workflow_conflict)
        _ h₂ in
    let next : a.artifact_version ≡ suc old.latest_artifact_version =
      (==_iff _ _).0
        (and_right (old.version == expected) _ (require-eq-ok _ workflow_conflict test)) in
    let (stored, i, h₄) =
      >>=-eq-ok (or_raise persistence_error (insert_artifact a s.artifacts)) _ h₃ in
    let added = insert_artifact_inv a s.artifacts stored (or_raise-eq-ok persistence_error _ i) in
    let change = with_artifact (or_else new old.status) (suc old.version) a in
    let (rows, u, h₅) =
      >>=-eq-ok
        (or_raise workflow_conflict
          (update workflow_key w (λ r. r.version == expected) change s.workflows))
        _ h₄ in
    let (x, _, _, z) =
      update_inv workflow_key w _ change s.workflows rows (or_raise-eq-ok workflow_conflict _ u) in
    let s₁ : Store = record s { workflows = rows; artifacts = stored } in
    let (logged, l, h₆) = >>=-eq-ok (insert_event event (suc old.version) s₁) _ h₅ in
    let log = insert_event-eq-ok event (suc old.version) s₁ l in
    let base : Logged w (suc old.version) s.events logged.events =
      first event own (ap (λ (y : Store). y.events) log) in
    let (moved, l', h₇) =
      >>=-eq-ok (insert_optional_event transition (suc old.version) logged) _ h₆ in
    let (logs, rest) =
      optional-Logged w (suc old.version) s.events transition logged second l' base in
    let (res, loaded', h₈) = >>=-eq-ok (load_workflow (change old)) _ h₇ in
    let (v', _) = load_workflow-eq-ok (change old) res loaded' in
    let end : t
        ≡ insert_idempotency (orchestration_scope w a.artifact_type) key digest w a.artifact_id
            moved =
      sym (ap (λ p. p.1) (ok-injective h₈)) in
    record {
      old = old;
      change = change;
      found = or_raise-eq-ok workflow_not_found _ found ∙ ap some e;
      old_valid = rw e at v;
      new_valid = v';
      same_id = λ x. refl;
      next_version = refl;
      workflows =
          ap (λ (y : Store). y.workflows) end
          ∙ ap (λ (y : Store). y.workflows) rest
          ∙ ap (λ (y : Store). y.workflows) log
          ∙ z;
      artifacts = appended a mine next refl (
          ap (λ (y : Store). y.artifacts) end
          ∙ ap (λ (y : Store). y.artifacts) rest
          ∙ ap (λ (y : Store). y.artifacts) log
          ∙ added);
      events =
          subst (Logged w (suc old.version) s.events) (sym (ap (λ (y : Store). y.events) end)) logs;
      jobs =
          ap (λ (y : Store). y.jobs) end
          ∙ ap (λ (y : Store). y.jobs) rest
          ∙ ap (λ (y : Store). y.jobs) log;
      attempts =
          ap (λ (y : Store). y.attempts) end
          ∙ ap (λ (y : Store). y.attempts) rest
          ∙ ap (λ (y : Store). y.attempts) log;
      idempotency =
          ap (λ (y : Store). y.idempotency) end
          ∙ ap (◌∷◌ (result_row (orchestration_scope w a.artifact_type) key digest w a.artifact_id))
              (ap (λ (y : Store). y.idempotency) rest ∙ ap (λ (y : Store). y.idempotency) log);
    }
