-- ===== src/Repository/Attempts/Writes.antt =====
-- What the transactions on attempts share: the write of the workflow with its events, the new row
-- of a claim, and the rewritten row of a completion.
use schemabridge.Base.{
  ℕ, suc, ◌≡◌, sym, ◌∙◌, ap, subst, Bool, true, false, Option, none, some, List, ◌∷◌, ◌==◌, ==_iff,
  arith,
}
use schemabridge.Base.Text.{Text}
use schemabridge.Base.Outcome.{ok, >>=-eq-ok, workflow_not_found, workflow_conflict, ok-injective}
use schemabridge.Base.Table.{find, modify, update, update_inv, insert, insert_inv}
use schemabridge.Model.Workflow.{MigrationWorkflow, WorkflowArtifact, valid_workflow}
use schemabridge.Model.Event.{MigrationAuditEvent}
use schemabridge.Model.Attempt.{Kind, Progresses}
use schemabridge.Model.Attempt.Kinds.{transport_kind, execution_kind, validation_kind}
use schemabridge.Repository.Store.{
  Store, Attempts, Scope, IdempotencyRow, workflow_key, find_workflow, or_raise, or_raise-eq-ok,
  load_workflow, load_workflow-eq-ok, insert_event, insert_event-eq-ok, insert_idempotency,
  numbered, result_row,
}
use schemabridge.Repository.Workflows.{insert_optional_event, optional_event_of}
use schemabridge.Repository.Workflows.Write.{Logged, first, another, Stored, Write}
use schemabridge.Repository.Attempts.{load_row, blocked, write_workflow}
use schemabridge.Repository.Attempts.Rows.{
  RowsChange, inserted, rewritten, unchanged, load_row-eq-ok,
}

-- A change of one table of attempts, or of none.
pub record AttemptsChange (a b : Attempts) : Type 0 where
  pub transports : RowsChange transport_kind a.transports b.transports
  pub executions : RowsChange execution_kind a.executions b.executions
  pub validations : RowsChange validation_kind a.validations b.validations

pub no_attempts : {a b : Attempts} → b ≡ a → AttemptsChange a b
no_attempts e = record {
  transports = unchanged (ap (λ (x : Attempts). x.transports) e);
  executions = unchanged (ap (λ (x : Attempts). x.executions) e);
  validations = unchanged (ap (λ (x : Attempts). x.validations) e);
}

-- A write of workflow `w` that changes the attempts, with the recorded results `out`.
pub record Tried (w : ℕ) (out : List IdempotencyRow) (s t : Store) : Type 0 where
  pub tried : Attempts
  pub write : Write w out tried s t
  pub attempts : AttemptsChange s.attempts tried

events_Logged :
    (w v : ℕ) (ae : Option MigrationAuditEvent) (e : MigrationAuditEvent) (s : Store) {u t : Store}
    → optional_event_of w ae ≡ true
    → e.workflow_id ≡ w
    → insert_optional_event ae v s ≡ ok u
    → insert_event e v u ≡ ok t
    → Logged w v s.events t.events × (t ≡ record s { events = t.events })
events_Logged w v none e s {u} {t} own mine h₁ h₂ =
    let q : s ≡ u = ok-injective h₁ in
    let z : t ≡ record s { events = numbered e v s.events ∷ s.events } =
      insert_event-eq-ok e v s (subst (λ x. insert_event e v x ≡ ok t) (sym q) h₂) in
    (first e mine (ap (λ (x : Store). x.events) z), ground arith)
events_Logged w v (some a) e s {u} {t} own mine h₁ h₂ =
    let y = insert_event-eq-ok a v s h₁ in
    let z = insert_event-eq-ok e v u h₂ in
    let base : Logged w v s.events u.events =
      first a ((==_iff a.workflow_id w).0 own) (ap (λ (x : Store). x.events) y) in
    (another e base mine (ap (λ (x : Store). x.events) z), ground arith)

optional_rest :
    (ae : Option MigrationAuditEvent) (v : ℕ) (s : Store) {t : Store}
    → insert_optional_event ae v s ≡ ok t
    → t ≡ record s { events = t.events }
optional_rest none v s {t} h = let q : s ≡ t = ok-injective h in ground arith
optional_rest (some a) v s {t} h = let q = insert_event-eq-ok a v s h in ground arith

-- The workflow's row is rewritten, its events are logged, and nothing else changes.
pub write_workflow-Write :
    (w expected : ℕ) (change : MigrationWorkflow → MigrationWorkflow)
    (ae : Option MigrationAuditEvent) (e : MigrationAuditEvent) (s : Store)
    (stored : List WorkflowArtifact) (tried : Attempts) {row old res : MigrationWorkflow}
    {t : Store}
    → or_raise workflow_not_found (find_workflow w s) ≡ ok row
    → load_workflow row ≡ ok old
    → ((x : MigrationWorkflow) → (change x).workflow_id ≡ x.workflow_id)
    → (change old).version ≡ suc old.version
    → Stored w old.latest_artifact_version (change old).latest_artifact_version s.artifacts stored
    → optional_event_of w ae ≡ true
    → e.workflow_id ≡ w
    → write_workflow w expected change ae e
        (suc old.version)
        (record s { artifacts = stored; attempts = tried })
      ≡ ok t
    → load_workflow (change old) ≡ ok res
    → Write w s.idempotency tried s t
unfolding write_workflow
write_workflow-Write w expected change ae e s stored tried {row} {old} {res} {t} found loaded same
      next arts own mine h loaded' =
    let (v, q) = load_workflow-eq-ok row old loaded in
    let (v', _) = load_workflow-eq-ok (change old) res loaded' in
    let (rows, u, h₁) =
      >>=-eq-ok
        (or_raise workflow_conflict
          (update workflow_key w (λ r. r.version == expected) change s.workflows))
        _ h in
    let (x, _, _, z) =
      update_inv workflow_key w _ change s.workflows rows (or_raise-eq-ok workflow_conflict _ u) in
    let s₁ : Store = record s { workflows = rows; artifacts = stored; attempts = tried } in
    let (noted, n, h₂) = >>=-eq-ok (insert_optional_event ae (suc old.version) s₁) _ h₁ in
    let (logs, rest) = events_Logged w (suc old.version) ae e s₁ own mine n h₂ in
    record {
      old = old;
      change = change;
      found = or_raise-eq-ok workflow_not_found _ found ∙ ap some q;
      old_valid = subst (λ y. valid_workflow y ≡ true) q v;
      new_valid = v';
      same_id = same;
      next_version = next;
      workflows = ap (λ (y : Store). y.workflows) rest ∙ z;
      artifacts =
          subst
            (Stored w old.latest_artifact_version (change old).latest_artifact_version s.artifacts)
            (sym (ap (λ (y : Store). y.artifacts) rest)) arts;
      events = logs;
      jobs = ap (λ (y : Store). y.jobs) rest;
      idempotency = ap (λ (y : Store). y.idempotency) rest;
      attempts = ap (λ (y : Store). y.attempts) rest;
    }

-- What the write leaves in the tables.
pub write_workflow_tables :
    (w expected : ℕ) (change : MigrationWorkflow → MigrationWorkflow)
    (ae : Option MigrationAuditEvent) (e : MigrationAuditEvent) (v : ℕ) (s : Store) {t : Store}
    → write_workflow w expected change ae e v s ≡ ok t
    → (t.workflows ≡ modify workflow_key w change s.workflows)
      × (t.artifacts ≡ s.artifacts)
      × (t.attempts ≡ s.attempts)
unfolding write_workflow
write_workflow_tables w expected change ae e v s {t} h =
    let (rows, u, h₁) =
      >>=-eq-ok
        (or_raise workflow_conflict
          (update workflow_key w (λ r. r.version == expected) change s.workflows))
        _ h in
    let (x, _, _, z) =
      update_inv workflow_key w _ change s.workflows rows (or_raise-eq-ok workflow_conflict _ u) in
    let s₁ : Store = record s { workflows = rows } in
    let (noted, n, h₂) = >>=-eq-ok (insert_optional_event ae v s₁) _ h₁ in
    let rest = insert_event-eq-ok e v noted h₂ in
    let first_rest : noted ≡ record s₁ { events = noted.events } = optional_rest ae v s₁ n in
    (ground arith, ground arith, ground arith)

-- The same with the recorded result of the command.
pub insert_idempotency-Write :
    (w : ℕ) (scope : Scope) (key digest : Text) (i j : ℕ) (tried : Attempts) (s u : Store)
    → Write w s.idempotency tried s u
    → Write w
        (result_row scope key digest i j ∷ s.idempotency)
        tried
        s
        (insert_idempotency scope key digest i j u)
unfolding insert_idempotency
insert_idempotency-Write w scope key digest i j tried s u x = record {
  old = x.old;
  change = x.change;
  found = x.found;
  old_valid = x.old_valid;
  new_valid = x.new_valid;
  same_id = x.same_id;
  next_version = x.next_version;
  workflows = x.workflows;
  artifacts = x.artifacts;
  events = x.events;
  jobs = x.jobs;
  idempotency = ap (◌∷◌ (result_row scope key digest i j)) x.idempotency;
  attempts = x.attempts;
}

module _ {R : Type 0} (k : Kind R) where
  pub insert-change :
      (r : R) (w : ℕ) (rs ts : List R)
      → k.owner r ≡ w
      → k.valid r ≡ true
      → blocked k w rs ≡ false
      → insert k.key r rs ≡ some ts
      → RowsChange k rs ts
  insert-change r w rs ts own v free h =
      let (fresh, e) = insert_inv k.key r rs ts h in
      inserted r fresh v (subst (λ i. blocked k i rs ≡ false) (sym own) free) e

  pub update-change :
      (i : ℕ) (test : R → Bool) (f : R → R) (rs ts : List R) (held a b : R)
      → find k.key i rs ≡ some held
      → load_row k held ≡ ok a
      → ((x : R) → k.key (f x) ≡ k.key x)
      → (k.valid (f a) ≡ true → Progresses k a (f a))
      → load_row k (f a) ≡ ok b
      → update k.key i test f rs ≡ some ts
      → RowsChange k rs ts
  update-change i test f rs ts held a b found loaded same on loaded' h =
      let (_, e) = load_row-eq-ok k held a loaded in
      let (v, _) = load_row-eq-ok k (f a) b loaded' in
      let (r, _, _, z) = update_inv k.key i test f rs ts h in
      rewritten i f a (found ∙ ap some e) same v (on v) z
