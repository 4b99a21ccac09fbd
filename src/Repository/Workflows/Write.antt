-- ===== src/Repository/Workflows/Write.antt =====
-- What a transaction on workflows that is not a replay does to the store.
use schemabridge.Base.{ℕ, suc, ◌≡◌, true, some, List, ◌∷◌}
use schemabridge.Base.Table.{modify}
use schemabridge.Model.Workflow.{MigrationWorkflow, WorkflowArtifact, valid_workflow}
use schemabridge.Model.Event.{MigrationAuditEvent}
use schemabridge.Repository.Store.{
  Store, Attempts, IdempotencyRow, workflow_key, find_workflow, numbered,
}

-- One or more audit events of workflow `w` at version `v`, each with the next number.
pub data Logged (w v : ℕ) (es : List MigrationAuditEvent) : List MigrationAuditEvent → Type 0 where
  first :
      (e : MigrationAuditEvent) {fs : List MigrationAuditEvent}
      → e.workflow_id ≡ w
      → fs ≡ numbered e v es ∷ es
      → Logged w v es fs
  another :
      (e : MigrationAuditEvent) {gs fs : List MigrationAuditEvent}
      → Logged w v es gs
      → e.workflow_id ≡ w
      → fs ≡ numbered e v gs ∷ gs
      → Logged w v es fs

-- The artifacts afterwards, with the latest version before and after.
pub data Stored (w before after : ℕ) (as_rows bs : List WorkflowArtifact) : Type 0 where
  kept : bs ≡ as_rows → after ≡ before → Stored w before after as_rows bs
  appended :
      (a : WorkflowArtifact)
      → a.workflow_id ≡ w
      → a.artifact_version ≡ suc before
      → after ≡ a.artifact_version
      → bs ≡ a ∷ as_rows
      → Stored w before after as_rows bs

-- The row of workflow `w` is rewritten once, its version grows by one, and events and artifacts are
-- only added. The recorded results are `out` afterwards, and the attempts `tried`.
pub record Write (w : ℕ) (out : List IdempotencyRow) (tried : Attempts) (s t : Store) : Type 0 where
  pub old : MigrationWorkflow
  pub change : MigrationWorkflow → MigrationWorkflow
  pub found : find_workflow w s ≡ some old
  pub old_valid : valid_workflow old ≡ true
  pub new_valid : valid_workflow (change old) ≡ true
  pub same_id : (x : MigrationWorkflow) → (change x).workflow_id ≡ x.workflow_id
  pub next_version : (change old).version ≡ suc old.version
  pub workflows : t.workflows ≡ modify workflow_key w change s.workflows
  pub artifacts :
      Stored w old.latest_artifact_version
        (change old).latest_artifact_version
        s.artifacts
        t.artifacts
  pub events : Logged w (suc old.version) s.events t.events
  pub jobs : t.jobs ≡ s.jobs
  pub idempotency : t.idempotency ≡ out
  pub attempts : t.attempts ≡ tried

-- A write that records the result of its command.
abbrev pub Recording : ℕ → IdempotencyRow → Store → Store → Type 0
Recording w row s t = Write w (row ∷ s.idempotency) s.attempts s t
