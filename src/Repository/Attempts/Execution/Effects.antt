-- ===== src/Repository/Attempts/Execution/Effects.antt =====
-- What the transactions on migration_execution_attempts do to the store.
use schemabridge.Base.{
  ℕ, suc, ◌≡◌, refl, ◌∙◌, ap, subst, ◌⊎◌, inl, inr, Bool, true, false, not, ◌&&◌, Option, none,
  some, List, ◌∷◌, ◌==◌, ==_iff, and_left, and_right, arith,
}
use schemabridge.Base.Text.{Text}
use schemabridge.Base.Outcome.{
  ok, >>=-eq-ok, require, require-eq-ok, workflow_not_found, workflow_conflict,
  invalid_workflow_transition, persistence_error, execution_already_in_progress, ok-injective,
}
use schemabridge.Base.Table.{find, update, insert, insert_inv}
use schemabridge.Model.Status.{WorkflowStatus, same_status, execution_ready, executing}
use schemabridge.Model.Workflow.{
  MigrationWorkflow, WorkflowArtifact, execution_evidence, same_artifact_type,
}
use schemabridge.Model.Event.{MigrationAuditEvent, holds_status}
use schemabridge.Model.Attempt.Execution.{
  MigrationExecutionAttempt, MigrationExecutionEvidence, is_claimed, is_running, without_result,
  valid_execution_attempt, valid_execution_attempt_claimed,
}
use schemabridge.Model.Attempt.Kinds.{execution_kind}
use schemabridge.Repository.Store.{
  Store, Attempts, IdempotencyRow, execution_scope, find_workflow, or_raise, or_raise-eq-ok,
  load_workflow, recorded, recorded-none, result_row,
}
use schemabridge.Repository.Workflows.{insert_artifact, names_id}
use schemabridge.Repository.Workflows.Write.{Write, Stored, kept, appended}
use schemabridge.Repository.Workflows.Effects.{insert_artifact_inv}
use schemabridge.Repository.Workflows.Results.{IsFree}
use schemabridge.Repository.Attempts.{load_row, blocked, mark_running, write_workflow}
use schemabridge.Repository.Attempts.Rows.{RowsChange, unchanged, ClaimsRow, ClaimsRow-cons}
use schemabridge.Repository.Attempts.Running.{Starts, mark_running_result}
use schemabridge.Repository.Attempts.Writes.{
  AttemptsChange, Tried, write_workflow-Write, insert_idempotency-Write, insert-change,
  update-change,
}
use schemabridge.Repository.Attempts.Life.{start_execution-Progresses, finish_execution-Progresses}
use schemabridge.Repository.Attempts.Execution.{
  with_executions, claim_new, replay_claim, claim_or_replay, claim_execution_attempt, start_attempt,
  mark_execution_running, finish_attempt, write_outcome, settle, complete_execution_attempt,
}
use schemabridge.Repository.Attempts.Transport.{with_phase, with_outcome}

executions_change :
    (a : Attempts) (rows : List MigrationExecutionAttempt)
    → RowsChange execution_kind a.executions rows
    → AttemptsChange a (record a { executions = rows })
executions_change a rows c = record {
  executions = c;
  transports = unchanged refl;
  validations = unchanged refl;
}

claim_new-Tried :
    (w expected : ℕ) (a : MigrationExecutionAttempt) (e : MigrationAuditEvent) (key digest : Text)
    (s : Store)
    → a.workflow_id ≡ w
    → valid_execution_attempt (without_result a) ≡ true
    → e.workflow_id ≡ w
    → {r : MigrationWorkflow × MigrationExecutionAttempt × Bool} {t : Store}
    → claim_new w expected a e key digest s ≡ ok (r, t)
    → Tried w (result_row (execution_scope w) key digest w a.attempt_id ∷ s.idempotency) s t
      × ClaimsRow execution_kind w a.attempt_id s.attempts.executions t.attempts.executions
unfolding claim_new
claim_new-Tried w expected a e key digest s own v mine {r} {t} h =
    let (row, found, h₁) = >>=-eq-ok (or_raise workflow_not_found (find_workflow w s)) _ h in
    let (old, loaded, h₂) = >>=-eq-ok (load_workflow row) _ h₁ in
    let (_, _, h₃) = >>=-eq-ok (require (old.version == expected) workflow_conflict) _ h₂ in
    let (_, _, h₄) =
      >>=-eq-ok (require (same_status old.status execution_ready) invalid_workflow_transition) _
        h₃ in
    let (_, free, h₅) =
      >>=-eq-ok
        (require (not (blocked execution_kind w s.attempts.executions))
          execution_already_in_progress)
        _ h₄ in
    let (rows, i, h₆) =
      >>=-eq-ok
        (or_raise persistence_error
          (insert execution_kind.key (without_result a) s.attempts.executions))
        _ h₅ in
    let change = with_phase executing (suc old.version) a.claimed_at in
    let (logged, l, h₇) =
      >>=-eq-ok (write_workflow w expected change none e (suc old.version) (with_executions s rows))
        _ h₆ in
    let (res, loaded', h₈) = >>=-eq-ok (load_workflow (change old)) _ h₇ in
    let tried : Attempts = record s.attempts { executions = rows } in
    let x =
      write_workflow-Write w expected change none e s s.artifacts tried found loaded (λ y. refl)
        refl (kept refl refl) refl mine l loaded' in
    let y =
      insert_idempotency-Write w (execution_scope w) key digest w a.attempt_id tried s logged x in
    let tries : Tried w (result_row (execution_scope w) key digest w a.attempt_id ∷ s.idempotency) s
        t =
      record {
        tried = tried;
        write =
            subst
              (Write w (result_row (execution_scope w) key digest w a.attempt_id ∷ s.idempotency)
                tried s)
              (ap (λ p. p.1) (ok-injective h₈)) y;
        attempts = executions_change s.attempts rows (
            insert-change execution_kind (without_result a) w s.attempts.executions rows own v
              (ground (arith, require-eq-ok _ _ free)) (or_raise-eq-ok persistence_error _ i));
      } in
    (
      tries,
      ClaimsRow-cons execution_kind w (without_result a) s.attempts.executions t.attempts.executions
          own (require-eq-ok _ _ free)
          (ap (λ (y : Attempts). y.executions) tries.write.attempts
            ∙ (insert_inv execution_kind.key (without_result a) s.attempts.executions rows
                (or_raise-eq-ok persistence_error _ i)).1),
    )

replay_claim_same :
    (w : ℕ) (row : IdempotencyRow) (s t : Store)
    {r : MigrationWorkflow × MigrationExecutionAttempt × Bool}
    → replay_claim w row s ≡ ok (r, t)
    → (t ≡ s) × (r.2 ≡ false)
unfolding replay_claim
replay_claim_same w row s t h = (ground arith, ground arith)

claim_branches :
    (o : Option IdempotencyRow) (w expected : ℕ) (a : MigrationExecutionAttempt)
    (e : MigrationAuditEvent) (key digest : Text) (s t : Store)
    → a.workflow_id ≡ w
    → valid_execution_attempt (without_result a) ≡ true
    → e.workflow_id ≡ w
    → recorded (execution_scope w) key digest s ≡ ok o
    → {r : MigrationWorkflow × MigrationExecutionAttempt × Bool}
    → claim_or_replay o w expected a e key digest s ≡ ok (r, t)
    → ((t ≡ s) × (r.2 ≡ false))
      ⊎ (Tried w (result_row (execution_scope w) key digest w a.attempt_id ∷ s.idempotency) s t
          × IsFree (execution_scope w) key s
          × ClaimsRow execution_kind w a.attempt_id s.attempts.executions t.attempts.executions)
unfolding claim_or_replay
claim_branches none w expected a e key digest s t own v mine q h =
    let (x, row) = claim_new-Tried w expected a e key digest s own v mine h in
    inr (x, recorded-none (execution_scope w) key digest s q, row)
claim_branches (some row) w expected a e key digest s t own v mine q h =
    inl (replay_claim_same w row s t h)

pub claim_execution_attempt_result :
    (w expected : ℕ) (a : MigrationExecutionAttempt) (e : MigrationAuditEvent) (key digest : Text)
    (s t : Store) {r : MigrationWorkflow × MigrationExecutionAttempt × Bool}
    → valid_execution_attempt a ≡ true
    → claim_execution_attempt w expected a e key digest s ≡ ok (r, t)
    → ((t ≡ s) × (r.2 ≡ false))
      ⊎ (Tried w (result_row (execution_scope w) key digest w a.attempt_id ∷ s.idempotency) s t
          × IsFree (execution_scope w) key s
          × ClaimsRow execution_kind w a.attempt_id s.attempts.executions t.attempts.executions)
unfolding claim_execution_attempt
claim_execution_attempt_result w expected a e key digest s t v h =
    let (_, mine, h₁) =
      >>=-eq-ok (require ((a.workflow_id == w) && is_claimed a.status) persistence_error) _ h in
    let (_, own, h₂) =
      >>=-eq-ok
        (require
          ((e.workflow_id == w)
            && (holds_status execution_ready e.previous_status
                && holds_status executing e.new_status))
          persistence_error)
        _ h₁ in
    let (o, q, h₃) = >>=-eq-ok (recorded (execution_scope w) key digest s) _ h₂ in
    let m = require-eq-ok _ persistence_error mine in
    claim_branches o w expected a e key digest s t
      ((==_iff _ _).0 (and_left (a.workflow_id == w) (is_claimed a.status) m))
      (valid_execution_attempt_claimed a (and_right (a.workflow_id == w) (is_claimed a.status) m) v)
      ((==_iff _ _).0 (and_left (e.workflow_id == w) _ (require-eq-ok _ persistence_error own))) q
      h₃

-- The transaction touches the one table only, and its answer tells who started the attempt.
pub mark_execution_running_result :
    (id at : ℕ) (s t : Store) {a : MigrationExecutionAttempt} {flag : Bool}
    → mark_execution_running id at s ≡ ok ((a, flag), t)
    → (t ≡ with_executions s t.attempts.executions)
      × AttemptsChange s.attempts t.attempts
      × (flag ≡ true → Starts execution_kind id a s.attempts.executions t.attempts.executions)
unfolding mark_execution_running
mark_execution_running_result id at s t {a} {flag} h =
    let ((x, rows), q, h₁) =
      >>=-eq-ok (mark_running execution_kind id (start_attempt at) s.attempts.executions) _ h in
    let given : x ≡ (a, flag) = ap (λ p. p.0) (ok-injective h₁) in
    let out : with_executions s rows ≡ t = ap (λ p. p.1) (ok-injective h₁) in
    let ran : mark_running execution_kind id (start_attempt at) s.attempts.executions
        ≡ ok ((a, flag), rows) =
      subst
        (λ y.
          mark_running execution_kind id (start_attempt at) s.attempts.executions ≡ ok (y, rows))
        given q in
    let (c, starts) =
      mark_running_result execution_kind (start_attempt at) (λ r. refl)
        (start_execution-Progresses at) (λ r. refl) id s.attempts.executions ran in
    subst
      (λ (u : Store).
        (u ≡ with_executions s u.attempts.executions)
        × AttemptsChange s.attempts u.attempts
        × (flag ≡ true → Starts execution_kind id a s.attempts.executions u.attempts.executions))
      out (refl, executions_change s.attempts rows c, starts)

write_outcome-Tried :
    (w expected id : ℕ) (a : MigrationExecutionAttempt) (evidence : MigrationExecutionEvidence)
    (artifact : WorkflowArtifact) (artifact_event : MigrationAuditEvent) (new : WorkflowStatus)
    (e : MigrationAuditEvent) (s : Store) {row old : MigrationWorkflow}
    {held : MigrationExecutionAttempt}
    → artifact.workflow_id ≡ w
    → e.workflow_id ≡ w
    → artifact.artifact_version ≡ suc old.latest_artifact_version
    → or_raise workflow_not_found (find_workflow w s) ≡ ok row
    → load_workflow row ≡ ok old
    → find execution_kind.key id s.attempts.executions ≡ some held
    → load_row execution_kind held ≡ ok a
    → is_running a.status ≡ true
    → {r : MigrationWorkflow × MigrationExecutionAttempt × WorkflowArtifact} {t : Store}
    → write_outcome w expected id old a evidence artifact artifact_event new e s ≡ ok (r, t)
    → Tried w s.idempotency s t
unfolding write_outcome
write_outcome-Tried w expected id a evidence artifact artifact_event new e s {row} {old} {held} of
      mine next found loaded stands l on {r} {t} h =
    let (stored, i, h₁) =
      >>=-eq-ok (or_raise persistence_error (insert_artifact artifact s.artifacts)) _ h in
    let (_, keys, h₂) =
      >>=-eq-ok
        (require ((a.workflow_id == w) && (artifact_event.workflow_id == w)) persistence_error) _
        h₁ in
    let own : (artifact_event.workflow_id == w) ≡ true =
      and_right (a.workflow_id == w) _ (require-eq-ok _ persistence_error keys) in
    let arts : Stored w old.latest_artifact_version artifact.artifact_version s.artifacts stored =
      appended artifact of next refl
        (insert_artifact_inv artifact s.artifacts stored (or_raise-eq-ok persistence_error _ i)) in
    let finish = finish_attempt evidence artifact.artifact_id in
    let (rows, u, h₃) =
      >>=-eq-ok
        (or_raise workflow_conflict
          (update execution_kind.key id (λ r. is_running r.status) finish s.attempts.executions))
        _ h₂ in
    let change =
      with_outcome new (suc old.version) evidence.completed_at artifact.artifact_version in
    let tried : Attempts = record s.attempts { executions = rows } in
    let (logged, m, h₄) =
      >>=-eq-ok
        (write_workflow w expected change (some artifact_event) e (suc old.version)
          (record s { artifacts = stored; attempts = tried }))
        _ h₃ in
    let (updated, b, h₅) = >>=-eq-ok (load_row execution_kind (finish a)) _ h₄ in
    let (res, loaded', h₆) = >>=-eq-ok (load_workflow (change old)) _ h₅ in
    let out : logged ≡ t = ap (λ p. p.1) (ok-injective h₆) in
    let x : Write w s.idempotency tried s logged =
      write_workflow-Write w expected change (some artifact_event) e s stored tried found loaded
        (λ y. refl) refl arts own mine m loaded' in
    let c : RowsChange execution_kind s.attempts.executions rows =
      update-change execution_kind id (λ r. is_running r.status) finish s.attempts.executions rows
        held a updated stands l (λ y. refl)
        (finish_execution-Progresses evidence artifact.artifact_id a on) b
        (or_raise-eq-ok workflow_conflict _ u) in
    record {
      tried = tried;
      write = subst (Write w s.idempotency tried s) out x;
      attempts = executions_change s.attempts rows c;
    }

settle-Tried :
    (w expected id : ℕ) (evidence : MigrationExecutionEvidence) (artifact : WorkflowArtifact)
    (artifact_event : MigrationAuditEvent) (new : WorkflowStatus) (e : MigrationAuditEvent)
    (s : Store)
    → artifact.workflow_id ≡ w
    → e.workflow_id ≡ w
    → {r : MigrationWorkflow × MigrationExecutionAttempt × WorkflowArtifact} {t : Store}
    → settle w expected id evidence artifact artifact_event new e s ≡ ok (r, t)
    → Tried w s.idempotency s t
unfolding settle
settle-Tried w expected id evidence artifact artifact_event new e s of mine {r} {t} h =
    let (row, found, h₁) = >>=-eq-ok (or_raise workflow_not_found (find_workflow w s)) _ h in
    let (old, loaded, h₂) = >>=-eq-ok (load_workflow row) _ h₁ in
    let (_, test, h₃) =
      >>=-eq-ok
        (require
          ((old.version == expected)
            && (same_status old.status executing
                && (artifact.artifact_version == suc old.latest_artifact_version)))
          workflow_conflict)
        _ h₂ in
    let next : artifact.artifact_version ≡ suc old.latest_artifact_version = (==_iff _ _).0 (
      and_right (same_status old.status executing) _
        (and_right (old.version == expected) _ (require-eq-ok _ workflow_conflict test))) in
    let (held, g, h₄) =
      >>=-eq-ok (or_raise workflow_not_found (find execution_kind.key id s.attempts.executions)) _
        h₃ in
    let (a, l, h₅) = >>=-eq-ok (load_row execution_kind held) _ h₄ in
    let (_, on, h₆) = >>=-eq-ok (require (is_running a.status) workflow_conflict) _ h₅ in
    write_outcome-Tried w expected id a evidence artifact artifact_event new e s of mine next found
      loaded (or_raise-eq-ok workflow_not_found _ g) l (require-eq-ok _ workflow_conflict on) h₆

pub complete_execution_attempt-Tried :
    (w expected id : ℕ) (evidence : MigrationExecutionEvidence) (artifact : WorkflowArtifact)
    (artifact_event : MigrationAuditEvent) (new : WorkflowStatus) (e : MigrationAuditEvent)
    (s : Store) {r : MigrationWorkflow × MigrationExecutionAttempt × WorkflowArtifact} {t : Store}
    → complete_execution_attempt w expected id evidence artifact artifact_event new e s ≡ ok (r, t)
    → Tried w s.idempotency s t
unfolding complete_execution_attempt
complete_execution_attempt-Tried w expected id evidence artifact artifact_event new e s h =
    let (_, first_test, h₁) =
      >>=-eq-ok
        (require
          ((evidence.attempt_id == id)
            && ((evidence.workflow_id == w)
                && ((artifact.workflow_id == w)
                    && same_artifact_type artifact.artifact_type execution_evidence)))
          persistence_error)
        _ h in
    let (_, second_test, h₂) =
      >>=-eq-ok
        (require (names_id artifact_event.artifact_id artifact.artifact_id && (e.workflow_id == w))
          persistence_error)
        _ h₁ in
    let of : (artifact.workflow_id == w) ≡ true =
      and_left _ (same_artifact_type artifact.artifact_type execution_evidence) (
        and_right (evidence.workflow_id == w) _ (
          and_right (evidence.attempt_id == id) _
            (require-eq-ok _ persistence_error first_test))) in
    let mine : (e.workflow_id == w) ≡ true =
      and_right (names_id artifact_event.artifact_id artifact.artifact_id) _
        (require-eq-ok _ persistence_error second_test) in
    settle-Tried w expected id evidence artifact artifact_event new e s ((==_iff _ _).0 of)
      ((==_iff _ _).0 mine) h₂
