-- ===== src/Repository/Attempts/Validation/Effects.antt =====
-- What the transactions on migration_validation_runs do to the store.
use schemabridge.Base.{
  ℕ, suc, is_some, ◌≡◌, refl, sym, ◌∙◌, ap, subst, ◌⊎◌, inl, inr, Bool, true, false, not, ◌&&◌,
  Option, none, some, List, ◌∷◌, ◌==◌, ==_iff, and_left, and_right, arith,
}
use schemabridge.Base.Text.{Text}
use schemabridge.Base.Outcome.{
  ok, >>=-eq-ok, require, require-eq-ok, workflow_not_found, workflow_conflict,
  invalid_workflow_transition, persistence_error, validation_already_in_progress, ok-injective,
}
use schemabridge.Base.Table.{find, update, insert_inv}
use schemabridge.Model.Status.{WorkflowStatus, same_status, executed, validating}
use schemabridge.Model.Workflow.{
  MigrationWorkflow, WorkflowArtifact, validation_preview, same_artifact_type,
}
use schemabridge.Model.Event.{MigrationAuditEvent, holds_status}
use schemabridge.Model.Attempt.Validation.{
  WorkflowValidationRun, is_claimed, is_running, without_result, valid_validation_run,
  valid_validation_run_claimed,
}
use schemabridge.Model.Attempt.Kinds.{execution_kind, validation_kind}
use schemabridge.Repository.Store.{
  Store, Attempts, IdempotencyRow, validation_scope, find_workflow, or_raise, or_raise-eq-ok,
  load_workflow, recorded, recorded-none, insert_idempotency, result_row,
}
use schemabridge.Repository.Workflows.{Platform, insert_artifact, optional_event_of, names_id}
use schemabridge.Repository.Workflows.Write.{Write, Stored, kept, appended}
use schemabridge.Repository.Workflows.Effects.{insert_artifact_inv}
use schemabridge.Repository.Workflows.Results.{IsFree}
use schemabridge.Repository.Attempts.{load_row, blocked, mark_running, write_workflow}
use schemabridge.Repository.Attempts.Rows.{RowsChange, unchanged, ClaimsRow, ClaimsRow-cons}
use schemabridge.Repository.Attempts.Running.{Starts, mark_running_result}
use schemabridge.Repository.Attempts.Writes.{
  AttemptsChange, Tried, write_workflow-Write, insert_idempotency-Write, insert-change,
  update-change,
}
use schemabridge.Repository.Attempts.Life.{start_run-Progresses, finish_run-Progresses}
use schemabridge.Repository.Attempts.Validation.{
  with_validations, insert_run, claim_new, replay_claim, claim_or_replay, claim_validation_run,
  start_run, mark_validation_running, Proof, bundle, artifact_matches, store_report, terminal_of,
  evidence_id, latest_version, event_of, duration_of, finish_run, write_outcome, settle,
  complete_validation_run,
}
use schemabridge.Repository.Attempts.Transport.{with_outcome}

validations_change :
    (a : Attempts) (rows : List WorkflowValidationRun)
    → RowsChange validation_kind a.validations rows
    → AttemptsChange a (record a { validations = rows })
validations_change a rows c = record {
  validations = c;
  transports = unchanged refl;
  executions = unchanged refl;
}

insert_run-change :
    (w : ℕ) (r : WorkflowValidationRun) (s : Store) {ts : List WorkflowValidationRun}
    → r.workflow_id ≡ w
    → valid_validation_run (without_result r) ≡ true
    → not (blocked validation_kind w s.attempts.validations) ≡ true
    → insert_run r s ≡ ok ts
    → RowsChange validation_kind s.attempts.validations ts
unfolding insert_run
insert_run-change w r s {ts} own v free h =
    let (_, _, h₁) =
      >>=-eq-ok
        (require (is_some (find execution_kind.key r.execution_attempt_id s.attempts.executions))
          persistence_error)
        _ h in
    insert-change validation_kind (without_result r) w s.attempts.validations ts own v
      (ground arith) (or_raise-eq-ok persistence_error _ h₁)

insert_run_inv :
    (r : WorkflowValidationRun) (s : Store) {ts : List WorkflowValidationRun}
    → insert_run r s ≡ ok ts
    → ts ≡ without_result r ∷ s.attempts.validations
unfolding insert_run
insert_run_inv r s {ts} h =
    let (_, _, h₁) =
      >>=-eq-ok
        (require (is_some (find execution_kind.key r.execution_attempt_id s.attempts.executions))
          persistence_error)
        _ h in
    (insert_inv validation_kind.key (without_result r) s.attempts.validations ts
      (or_raise-eq-ok persistence_error _ h₁)).1

claim_new-Tried :
    (w expected : ℕ) (a : WorkflowValidationRun) (artifact : WorkflowArtifact)
    (ae e : MigrationAuditEvent) (key digest : Text) (s : Store)
    → a.workflow_id ≡ w
    → artifact.workflow_id ≡ w
    → valid_validation_run (without_result a) ≡ true
    → e.workflow_id ≡ w
    → {r : MigrationWorkflow × WorkflowValidationRun × WorkflowArtifact × Bool} {t : Store}
    → claim_new w expected a artifact ae e key digest s ≡ ok (r, t)
    → Tried w (result_row (validation_scope w) key digest w a.run_id ∷ s.idempotency) s t
      × ClaimsRow validation_kind w a.run_id s.attempts.validations t.attempts.validations
unfolding claim_new
claim_new-Tried w expected a artifact ae e key digest s own of v mine {r} {t} h =
    let (row, found, h₁) = >>=-eq-ok (or_raise workflow_not_found (find_workflow w s)) _ h in
    let (old, loaded, h₂) = >>=-eq-ok (load_workflow row) _ h₁ in
    let (_, _, h₃) = >>=-eq-ok (require (old.version == expected) workflow_conflict) _ h₂ in
    let (_, _, h₄) =
      >>=-eq-ok (require (same_status old.status executed) invalid_workflow_transition) _ h₃ in
    let (_, test, h₅) =
      >>=-eq-ok
        (require
          ((artifact.artifact_version == suc old.latest_artifact_version)
            && (a.validation_preview_artifact_version == artifact.artifact_version))
          workflow_conflict)
        _ h₄ in
    let next : artifact.artifact_version ≡ suc old.latest_artifact_version = (==_iff _ _).0 (
      and_left (artifact.artifact_version == suc old.latest_artifact_version) _
        (require-eq-ok _ workflow_conflict test)) in
    let (_, free, h₆) =
      >>=-eq-ok
        (require (not (blocked validation_kind w s.attempts.validations))
          validation_already_in_progress)
        _ h₅ in
    let (stored, k, h₇) =
      >>=-eq-ok (or_raise persistence_error (insert_artifact artifact s.artifacts)) _ h₆ in
    let (rows, i, h₈) = >>=-eq-ok (insert_run a s) _ h₇ in
    let (_, key_test, h₉) = >>=-eq-ok (require (ae.workflow_id == w) persistence_error) _ h₈ in
    let change = with_outcome validating (suc old.version) a.claimed_at artifact.artifact_version in
    let tried : Attempts = record s.attempts { validations = rows } in
    let (logged, l, h₁₀) =
      >>=-eq-ok
        (write_workflow w expected change (some ae) e (suc old.version)
          (record s { artifacts = stored; attempts = tried }))
        _ h₉ in
    let (res, loaded', h₁₁) = >>=-eq-ok (load_workflow (change old)) _ h₁₀ in
    let arts : Stored w old.latest_artifact_version artifact.artifact_version s.artifacts stored =
      appended artifact of next refl
        (insert_artifact_inv artifact s.artifacts stored (or_raise-eq-ok persistence_error _ k)) in
    let x : Write w s.idempotency tried s logged =
      write_workflow-Write w expected change (some ae) e s stored tried found loaded (λ y. refl)
        refl arts (require-eq-ok _ persistence_error key_test) mine l loaded' in
    let y =
      insert_idempotency-Write w (validation_scope w) key digest w a.run_id tried s logged x in
    let out : insert_idempotency (validation_scope w) key digest w a.run_id logged ≡ t =
      ap (λ p. p.1) (ok-injective h₁₁) in
    let c : RowsChange validation_kind s.attempts.validations rows =
      insert_run-change w a s own v (require-eq-ok _ _ free) i in
    let tries : Tried w (result_row (validation_scope w) key digest w a.run_id ∷ s.idempotency) s
        t =
      record {
        tried = tried;
        write =
            subst
              (Write w (result_row (validation_scope w) key digest w a.run_id ∷ s.idempotency) tried
                s)
              out y;
        attempts = validations_change s.attempts rows c;
      } in
    (
      tries,
      ClaimsRow-cons validation_kind w (without_result a) s.attempts.validations
          t.attempts.validations own (require-eq-ok _ _ free)
          (ap (λ (y : Attempts). y.validations) tries.write.attempts ∙ insert_run_inv a s i),
    )

replay_claim_same :
    (p : Platform) (w : ℕ) (row : IdempotencyRow) (s t : Store)
    {r : MigrationWorkflow × WorkflowValidationRun × WorkflowArtifact × Bool}
    → replay_claim p w row s ≡ ok (r, t)
    → (t ≡ s) × (r.3 ≡ false)
unfolding replay_claim
replay_claim_same p w row s t h = (ground arith, ground arith)

claim_branches :
    (p : Platform) (o : Option IdempotencyRow) (w expected : ℕ) (a : WorkflowValidationRun)
    (artifact : WorkflowArtifact) (ae e : MigrationAuditEvent) (key digest : Text) (s t : Store)
    → a.workflow_id ≡ w
    → artifact.workflow_id ≡ w
    → valid_validation_run (without_result a) ≡ true
    → e.workflow_id ≡ w
    → recorded (validation_scope w) key digest s ≡ ok o
    → {r : MigrationWorkflow × WorkflowValidationRun × WorkflowArtifact × Bool}
    → claim_or_replay p o w expected a artifact ae e key digest s ≡ ok (r, t)
    → ((t ≡ s) × (r.3 ≡ false))
      ⊎ (Tried w (result_row (validation_scope w) key digest w a.run_id ∷ s.idempotency) s t
          × IsFree (validation_scope w) key s
          × ClaimsRow validation_kind w a.run_id s.attempts.validations t.attempts.validations)
unfolding claim_or_replay
claim_branches p none w expected a artifact ae e key digest s t own of v mine q h =
    let (x, row) = claim_new-Tried w expected a artifact ae e key digest s own of v mine h in
    inr (x, recorded-none (validation_scope w) key digest s q, row)
claim_branches p (some row) w expected a artifact ae e key digest s t own of v mine q h =
    inl (replay_claim_same p w row s t h)

pub claim_validation_run_result :
    (p : Platform) (w expected : ℕ) (a : WorkflowValidationRun) (artifact : WorkflowArtifact)
    (ae e : MigrationAuditEvent) (key digest : Text) (s t : Store)
    {r : MigrationWorkflow × WorkflowValidationRun × WorkflowArtifact × Bool}
    → valid_validation_run a ≡ true
    → e.workflow_id ≡ w
    → claim_validation_run p w expected a artifact ae e key digest s ≡ ok (r, t)
    → ((t ≡ s) × (r.3 ≡ false))
      ⊎ (Tried w (result_row (validation_scope w) key digest w a.run_id ∷ s.idempotency) s t
          × IsFree (validation_scope w) key s
          × ClaimsRow validation_kind w a.run_id s.attempts.validations t.attempts.validations)
unfolding claim_validation_run
claim_validation_run_result p w expected a artifact ae e key digest s t v mine h =
    let (_, first_test, h₁) =
      >>=-eq-ok
        (require
          ((a.workflow_id == w)
            && (is_claimed a.status
                && ((artifact.workflow_id == w)
                    && same_artifact_type artifact.artifact_type validation_preview)))
          persistence_error)
        _ h in
    let (_, _, h₂) =
      >>=-eq-ok
        (require
          (names_id ae.artifact_id artifact.artifact_id
            && (holds_status executed e.previous_status && holds_status validating e.new_status))
          persistence_error)
        _ h₁ in
    let (o, q, h₃) = >>=-eq-ok (recorded (validation_scope w) key digest s) _ h₂ in
    let m = require-eq-ok _ persistence_error first_test in
    let rest = and_right (a.workflow_id == w) _ m in
    claim_branches p o w expected a artifact ae e key digest s t
      ((==_iff _ _).0 (and_left (a.workflow_id == w) _ m))
      ((==_iff _ _).0
        (and_left (artifact.workflow_id == w) _ (and_right (is_claimed a.status) _ rest)))
      (valid_validation_run_claimed a (and_left (is_claimed a.status) _ rest) v) mine q h₃

-- The transaction touches the one table only, and its answer tells who started the attempt.
pub mark_validation_running_result :
    (id at : ℕ) (s t : Store) {a : WorkflowValidationRun} {flag : Bool}
    → mark_validation_running id at s ≡ ok ((a, flag), t)
    → (t ≡ with_validations s t.attempts.validations)
      × AttemptsChange s.attempts t.attempts
      × (flag ≡ true → Starts validation_kind id a s.attempts.validations t.attempts.validations)
unfolding mark_validation_running
mark_validation_running_result id at s t {a} {flag} h =
    let ((x, rows), q, h₁) =
      >>=-eq-ok (mark_running validation_kind id (start_run at) s.attempts.validations) _ h in
    let given : x ≡ (a, flag) = ap (λ p. p.0) (ok-injective h₁) in
    let out : with_validations s rows ≡ t = ap (λ p. p.1) (ok-injective h₁) in
    let ran : mark_running validation_kind id (start_run at) s.attempts.validations
        ≡ ok ((a, flag), rows) =
      subst
        (λ y. mark_running validation_kind id (start_run at) s.attempts.validations ≡ ok (y, rows))
        given q in
    let (c, starts) =
      mark_running_result validation_kind (start_run at) (λ r. refl) (start_run-Progresses at)
        (λ r. refl) id s.attempts.validations ran in
    subst
      (λ (u : Store).
        (u ≡ with_validations s u.attempts.validations)
        × AttemptsChange s.attempts u.attempts
        × (flag ≡ true → Starts validation_kind id a s.attempts.validations u.attempts.validations))
      out (refl, validations_change s.attempts rows c, starts)

store_report-Stored :
    (w : ℕ) (old : MigrationWorkflow) (a : WorkflowValidationRun) (proof : Option Proof)
    (rows : List WorkflowArtifact) {stored : List WorkflowArtifact}
    → artifact_matches w proof ≡ true
    → store_report w old a proof rows ≡ ok stored
    → Stored w old.latest_artifact_version (latest_version old proof) rows stored
      × (optional_event_of w (event_of proof) ≡ true)
unfolding store_report artifact_matches
store_report-Stored w old a none rows matches h = (kept (ground arith) refl, refl)
store_report-Stored w old a (some (artifact, event)) rows {stored} matches h =
    let (_, next, h₂) =
      >>=-eq-ok
        (require (artifact.artifact_version == suc old.latest_artifact_version) workflow_conflict) _
        h in
    let (bs, i, h₃) = >>=-eq-ok (or_raise persistence_error (insert_artifact artifact rows)) _ h₂ in
    let (_, keys, h₄) =
      >>=-eq-ok (require ((a.workflow_id == w) && (event.workflow_id == w)) persistence_error) _
        h₃ in
    (
      appended artifact
          ((==_iff artifact.workflow_id w).0 (and_left (artifact.workflow_id == w) _ matches))
          ((==_iff _ _).0 (require-eq-ok _ workflow_conflict next)) refl
          (sym (ok-injective h₄)
            ∙ insert_artifact_inv artifact rows bs (or_raise-eq-ok persistence_error _ i)),
      and_right (a.workflow_id == w) _ (require-eq-ok _ persistence_error keys),
    )

write_outcome-Tried :
    (millis : ℕ → ℕ) (w expected id : ℕ) (a : WorkflowValidationRun) (proof : Option Proof)
    (new : WorkflowStatus) (e : MigrationAuditEvent) (at : ℕ) (failure : Option Text) (s : Store)
    {row old : MigrationWorkflow} {held : WorkflowValidationRun}
    → artifact_matches w proof ≡ true
    → e.workflow_id ≡ w
    → or_raise workflow_not_found (find_workflow w s) ≡ ok row
    → load_workflow row ≡ ok old
    → find validation_kind.key id s.attempts.validations ≡ some held
    → load_row validation_kind held ≡ ok a
    → is_running a.status ≡ true
    → {r : MigrationWorkflow × WorkflowValidationRun × Option WorkflowArtifact} {t : Store}
    → write_outcome millis w expected id old a proof new e at failure s ≡ ok (r, t)
    → Tried w s.idempotency s t
unfolding write_outcome
write_outcome-Tried millis w expected id a proof new e at failure s {row} {old} {held} matches mine
      found loaded stands l on {r} {t} h =
    let (stored, k, h₆) = >>=-eq-ok (store_report w old a proof s.artifacts) _ h in
    let (arts, own) = store_report-Stored w old a proof s.artifacts matches k in
    let (duration, _, h₇) = >>=-eq-ok (duration_of millis at a.running_at) _ h₆ in
    let terminal = terminal_of proof new in
    let finish = finish_run terminal at duration (evidence_id proof) failure in
    let (rows, u, h₈) =
      >>=-eq-ok
        (or_raise workflow_conflict
          (update validation_kind.key id (λ r. is_running r.status) finish s.attempts.validations))
        _ h₇ in
    let change = with_outcome new (suc old.version) at (latest_version old proof) in
    let tried : Attempts = record s.attempts { validations = rows } in
    let (logged, m, h₉) =
      >>=-eq-ok
        (write_workflow w expected change (event_of proof) e (suc old.version)
          (record s { artifacts = stored; attempts = tried }))
        _ h₈ in
    let (updated, b, h₁₀) = >>=-eq-ok (load_row validation_kind (finish a)) _ h₉ in
    let (res, loaded', h₁₁) = >>=-eq-ok (load_workflow (change old)) _ h₁₀ in
    let out : logged ≡ t = ap (λ p. p.1) (ok-injective h₁₁) in
    let x : Write w s.idempotency tried s logged =
      write_workflow-Write w expected change (event_of proof) e s stored tried found loaded
        (λ y. refl) refl arts own mine m loaded' in
    let c : RowsChange validation_kind s.attempts.validations rows =
      update-change validation_kind id (λ r. is_running r.status) finish s.attempts.validations rows
        held a updated stands l (λ y. refl)
        (finish_run-Progresses terminal at duration (evidence_id proof) failure a on) b
        (or_raise-eq-ok workflow_conflict _ u) in
    record {
      tried = tried;
      write = subst (Write w s.idempotency tried s) out x;
      attempts = validations_change s.attempts rows c;
    }

settle-Tried :
    (millis : ℕ → ℕ) (w expected id : ℕ) (proof : Option Proof) (new : WorkflowStatus)
    (e : MigrationAuditEvent) (at : ℕ) (failure : Option Text) (s : Store)
    → artifact_matches w proof ≡ true
    → e.workflow_id ≡ w
    → {r : MigrationWorkflow × WorkflowValidationRun × Option WorkflowArtifact} {t : Store}
    → settle millis w expected id proof new e at failure s ≡ ok (r, t)
    → Tried w s.idempotency s t
unfolding settle
settle-Tried millis w expected id proof new e at failure s matches mine {r} {t} h =
    let (row, found, h₁) = >>=-eq-ok (or_raise workflow_not_found (find_workflow w s)) _ h in
    let (old, loaded, h₂) = >>=-eq-ok (load_workflow row) _ h₁ in
    let (_, _, h₃) =
      >>=-eq-ok
        (require ((old.version == expected) && same_status old.status validating) workflow_conflict)
        _ h₂ in
    let (held, g, h₄) =
      >>=-eq-ok (or_raise workflow_not_found (find validation_kind.key id s.attempts.validations)) _
        h₃ in
    let (a, l, h₅) = >>=-eq-ok (load_row validation_kind held) _ h₄ in
    let (_, on, h₆) = >>=-eq-ok (require (is_running a.status) workflow_conflict) _ h₅ in
    write_outcome-Tried millis w expected id a proof new e at failure s matches mine found loaded
      (or_raise-eq-ok workflow_not_found _ g) l (require-eq-ok _ workflow_conflict on) h₆

pub complete_validation_run-Tried :
    (millis : ℕ → ℕ) (w expected id : ℕ) (reported : Bool) (artifact : Option WorkflowArtifact)
    (artifact_event : Option MigrationAuditEvent) (new : WorkflowStatus) (e : MigrationAuditEvent)
    (at : ℕ) (failure : Option Text) (s : Store)
    {r : MigrationWorkflow × WorkflowValidationRun × Option WorkflowArtifact} {t : Store}
    → e.workflow_id ≡ w
    → complete_validation_run millis w expected id reported artifact artifact_event new e at failure
        s
      ≡ ok (r, t)
    → Tried w s.idempotency s t
unfolding complete_validation_run
complete_validation_run-Tried millis w expected id reported artifact artifact_event new e at failure
      s mine h =
    let (proof, _, h₁) = >>=-eq-ok (bundle reported artifact artifact_event) _ h in
    let (_, matches, h₂) = >>=-eq-ok (require (artifact_matches w proof) persistence_error) _ h₁ in
    settle-Tried millis w expected id proof new e at failure s
      (require-eq-ok _ persistence_error matches) mine h₂
