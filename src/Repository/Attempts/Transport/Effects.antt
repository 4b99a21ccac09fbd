-- ===== src/Repository/Attempts/Transport/Effects.antt =====
-- What the transactions on migration_transport_attempts do to the store.
use schemabridge.Base.{
  ℕ, suc, ◌≡◌, refl, sym, ◌∙◌, ap, subst, ◌⊎◌, inl, inr, Bool, true, false, not, ◌&&◌, Option, none,
  some, List, ◌∷◌, leb, ◌==◌, ==_iff, and_left, and_right, arith,
}
use schemabridge.Base.Text.{Text}
use schemabridge.Base.Outcome.{
  ok, >>=-eq-ok, require, require-eq-ok, workflow_not_found, workflow_conflict,
  invalid_workflow_transition, persistence_error, transport_already_in_progress, ok-injective,
}
use schemabridge.Base.Table.{find, update, insert_inv}
use schemabridge.Model.Status.{WorkflowStatus, same_status, mapping_approved, staging}
use schemabridge.Model.Workflow.{MigrationWorkflow, WorkflowArtifact}
use schemabridge.Model.Event.{MigrationAuditEvent, holds_status}
use schemabridge.Model.Attempt.Transport.{
  WorkflowTransportAttempt, WorkflowTransportAttemptStatus, WorkflowTransportEvidence, is_claimed,
  is_running, without_result, valid_transport_attempt, valid_transport_attempt_claimed,
}
use schemabridge.Model.Attempt.Kinds.{transport_kind}
use schemabridge.Repository.Store.{
  Store, Attempts, IdempotencyRow, transport_scope, find_workflow, or_raise, or_raise-eq-ok,
  load_workflow, recorded, recorded-none, result_row,
}
use schemabridge.Repository.Workflows.{insert_artifact, optional_event_of}
use schemabridge.Repository.Workflows.Write.{Write, Stored, kept, appended}
use schemabridge.Repository.Workflows.Effects.{insert_artifact_inv}
use schemabridge.Repository.Workflows.Results.{IsFree}
use schemabridge.Repository.Attempts.{load_row, blocked, mark_running, write_workflow}
use schemabridge.Repository.Attempts.Rows.{RowsChange, unchanged, ClaimsRow, ClaimsRow-cons}
use schemabridge.Repository.Attempts.Running.{Starts, mark_running_result}
use schemabridge.Repository.Attempts.Writes.{
  AttemptsChange, Tried, write_workflow-Write, insert_idempotency-Write, insert-change,
  update-change,
}
use schemabridge.Repository.Attempts.Life.{start_attempt-Progresses, finish_attempt-Progresses}
use schemabridge.Repository.Attempts.Transport.{
  with_transports, insert_attempt, with_phase, with_outcome, claim_new, replay_claim,
  claim_or_replay, claim_transport_attempt, start_attempt, mark_transport_running, Proof, bundle,
  terminal_of, artifact_matches, evidence_matches, store_evidence, evidence_id, latest_version,
  event_of, finish_attempt, write_outcome, settle, complete_transport_attempt,
}

transports_change :
    (a : Attempts) (rows : List WorkflowTransportAttempt)
    → RowsChange transport_kind a.transports rows
    → AttemptsChange a (record a { transports = rows })
transports_change a rows c = record {
  transports = c;
  executions = unchanged refl;
  validations = unchanged refl;
}

insert_attempt-change :
    (w : ℕ) (a : WorkflowTransportAttempt) (rs : List WorkflowTransportAttempt)
    {ts : List WorkflowTransportAttempt}
    → a.workflow_id ≡ w
    → valid_transport_attempt (without_result a) ≡ true
    → not (blocked transport_kind w rs) ≡ true
    → insert_attempt a rs ≡ ok ts
    → RowsChange transport_kind rs ts
unfolding insert_attempt
insert_attempt-change w a rs {ts} own v free h =
    let (_, _, h₁) = >>=-eq-ok (require (leb a.batch_size 10000) persistence_error) _ h in
    insert-change transport_kind (without_result a) w rs ts own v (ground arith)
      (or_raise-eq-ok persistence_error _ h₁)

insert_attempt_inv :
    (a : WorkflowTransportAttempt) (rs : List WorkflowTransportAttempt)
    {ts : List WorkflowTransportAttempt}
    → insert_attempt a rs ≡ ok ts
    → ts ≡ without_result a ∷ rs
unfolding insert_attempt
insert_attempt_inv a rs {ts} h =
    let (_, _, h₁) = >>=-eq-ok (require (leb a.batch_size 10000) persistence_error) _ h in
    (insert_inv transport_kind.key (without_result a) rs ts
      (or_raise-eq-ok persistence_error _ h₁)).1

claim_new-Tried :
    (w expected : ℕ) (a : WorkflowTransportAttempt) (e : MigrationAuditEvent) (key digest : Text)
    (s : Store)
    → a.workflow_id ≡ w
    → valid_transport_attempt (without_result a) ≡ true
    → e.workflow_id ≡ w
    → {r : MigrationWorkflow × WorkflowTransportAttempt × Bool} {t : Store}
    → claim_new w expected a e key digest s ≡ ok (r, t)
    → Tried w (result_row (transport_scope w) key digest w a.attempt_id ∷ s.idempotency) s t
      × ClaimsRow transport_kind w a.attempt_id s.attempts.transports t.attempts.transports
unfolding claim_new
claim_new-Tried w expected a e key digest s own v mine {r} {t} h =
    let (row, found, h₁) = >>=-eq-ok (or_raise workflow_not_found (find_workflow w s)) _ h in
    let (old, loaded, h₂) = >>=-eq-ok (load_workflow row) _ h₁ in
    let (_, _, h₃) = >>=-eq-ok (require (old.version == expected) workflow_conflict) _ h₂ in
    let (_, _, h₄) =
      >>=-eq-ok (require (same_status old.status mapping_approved) invalid_workflow_transition) _
        h₃ in
    let (_, free, h₅) =
      >>=-eq-ok
        (require (not (blocked transport_kind w s.attempts.transports))
          transport_already_in_progress)
        _ h₄ in
    let (rows, i, h₆) = >>=-eq-ok (insert_attempt a s.attempts.transports) _ h₅ in
    let change = with_phase staging (suc old.version) a.claimed_at in
    let (logged, l, h₇) =
      >>=-eq-ok (write_workflow w expected change none e (suc old.version) (with_transports s rows))
        _ h₆ in
    let (res, loaded', h₈) = >>=-eq-ok (load_workflow (change old)) _ h₇ in
    let tried : Attempts = record s.attempts { transports = rows } in
    let x =
      write_workflow-Write w expected change none e s s.artifacts tried found loaded (λ y. refl)
        refl (kept refl refl) refl mine l loaded' in
    let y =
      insert_idempotency-Write w (transport_scope w) key digest w a.attempt_id tried s logged x in
    let tries : Tried w (result_row (transport_scope w) key digest w a.attempt_id ∷ s.idempotency) s
        t =
      record {
        tried = tried;
        write =
            subst
              (Write w (result_row (transport_scope w) key digest w a.attempt_id ∷ s.idempotency)
                tried s)
              (ap (λ p. p.1) (ok-injective h₈)) y;
        attempts =
            transports_change s.attempts rows
              (insert_attempt-change w a s.attempts.transports own v (require-eq-ok _ _ free) i);
      } in
    (
      tries,
      ClaimsRow-cons transport_kind w (without_result a) s.attempts.transports t.attempts.transports
          own (require-eq-ok _ _ free)
          (ap (λ (y : Attempts). y.transports) tries.write.attempts
            ∙ insert_attempt_inv a s.attempts.transports i),
    )

replay_claim_same :
    (w : ℕ) (row : IdempotencyRow) (s t : Store)
    {r : MigrationWorkflow × WorkflowTransportAttempt × Bool}
    → replay_claim w row s ≡ ok (r, t)
    → (t ≡ s) × (r.2 ≡ false)
unfolding replay_claim
replay_claim_same w row s t h = (ground arith, ground arith)

claim_branches :
    (o : Option IdempotencyRow) (w expected : ℕ) (a : WorkflowTransportAttempt)
    (e : MigrationAuditEvent) (key digest : Text) (s t : Store)
    → a.workflow_id ≡ w
    → valid_transport_attempt (without_result a) ≡ true
    → e.workflow_id ≡ w
    → recorded (transport_scope w) key digest s ≡ ok o
    → {r : MigrationWorkflow × WorkflowTransportAttempt × Bool}
    → claim_or_replay o w expected a e key digest s ≡ ok (r, t)
    → ((t ≡ s) × (r.2 ≡ false))
      ⊎ (Tried w (result_row (transport_scope w) key digest w a.attempt_id ∷ s.idempotency) s t
          × IsFree (transport_scope w) key s
          × ClaimsRow transport_kind w a.attempt_id s.attempts.transports t.attempts.transports)
unfolding claim_or_replay
claim_branches none w expected a e key digest s t own v mine q h =
    let (x, row) = claim_new-Tried w expected a e key digest s own v mine h in
    inr (x, recorded-none (transport_scope w) key digest s q, row)
claim_branches (some row) w expected a e key digest s t own v mine q h =
    inl (replay_claim_same w row s t h)

pub claim_transport_attempt_result :
    (w expected : ℕ) (a : WorkflowTransportAttempt) (e : MigrationAuditEvent) (key digest : Text)
    (s t : Store) {r : MigrationWorkflow × WorkflowTransportAttempt × Bool}
    → valid_transport_attempt a ≡ true
    → claim_transport_attempt w expected a e key digest s ≡ ok (r, t)
    → ((t ≡ s) × (r.2 ≡ false))
      ⊎ (Tried w (result_row (transport_scope w) key digest w a.attempt_id ∷ s.idempotency) s t
          × IsFree (transport_scope w) key s
          × ClaimsRow transport_kind w a.attempt_id s.attempts.transports t.attempts.transports)
unfolding claim_transport_attempt
claim_transport_attempt_result w expected a e key digest s t v h =
    let (_, mine, h₁) =
      >>=-eq-ok (require ((a.workflow_id == w) && is_claimed a.status) persistence_error) _ h in
    let (_, own, h₂) =
      >>=-eq-ok
        (require
          ((e.workflow_id == w)
            && (holds_status mapping_approved e.previous_status
                && holds_status staging e.new_status))
          persistence_error)
        _ h₁ in
    let (o, q, h₃) = >>=-eq-ok (recorded (transport_scope w) key digest s) _ h₂ in
    let m = require-eq-ok _ persistence_error mine in
    claim_branches o w expected a e key digest s t
      ((==_iff _ _).0 (and_left (a.workflow_id == w) (is_claimed a.status) m))
      (valid_transport_attempt_claimed a (and_right (a.workflow_id == w) (is_claimed a.status) m) v)
      ((==_iff _ _).0 (and_left (e.workflow_id == w) _ (require-eq-ok _ persistence_error own))) q
      h₃

-- The transaction touches the one table only, and its answer tells who started the attempt.
pub mark_transport_running_result :
    (id at : ℕ) (s t : Store) {a : WorkflowTransportAttempt} {flag : Bool}
    → mark_transport_running id at s ≡ ok ((a, flag), t)
    → (t ≡ with_transports s t.attempts.transports)
      × AttemptsChange s.attempts t.attempts
      × (flag ≡ true → Starts transport_kind id a s.attempts.transports t.attempts.transports)
unfolding mark_transport_running
mark_transport_running_result id at s t {a} {flag} h =
    let ((x, rows), q, h₁) =
      >>=-eq-ok (mark_running transport_kind id (start_attempt at) s.attempts.transports) _ h in
    let given : x ≡ (a, flag) = ap (λ p. p.0) (ok-injective h₁) in
    let out : with_transports s rows ≡ t = ap (λ p. p.1) (ok-injective h₁) in
    let ran : mark_running transport_kind id (start_attempt at) s.attempts.transports
        ≡ ok ((a, flag), rows) =
      subst
        (λ y.
          mark_running transport_kind id (start_attempt at) s.attempts.transports ≡ ok (y, rows))
        given q in
    let (c, starts) =
      mark_running_result transport_kind (start_attempt at) (λ r. refl)
        (start_attempt-Progresses at) (λ r. refl) id s.attempts.transports ran in
    subst
      (λ (u : Store).
        (u ≡ with_transports s u.attempts.transports)
        × AttemptsChange s.attempts u.attempts
        × (flag ≡ true → Starts transport_kind id a s.attempts.transports u.attempts.transports))
      out (refl, transports_change s.attempts rows c, starts)

-- The artifact of the evidence is new, and both it and its event belong to the workflow.
store_evidence-Stored :
    (w id : ℕ) (old : MigrationWorkflow) (a : WorkflowTransportAttempt) (proof : Option Proof)
    (rows : List WorkflowArtifact) {stored : List WorkflowArtifact}
    → artifact_matches w proof ≡ true
    → store_evidence w id old a proof rows ≡ ok stored
    → Stored w old.latest_artifact_version (latest_version old proof) rows stored
      × (optional_event_of w (event_of proof) ≡ true)
unfolding store_evidence
store_evidence-Stored w id old a none rows matches h = (kept (ground arith) refl, refl)
store_evidence-Stored w id old a (some (evidence, artifact, event)) rows {stored} matches h =
    let (_, _, h₁) = >>=-eq-ok (require (evidence_matches w id a evidence) persistence_error) _ h in
    let (_, next, h₂) =
      >>=-eq-ok
        (require (artifact.artifact_version == suc old.latest_artifact_version) workflow_conflict) _
        h₁ in
    let (bs, i, h₃) = >>=-eq-ok (or_raise persistence_error (insert_artifact artifact rows)) _ h₂ in
    let (_, keys, h₄) =
      >>=-eq-ok (require ((a.workflow_id == w) && (event.workflow_id == w)) persistence_error) _
        h₃ in
    (
      appended artifact
          ((==_iff artifact.workflow_id w).0 (and_left (artifact.workflow_id == w) _ matches))
          ((==_iff _ _).0 (require-eq-ok _ workflow_conflict next)) refl
          (sym (ok-injective h₄)
            ∙ insert_artifact_inv artifact rows bs (or_raise-eq-ok persistence_error _ i)),
      and_right (a.workflow_id == w) _ (require-eq-ok _ persistence_error keys),
    )

write_outcome-Tried :
    (w expected id : ℕ) (a : WorkflowTransportAttempt) (proof : Option Proof)
    (terminal : WorkflowTransportAttemptStatus) (new : WorkflowStatus) (e : MigrationAuditEvent)
    (at : ℕ) (failure : Option Text) (s : Store) {row old : MigrationWorkflow}
    {held : WorkflowTransportAttempt}
    → artifact_matches w proof ≡ true
    → e.workflow_id ≡ w
    → or_raise workflow_not_found (find_workflow w s) ≡ ok row
    → load_workflow row ≡ ok old
    → find transport_kind.key id s.attempts.transports ≡ some held
    → load_row transport_kind held ≡ ok a
    → is_running a.status ≡ true
    → {r : MigrationWorkflow × WorkflowTransportAttempt × Option WorkflowArtifact} {t : Store}
    → write_outcome w expected id old a proof terminal new e at failure s ≡ ok (r, t)
    → Tried w s.idempotency s t
unfolding write_outcome
write_outcome-Tried w expected id a proof terminal new e at failure s {row} {old} {held} matches
      mine found loaded stands l on {r} {t} h =
    let (stored, k, h₇) = >>=-eq-ok (store_evidence w id old a proof s.artifacts) _ h in
    let (arts, own) = store_evidence-Stored w id old a proof s.artifacts matches k in
    let finish = finish_attempt terminal at (evidence_id proof) failure in
    let (rows, u, h₈) =
      >>=-eq-ok
        (or_raise workflow_conflict
          (update transport_kind.key id (λ r. is_running r.status) finish s.attempts.transports))
        _ h₇ in
    let change = with_outcome new (suc old.version) at (latest_version old proof) in
    let tried : Attempts = record s.attempts { transports = rows } in
    let (logged, m, h₉) =
      >>=-eq-ok
        (write_workflow w expected change (event_of proof) e (suc old.version)
          (record s { artifacts = stored; attempts = tried }))
        _ h₈ in
    let (updated, b, h₁₀) = >>=-eq-ok (load_row transport_kind (finish a)) _ h₉ in
    let (res, loaded', h₁₁) = >>=-eq-ok (load_workflow (change old)) _ h₁₀ in
    let out : logged ≡ t = ap (λ p. p.1) (ok-injective h₁₁) in
    let x : Write w s.idempotency tried s logged =
      write_workflow-Write w expected change (event_of proof) e s stored tried found loaded
        (λ y. refl) refl arts own mine m loaded' in
    let c : RowsChange transport_kind s.attempts.transports rows =
      update-change transport_kind id (λ r. is_running r.status) finish s.attempts.transports rows
        held a updated stands l (λ y. refl)
        (finish_attempt-Progresses terminal at (evidence_id proof) failure a on) b
        (or_raise-eq-ok workflow_conflict _ u) in
    record {
      tried = tried;
      write = subst (Write w s.idempotency tried s) out x;
      attempts = transports_change s.attempts rows c;
    }

settle-Tried :
    (w expected id : ℕ) (proof : Option Proof) (terminal : WorkflowTransportAttemptStatus)
    (new : WorkflowStatus) (e : MigrationAuditEvent) (at : ℕ) (failure : Option Text) (s : Store)
    → artifact_matches w proof ≡ true
    → e.workflow_id ≡ w
    → {r : MigrationWorkflow × WorkflowTransportAttempt × Option WorkflowArtifact} {t : Store}
    → settle w expected id proof terminal new e at failure s ≡ ok (r, t)
    → Tried w s.idempotency s t
unfolding settle
settle-Tried w expected id proof terminal new e at failure s matches mine {r} {t} h =
    let (row, found, h₁) = >>=-eq-ok (or_raise workflow_not_found (find_workflow w s)) _ h in
    let (old, loaded, h₂) = >>=-eq-ok (load_workflow row) _ h₁ in
    let (_, _, h₃) =
      >>=-eq-ok
        (require ((old.version == expected) && same_status old.status staging) workflow_conflict) _
        h₂ in
    let (held, g, h₄) =
      >>=-eq-ok (or_raise workflow_not_found (find transport_kind.key id s.attempts.transports)) _
        h₃ in
    let (a, l, h₅) = >>=-eq-ok (load_row transport_kind held) _ h₄ in
    let (_, on, h₆) = >>=-eq-ok (require (is_running a.status) workflow_conflict) _ h₅ in
    write_outcome-Tried w expected id a proof terminal new e at failure s matches mine found loaded
      (or_raise-eq-ok workflow_not_found _ g) l (require-eq-ok _ workflow_conflict on) h₆

pub complete_transport_attempt-Tried :
    (w expected id : ℕ) (evidence : Option WorkflowTransportEvidence)
    (artifact : Option WorkflowArtifact) (artifact_event : Option MigrationAuditEvent)
    (new : WorkflowStatus) (e : MigrationAuditEvent) (at : ℕ) (failure : Option Text) (s : Store)
    {r : MigrationWorkflow × WorkflowTransportAttempt × Option WorkflowArtifact} {t : Store}
    → complete_transport_attempt w expected id evidence artifact artifact_event new e at failure s
      ≡ ok (r, t)
    → Tried w s.idempotency s t
unfolding complete_transport_attempt
complete_transport_attempt-Tried w expected id evidence artifact artifact_event new e at failure s
      h =
    let (proof, _, h₁) = >>=-eq-ok (bundle evidence artifact artifact_event) _ h in
    let (terminal, _, h₂) = >>=-eq-ok (terminal_of new proof failure) _ h₁ in
    let (_, own, h₃) =
      >>=-eq-ok
        (require
          ((e.workflow_id == w)
            && (holds_status staging e.previous_status && holds_status new e.new_status))
          persistence_error)
        _ h₂ in
    let (_, matches, h₄) = >>=-eq-ok (require (artifact_matches w proof) persistence_error) _ h₃ in
    settle-Tried w expected id proof terminal new e at failure s
      (require-eq-ok _ persistence_error matches)
      ((==_iff _ _).0 (and_left (e.workflow_id == w) _ (require-eq-ok _ persistence_error own))) h₄
