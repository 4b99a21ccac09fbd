-- ===== src/Repository/Commands/Replay.antt =====
-- A recorded command stays recorded, and to repeat it changes nothing.
use schemabridge.Base.{ℕ, ◌≡◌, refl, subst, true, false, Option, some, List, [], ◌∷◌, All}
use schemabridge.Base.Text.{Text, text_eq}
use schemabridge.Base.Outcome.{Outcome, ok, raise, idempotency_conflict}
use schemabridge.Base.Table.{All-find}
use schemabridge.Model.Status.{WorkflowStatus}
use schemabridge.Model.Workflow.{MigrationWorkflow, valid_workflow}
use schemabridge.Model.Event.{MigrationAuditEvent}
use schemabridge.Repository.Store.{
  Store, Scope, IdempotencyRow, status_scope, workflow_key, find_workflow, find_idempotency,
  find_idempotency-cons,
}
use schemabridge.Repository.Workflows.{Platform, transition_status}
use schemabridge.Repository.Workflows.Replays.{
  HasResult, transition_status-HasResult, transition_status_again, transition_status_found,
  transition_status_conflict,
}
use schemabridge.Repository.Commands.Life.{run-IsLater}
use schemabridge.Repository.Commands.{Command, transition, IsWellFormed, execute, or_keep, run}
use schemabridge.Repository.Commands.Change.{
  Recorded, same, added, Change, on_jobs, created, written, execute-Change,
}
use schemabridge.Repository.Commands.Consistent.{
  IsConsistent, execute-IsConsistent, run-IsConsistent,
}

find_idempotency-Recorded :
    {rows new : List IdempotencyRow} (x : Scope) (key : Text) (r : IdempotencyRow)
    → Recorded rows new
    → find_idempotency x key rows ≡ some r
    → find_idempotency x key new ≡ some r
find_idempotency-Recorded x key r (same e) h = rw e h
find_idempotency-Recorded {rows} x key r (added row free e) h =
    rw e (find_idempotency-cons x key row r rows free h)

Change-Recorded : {s t : Store} → Change s t → Recorded s.idempotency t.idempotency
Change-Recorded (on_jobs jobs ws arts es r a) = r
Change-Recorded (created v row valid one z x r) = r
Change-Recorded (written w out tried x r a) = r

module _ (p : Platform) (millis : ℕ → ℕ) where
  execute_recorded :
      (c : Command) (s : Store) (x : Scope) (key : Text) (r : IdempotencyRow)
      → IsWellFormed c
      → IsConsistent s
      → find_idempotency x key s.idempotency ≡ some r
      → find_idempotency x key (or_keep s (execute p millis c s)).idempotency ≡ some r
  execute_recorded c s x key r wf h found = go (execute p millis c s) refl
    where
      go :
          (o : Outcome Store)
          → execute p millis c s ≡ o
          → find_idempotency x key (or_keep s o).idempotency ≡ some r
      go (ok t) e =
          find_idempotency-Recorded x key r
            (Change-Recorded (execute-Change p millis c s t wf h.distinct_jobs e)) found
      go (raise y) e = found

  -- No command removes or replaces the recorded result of another.
  pub run_recorded :
      (cs : List Command) (s : Store) (x : Scope) (key : Text) (r : IdempotencyRow)
      → All IsWellFormed cs
      → IsConsistent s
      → find_idempotency x key s.idempotency ≡ some r
      → find_idempotency x key (run p millis cs s).idempotency ≡ some r
  unfolding run
  run_recorded [] s x key r wf h found = found
  run_recorded (c ∷ cs) s x key r wf h found =
      run_recorded cs (or_keep s (execute p millis c s)) x key r wf.1
        (execute-IsConsistent p millis c s wf.0 h) (execute_recorded c s x key r wf.0 h found)

  kept_result :
      (cs : List Command) (scope : Scope) (key digest : Text) (s : Store)
      → All IsWellFormed cs
      → IsConsistent s
      → HasResult scope key digest s
      → HasResult scope key digest (run p millis cs s)
  kept_result cs scope key digest s wf h x = record {
    row = x.row;
    found = run_recorded cs s scope key x.row wf h x.found;
    digest_eq = x.digest_eq;
  }

  transition_status-IsConsistent :
      (w v : ℕ) (new : WorkflowStatus) (e : MigrationAuditEvent) (error : Option Text)
      (key digest : Text) (s t : Store) (r : MigrationWorkflow)
      → IsConsistent s
      → transition_status w v new e error key digest s ≡ ok (r, t)
      → IsConsistent t
  unfolding execute
  transition_status-IsConsistent w v new e error key digest s t r h q =
      let c = transition w v new e error key digest in
      let done : execute p millis c s ≡ ok t = rw q in
      subst (λ o. IsConsistent (or_keep s o)) done (execute-IsConsistent p millis c s tt h)

  -- A status command that has succeeded may be repeated at any time: whatever commands ran in
  -- between, it returns the workflow as it now stands and changes nothing.
  pub transition_status-run :
      (cs : List Command) (w v : ℕ) (new : WorkflowStatus) (e : MigrationAuditEvent)
      (error : Option Text) (key digest : Text) (s t : Store) (r : MigrationWorkflow)
      → All IsWellFormed cs
      → IsConsistent s
      → transition_status w v new e error key digest s ≡ ok (r, t)
      → (u : MigrationWorkflow) × (find_workflow w (run p millis cs t) ≡ some u)
        × (transition_status w v new e error key digest (run p millis cs t)
            ≡ ok (u, run p millis cs t))
  transition_status-run cs w v new e error key digest s t r wf h q =
      let k = transition_status-IsConsistent w v new e error key digest s t r h q in
      let (own, x) = transition_status-HasResult w v new e error key digest s t q in
      let (u₀, found₀) = transition_status_found w v new e error key digest s t q in
      let (u, found, later) = run-IsLater p millis cs t w u₀ wf k found₀ in
      let valid =
        All-find workflow_key (λ x. valid_workflow x ≡ true) w (run p millis cs t).workflows u
          (run-IsConsistent p millis cs t wf k).valid_workflows found in
      (
        u,
        found,
        transition_status_again w v new e error key digest (run p millis cs t) u own
            (kept_result cs (status_scope w) key digest t wf k x) found valid,
      )

  -- The key of a status command that has succeeded is never accepted for another request: whatever
  -- commands ran in between, a different digest under that key is an idempotency conflict.
  pub transition_status_conflict-run :
      (cs : List Command) (w v : ℕ) (new : WorkflowStatus) (e : MigrationAuditEvent)
      (error : Option Text) (key digest other : Text) (s t : Store) (r : MigrationWorkflow)
      → All IsWellFormed cs
      → IsConsistent s
      → transition_status w v new e error key digest s ≡ ok (r, t)
      → text_eq digest other ≡ false
      → transition_status w v new e error key other (run p millis cs t) ≡ raise idempotency_conflict
  transition_status_conflict-run cs w v new e error key digest other s t r wf h q differs =
      let k = transition_status-IsConsistent w v new e error key digest s t r h q in
      let (own, x) = transition_status-HasResult w v new e error key digest s t q in
      transition_status_conflict w v new e error key digest other (run p millis cs t) own
        (kept_result cs (status_scope w) key digest t wf k x) differs
