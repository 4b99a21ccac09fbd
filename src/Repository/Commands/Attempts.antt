-- ===== src/Repository/Commands/Attempts.antt =====
-- The attempts of a workflow under any interleaving of commands: they only go on in their lives, and
-- one caller starts each.
pub mod Claims
use schemabridge.Base.{
  ℕ, ◌≤◌, ◌≡◌, refl, sym, ap, ◌∙◌, subst, Bool, true, false, some, List, [], ◌∷◌, All, inl, inr,
  arith,
}
use schemabridge.Base.Text.{Text}
use schemabridge.Base.Outcome.{Outcome, ok, raise, some-injective}
use schemabridge.Base.Table.{find}
use schemabridge.Model.Workflow.{MigrationWorkflow, WorkflowArtifact}
use schemabridge.Model.Event.{MigrationAuditEvent}
use schemabridge.Model.Attempt.{Kind, Progresses, Progresses-refl, Progresses-trans}
use schemabridge.Model.Attempt.Kinds.{transport_kind, execution_kind, validation_kind}
use schemabridge.Model.Attempt.Transport
use schemabridge.Model.Attempt.Transport.{WorkflowTransportAttempt, valid_transport_attempt}
use schemabridge.Model.Attempt.Execution
use schemabridge.Model.Attempt.Execution.{MigrationExecutionAttempt, valid_execution_attempt}
use schemabridge.Model.Attempt.Validation.{WorkflowValidationRun, valid_validation_run}
use schemabridge.Repository.Store.{Store, Attempts}
use schemabridge.Repository.Attempts.Rows.{RowsChange, find-change, ClaimsRow, blocked-find}
use schemabridge.Repository.Attempts.Running.{Starts}
use schemabridge.Repository.Attempts.Writes.{AttemptsChange, no_attempts}
use schemabridge.Repository.Attempts.Transport.{claim_transport_attempt, mark_transport_running}
use schemabridge.Repository.Attempts.Transport.Effects.{
  claim_transport_attempt_result, mark_transport_running_result,
}
use schemabridge.Repository.Attempts.Execution.{claim_execution_attempt, mark_execution_running}
use schemabridge.Repository.Attempts.Execution.Effects.{
  claim_execution_attempt_result, mark_execution_running_result,
}
use schemabridge.Repository.Attempts.Validation.{claim_validation_run, mark_validation_running}
use schemabridge.Repository.Attempts.Validation.Effects.{
  claim_validation_run_result, mark_validation_running_result,
}
use schemabridge.Repository.Workflows.{Platform}
use schemabridge.Repository.Commands.{
  Command, claim_transport, start_transport, claim_execution, start_execution, claim_validation,
  start_validation, IsWellFormed, execute, or_keep, run, store_of,
}
use schemabridge.Repository.Commands.Change.{Change, on_jobs, created, written, execute-Change}
use schemabridge.Repository.Commands.Consistent.{IsConsistent, execute-IsConsistent}

Change-attempts : {s t : Store} → Change s t → AttemptsChange s.attempts t.attempts
Change-attempts (on_jobs jobs ws arts es r a) = a
Change-attempts (created v row valid one zero_artifacts x r) = no_attempts x.attempts
Change-attempts (written w out tried x r a) = a

module _ (p : Platform) (millis : ℕ → ℕ) where
  -- The store after one command that has succeeded.
  pub done-IsConsistent :
      (c : Command) (s t : Store)
      → IsWellFormed c
      → IsConsistent s
      → execute p millis c s ≡ ok t
      → IsConsistent t
  done-IsConsistent c s t wf h q =
      subst (λ o. IsConsistent (or_keep s o)) q (execute-IsConsistent p millis c s wf h)

  module _ {R : Type 0} (k : Kind R) (rows : Attempts → List R)
      (pick : (a b : Attempts) → AttemptsChange a b → RowsChange k (rows a) (rows b)) where
    execute_progress :
        (c : Command) (s : Store) (i : ℕ) (a : R)
        → IsWellFormed c
        → IsConsistent s
        → find k.key i (rows s.attempts) ≡ some a
        → (b : R) × (find k.key i (rows (or_keep s (execute p millis c s)).attempts) ≡ some b)
          × Progresses k a b
    execute_progress c s i a wf h found = go (execute p millis c s) refl
      where
        go :
            (o : Outcome Store)
            → execute p millis c s ≡ o
            → (b : R) × (find k.key i (rows (or_keep s o).attempts) ≡ some b) × Progresses k a b
        go (ok t) e =
            find-change k i a
              (pick s.attempts t.attempts
                (Change-attempts (execute-Change p millis c s t wf h.distinct_jobs e)))
              found
        go (raise x) e = (a, found, Progresses-refl k a)

    run_progress :
        (cs : List Command) (s : Store) (i : ℕ) (a : R)
        → All IsWellFormed cs
        → IsConsistent s
        → find k.key i (rows s.attempts) ≡ some a
        → (b : R) × (find k.key i (rows (run p millis cs s).attempts) ≡ some b) × Progresses k a b
    unfolding run
    run_progress [] s i a wf h found = (a, found, Progresses-refl k a)
    run_progress (c ∷ cs) s i a wf h found =
        let (b, found₁, x) = execute_progress c s i a wf.0 h found in
        let (d, found₂, y) =
          run_progress cs (or_keep s (execute p millis c s)) i b wf.1
            (execute-IsConsistent p millis c s wf.0 h) found₁ in
        (d, found₂, Progresses-trans k x y)

    -- Only one caller starts a row.
    Starts-once :
        (cs : List Command) (i : ℕ) (a b : R) (rs ts : List R) (t : Store)
        → All IsWellFormed cs
        → IsConsistent t
        → Starts k i a rs (rows t.attempts)
        → ¬ Starts k i b (rows (run p millis cs t).attempts) ts
    Starts-once cs i a b rs ts t wf h x y =
        let (c, found, e) = run_progress cs t i a wf h x.is_stored in
        let same : c ≡ y.before = some-injective (sym found ∙ y.was_stored) in
        let zero : k.rank c ≡ 0 = ap k.rank same ∙ y.was_claimed in
        omega (arith, e.forward, x.is_running, zero)

    -- A row that lets another one of its workflow be claimed does not block.
    pub claims_again :
        (cs : List Command) (w i j : ℕ) (rs ts : List R) (t : Store)
        → All IsWellFormed cs
        → IsConsistent t
        → ClaimsRow k w i rs (rows t.attempts)
        → ClaimsRow k w j (rows (run p millis cs t).attempts) ts
        → (b : R) × (find k.key i (rows (run p millis cs t).attempts) ≡ some b)
          × (k.blocks b ≡ false)
    claims_again cs w i j rs ts t wf h x y =
        let (b, found, e) = run_progress cs t i x.row wf h x.is_stored in
        (
          b,
          found,
          blocked-find k i w b (rows (run p millis cs t).attempts) found
              (e.same_owner ∙ x.same_owner) y.was_free,
        )

  -- A stored staging load stays stored whatever commands run. It never goes back to an earlier
  -- status, once it has a terminal status its row never changes, its workflow and fingerprint stay,
  -- and one that has let another load be claimed never blocks again.
  pub run-transport :
      (cs : List Command) (s : Store) (i : ℕ) (a : WorkflowTransportAttempt)
      → All IsWellFormed cs
      → IsConsistent s
      → find transport_kind.key i s.attempts.transports ≡ some a
      → (b : WorkflowTransportAttempt) × (find transport_kind.key i
            (run p millis cs s).attempts.transports
          ≡ some b)
        × Progresses transport_kind a b
  run-transport = run_progress transport_kind (λ a. a.transports) (λ a b c. c.transports)

  -- The same for an execution on the target.
  pub run-execution :
      (cs : List Command) (s : Store) (i : ℕ) (a : MigrationExecutionAttempt)
      → All IsWellFormed cs
      → IsConsistent s
      → find execution_kind.key i s.attempts.executions ≡ some a
      → (b : MigrationExecutionAttempt) × (find execution_kind.key i
            (run p millis cs s).attempts.executions
          ≡ some b)
        × Progresses execution_kind a b
  run-execution = run_progress execution_kind (λ a. a.executions) (λ a b c. c.executions)

  -- The same for a validation run.
  pub run-validation :
      (cs : List Command) (s : Store) (i : ℕ) (a : WorkflowValidationRun)
      → All IsWellFormed cs
      → IsConsistent s
      → find validation_kind.key i s.attempts.validations ≡ some a
      → (b : WorkflowValidationRun) × (find validation_kind.key i
            (run p millis cs s).attempts.validations
          ≡ some b)
        × Progresses validation_kind a b
  run-validation = run_progress validation_kind (λ a. a.validations) (λ a b c. c.validations)

  -- When mark_execution_running has told a caller that it started the execution, it never tells
  -- another one so, whatever commands ran in between.
  pub mark_execution_running-once :
      (cs : List Command) (i at₁ at₂ : ℕ) (a b : MigrationExecutionAttempt) (s t u : Store)
      → All IsWellFormed cs
      → IsConsistent s
      → mark_execution_running i at₁ s ≡ ok ((a, true), t)
      → ¬ (mark_execution_running i at₂ (run p millis cs t) ≡ ok ((b, true), u))
  unfolding execute
  mark_execution_running-once cs i at₁ at₂ a b s t u wf h q r =
      let (_, _, x) = mark_execution_running_result i at₁ s t q in
      let (_, _, y) = mark_execution_running_result i at₂ (run p millis cs t) u r in
      let done : execute p millis (start_execution i at₁) s ≡ ok t = rw q in
      Starts-once execution_kind (λ a. a.executions) (λ a b c. c.executions) cs i a b
        s.attempts.executions u.attempts.executions t wf
        (done-IsConsistent (start_execution i at₁) s t tt h done) (x refl) (y refl)

  -- When mark_transport_running has told a caller that it started the staging load, it never tells
  -- another one so, whatever commands ran in between.
  pub mark_transport_running-once :
      (cs : List Command) (i at₁ at₂ : ℕ) (a b : WorkflowTransportAttempt) (s t u : Store)
      → All IsWellFormed cs
      → IsConsistent s
      → mark_transport_running i at₁ s ≡ ok ((a, true), t)
      → ¬ (mark_transport_running i at₂ (run p millis cs t) ≡ ok ((b, true), u))
  unfolding execute
  mark_transport_running-once cs i at₁ at₂ a b s t u wf h q r =
      let (_, _, x) = mark_transport_running_result i at₁ s t q in
      let (_, _, y) = mark_transport_running_result i at₂ (run p millis cs t) u r in
      let done : execute p millis (start_transport i at₁) s ≡ ok t = rw q in
      Starts-once transport_kind (λ a. a.transports) (λ a b c. c.transports) cs i a b
        s.attempts.transports u.attempts.transports t wf
        (done-IsConsistent (start_transport i at₁) s t tt h done) (x refl) (y refl)

  -- When mark_validation_running has told a caller that it started the validation run, it never tells
  -- another one so, whatever commands ran in between.
  pub mark_validation_running-once :
      (cs : List Command) (i at₁ at₂ : ℕ) (a b : WorkflowValidationRun) (s t u : Store)
      → All IsWellFormed cs
      → IsConsistent s
      → mark_validation_running i at₁ s ≡ ok ((a, true), t)
      → ¬ (mark_validation_running i at₂ (run p millis cs t) ≡ ok ((b, true), u))
  unfolding execute
  mark_validation_running-once cs i at₁ at₂ a b s t u wf h q r =
      let (_, _, x) = mark_validation_running_result i at₁ s t q in
      let (_, _, y) = mark_validation_running_result i at₂ (run p millis cs t) u r in
      let done : execute p millis (start_validation i at₁) s ≡ ok t = rw q in
      Starts-once validation_kind (λ a. a.validations) (λ a b c. c.validations) cs i a b
        s.attempts.validations u.attempts.validations t wf
        (done-IsConsistent (start_validation i at₁) s t tt h done) (x refl) (y refl)
