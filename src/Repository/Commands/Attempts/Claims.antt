-- ===== src/Repository/Commands/Attempts/Claims.antt =====
-- Claims under any interleaving of commands: another attempt of a workflow is claimed only where the
-- first one did not happen.
use schemabridge.Base.{ℕ, ◌≡◌, refl, true, false, some, List, All, inl, inr}
use schemabridge.Base.Text.{Text}
use schemabridge.Base.Outcome.{ok}
use schemabridge.Base.Table.{find}
use schemabridge.Model.Workflow.{MigrationWorkflow, WorkflowArtifact}
use schemabridge.Model.Event.{MigrationAuditEvent}
use schemabridge.Model.Attempt.Kinds.{transport_kind, execution_kind, validation_kind}
use schemabridge.Model.Attempt.Transport
use schemabridge.Model.Attempt.Transport.{WorkflowTransportAttempt, valid_transport_attempt}
use schemabridge.Model.Attempt.Execution
use schemabridge.Model.Attempt.Execution.{MigrationExecutionAttempt, valid_execution_attempt}
use schemabridge.Model.Attempt.Validation.{WorkflowValidationRun, valid_validation_run}
use schemabridge.Repository.Store.{Store}
use schemabridge.Repository.Attempts.Rows.{ClaimsRow}
use schemabridge.Repository.Attempts.Transport.{claim_transport_attempt}
use schemabridge.Repository.Attempts.Transport.Effects.{claim_transport_attempt_result}
use schemabridge.Repository.Attempts.Execution.{claim_execution_attempt}
use schemabridge.Repository.Attempts.Execution.Effects.{claim_execution_attempt_result}
use schemabridge.Repository.Attempts.Validation.{claim_validation_run}
use schemabridge.Repository.Attempts.Validation.Effects.{claim_validation_run_result}
use schemabridge.Repository.Workflows.{Platform}
use schemabridge.Repository.Commands.{
  Command, claim_transport, claim_execution, claim_validation, IsWellFormed, execute, run,
}
use schemabridge.Repository.Commands.Consistent.{IsConsistent}
use schemabridge.Repository.Commands.Attempts.{done-IsConsistent, claims_again}

rolled_back :
    (s : Execution.MigrationExecutionAttemptStatus)
    → Execution.is_blocking s ≡ false
    → s ≡ Execution.failed_rolled_back
rolled_back Execution.failed_rolled_back h = refl
rolled_back _ h = cc

cleaned_up :
    (s : Transport.WorkflowTransportAttemptStatus)
    → Transport.is_blocking s ≡ false
    → s ≡ Transport.failed_cleaned_up
cleaned_up Transport.failed_cleaned_up h = refl
cleaned_up _ h = cc

module _ (p : Platform) (millis : ℕ → ℕ) where
  new_execution :
      (w v : ℕ) (a b : MigrationExecutionAttempt) (e : MigrationAuditEvent) (key digest : Text)
      (s t : Store) {r : MigrationWorkflow}
      → valid_execution_attempt a ≡ true
      → claim_execution_attempt w v a e key digest s ≡ ok ((r, b, true), t)
      → ClaimsRow execution_kind w a.attempt_id s.attempts.executions t.attempts.executions
  new_execution w v a b e key digest s t valid q =
      elim (claim_execution_attempt_result w v a e key digest s t valid q) [
        | inl (_, flag) ↦ absurd (cc flag)
        | inr (_, _, row) ↦ row
      ]

  -- An execution of a workflow that was claimed is claimed again only after the first one was rolled
  -- back: when two calls of claim_execution_attempt both claim a new execution, the row of the first
  -- stands at FAILED_ROLLED_BACK at the second, whatever commands ran in between.
  pub claim_execution_attempt-again :
      (cs : List Command) (w v₁ v₂ : ℕ) (a₁ a₂ b₁ b₂ : MigrationExecutionAttempt)
      (e₁ e₂ : MigrationAuditEvent) (key₁ key₂ digest₁ digest₂ : Text) (s t u : Store)
      (r₁ r₂ : MigrationWorkflow)
      → All IsWellFormed cs
      → IsConsistent s
      → valid_execution_attempt a₁ ≡ true
      → valid_execution_attempt a₂ ≡ true
      → claim_execution_attempt w v₁ a₁ e₁ key₁ digest₁ s ≡ ok ((r₁, b₁, true), t)
      → claim_execution_attempt w v₂ a₂ e₂ key₂ digest₂ (run p millis cs t) ≡ ok ((r₂, b₂, true), u)
      → (b : MigrationExecutionAttempt) × (find execution_kind.key a₁.attempt_id
            (run p millis cs t).attempts.executions
          ≡ some b)
        × (b.status ≡ Execution.failed_rolled_back)
  unfolding execute
  claim_execution_attempt-again cs w v₁ v₂ a₁ a₂ b₁ b₂ e₁ e₂ key₁ key₂ digest₁ digest₂ s t u r₁ r₂
        wf h valid₁ valid₂ q₁ q₂ =
      let c = claim_execution w v₁ a₁ e₁ key₁ digest₁ in
      let done : execute p millis c s ≡ ok t = rw q₁ in
      let x = new_execution w v₁ a₁ b₁ e₁ key₁ digest₁ s t valid₁ q₁ in
      let y = new_execution w v₂ a₂ b₂ e₂ key₂ digest₂ (run p millis cs t) u valid₂ q₂ in
      let (b, found, free) =
        claims_again p millis execution_kind (λ a. a.executions) (λ a b c. c.executions) cs w
          a₁.attempt_id a₂.attempt_id s.attempts.executions u.attempts.executions t wf
          (done-IsConsistent p millis c s t valid₁ h done) x y in
      (b, found, rolled_back b.status free)

  new_transport :
      (w v : ℕ) (a b : WorkflowTransportAttempt) (e : MigrationAuditEvent) (key digest : Text)
      (s t : Store) {r : MigrationWorkflow}
      → valid_transport_attempt a ≡ true
      → claim_transport_attempt w v a e key digest s ≡ ok ((r, b, true), t)
      → ClaimsRow transport_kind w a.attempt_id s.attempts.transports t.attempts.transports
  new_transport w v a b e key digest s t valid q =
      elim (claim_transport_attempt_result w v a e key digest s t valid q) [
        | inl (_, flag) ↦ absurd (cc flag)
        | inr (_, _, row) ↦ row
      ]

  -- A staging load of a workflow is claimed again only after the first one failed and was cleaned
  -- up: when two calls of claim_transport_attempt both claim a new load, the row of the first stands
  -- at FAILED_CLEANED_UP at the second, whatever commands ran in between.
  pub claim_transport_attempt-again :
      (cs : List Command) (w v₁ v₂ : ℕ) (a₁ a₂ b₁ b₂ : WorkflowTransportAttempt)
      (e₁ e₂ : MigrationAuditEvent) (key₁ key₂ digest₁ digest₂ : Text) (s t u : Store)
      (r₁ r₂ : MigrationWorkflow)
      → All IsWellFormed cs
      → IsConsistent s
      → valid_transport_attempt a₁ ≡ true
      → valid_transport_attempt a₂ ≡ true
      → claim_transport_attempt w v₁ a₁ e₁ key₁ digest₁ s ≡ ok ((r₁, b₁, true), t)
      → claim_transport_attempt w v₂ a₂ e₂ key₂ digest₂ (run p millis cs t) ≡ ok ((r₂, b₂, true), u)
      → (b : WorkflowTransportAttempt) × (find transport_kind.key a₁.attempt_id
            (run p millis cs t).attempts.transports
          ≡ some b)
        × (b.status ≡ Transport.failed_cleaned_up)
  unfolding execute
  claim_transport_attempt-again cs w v₁ v₂ a₁ a₂ b₁ b₂ e₁ e₂ key₁ key₂ digest₁ digest₂ s t u r₁ r₂
        wf h valid₁ valid₂ q₁ q₂ =
      let c = claim_transport w v₁ a₁ e₁ key₁ digest₁ in
      let done : execute p millis c s ≡ ok t = rw q₁ in
      let x = new_transport w v₁ a₁ b₁ e₁ key₁ digest₁ s t valid₁ q₁ in
      let y = new_transport w v₂ a₂ b₂ e₂ key₂ digest₂ (run p millis cs t) u valid₂ q₂ in
      let (b, found, free) =
        claims_again p millis transport_kind (λ a. a.transports) (λ a b c. c.transports) cs w
          a₁.attempt_id a₂.attempt_id s.attempts.transports u.attempts.transports t wf
          (done-IsConsistent p millis c s t valid₁ h done) x y in
      (b, found, cleaned_up b.status free)

  new_validation :
      (w v : ℕ) (a b : WorkflowValidationRun) (art out : WorkflowArtifact)
      (ae e : MigrationAuditEvent) (key digest : Text) (s t : Store) {r : MigrationWorkflow}
      → valid_validation_run a ≡ true
      → e.workflow_id ≡ w
      → claim_validation_run p w v a art ae e key digest s ≡ ok ((r, b, out, true), t)
      → ClaimsRow validation_kind w a.run_id s.attempts.validations t.attempts.validations
  new_validation w v a b art out ae e key digest s t valid own q =
      elim (claim_validation_run_result p w v a art ae e key digest s t valid own q) [
        | inl (_, flag) ↦ absurd (cc flag)
        | inr (_, _, row) ↦ row
      ]

  -- A workflow is validated once: after claim_validation_run has claimed a new run, no other call of
  -- it claims a new run of the same workflow, whatever commands ran in between.
  pub claim_validation_run-once :
      (cs : List Command) (w v₁ v₂ : ℕ) (a₁ a₂ b₁ b₂ : WorkflowValidationRun)
      (art₁ art₂ out₁ out₂ : WorkflowArtifact) (f₁ f₂ e₁ e₂ : MigrationAuditEvent)
      (key₁ key₂ digest₁ digest₂ : Text) (s t u : Store) (r₁ r₂ : MigrationWorkflow)
      → All IsWellFormed cs
      → IsConsistent s
      → valid_validation_run a₁ ≡ true
      → e₁.workflow_id ≡ w
      → valid_validation_run a₂ ≡ true
      → e₂.workflow_id ≡ w
      → claim_validation_run p w v₁ a₁ art₁ f₁ e₁ key₁ digest₁ s ≡ ok ((r₁, b₁, out₁, true), t)
      → ¬ (
          claim_validation_run p w v₂ a₂ art₂ f₂ e₂ key₂ digest₂ (run p millis cs t)
          ≡ ok ((r₂, b₂, out₂, true), u))
  unfolding execute
  claim_validation_run-once cs w v₁ v₂ a₁ a₂ b₁ b₂ art₁ art₂ out₁ out₂ f₁ f₂ e₁ e₂ key₁ key₂ digest₁
        digest₂ s t u r₁ r₂ wf h valid₁ own₁ valid₂ own₂ q₁ q₂ =
      let c = claim_validation w v₁ a₁ art₁ f₁ e₁ key₁ digest₁ in
      let done : execute p millis c s ≡ ok t = rw q₁ in
      let x = new_validation w v₁ a₁ b₁ art₁ out₁ f₁ e₁ key₁ digest₁ s t valid₁ own₁ q₁ in
      let y =
        new_validation w v₂ a₂ b₂ art₂ out₂ f₂ e₂ key₂ digest₂ (run p millis cs t) u valid₂ own₂
          q₂ in
      let (b, found, free) =
        claims_again p millis validation_kind (λ a. a.validations) (λ a b c. c.validations) cs w
          a₁.run_id a₂.run_id s.attempts.validations u.attempts.validations t wf
          (done-IsConsistent p millis c s t (valid₁, own₁) h done) x y in
      cc free
