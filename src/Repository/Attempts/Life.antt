-- ===== src/Repository/Attempts/Life.antt =====
-- The life of an attempt in each table: a claimed row may start, and a running row may finish with
-- a terminal status.
use schemabridge.Base.{ℕ, ◌≤◌, ◌≡◌, refl, true, Option, arith}
use schemabridge.Base.Text.{Text}
use schemabridge.Model.Attempt.{Kind, Progresses}
use schemabridge.Model.Attempt.Kinds.{transport_kind, execution_kind, validation_kind}
use schemabridge.Repository.Attempts.Transport.{start_attempt, finish_attempt}
use schemabridge.Repository.Attempts.Execution.{
  start_attempt as start_execution, finish_attempt as finish_execution,
}
use schemabridge.Repository.Attempts.Validation.{start_run, finish_run}
use schemabridge.Model.Attempt.Transport
use schemabridge.Model.Attempt.Transport.{
  WorkflowTransportAttempt, WorkflowTransportAttemptStatus, valid_transport_attempt,
  valid_transport_attempt_completed,
}
use schemabridge.Model.Attempt.Execution
use schemabridge.Model.Attempt.Execution.{
  MigrationExecutionAttempt, MigrationExecutionEvidence, valid_execution_attempt,
  valid_execution_attempt_completed,
}
use schemabridge.Model.Attempt.Validation
use schemabridge.Model.Attempt.Validation.{
  WorkflowValidationRun, WorkflowValidationRunStatus, valid_validation_run,
  valid_validation_run_completed,
}

-- A row that changes its status within the order of the statuses goes on in its life.
on_progress :
    {R : Type 0} (k : Kind R) (a b : R)
    → k.key b ≡ k.key a
    → k.owner b ≡ k.owner a
    → k.fingerprint b ≡ k.fingerprint a
    → k.rank a ≤ k.rank b
    → k.rank a ≤ 1
    → k.blocks a ≡ true
    → Progresses k a b
on_progress k a b i o f le small blocking = record {
  same_key = i;
  same_owner = o;
  same_fingerprint = f;
  forward = le;
  final = λ e. absurd (omega (arith, e, small));
  unblocked = λ e. blocking;
}

transport_open :
    (s : WorkflowTransportAttemptStatus) → Transport.rank_of s ≤ 1 → Transport.is_blocking s ≡ true
transport_open Transport.failed_cleaned_up h = absurd (omega (arith, h))
transport_open _ h = refl

execution_open :
    (s : Execution.MigrationExecutionAttemptStatus)
    → Execution.rank_of s ≤ 1
    → Execution.is_blocking s ≡ true
execution_open Execution.failed_rolled_back h = absurd (omega (arith, h))
execution_open _ h = refl

transport_one :
    (s : WorkflowTransportAttemptStatus) → Transport.is_running s ≡ true → Transport.rank_of s ≡ 1
transport_one Transport.running h = refl
transport_one _ h = cc

execution_one :
    (s : Execution.MigrationExecutionAttemptStatus)
    → Execution.is_running s ≡ true
    → Execution.rank_of s ≡ 1
execution_one Execution.running h = refl
execution_one _ h = cc

validation_one :
    (s : WorkflowValidationRunStatus) → Validation.is_running s ≡ true → Validation.rank_of s ≡ 1
validation_one Validation.running h = refl
validation_one _ h = cc

pub start_attempt-Progresses :
    (at : ℕ) (r : WorkflowTransportAttempt)
    → transport_kind.rank r ≡ 0
    → Progresses transport_kind r (start_attempt at r)
start_attempt-Progresses at r h =
    on_progress transport_kind r (start_attempt at r) refl refl refl (omega (arith, h))
      (omega (arith, h)) (transport_open r.status (omega (arith, h)))

pub start_execution-Progresses :
    (at : ℕ) (r : MigrationExecutionAttempt)
    → execution_kind.rank r ≡ 0
    → Progresses execution_kind r (start_execution at r)
start_execution-Progresses at r h =
    on_progress execution_kind r (start_execution at r) refl refl refl (omega (arith, h))
      (omega (arith, h)) (execution_open r.status (omega (arith, h)))

pub start_run-Progresses :
    (at : ℕ) (r : WorkflowValidationRun)
    → validation_kind.rank r ≡ 0
    → Progresses validation_kind r (start_run at r)
start_run-Progresses at r h =
    on_progress validation_kind r (start_run at r) refl refl refl (omega (arith, h))
      (omega (arith, h)) refl

pub finish_attempt-Progresses :
    (s : WorkflowTransportAttemptStatus) (at : ℕ) (i : Option ℕ) (f : Option Text)
    (r : WorkflowTransportAttempt)
    → Transport.is_running r.status ≡ true
    → valid_transport_attempt (finish_attempt s at i f r) ≡ true
    → Progresses transport_kind r (finish_attempt s at i f r)
finish_attempt-Progresses s at i f r on v =
    let one = transport_one r.status on in
    let two = valid_transport_attempt_completed (finish_attempt s at i f r) at refl v in
    on_progress transport_kind r (finish_attempt s at i f r) refl refl refl
      (omega (arith, one, two)) (omega (arith, one)) (transport_open r.status (omega (arith, one)))

pub finish_execution-Progresses :
    (e : MigrationExecutionEvidence) (i : ℕ) (r : MigrationExecutionAttempt)
    → Execution.is_running r.status ≡ true
    → valid_execution_attempt (finish_execution e i r) ≡ true
    → Progresses execution_kind r (finish_execution e i r)
finish_execution-Progresses e i r on v =
    let one = execution_one r.status on in
    let two = valid_execution_attempt_completed (finish_execution e i r) e.completed_at refl v in
    on_progress execution_kind r (finish_execution e i r) refl refl refl (omega (arith, one, two))
      (omega (arith, one)) (execution_open r.status (omega (arith, one)))

pub finish_run-Progresses :
    (s : WorkflowValidationRunStatus) (at d : ℕ) (i : Option ℕ) (f : Option Text)
    (r : WorkflowValidationRun)
    → Validation.is_running r.status ≡ true
    → valid_validation_run (finish_run s at d i f r) ≡ true
    → Progresses validation_kind r (finish_run s at d i f r)
finish_run-Progresses s at d i f r on v =
    let one = validation_one r.status on in
    let two = valid_validation_run_completed (finish_run s at d i f r) at refl v in
    on_progress validation_kind r (finish_run s at d i f r) refl refl refl (omega (arith, one, two))
      (omega (arith, one)) refl
