-- ===== src/Repository/Commands/Change.antt =====
-- What one command does to the store: it works on the jobs or on one attempt alone, adds a workflow,
-- or is a `Write`; a replay does nothing.
use schemabridge.Base.{ℕ, ◌≡◌, refl, sym, ◌∙◌, subst, ap, inl, inr, none, List, ◌∷◌, true}
use schemabridge.Base.Outcome.{Outcome, ok, ok-injective, raise}
use schemabridge.Base.Table.{Distinct}
use schemabridge.Model.Workflow.{MigrationWorkflow, valid_workflow}
use schemabridge.Repository.Store.{
  Store, Attempts, IdempotencyRow, job_key, find_idempotency, insert_idempotency,
}
use schemabridge.Repository.Jobs.{
  create_migration_job, claim_next_migration_job, claim_migration_job, update_migration_job_stage,
  update_migration_job_progress, finish_migration_job,
}
use schemabridge.Repository.Jobs.Change.{JobsChange, unchanged}
use schemabridge.Repository.Jobs.Steps.{
  create-change, claim_next-change, claim-change, update_stage-change, update_progress-change,
  finish-change,
}
use schemabridge.Repository.Jobs.Frames.{
  with_jobs, claim_next_frame, claim_frame, update_stage_frame, update_progress_frame, finish_frame,
  create_frame,
}
use schemabridge.Repository.Workflows.{
  Platform, create_workflow, transition_status, append_artifact, append_artifact_operation,
}
use schemabridge.Repository.Workflows.Write.{Write, Recording}
use schemabridge.Repository.Workflows.Results.{
  Created, create_workflow_result, transition_status_result, append_artifact_result,
  append_artifact_operation_result,
}
use schemabridge.Repository.Attempts.Writes.{AttemptsChange, no_attempts, Tried}
use schemabridge.Repository.Attempts.Transport.{
  with_transports, claim_transport_attempt, mark_transport_running, complete_transport_attempt,
}
use schemabridge.Repository.Attempts.Transport.Effects.{
  claim_transport_attempt_result, mark_transport_running_result, complete_transport_attempt-Tried,
}
use schemabridge.Repository.Attempts.Execution.{
  with_executions, claim_execution_attempt, mark_execution_running, complete_execution_attempt,
}
use schemabridge.Repository.Attempts.Execution.Effects.{
  claim_execution_attempt_result, mark_execution_running_result, complete_execution_attempt-Tried,
}
use schemabridge.Repository.Attempts.Validation.{
  with_validations, claim_validation_run, mark_validation_running, complete_validation_run,
}
use schemabridge.Repository.Attempts.Validation.Effects.{
  claim_validation_run_result, mark_validation_running_result, complete_validation_run-Tried,
}
use schemabridge.Repository.Commands.{
  Command, create, transition, append, operate, create_job, claim_next, claim, advance, progress,
  finish, claim_transport, start_transport, complete_transport, claim_execution, start_execution,
  complete_execution, claim_validation, start_validation, complete_validation, IsWellFormed,
  store_of, execute,
}

-- The recorded results stay, and a new one is under a key that was free.
pub data Recorded (rows new : List IdempotencyRow) : Type 0 where
  same : new ≡ rows → Recorded rows new
  added :
      (r : IdempotencyRow)
      → find_idempotency r.command_scope r.idempotency_key rows ≡ none
      → new ≡ r ∷ rows
      → Recorded rows new

pub data Change (s t : Store) : Type 0 where
  on_jobs :
      JobsChange s.jobs t.jobs
      → t.workflows ≡ s.workflows
      → t.artifacts ≡ s.artifacts
      → t.events ≡ s.events
      → Recorded s.idempotency t.idempotency
      → AttemptsChange s.attempts t.attempts
      → Change s t
  created :
      (w : MigrationWorkflow) (row : IdempotencyRow)
      → valid_workflow w ≡ true
      → w.version ≡ 1
      → w.latest_artifact_version ≡ 0
      → Created w row s t
      → Recorded s.idempotency t.idempotency
      → Change s t
  written :
      (w : ℕ) (out : List IdempotencyRow) (tried : Attempts)
      → Write w out tried s t
      → Recorded s.idempotency t.idempotency
      → AttemptsChange s.attempts t.attempts
      → Change s t

nothing : {s t : Store} → t ≡ s → Change s t
nothing e =
    on_jobs (unchanged (ap (λ (x : Store). x.jobs) e)) (ap (λ (x : Store). x.workflows) e)
      (ap (λ (x : Store). x.artifacts) e) (ap (λ (x : Store). x.events) e)
      (same (ap (λ (x : Store). x.idempotency) e)) (no_attempts (ap (λ (x : Store). x.attempts) e))

of_jobs : {s t : Store} → JobsChange s.jobs t.jobs → t ≡ with_jobs s t.jobs → Change s t
of_jobs c e =
    on_jobs c (ap (λ (x : Store). x.workflows) e) (ap (λ (x : Store). x.artifacts) e)
      (ap (λ (x : Store). x.events) e) (same (ap (λ (x : Store). x.idempotency) e))
      (no_attempts (ap (λ (x : Store). x.attempts) e))

-- A transaction that touches the attempts alone.
of_attempts :
    {s t : Store} (u : Store)
    → u.workflows ≡ s.workflows
    → u.artifacts ≡ s.artifacts
    → u.events ≡ s.events
    → u.jobs ≡ s.jobs
    → u.idempotency ≡ s.idempotency
    → t ≡ u
    → AttemptsChange s.attempts t.attempts
    → Change s t
of_attempts u ws arts es js ids e c =
    on_jobs (unchanged (ap (λ (x : Store). x.jobs) e ∙ js)) (ap (λ (x : Store). x.workflows) e ∙ ws)
      (ap (λ (x : Store). x.artifacts) e ∙ arts) (ap (λ (x : Store). x.events) e ∙ es)
      (same (ap (λ (x : Store). x.idempotency) e ∙ ids)) c

-- A write that changes no attempt, and one that does, with a recorded result or without.
recording :
    {w : ℕ} {row : IdempotencyRow} {s t : Store}
    → Recording w row s t
    → find_idempotency row.command_scope row.idempotency_key s.idempotency ≡ none
    → Change s t
recording {w} x free = written w _ _ x (added _ free x.idempotency) (no_attempts x.attempts)

trying :
    {w : ℕ} {row : IdempotencyRow} {s t : Store}
    → Tried w (row ∷ s.idempotency) s t
    → find_idempotency row.command_scope row.idempotency_key s.idempotency ≡ none
    → Change s t
trying {w} {row} {s} x free =
    written w _ _ x.write (added _ free x.write.idempotency)
      (subst (AttemptsChange s.attempts) (sym x.write.attempts) x.attempts)

settling : {w : ℕ} {s t : Store} → Tried w s.idempotency s t → Change s t
settling {w} {s} x =
    written w _ _ x.write (same x.write.idempotency)
      (subst (AttemptsChange s.attempts) (sym x.write.attempts) x.attempts)

-- A successful command is a transaction that succeeded, with its result dropped.
store_of-eq-ok :
    {A : Type 0} (m : Outcome (A × Store)) {t : Store}
    → store_of m ≡ ok t
    → (a : A) × (m ≡ ok (a, t))
store_of-eq-ok (ok (a, u)) {t} h = (a, ap (λ (x : Store). ok (a, x)) (ok-injective h))
store_of-eq-ok (raise e) h = cc

-- Every command that succeeds is one of the changes.
pub execute-Change :
    (p : Platform) (millis : ℕ → ℕ) (c : Command) (s t : Store)
    → IsWellFormed c
    → Distinct job_key s.jobs
    → execute p millis c s ≡ ok t
    → Change s t
unfolding execute insert_idempotency
execute-Change p millis (create w e key digest) s t wf d h =
    let (r, q) = store_of-eq-ok (create_workflow w e key digest s) h in
    elim (create_workflow_result w e key digest s t q) [
      | inl same_store ↦ nothing same_store
      | inr (c, free) ↦ created w _ wf.0 wf.1 wf.2 c (added _ free c.idempotency)
    ]
execute-Change p millis (transition w v new e error key digest) s t wf d h =
    let (r, q) = store_of-eq-ok (transition_status w v new e error key digest s) h in
    elim (transition_status_result w v new e error key digest s t q) [
      | inl same_store ↦ nothing same_store
      | inr (x, free) ↦ recording x free
    ]
execute-Change p millis (append w v a e key digest) s t wf d h =
    let (r, q) = store_of-eq-ok (append_artifact p w v a e key digest s) h in
    elim (append_artifact_result p w v a e key digest s t q) [
      | inl same_store ↦ nothing same_store
      | inr (x, free) ↦ recording x free
    ]
execute-Change p millis (operate w v a e new f key digest) s t wf d h =
    let (r, q) = store_of-eq-ok (append_artifact_operation p w v a e new f key digest s) h in
    elim (append_artifact_operation_result p w v a e new f key digest s t q) [
      | inl same_store ↦ nothing same_store
      | inr (x, free) ↦ recording x free
    ]
execute-Change p millis (create_job job) s t wf d h =
    let (r, q) = store_of-eq-ok (create_migration_job job s) h in
    elim (create_frame s job q) [
      | inl same_store ↦ nothing same_store
      | inr (free, e) ↦
          on_jobs (create-change job s wf q) (ap (λ (x : Store). x.workflows) e)
            (ap (λ (x : Store). x.artifacts) e) (ap (λ (x : Store). x.events) e)
            (added _ free (ap (λ (x : Store). x.idempotency) e))
            (no_attempts (ap (λ (x : Store). x.attempts) e))
    ]
execute-Change p millis (claim_next locked at) s t wf d h =
    let (r, q) = store_of-eq-ok (claim_next_migration_job locked at s) h in
    of_jobs (claim_next-change locked at s d q) (claim_next_frame s locked at q)
execute-Change p millis (claim locked id at) s t wf d h =
    let (r, q) = store_of-eq-ok (claim_migration_job locked id at s) h in
    of_jobs (claim-change locked id at s q) (claim_frame s locked id at q)
execute-Change p millis (advance id expected new) s t wf d h =
    let (r, q) = store_of-eq-ok (update_migration_job_stage id expected new s) h in
    of_jobs (update_stage-change id expected new s q) (update_stage_frame s id expected new q)
execute-Change p millis (progress id snapshot at) s t wf d h =
    let (r, q) = store_of-eq-ok (update_migration_job_progress id snapshot at s) h in
    of_jobs (update_progress-change id snapshot at s q) (update_progress_frame s id snapshot at q)
execute-Change p millis (finish id expected outcome at category) s t wf d h =
    let (r, q) = store_of-eq-ok (finish_migration_job millis id expected outcome at category s) h in
    of_jobs (finish-change millis id expected outcome at category s q)
      (finish_frame s millis id expected outcome at category q)
execute-Change p millis (claim_transport w v a e key digest) s t wf d h =
    let (r, q) = store_of-eq-ok (claim_transport_attempt w v a e key digest s) h in
    elim (claim_transport_attempt_result w v a e key digest s t wf q) [
      | inl (same_store, _) ↦ nothing same_store
      | inr (x, free, _) ↦ trying x free
    ]
execute-Change p millis (start_transport id at) s t wf d h =
    let (r, q) = store_of-eq-ok (mark_transport_running id at s) h in
    let (e, c, _) = mark_transport_running_result id at s t q in
    of_attempts (with_transports s t.attempts.transports) refl refl refl refl refl e c
execute-Change p millis (complete_transport w v id evidence a ae new e at failure) s t wf d h =
    let (r, q) =
      store_of-eq-ok (complete_transport_attempt w v id evidence a ae new e at failure s) h in
    settling (complete_transport_attempt-Tried w v id evidence a ae new e at failure s q)
execute-Change p millis (claim_execution w v a e key digest) s t wf d h =
    let (r, q) = store_of-eq-ok (claim_execution_attempt w v a e key digest s) h in
    elim (claim_execution_attempt_result w v a e key digest s t wf q) [
      | inl (same_store, _) ↦ nothing same_store
      | inr (x, free, _) ↦ trying x free
    ]
execute-Change p millis (start_execution id at) s t wf d h =
    let (r, q) = store_of-eq-ok (mark_execution_running id at s) h in
    let (e, c, _) = mark_execution_running_result id at s t q in
    of_attempts (with_executions s t.attempts.executions) refl refl refl refl refl e c
execute-Change p millis (complete_execution w v id evidence a ae new e) s t wf d h =
    let (r, q) = store_of-eq-ok (complete_execution_attempt w v id evidence a ae new e s) h in
    settling (complete_execution_attempt-Tried w v id evidence a ae new e s q)
execute-Change p millis (claim_validation w v a artifact ae e key digest) s t wf d h =
    let (r, q) = store_of-eq-ok (claim_validation_run p w v a artifact ae e key digest s) h in
    elim (claim_validation_run_result p w v a artifact ae e key digest s t wf.0 wf.1 q) [
      | inl (same_store, _) ↦ nothing same_store
      | inr (x, free, _) ↦ trying x free
    ]
execute-Change p millis (start_validation id at) s t wf d h =
    let (r, q) = store_of-eq-ok (mark_validation_running id at s) h in
    let (e, c, _) = mark_validation_running_result id at s t q in
    of_attempts (with_validations s t.attempts.validations) refl refl refl refl refl e c
execute-Change p millis (complete_validation w v id reported a ae new e at failure) s t wf d h =
    let (r, q) =
      store_of-eq-ok (complete_validation_run millis w v id reported a ae new e at failure s) h in
    settling (complete_validation_run-Tried millis w v id reported a ae new e at failure s wf q)
