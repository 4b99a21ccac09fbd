-- ===== src/Services/Jobs/Worker.antt =====
-- services/jobs/worker.py: what one turn of the worker does, for any processor.
use schemabridge.Base.{
  ℕ, ◌≡◌, ◌≢◌, ◌⊎◌, refl, subst, Bool, true, false, ◌&&◌, Option, none, some, All, inl, inr, ◌==◌,
  ==_iff, arith,
}
use schemabridge.Base.Outcome.{Outcome, Error, ok, raise, processor_contract}
use schemabridge.Model.Job.{
  MigrationJob, JobStatus, queued, running, succeeded, failed, review_required, recovery_required,
  is_terminal,
}
use schemabridge.Repository.Store.{Store}
use schemabridge.Repository.Jobs.{claim_next_migration_job}
use schemabridge.Repository.Jobs.Claims.{Taken, next, Claims-Taken, claim_next_migration_job-none}
use schemabridge.Services.Jobs.Program.{Program, ◌>>◌, return, after, settled}
use schemabridge.Services.Jobs.Staging.{check}
use schemabridge.Services.Jobs.Pipeline.{process_claimed, run_once}

-- A job that nobody works on or will work on.
abbrev pub IsFinished : JobStatus → Type 0
IsFinished x = (x ≢ queued) × (x ≢ running)

terminal-IsFinished : (x : JobStatus) → is_terminal x ≡ true → IsFinished x
unfolding is_terminal
terminal-IsFinished queued h = absurd (ground arith)
terminal-IsFinished running h = absurd (ground arith)
terminal-IsFinished succeeded h = (λ e. absurd cc, λ e. absurd cc)
terminal-IsFinished failed h = (λ e. absurd cc, λ e. absurd cc)
terminal-IsFinished review_required h = (λ e. absurd cc, λ e. absurd cc)
terminal-IsFinished recovery_required h = (λ e. absurd cc, λ e. absurd cc)

unfinished : (x : JobStatus) → is_terminal x ≡ false → (x ≡ queued) ⊎ (x ≡ running)
unfolding is_terminal
unfinished queued h = inl refl
unfinished running h = inr refl
unfinished succeeded h = absurd (ground arith)
unfinished failed h = absurd (ground arith)
unfinished review_required h = absurd (ground arith)
unfinished recovery_required h = absurd (ground arith)

-- A result that breaks the contract of the processor.
abbrev pub IsForeign : MigrationJob → MigrationJob → Type 0
IsForeign job r = (r.job_id ≢ job.job_id) ⊎ ((r.status ≡ queued) ⊎ (r.status ≡ running))

module _ (processor : MigrationJob → Program MigrationJob) (locked : ℕ → Bool) (at : ℕ) where
  -- What one turn of the worker from the store `s` comes to.
  pub data Turn (s : Store) : Outcome (Option MigrationJob) × Store → Type 0 where
    unclaimed : (e : Error) → claim_next_migration_job locked at s ≡ raise e → Turn s (raise e, s)
    idle : All (λ j. j.status ≡ queued → locked j.job_id ≡ true) s.jobs → Turn s (ok none, s)
    broken :
        {u t : Store} (job : MigrationJob) (e : Error)
        → Taken job s u
        → processor job u ≡ (raise e, t)
        → Turn s (raise e, t)
    rejected :
        {u t : Store} (job r : MigrationJob)
        → Taken job s u
        → processor job u ≡ (ok r, t)
        → IsForeign job r
        → Turn s (raise processor_contract, t)
    processed :
        {u t : Store} (job r : MigrationJob)
        → Taken job s u
        → processor job u ≡ (ok r, t)
        → r.job_id ≡ job.job_id
        → IsFinished r.status
        → Turn s (ok (some r), t)

  accepted :
      (s u t : Store) (job r : MigrationJob) (own over : Bool)
      → (r.job_id == job.job_id) ≡ own
      → is_terminal r.status ≡ over
      → Taken job s u
      → processor job u ≡ (ok r, t)
      → Turn s (after (check (own && over) processor_contract t) (λ x. return (some r)))
  accepted s u t job r true true e q taken h =
      processed job r taken h ((==_iff r.job_id job.job_id).0 e) (terminal-IsFinished r.status q)
  accepted s u t job r true false e q taken h = rejected job r taken h (inr (unfinished r.status q))
  accepted s u t job r false over e q taken h = rejected job r taken h (inl (λ k. ground arith))

  processed-Turn :
      (s u : Store) (job : MigrationJob) (m : Outcome MigrationJob × Store)
      → Taken job s u
      → processor job u ≡ m
      → Turn s (
          after m (λ result.
            check ((result.job_id == job.job_id) && is_terminal result.status) processor_contract
            >> return (some result)))
  processed-Turn s u job (ok r, t) taken h =
      accepted s u t job r (r.job_id == job.job_id) (is_terminal r.status) refl refl taken h
  processed-Turn s u job (raise e, t) taken h = broken job e taken h

  claimed-Turn :
      (s : Store) (m : Outcome (Option MigrationJob × Store))
      → claim_next_migration_job locked at s ≡ m
      → Turn s (after (settled m s) (process_claimed processor))
  unfolding process_claimed
  claimed-Turn s (raise e) h = unclaimed e h
  claimed-Turn s (ok (none, u)) h =
      let (same, held) = claim_next_migration_job-none locked at s u h in
      subst (λ x. Turn s (ok none, x)) same (idle held)
  claimed-Turn s (ok (some job, u)) h =
      processed-Turn s u job (processor job u) (Claims-Taken job s u (next locked at h)) refl

  -- One turn of the worker, whatever its processor does. A claim that raises raises and changes
  -- nothing. Without a queued job that is free the turn returns none and changes nothing. Otherwise
  -- one queued job has become running, and the processor has run once, on this job and from this
  -- store; the turn keeps the processor's store. If the processor raises, so does the turn. A result
  -- that is another job, or that is still queued or running, breaks the contract and is raised as an
  -- error. Only a finished result under the identifier of the claimed job is returned.
  pub run_once-Turn : (s : Store) → Turn s (run_once processor locked at s)
  unfolding run_once
  run_once-Turn s = claimed-Turn s (claim_next_migration_job locked at s) refl
