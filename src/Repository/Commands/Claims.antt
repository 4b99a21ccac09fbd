-- ===== src/Repository/Commands/Claims.antt =====
-- No job is handed to two workers.
use schemabridge.Base.{ℕ, ◌≡◌, ◌≢◌, sym, ap, ◌∙◌, subst, some, List, All, arith}
use schemabridge.Base.Outcome.{ok, some-injective}
use schemabridge.Model.Job.{MigrationJob, JobStatus, running, job_status_index}
use schemabridge.Repository.Store.{Store, find_job}
use schemabridge.Repository.Jobs.Claims.{Claims, next, named, Claims-Taken}
use schemabridge.Repository.Workflows.{Platform}
use schemabridge.Repository.Commands.{
  Command, claim_next, claim, IsWellFormed, execute, or_keep, run,
}
use schemabridge.Repository.Commands.Consistent.{IsConsistent, execute-IsConsistent}
use schemabridge.Repository.Commands.Life.{run-Evolves}

module _ (p : Platform) (millis : ℕ → ℕ) where
  Claims-IsConsistent :
      (j : MigrationJob) (s t : Store) → Claims j s t → IsConsistent s → IsConsistent t
  unfolding execute
  Claims-IsConsistent j s t (next locked at h) c =
      let done : execute p millis (claim_next locked at) s ≡ ok t = rw h in
      subst (λ o. IsConsistent (or_keep s o)) done
        (execute-IsConsistent p millis (claim_next locked at) s tt c)
  Claims-IsConsistent j s t (named locked id at h) c =
      let done : execute p millis (claim locked id at) s ≡ ok t = rw h in
      subst (λ o. IsConsistent (or_keep s o)) done
        (execute-IsConsistent p millis (claim locked id at) s tt c)

  -- A job that a worker has claimed, as the next one or by its identifier, is never returned by
  -- another claim, whatever commands run in between and whichever rows are locked.
  pub Claims-once :
      (cs : List Command) (s t u : Store) (j k : MigrationJob)
      → All IsWellFormed cs
      → IsConsistent s
      → Claims j s t
      → Claims k (run p millis cs t) u
      → k.job_id ≢ j.job_id
  Claims-once cs s t u j k wf h first second same =
      let a = Claims-Taken j s t first in
      let b = Claims-Taken k (run p millis cs t) u second in
      let (j', found, e) =
        run-Evolves p millis cs t j.job_id a.after wf (Claims-IsConsistent j s t first h)
          a.stored in
      let here : find_job j.job_id (run p millis cs t) ≡ some b.before =
        subst (λ i. find_job i (run p millis cs t) ≡ some b.before) same b.found in
      let row : j' ≡ b.before = some-injective (sym found ∙ here) in
      let queued : a.after.status ≡ JobStatus.queued =
        e.never_requeued (ap (λ x. x.status) row ∙ b.was_queued) in
      let index : job_status_index running ≡ job_status_index JobStatus.queued =
        ap job_status_index (sym a.is_running ∙ queued) in
      omega (arith, index)
