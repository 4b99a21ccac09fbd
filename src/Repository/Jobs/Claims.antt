-- ===== src/Repository/Jobs/Claims.antt =====
-- A claim takes a queued job and leaves it running.
use schemabridge.Base.{
  ℕ, ◌≡◌, refl, ap, ◌∙◌, subst, Bool, true, false, not, ◌&&◌, Option, none, some, List, [], ◌∷◌,
  All, Bool-cases, inl, inr, arith,
}
use schemabridge.Base.Outcome.{ok, >>=-eq-ok, persistence_error, ok-injective, some-injective}
use schemabridge.Base.Table.{update, update_inv, modify, find-modify}
use schemabridge.Model.Job.{
  MigrationJob, JobStatus, running, same_job_status, eq_of_same_job_status,
}
use schemabridge.Repository.Store.{
  Store, job_key, find_job, or_raise, or_raise-eq-ok, load_job, load_job-eq-ok,
}
use schemabridge.Repository.Jobs.{
  start_row, claimed_job, claim_row, if_claimable, oldest_queued, claim_next_migration_job,
  claim_migration_job,
}

pub record Taken (j : MigrationJob) (s t : Store) : Type 0 where
  pub before : MigrationJob
  pub after : MigrationJob
  pub found : find_job j.job_id s ≡ some before
  pub was_queued : before.status ≡ JobStatus.queued
  pub stored : find_job j.job_id t ≡ some after
  pub is_running : after.status ≡ running

row-Taken :
    (k at : ℕ) (x j : MigrationJob) (s t : Store)
    → k ≡ j.job_id
    → find_job k s ≡ some x
    → same_job_status x.status JobStatus.queued ≡ true
    → t.jobs ≡ modify job_key k (start_row at) s.jobs
    → Taken j s t
row-Taken k at x j s t key found q rows = record {
  before = x;
  after = start_row at x;
  found = subst (λ i. find_job i s ≡ some x) key found;
  was_queued = eq_of_same_job_status x.status JobStatus.queued q;
  stored =
      subst (λ i. find_job i t ≡ some (start_row at x)) key
        (rw (rows, find-modify job_key (start_row at) (λ r. refl) k s.jobs, found) refl);
  is_running = refl;
}

claim_row-Taken :
    (at : ℕ) (o : Option MigrationJob) (s t : Store) (j : MigrationJob)
    → claim_row at o s ≡ ok (some j, t)
    → Taken j s t
unfolding claim_row
claim_row-Taken at none s t j h = absurd (ground arith)
claim_row-Taken at (some row) s t j h =
    let (job, loaded, h₁) = >>=-eq-ok (load_job row) _ h in
    let (jobs, u, h₂) = >>=-eq-ok _ _ h₁ in
    let (x, found, q, w) =
      update_inv job_key job.job_id _ _ s.jobs jobs (or_raise-eq-ok persistence_error _ u) in
    let (c, loaded', h₃) = >>=-eq-ok (load_job (claimed_job at job)) _ h₂ in
    let (v', e') = load_job-eq-ok (claimed_job at job) c loaded' in
    let returned : c ≡ j = some-injective (ap (λ p. p.0) (ok-injective h₃)) in
    let key : job.job_id ≡ j.job_id = ap (λ y. y.job_id) (e' ∙ returned) in
    let rows : t.jobs ≡ modify job_key job.job_id (start_row at) s.jobs = ground arith in
    row-Taken job.job_id at x j s t key found q rows

-- One of the two claims returns the job `j`.
pub data Claims (j : MigrationJob) (s t : Store) : Type 0 where
  next :
      (locked : ℕ → Bool) (at : ℕ)
      → claim_next_migration_job locked at s ≡ ok (some j, t)
      → Claims j s t
  named :
      (locked : ℕ → Bool) (id at : ℕ)
      → claim_migration_job locked id at s ≡ ok (some j, t)
      → Claims j s t

pub Claims-Taken : (j : MigrationJob) (s t : Store) → Claims j s t → Taken j s t
unfolding claim_next_migration_job claim_migration_job
Claims-Taken j s t (next locked at h) = claim_row-Taken at (oldest_queued locked s.jobs) s t j h
Claims-Taken j s t (named locked id at h) =
    claim_row-Taken at (if_claimable locked (find_job id s)) s t j h

none_queued :
    (locked : ℕ → Bool) (js : List MigrationJob)
    → oldest_queued locked js ≡ none
    → All (λ j. j.status ≡ JobStatus.queued → locked j.job_id ≡ true) js
unfolding oldest_queued same_job_status
none_queued locked [] h = tt
none_queued locked (j ∷ js) h =
    elim (Bool-cases (same_job_status j.status JobStatus.queued && not (locked j.job_id))) [
      | inl e ↦ let f : some _ ≡ none = rw e at h in absurd (ground arith)
      | inr e ↦
          let rest : oldest_queued locked js ≡ none = rw e at h in
          (λ q. held j q e, none_queued locked js rest)
    ]
  where
    held :
        (j : MigrationJob)
        → j.status ≡ JobStatus.queued
        → (same_job_status j.status JobStatus.queued && not (locked j.job_id)) ≡ false
        → locked j.job_id ≡ true
    held j q e = let n : not (locked j.job_id) ≡ false = rw q at e in ground arith

claim_row-none :
    (at : ℕ) (o : Option MigrationJob) (s t : Store)
    → claim_row at o s ≡ ok (none, t)
    → (o ≡ none) × (s ≡ t)
unfolding claim_row
claim_row-none at none s t h = (refl, ap (λ p. p.1) (ok-injective h))
claim_row-none at (some row) s t h =
    let (job, _, h₁) = >>=-eq-ok (load_job row) _ h in
    let (jobs, _, h₂) =
      >>=-eq-ok
        (or_raise persistence_error (
          update job_key job.job_id (λ r. same_job_status r.status JobStatus.queued) (start_row at)
            s.jobs))
        _ h₁ in
    let (c, _, h₃) = >>=-eq-ok (load_job (claimed_job at job)) _ h₂ in
    absurd (let x : some c ≡ none = ap (λ p. p.0) (ok-injective h₃) in ground arith)

-- When a claim finds no job, the store is unchanged and other transactions hold all queued rows.
pub claim_next_migration_job-none :
    (locked : ℕ → Bool) (at : ℕ) (s t : Store)
    → claim_next_migration_job locked at s ≡ ok (none, t)
    → (s ≡ t) × All (λ j. j.status ≡ JobStatus.queued → locked j.job_id ≡ true) s.jobs
unfolding claim_next_migration_job
claim_next_migration_job-none locked at s t h =
    let (e, same) = claim_row-none at (oldest_queued locked s.jobs) s t h in
    (same, none_queued locked s.jobs e)
