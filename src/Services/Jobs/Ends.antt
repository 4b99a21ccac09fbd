-- ===== src/Services/Jobs/Ends.antt =====
-- What holds when a program returns: the job that it names is stored, and more.
pub mod Failures
pub mod Staging
pub mod Execution
pub mod Validation
use schemabridge.Base.{
  ℕ, ◌≡◌, ◌≢◌, refl, sym, ◌∙◌, ap, subst, Bool, true, false, not, ◌&&◌, ◌||◌, Option, none, some,
  List, Bool-cases, inl, inr, and_left, and_right, ==_iff, arith,
}
use schemabridge.Base.Text.{Text}
use schemabridge.Base.Outcome.{
  Outcome, Error, ok, raise, >>=-eq-ok, require, require-eq-ok, job_not_found, job_transition,
  ok-injective,
}
use schemabridge.Base.Table.{find, modify, update, update_inv, find-modify, find-key}
use schemabridge.Model.Job.{
  MigrationJob, JobStage, JobStatus, running, same_job_status, same_stage, eq_of_same_job_status,
}
use schemabridge.Repository.Store.{
  Store, job_key, find_job, or_raise, or_raise-eq-ok, load_job, load_job-eq-ok,
}
use schemabridge.Repository.Jobs.{
  update_migration_job_stage, is_valid_advance, finish_migration_job, is_exact_replay,
  store_outcome, is_valid_finish, finished_job,
}
use schemabridge.Model.Job.{valid_job}
use schemabridge.Services.Jobs.Program.{
  Program, ◌>>=◌, return, transaction, trying, after, after-eq-ok, settled, settled-eq-ok,
  otherwise, rescued,
}
use schemabridge.Services.Jobs.Steps.{advance}

abbrev pub Ends : {R : Type 0} → ℕ → (R → MigrationJob) → (R → Type 0) → Program R → Type 0
Ends {R} id job_of Q m =
    (s t : Store) (r : R) → m s ≡ (ok r, t) → (find_job id t ≡ some (job_of r)) × Q r

-- Every handler ends well.
abbrev pub Rescues : {R : Type 0} → (Program R → Type 0) → Option (Program R) → Type 0
Rescues P none = Unit
Rescues P (some handler) = P handler

pub Rescues-map :
    {R : Type 0} (P Q : Program R → Type 0) (o : Option (Program R))
    → ((m : Program R) → P m → Q m)
    → Rescues P o
    → Rescues Q o
Rescues-map P Q none f h = tt
Rescues-map P Q (some handler) f h = f handler h

abbrev pub itself : MigrationJob → MigrationJob
itself j = j

module _ {R : Type 0} (id : ℕ) (job_of : R → MigrationJob) (Q : R → Type 0) where
  pub Ends-bind :
      {A : Type 0} (m : Program A) (next : A → Program R)
      → ((a : A) → Ends id job_of Q (next a))
      → Ends id job_of Q (m >>= next)
  Ends-bind m next h s t r q = let (a, u, _, e) = after-eq-ok (m s) next q in h a u t r e

  rescued-Ends :
      (o : Option (Program R)) (e : Error) (u t : Store) (r : R)
      → Rescues (Ends id job_of Q) o
      → rescued o e u ≡ (ok r, t)
      → (find_job id t ≡ some (job_of r)) × Q r
  rescued-Ends none e u t r h q = cc
  rescued-Ends (some handler) e u t r h q = h u t r q

  otherwise-Ends :
      {A : Type 0} (x : Outcome A × Store) (handlers : Error → Option (Program R))
      (next : A → Program R) (t : Store) (r : R)
      → ((e : Error) → Rescues (Ends id job_of Q) (handlers e))
      → ((a : A) (u : Store)
          → x ≡ (ok a, u)
          → next a u ≡ (ok r, t)
          → (find_job id t ≡ some (job_of r)) × Q r)
      → otherwise x handlers next ≡ (ok r, t)
      → (find_job id t ≡ some (job_of r)) × Q r
  otherwise-Ends (ok a, u) handlers next t r h k q = k a u refl q
  otherwise-Ends (raise e, u) handlers next t r h k q = rescued-Ends (handlers e) e u t r (h e) q

  -- A `try` whose handlers end well, and whose rest does.
  pub Ends-trying :
      {A : Type 0} (m : Program A) (handlers : Error → Option (Program R)) (next : A → Program R)
      → ((e : Error) → Rescues (Ends id job_of Q) (handlers e))
      → ((a : A) (s u : Store) → m s ≡ (ok a, u) → Ends id job_of Q (next a))
      → Ends id job_of Q (trying m handlers next)
  Ends-trying m handlers next h k s t r q =
      otherwise-Ends (m s) handlers next t r h (λ a u e n. k a s u e u t r n) q

  -- A last transaction whose job is returned.
  pub Ends-wrap :
      (m : Program MigrationJob) (wrap : MigrationJob → R) (P : MigrationJob → Type 0)
      → Ends id itself P m
      → ((j : MigrationJob) → job_of (wrap j) ≡ j)
      → ((j : MigrationJob) → P j → Q (wrap j))
      → Ends id job_of Q (m >>= (λ j. return (wrap j)))
  Ends-wrap m wrap P h same post s t r q =
      let (j, u, e, n) = after-eq-ok (m s) (λ j. return (wrap j)) q in
      let (found, holds) = h s u j e in
      let stores : u ≡ t = ap (λ x. x.1) n in
      let is : wrap j ≡ r = ok-injective (ap (λ x. x.0) n) in
      (
        subst (λ x. find_job id x ≡ some (job_of r)) stores
            (found ∙ ap some (sym (same j) ∙ ap job_of is)),
        subst Q is (post j holds),
      )

  -- A first transaction on the same job.
  pub Ends-after :
      (m : Program MigrationJob) (next : MigrationJob → Program R) (P : MigrationJob → Type 0)
      → Ends id itself P m
      → ((j : MigrationJob) → j.job_id ≡ id → Ends id job_of Q (next j))
      → Ends id job_of Q (m >>= next)
  Ends-after m next P h k s t r q =
      let (j, u, e, n) = after-eq-ok (m s) next q in
      let (found, _) = h s u j e in k j (find-key job_key id u.jobs j found) u t r n

rewritten_found :
    (id : ℕ) (change : MigrationJob → MigrationJob) (rows jobs : List MigrationJob)
    (job : MigrationJob)
    → ((x : MigrationJob) → job_key (change x) ≡ job_key x)
    → find job_key id rows ≡ some job
    → jobs ≡ modify job_key id change rows
    → find job_key id jobs ≡ some (change job)
rewritten_found id change rows jobs job same found e =
    rw (e, find-modify job_key change same id rows, found) refl

stored_outcome :
    (millis : ℕ → ℕ) (id : ℕ) (job : MigrationJob) (stage : JobStage) (outcome : JobStatus)
    (now : ℕ) (category : Option Text) (s t : Store) (j : MigrationJob)
    → find_job id s ≡ some job
    → store_outcome millis job stage outcome now category s ≡ ok (j, t)
    → (find_job id t ≡ some j) × (j.status ≡ outcome)
unfolding store_outcome
stored_outcome millis id job stage outcome now category s t j found h =
    let (_, _, h₁) =
      >>=-eq-ok (require (is_valid_finish job stage outcome now category) job_transition) _ h in
    let change = finished_job millis outcome now category in
    let (_, _, h₂) = >>=-eq-ok (require (valid_job (change job)) job_transition) _ h₁ in
    let (jobs, u, h₃) =
      >>=-eq-ok
        (or_raise job_transition (
          update job_key job.job_id
            (λ r. same_job_status r.status running && same_stage r.stage stage) change s.jobs))
        _ h₂ in
    let (r, _, _, z) =
      update_inv job_key job.job_id
        (λ r. same_job_status r.status running && same_stage r.stage stage) change s.jobs jobs
        (or_raise-eq-ok job_transition _ u) in
    let is : job.job_id ≡ id = find-key job_key id s.jobs job found in
    let out : change job ≡ j = ap (λ x. x.0) (ok-injective h₃) in
    let rows : record s { jobs = jobs } ≡ t = ap (λ x. x.1) (ok-injective h₃) in
    let there : find_job id (record s { jobs = jobs }) ≡ some (change job) =
      rewritten_found id change s.jobs jobs job (λ x. refl) found
        (subst (λ i. jobs ≡ modify job_key i change s.jobs) is z) in
    (
      subst (λ x. find_job id x ≡ some j) rows (there ∙ ap some out),
      sym (ap (λ (x : MigrationJob). x.status) out),
    )

replayed :
    (id : ℕ) (job : MigrationJob) (stage : JobStage) (outcome : JobStatus) (category : Option Text)
    (s t : Store) (j : MigrationJob)
    → find_job id s ≡ some job
    → is_exact_replay job stage outcome category ≡ true
    → ◌≡◌ {A = Outcome (MigrationJob × Store)} (ok (job, s)) (ok (j, t))
    → (find_job id t ≡ some j) × (j.status ≡ outcome)
unfolding is_exact_replay
replayed id job stage outcome category s t j found e h =
    let same : same_job_status job.status outcome ≡ true = ground arith in
    let x : job ≡ j = ap (λ (y : MigrationJob × Store). y.0) (ok-injective h) in
    let u : s ≡ t = ap (λ (y : MigrationJob × Store). y.1) (ok-injective h) in
    (
      subst (λ y. find_job id y ≡ some j) u (found ∙ ap some x),
      subst (λ (y : MigrationJob). y.status ≡ outcome) x
          (eq_of_same_job_status job.status outcome same),
    )

-- finish_migration_job leaves the job that it returns in the table, with the outcome.
pub finish-Ends :
    (millis : ℕ → ℕ) (id : ℕ) (stage : JobStage) (outcome : JobStatus) (now : ℕ)
    (category : Option Text)
    → Ends id itself
        (λ j. j.status ≡ outcome)
        (transaction (finish_migration_job millis id stage outcome now category))
unfolding finish_migration_job
finish-Ends millis id stage outcome now category s t j q =
    let h = settled-eq-ok (finish_migration_job millis id stage outcome now category s) s q in
    let (row, f, h₁) = >>=-eq-ok (or_raise job_not_found (find_job id s)) _ h in
    let (job, l, h₂) = >>=-eq-ok (load_job row) _ h₁ in
    let found : find_job id s ≡ some job =
      or_raise-eq-ok job_not_found _ f ∙ ap some (load_job-eq-ok row job l).1 in
    elim (Bool-cases (is_exact_replay job stage outcome category)) [
      | inl e ↦ replayed id job stage outcome category s t j found e (rw e at h₂)
      | inr e ↦ stored_outcome millis id job stage outcome now category s t j found (rw e at h₂)
    ]

-- The job that advances is stored, and is still running.
pub advance-Ends :
    (id : ℕ) (stage new : JobStage)
    → Ends id itself (λ j. j.status ≡ running) (advance id stage new)
unfolding advance update_migration_job_stage is_valid_advance
advance-Ends id stage new s t j q =
    let h = settled-eq-ok (update_migration_job_stage id stage new s) s q in
    let (row, f, h₁) = >>=-eq-ok (or_raise job_not_found (find_job id s)) _ h in
    let (job, l, h₂) = >>=-eq-ok (load_job row) _ h₁ in
    let (_, test, h₃) = >>=-eq-ok (require (is_valid_advance job stage new) job_transition) _ h₂ in
    let on : same_job_status job.status running ≡ true =
      and_left (same_job_status job.status running) _ (require-eq-ok _ job_transition test) in
    let found : find_job id s ≡ some job =
      or_raise-eq-ok job_not_found _ f ∙ ap some (load_job-eq-ok row job l).1 in
    let change : MigrationJob → MigrationJob = (λ r. record r { stage = new }) in
    let (jobs, u, h₄) =
      >>=-eq-ok
        (or_raise job_transition (
          update job_key id (λ r. same_job_status r.status running && same_stage r.stage stage)
            change s.jobs))
        _ h₃ in
    let (r, _, _, z) =
      update_inv job_key id (λ r. same_job_status r.status running && same_stage r.stage stage)
        change s.jobs jobs (or_raise-eq-ok job_transition _ u) in
    let (updated, l', h₅) = >>=-eq-ok (load_job (change job)) _ h₄ in
    let out : change job ≡ j =
      (load_job-eq-ok (change job) updated l').1 ∙ ap (λ x. x.0) (ok-injective h₅) in
    let rows : record s { jobs = jobs } ≡ t = ap (λ x. x.1) (ok-injective h₅) in
    let there : find_job id (record s { jobs = jobs }) ≡ some (change job) =
      rewritten_found id change s.jobs jobs job (λ x. refl) found z in
    (
      subst (λ x. find_job id x ≡ some j) rows (there ∙ ap some out),
      subst (λ (x : MigrationJob). x.status ≡ running) out
          (eq_of_same_job_status job.status running on),
    )
