-- ===== src/Repository/Jobs/Steps.antt =====
-- Each transaction on migration_jobs makes one of the changes of `JobsChange`.
use schemabridge.Base.{
  ℕ, ◌≡◌, refl, ◌∙◌, ap, subst, Bool, true, false, not, ◌&&◌, Option, none, some, List, [], ◌∷◌,
  ◌==◌, Bool-cases, Option-cases, inl, inr, and_right, arith,
}
use schemabridge.Base.Text.{Text}
use schemabridge.Base.Outcome.{
  ok, >>=-eq-ok, require, require-eq-ok, persistence_error, job_not_found, job_transition,
  job_already_active, workflow_not_found, workflow_conflict, operation_unavailable,
}
use schemabridge.Base.Table.{find, insert, update_inv, insert_inv, Distinct, find-key}
use schemabridge.Model.Progress.{BatchTransportProgress}
use schemabridge.Model.Job.{
  MigrationJob, JobStatus, JobStage, queued, valid_job, valid_lifecycle, valid_progress_fields,
  is_terminal, same_job_status, same_stage, next_stages, is_progress_stage,
}
use schemabridge.Repository.Store.{
  Store, job_key, find_job, or_raise, or_raise-eq-ok, load_job, load_job-eq-ok, load_workflow,
  IdempotencyRow, find_workflow, recorded, migration_job_scope, insert_idempotency,
}
use schemabridge.Repository.Jobs.{
  start_row, claimed_job, claim_row, update_migration_job_stage, is_valid_advance, oldest_queued,
  is_valid_progress, is_newer, with_progress, update_migration_job_progress, is_valid_finish,
  is_failure, finished_job, store_outcome, finish_migration_job, is_exact_replay, insert_job,
  inserted_row, has_active_job, create_or_replay, create_migration_job, claim_next_migration_job,
  claim_migration_job, if_claimable, replay_job,
}
use schemabridge.Repository.Jobs.Change.{JobsChange, unchanged, inserted, rewritten, Evolves}
use schemabridge.Model.Status.{same_status, mapping_approved}

-- On a valid queued row, the job that a claim builds anew is the row that it stores.
claimed_job-eq-start_row :
    (t : ℕ) (j : MigrationJob)
    → valid_job j ≡ true
    → same_job_status j.status queued ≡ true
    → claimed_job t j ≡ start_row t j
unfolding valid_job valid_lifecycle valid_progress_fields same_job_status
claimed_job-eq-start_row t j v q = ground arith

start_row-Evolves :
    (t : ℕ) (j : MigrationJob)
    → valid_job j ≡ true
    → same_job_status j.status queued ≡ true
    → Evolves j (start_row t j)
unfolding valid_job valid_lifecycle same_job_status is_terminal
start_row-Evolves t j v q = ground arith

advance-Evolves :
    (j : MigrationJob) (expected new : JobStage)
    → is_valid_advance j expected new ≡ true
    → Evolves j (record j { stage = new })
unfolding is_valid_advance same_job_status same_stage is_terminal next_stages
advance-Evolves j expected new h = ground arith

-- The row that a claim selects is the row of its key.
find-oldest_queued :
    (locked : ℕ → Bool) (js : List MigrationJob) (j : MigrationJob)
    → Distinct job_key js
    → oldest_queued locked js ≡ some j
    → find job_key j.job_id js ≡ some j
unfolding oldest_queued find
find-oldest_queued locked [] j d h = cc
find-oldest_queued locked (x ∷ js) j d h = elim (Option-cases (oldest_queued locked js)) [
  | inl e ↦ ground arith
  | inr (k, e) ↦ ground (arith, find-oldest_queued locked js k d.1 e)
]

claim_row-change :
    (t : ℕ) (o : Option MigrationJob) (s : Store)
    → ((j : MigrationJob) → o ≡ some j → find_job j.job_id s ≡ some j)
    → {r : Option MigrationJob} {s' : Store} → claim_row t o s ≡ ok (r, s')
    → JobsChange s.jobs s'.jobs
unfolding claim_row
claim_row-change t none s sel h = unchanged (ground arith)
claim_row-change t (some row) s sel {r} {s'} h =
    let (job, loaded, h₁) = >>=-eq-ok (load_job row) _ h in
    let (v, e) = load_job-eq-ok row job loaded in
    let (jobs, u, h₂) = >>=-eq-ok _ _ h₁ in
    let (x, found, q, w) =
      update_inv job_key job.job_id _ _ s.jobs jobs (or_raise-eq-ok persistence_error _ u) in
    let (c, loaded', h₃) = >>=-eq-ok (load_job (claimed_job t job)) _ h₂ in
    let (v', e') = load_job-eq-ok (claimed_job t job) c loaded' in
    let known : find_job job.job_id s ≡ some row = rw (← e) (sel row refl) in
    let same : x ≡ job = ground arith in
    let qj : same_job_status job.status queued ≡ true = rw same at q in
    let vj : valid_job job ≡ true = rw e at v in
    rewritten job.job_id (start_row t) job (found ∙ ap some same) (λ j. refl)
      (rw (← claimed_job-eq-start_row t job vj qj) v') (start_row-Evolves t job vj qj)
      (ground arith)

pub update_stage-change :
    (id : ℕ) (expected new : JobStage) (s : Store) {r : MigrationJob} {s' : Store}
    → update_migration_job_stage id expected new s ≡ ok (r, s')
    → JobsChange s.jobs s'.jobs
unfolding update_migration_job_stage
update_stage-change id expected new s {r} {s'} h =
    let (row, found, h₁) = >>=-eq-ok (or_raise job_not_found (find_job id s)) _ h in
    let (job, loaded, h₂) = >>=-eq-ok (load_job row) _ h₁ in
    let (v, e) = load_job-eq-ok row job loaded in
    let (_, test, h₃) =
      >>=-eq-ok (require (is_valid_advance job expected new) job_transition) _ h₂ in
    let (jobs, u, h₄) = >>=-eq-ok _ _ h₃ in
    let (x, _, _, w) = update_inv job_key id _ _ s.jobs jobs (or_raise-eq-ok job_transition _ u) in
    let (c, loaded', h₅) = >>=-eq-ok (load_job (record job { stage = new })) _ h₄ in
    let (v', e') = load_job-eq-ok (record job { stage = new }) c loaded' in
    rewritten id (λ r. record r { stage = new }) job
      (rw (← e) (or_raise-eq-ok job_not_found _ found)) (λ j. refl) v'
      (advance-Evolves job expected new (require-eq-ok _ job_transition test)) (ground arith)

progress-Evolves :
    (j : MigrationJob) (p : BatchTransportProgress) (t : ℕ)
    → valid_job j ≡ true
    → is_valid_progress j p t ≡ true
    → Evolves j (with_progress p t j)
unfolding is_valid_progress is_newer same_job_status is_terminal
progress-Evolves j p t v h = ground arith

pub update_progress-change :
    (id : ℕ) (p : BatchTransportProgress) (t : ℕ) (s : Store) {r : MigrationJob} {s' : Store}
    → update_migration_job_progress id p t s ≡ ok (r, s')
    → JobsChange s.jobs s'.jobs
unfolding update_migration_job_progress
update_progress-change id p t s {r} {s'} h =
    let (row, found, h₁) = >>=-eq-ok (or_raise job_not_found (find_job id s)) _ h in
    let (job, loaded, h₂) = >>=-eq-ok (load_job row) _ h₁ in
    let (v, e) = load_job-eq-ok row job loaded in
    let (_, test, h₃) = >>=-eq-ok (require (is_valid_progress job p t) job_transition) _ h₂ in
    let (_, fits, h₄) =
      >>=-eq-ok (require (valid_job (with_progress p t job)) job_transition) _ h₃ in
    let (jobs, u, h₅) = >>=-eq-ok _ _ h₄ in
    let (x, _, _, w) = update_inv job_key id _ _ s.jobs jobs (or_raise-eq-ok job_transition _ u) in
    rewritten id (with_progress p t) job (or_raise-eq-ok job_not_found _ found ∙ ap some e)
      (λ j. refl) (require-eq-ok _ job_transition fits)
      (progress-Evolves job p t (rw e at v) (require-eq-ok _ job_transition test)) (ground arith)

finish-Evolves :
    (millis : ℕ → ℕ) (j : MigrationJob) (expected : JobStage) (outcome : JobStatus) (t : ℕ)
    (c : Option Text)
    → is_valid_finish j expected outcome t c ≡ true
    → Evolves j (finished_job millis outcome t c j)
unfolding is_valid_finish same_job_status same_stage is_terminal is_failure
finish-Evolves millis j expected outcome t c h = ground arith

store_outcome-change :
    (millis : ℕ → ℕ) (job : MigrationJob) (expected : JobStage) (outcome : JobStatus) (t : ℕ)
    (c : Option Text) (s : Store)
    → find_job job.job_id s ≡ some job
    → {r : MigrationJob} {s' : Store} → store_outcome millis job expected outcome t c s ≡ ok (r, s')
    → JobsChange s.jobs s'.jobs
unfolding store_outcome
store_outcome-change millis job expected outcome t c s found {r} {s'} h =
    let (_, test, h₁) =
      >>=-eq-ok (require (is_valid_finish job expected outcome t c) job_transition) _ h in
    let (_, fits, h₂) =
      >>=-eq-ok (require (valid_job (finished_job millis outcome t c job)) job_transition) _ h₁ in
    let (jobs, u, h₃) = >>=-eq-ok _ _ h₂ in
    let (x, _, _, w) =
      update_inv job_key job.job_id _ _ s.jobs jobs (or_raise-eq-ok job_transition _ u) in
    rewritten job.job_id (finished_job millis outcome t c) job found (λ j. refl)
      (require-eq-ok _ job_transition fits)
      (finish-Evolves millis job expected outcome t c (require-eq-ok _ job_transition test))
      (ground arith)

pub finish-change :
    (millis : ℕ → ℕ) (id : ℕ) (expected : JobStage) (outcome : JobStatus) (t : ℕ) (c : Option Text)
    (s : Store)
    → {r : MigrationJob} {s' : Store}
    → finish_migration_job millis id expected outcome t c s ≡ ok (r, s')
    → JobsChange s.jobs s'.jobs
unfolding finish_migration_job
finish-change millis id expected outcome t c s {r} {s'} h =
    let (row, found, h₁) = >>=-eq-ok (or_raise job_not_found (find_job id s)) _ h in
    let (job, loaded, h₂) = >>=-eq-ok (load_job row) _ h₁ in
    let (v, e) = load_job-eq-ok row job loaded in
    let here : find_job id s ≡ some job = or_raise-eq-ok job_not_found _ found ∙ ap some e in
    let own : find_job job.job_id s ≡ some job =
      ap (λ k. find_job k s) (find-key job_key id s.jobs job here) ∙ here in
    elim (Bool-cases (is_exact_replay job expected outcome c)) [
      | inl same ↦ unchanged (ground arith)
      | inr other ↦
          store_outcome-change millis job expected outcome t c s own {r = r} {s' = s'}
            (ground arith)
    ]

not-true : (b : Bool) → not b ≡ true → b ≡ false
not-true b h = ground arith

-- A valid job before its staging has no progress, so the row is the job.
inserted_row-eq :
    (j : MigrationJob) → valid_job j ≡ true → is_progress_stage j.stage ≡ false → j ≡ inserted_row j
unfolding valid_job valid_progress_fields
inserted_row-eq j v q = ground arith

insert_job-change :
    (job : MigrationJob) (s : Store)
    → valid_job job ≡ true
    → is_progress_stage job.stage ≡ false
    → {r : MigrationJob × Bool} {s' : Store} → insert_job job s ≡ ok (r, s')
    → JobsChange s.jobs s'.jobs
unfolding insert_job insert_idempotency
insert_job-change job s v q {r} {s'} h =
    let (row, _, h₁) =
      >>=-eq-ok (or_raise workflow_not_found (find_workflow job.workflow_id s)) _ h in
    let (workflow, _, h₂) = >>=-eq-ok (load_workflow row) _ h₁ in
    let (_, _, h₃) =
      >>=-eq-ok (require (workflow.version == job.expected_workflow_version) workflow_conflict) _
        h₂ in
    let (_, _, h₄) =
      >>=-eq-ok (require (same_status workflow.status mapping_approved) operation_unavailable) _
        h₃ in
    let (_, free, h₅) =
      >>=-eq-ok (require (not (has_active_job job.workflow_id s.jobs)) job_already_active) _ h₄ in
    let (jobs, u, h₆) =
      >>=-eq-ok (or_raise persistence_error (insert job_key (inserted_row job) s.jobs)) _ h₅ in
    let (fresh, w) =
      insert_inv job_key (inserted_row job) s.jobs jobs (or_raise-eq-ok persistence_error _ u) in
    let none_active : not (has_active_job job.workflow_id s.jobs) ≡ true =
      require-eq-ok _ job_already_active free in
    inserted (inserted_row job) fresh (subst (λ y. valid_job y ≡ true) (inserted_row-eq job v q) v)
      (not-true _ none_active) (ground arith)

create_or_replay-change :
    (o : Option IdempotencyRow) (job : MigrationJob) (s : Store)
    → valid_job job ≡ true
    → is_progress_stage job.stage ≡ false
    → {r : MigrationJob × Bool} {s' : Store} → create_or_replay o job s ≡ ok (r, s')
    → JobsChange s.jobs s'.jobs
unfolding create_or_replay replay_job
create_or_replay-change none job s v q h = insert_job-change job s v q h
create_or_replay-change (some row) job s v q {r} {s'} h =
    let (found, _, h₁) =
      >>=-eq-ok (or_raise persistence_error (find_job row.result_reference s)) _ h in
    let (_, _, h₂) = >>=-eq-ok (load_job found) _ h₁ in unchanged (ground arith)

queued_stage : (g : JobStage) → same_stage g JobStage.queued ≡ true → is_progress_stage g ≡ false
unfolding same_stage is_progress_stage
queued_stage g h = ground arith

pub create-change :
    (job : MigrationJob) (s : Store)
    → valid_job job ≡ true
    → {r : MigrationJob × Bool} {s' : Store} → create_migration_job job s ≡ ok (r, s')
    → JobsChange s.jobs s'.jobs
unfolding create_migration_job
create-change job s v {r} {s'} h =
    let (_, test, h₁) =
      >>=-eq-ok
        (require (same_job_status job.status queued && same_stage job.stage JobStage.queued)
          persistence_error)
        _ h in
    let (o, _, h₂) =
      >>=-eq-ok
        (recorded (migration_job_scope job.workflow_id) job.idempotency_key job.job_fingerprint s) _
        h₁ in
    create_or_replay-change o job s v
      (queued_stage job.stage
        (and_right (same_job_status job.status queued) _ (require-eq-ok _ persistence_error test)))
      h₂

pub claim_next-change :
    (locked : ℕ → Bool) (t : ℕ) (s : Store)
    → Distinct job_key s.jobs
    → {r : Option MigrationJob} {s' : Store} → claim_next_migration_job locked t s ≡ ok (r, s')
    → JobsChange s.jobs s'.jobs
unfolding claim_next_migration_job
claim_next-change locked t s d h =
    claim_row-change t (oldest_queued locked s.jobs) s
      (λ j e. find-oldest_queued locked s.jobs j d e) h

if_claimable_inv :
    (locked : ℕ → Bool) (o : Option MigrationJob) (j : MigrationJob)
    → if_claimable locked o ≡ some j
    → o ≡ some j
if_claimable_inv locked none j h = cc
if_claimable_inv locked (some x) j h = ground arith

pub claim-change :
    (locked : ℕ → Bool) (id t : ℕ) (s : Store)
    → {r : Option MigrationJob} {s' : Store} → claim_migration_job locked id t s ≡ ok (r, s')
    → JobsChange s.jobs s'.jobs
unfolding claim_migration_job
claim-change locked id t s h =
    claim_row-change t (if_claimable locked (find_job id s)) s
      (λ j e.
        let here : find_job id s ≡ some j = if_claimable_inv locked _ j e in
        ap (λ k. find_job k s) (find-key job_key id s.jobs j here) ∙ here)
      h
