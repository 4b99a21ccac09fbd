-- ===== src/Repository/Jobs/Change.antt =====
-- What a transaction may do to the table of jobs: nothing, one new queued job, or one row
-- rewritten within the life of a job.
use schemabridge.Base.{
  ℕ, ◌+◌, ◌≤◌, ◌≡◌, refl, ◌∙◌, subst, true, false, ◌&&◌, Option, none, some, List, [], ◌∷◌, ◌==◌,
  if◌then◌else◌, All, Bool-cases, inl, inr, arith,
}
use schemabridge.Base.Table.{
  find, modify, All-modify, find-modify, find-modify_ne, find-insert, Distinct, Distinct-modify,
}
use schemabridge.Model.Progress.{BatchTransportProgress}
use schemabridge.Model.Job.{MigrationJob, queued, is_terminal, stage_index, valid_job}
use schemabridge.Repository.Store.{job_key}
use schemabridge.Repository.Jobs.{is_active, has_active_job}

abbrev pub rows_done : Option BatchTransportProgress → ℕ
rows_done none = 0
rows_done (some p) = p.rows_written

-- How a job may change: a finished one not at all, its stage and its progress only forwards, and
-- what it was asked to do never.
pub record Evolves (j k : MigrationJob) : Type 0 where
  pub terminal_fixed : is_terminal j.status ≡ true → k ≡ j
  pub stage_forward : stage_index j.stage ≤ stage_index k.stage
  pub rows_forward : rows_done j.batch_progress ≤ rows_done k.batch_progress
  pub never_requeued : k.status ≡ queued → j.status ≡ queued
  pub same_job : k.job_id ≡ j.job_id
  pub same_workflow : k.workflow_id ≡ j.workflow_id
  pub same_version : k.expected_workflow_version ≡ j.expected_workflow_version
  pub same_mapping : k.approved_mapping_artifact_version ≡ j.approved_mapping_artifact_version
  pub same_fingerprint : k.job_fingerprint ≡ j.job_fingerprint

pub Evolves-refl : (j : MigrationJob) → Evolves j j
Evolves-refl j = ground arith

pub Evolves-trans : {j k l : MigrationJob} → Evolves j k → Evolves k l → Evolves j l
Evolves-trans {j} {k} {l} a b = record {
  terminal_fixed = λ t. let e : k ≡ j = a.terminal_fixed t in b.terminal_fixed (rw e t) ∙ e;
  stage_forward = omega arith;
  rows_forward = omega arith;
  never_requeued = λ q. a.never_requeued (b.never_requeued q);
  same_job = b.same_job ∙ a.same_job;
  same_workflow = b.same_workflow ∙ a.same_workflow;
  same_version = b.same_version ∙ a.same_version;
  same_mapping = b.same_mapping ∙ a.same_mapping;
  same_fingerprint = b.same_fingerprint ∙ a.same_fingerprint;
}

pub data JobsChange (js ks : List MigrationJob) : Type 0 where
  unchanged : ks ≡ js → JobsChange js ks
  inserted :
      (j : MigrationJob)
      → find job_key j.job_id js ≡ none
      → valid_job j ≡ true
      → has_active_job j.workflow_id js ≡ false
      → ks ≡ j ∷ js
      → JobsChange js ks
  rewritten :
      (k : ℕ) (f : MigrationJob → MigrationJob) (r : MigrationJob)
      → find job_key k js ≡ some r
      → ((j : MigrationJob) → job_key (f j) ≡ job_key j)
      → valid_job (f r) ≡ true
      → Evolves r (f r)
      → ks ≡ modify job_key k f js
      → JobsChange js ks

abbrev pub AllValid : List MigrationJob → Type 0
AllValid js = All (λ j. valid_job j ≡ true) js

pub AllValid-change : {js ks : List MigrationJob} → JobsChange js ks → AllValid js → AllValid ks
AllValid-change (unchanged e) a = rw e a
AllValid-change (inserted j fresh v free e) a = rw e (v, a)
AllValid-change {js} (rewritten k f r found same v ev e) a = rw e (
    All-modify job_key (λ j. valid_job j ≡ true) k f js a
      (λ x q _. subst (λ y. valid_job (f y) ≡ true) (ground arith) v))

-- How many rows of a workflow count as active.
unfoldable pub active_count : ℕ → List MigrationJob → ℕ
active_count w [] = 0
active_count w (j ∷ js) =
    (if (j.workflow_id == w) && is_active j.status then 1 else 0) + active_count w js

active_count-zero :
    (w : ℕ) (js : List MigrationJob) → has_active_job w js ≡ false → active_count w js ≡ 0
unfolding active_count has_active_job
active_count-zero w [] h = refl
active_count-zero w (j ∷ js) h = ground (arith, active_count-zero w js)

active_flag-le :
    (w : ℕ) (j k : MigrationJob)
    → Evolves j k
    → (if (k.workflow_id == w) && is_active k.status then 1 else 0)
      ≤ (if (j.workflow_id == w) && is_active j.status then 1 else 0)
unfolding is_active is_terminal
active_flag-le w j k ev = ground arith

active_count-modify :
    (w k : ℕ) (f : MigrationJob → MigrationJob) (js : List MigrationJob)
    → ((r : MigrationJob) → find job_key k js ≡ some r → Evolves r (f r))
    → active_count w (modify job_key k f js) ≤ active_count w js
unfolding active_count modify find
active_count-modify w k f [] ev = omega arith
active_count-modify w k f (j ∷ js) ev = elim (Bool-cases (job_key j == k)) [
  | inl e ↦ rw e (omega (arith, active_flag-le w j (f j) (ev j (rw e))))
  | inr e ↦ rw e (omega (arith, active_count-modify w k f js (λ r q. ev r (rw e q))))
]

-- No workflow has two active jobs.
abbrev pub OneActive : List MigrationJob → Type 0
OneActive js = (w : ℕ) → active_count w js ≤ 1

pub OneActive-change : {js ks : List MigrationJob} → JobsChange js ks → OneActive js → OneActive ks
unfolding active_count
OneActive-change (unchanged e) a w = rw e (a w)
OneActive-change {js} (inserted j fresh v free e) a w =
    rw e (ground (arith, a w, active_count-zero w js))
OneActive-change {js} (rewritten k f r found same v ev e) a w = rw e (
    omega (
      arith,
      a w,
      active_count-modify w k f js (λ x q. subst (λ y. Evolves y (f y)) (ground arith) ev),
    ))

-- A job that the table holds is still there afterwards, and has changed only within its life.
pub find-change :
    {js ks : List MigrationJob} (k : ℕ) (j : MigrationJob)
    → JobsChange js ks
    → find job_key k js ≡ some j
    → (j' : MigrationJob) × (find job_key k ks ≡ some j') × Evolves j j'
find-change k j (unchanged e) h = (j, rw e h, Evolves-refl j)
find-change {js} k j (inserted n fresh v free e) h = elim (Bool-cases (job_key n == k)) [
  | inl q ↦ absurd (ground arith)
  | inr q ↦ (j, rw (e, find-insert) (ground arith), Evolves-refl j)
]
find-change {js} k j (rewritten i f r found same v ev e) h = elim (Bool-cases (i == k)) [
  | inl q ↦
      let m : i ≡ k = ground arith in
      let x : r ≡ j = ground arith in
      (f j, rw (e, m, find-modify job_key f same k js, h), subst (λ y. Evolves y (f y)) x ev)
  | inr q ↦ (j, rw (e, find-modify_ne job_key f same i k js (ground arith)) h, Evolves-refl j)
]

pub Distinct-change :
    {js ks : List MigrationJob} → JobsChange js ks → Distinct job_key js → Distinct job_key ks
Distinct-change (unchanged e) d = rw e d
Distinct-change (inserted j fresh v free e) d = rw e (fresh, d)
Distinct-change {js} (rewritten k f r found same v ev e) d =
    rw e (Distinct-modify job_key f same k js d)
