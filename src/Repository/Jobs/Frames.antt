-- ===== src/Repository/Jobs/Frames.antt =====
-- The transactions on migration_jobs leave the other tables alone, but for the recorded result of
-- a new job.
use schemabridge.Base.{ℕ, ◌≡◌, ◌⊎◌, inl, inr, Bool, Option, none, some, List, arith, ◌&&◌}
use schemabridge.Base.Text.{Text}
use schemabridge.Base.Outcome.{ok, require, >>=-eq-ok, persistence_error}
use schemabridge.Model.Progress.{BatchTransportProgress}
use schemabridge.Model.Job.{MigrationJob, JobStatus, JobStage, same_job_status, same_stage, queued}
use schemabridge.Repository.Store.{
  Store, IdempotencyRow, find_idempotency, insert_idempotency, recorded, migration_job_scope,
  recorded-none,
}
use schemabridge.Repository.Jobs.{
  claim_row, claim_next_migration_job, claim_migration_job, update_migration_job_stage,
  update_migration_job_progress, finish_migration_job, create_migration_job, insert_job, replay_job,
  create_or_replay,
}

-- The store with another table of jobs.
abbrev pub with_jobs : Store → List MigrationJob → Store
with_jobs s jobs = record s { jobs = jobs }

module _ (s : Store) {t : Store} where
  claim_row_frame :
      (at : ℕ) (o : Option MigrationJob) {r : Option MigrationJob}
      → claim_row at o s ≡ ok (r, t)
      → t ≡ with_jobs s t.jobs
  unfolding claim_row
  claim_row_frame at o h = ground arith

  pub claim_next_frame :
      (locked : ℕ → Bool) (at : ℕ) {r : Option MigrationJob}
      → claim_next_migration_job locked at s ≡ ok (r, t)
      → t ≡ with_jobs s t.jobs
  unfolding claim_next_migration_job
  claim_next_frame locked at h = claim_row_frame at _ h

  pub claim_frame :
      (locked : ℕ → Bool) (id at : ℕ) {r : Option MigrationJob}
      → claim_migration_job locked id at s ≡ ok (r, t)
      → t ≡ with_jobs s t.jobs
  unfolding claim_migration_job
  claim_frame locked id at h = claim_row_frame at _ h

  pub update_stage_frame :
      (id : ℕ) (e n : JobStage) {r : MigrationJob}
      → update_migration_job_stage id e n s ≡ ok (r, t)
      → t ≡ with_jobs s t.jobs
  unfolding update_migration_job_stage
  update_stage_frame id e n h = ground arith

  pub update_progress_frame :
      (id : ℕ) (p : BatchTransportProgress) (at : ℕ) {r : MigrationJob}
      → update_migration_job_progress id p at s ≡ ok (r, t)
      → t ≡ with_jobs s t.jobs
  unfolding update_migration_job_progress
  update_progress_frame id p at h = ground arith

  pub finish_frame :
      (millis : ℕ → ℕ) (id : ℕ) (e : JobStage) (o : JobStatus) (at : ℕ) (c : Option Text)
      {r : MigrationJob}
      → finish_migration_job millis id e o at c s ≡ ok (r, t)
      → t ≡ with_jobs s t.jobs
  unfolding finish_migration_job
  finish_frame millis id e o at c h = ground arith

  insert_job_frame :
      (job : MigrationJob) {r : MigrationJob × Bool}
      → insert_job job s ≡ ok (r, t)
      → t
        ≡ insert_idempotency
            (migration_job_scope job.workflow_id)
            job.idempotency_key
            job.job_fingerprint
            job.workflow_id
            job.job_id
            (with_jobs s t.jobs)
  unfolding insert_job insert_idempotency
  insert_job_frame job h = ground arith

  replay_job_frame :
      (row : IdempotencyRow) {r : MigrationJob × Bool} → replay_job row s ≡ ok (r, t) → t ≡ s
  unfolding replay_job
  replay_job_frame row h = ground arith

  create_or_replay_frame :
      (o : Option IdempotencyRow) (job : MigrationJob) {r : MigrationJob × Bool}
      → recorded (migration_job_scope job.workflow_id) job.idempotency_key job.job_fingerprint s
        ≡ ok o
      → create_or_replay o job s ≡ ok (r, t)
      → (t ≡ s)
        ⊎ ((find_idempotency (migration_job_scope job.workflow_id) job.idempotency_key s.idempotency
              ≡ none)
            × (t
                ≡ insert_idempotency
                    (migration_job_scope job.workflow_id)
                    job.idempotency_key
                    job.job_fingerprint
                    job.workflow_id
                    job.job_id
                    (with_jobs s t.jobs)))
  unfolding create_or_replay
  create_or_replay_frame none job q h = inr (recorded-none _ _ _ s q, insert_job_frame job h)
  create_or_replay_frame (some row) job q h = inl (replay_job_frame row h)

  -- A new job records its result under a key that was free; a repeated command changes nothing.
  pub create_frame :
      (job : MigrationJob) {r : MigrationJob × Bool}
      → create_migration_job job s ≡ ok (r, t)
      → (t ≡ s)
        ⊎ ((find_idempotency (migration_job_scope job.workflow_id) job.idempotency_key s.idempotency
              ≡ none)
            × (t
                ≡ insert_idempotency
                    (migration_job_scope job.workflow_id)
                    job.idempotency_key
                    job.job_fingerprint
                    job.workflow_id
                    job.job_id
                    (with_jobs s t.jobs)))
  unfolding create_migration_job
  create_frame job h =
      let (_, _, h₁) =
        >>=-eq-ok
          (require (same_job_status job.status queued && same_stage job.stage JobStage.queued)
            persistence_error)
          _ h in
      let (o, q, h₂) =
        >>=-eq-ok
          (recorded (migration_job_scope job.workflow_id) job.idempotency_key job.job_fingerprint s)
          _ h₁ in
      create_or_replay_frame o job q h₂
