-- ===== src/Repository/Jobs.antt =====
-- PostgreSQLWorkflowRepository: the transactions on migration_jobs.
pub mod Change
pub mod Steps
pub mod Frames
pub mod Claims
use schemabridge.Base.{
  ℕ, ◌-◌, Bool, true, false, not, ◌&&◌, ◌||◌, Option, none, some, List, [], ◌∷◌, ltb, leb, ◌==◌,
  if◌then◌else◌, is_none, is_some, any,
}
use schemabridge.Base.Text.{Text, text_eq}
use schemabridge.Base.Outcome.{
  Outcome, ok, raise, ◌>>=◌, ◌>>◌, require, workflow_not_found, workflow_conflict,
  persistence_error, operation_unavailable, job_not_found, job_already_active, job_transition,
}
use schemabridge.Base.Table.{update, insert}
use schemabridge.Model.Status.{mapping_approved, same_status}
use schemabridge.Model.Workflow.{MigrationWorkflow}
use schemabridge.Model.Progress.{BatchTransportProgress}
use schemabridge.Model.Job.{
  MigrationJob, JobStatus, JobStage, queued, running, succeeded, failed, review_required,
  recovery_required, preparing, staging, validating, completed, same_job_status, same_stage,
  next_stages, valid_job, is_terminal,
}
use schemabridge.Repository.Store.{
  Store, IdempotencyRow, migration_job_scope, job_key, find_workflow, find_job, or_raise,
  load_workflow, load_job, recorded, insert_idempotency,
}

-- The statuses that the uniqueness of an active job counts: all but FAILED.
unfoldable pub is_active : JobStatus → Bool
is_active failed = false
is_active _ = true

-- SELECT 1 FROM migration_jobs WHERE workflow_id = ... AND status IN (...)
unfoldable pub has_active_job : ℕ → List MigrationJob → Bool
unfolding is_active
has_active_job w [] = false
has_active_job w (j ∷ js) = ((j.workflow_id == w) && is_active j.status) || has_active_job w js

-- The recorded job of a repeated command.
unfoldable pub replay_job : IdempotencyRow → Store → Outcome ((MigrationJob × Bool) × Store)
replay_job r s = do
  row ← or_raise persistence_error (find_job r.result_reference s)
  job ← load_job row
  ok ((job, false), s)

-- The INSERT writes no progress.
abbrev pub inserted_row : MigrationJob → MigrationJob
inserted_row job = record job { batch_progress = none; progress_updated_at = none }

unfoldable pub insert_job : MigrationJob → Store → Outcome ((MigrationJob × Bool) × Store)
insert_job job s = do
  row ← or_raise workflow_not_found (find_workflow job.workflow_id s)
  workflow ← load_workflow row
  require (workflow.version == job.expected_workflow_version) workflow_conflict
  require (same_status workflow.status mapping_approved) operation_unavailable
  require (not (has_active_job job.workflow_id s.jobs)) job_already_active
  jobs ← or_raise persistence_error (insert job_key (inserted_row job) s.jobs)
  ok (
    (job, true),
    insert_idempotency (migration_job_scope job.workflow_id) job.idempotency_key job.job_fingerprint
        job.workflow_id job.job_id (record s { jobs = jobs }),
  )

create_or_replay :
    Option IdempotencyRow → MigrationJob → Store → Outcome ((MigrationJob × Bool) × Store)
unfolding replay_job insert_job
create_or_replay none job s = insert_job job s
create_or_replay (some r) job s = replay_job r s

-- create_migration_job
unfoldable pub create_migration_job : MigrationJob → Store → Outcome ((MigrationJob × Bool) × Store)
unfolding create_or_replay
create_migration_job job s = do
  require (same_job_status job.status queued && same_stage job.stage JobStage.queued)
      persistence_error
  replay ← recorded (migration_job_scope job.workflow_id) job.idempotency_key job.job_fingerprint s
  create_or_replay replay job s

-- ORDER BY queued_at, job_id
unfoldable pub is_before : MigrationJob → MigrationJob → Bool
is_before a b =
    ltb a.queued_at b.queued_at || ((a.queued_at == b.queued_at) && leb a.job_id b.job_id)

earlier : MigrationJob → Option MigrationJob → MigrationJob
earlier j none = j
earlier j (some k) = if is_before j k then j else k

-- The first row in that order among the queued ones that no other transaction holds.
unfoldable pub oldest_queued : (ℕ → Bool) → List MigrationJob → Option MigrationJob
unfolding earlier
oldest_queued locked [] = none
oldest_queued locked (j ∷ js) =
    if same_job_status j.status queued && not (locked j.job_id)
    then some (earlier j (oldest_queued locked js))
    else oldest_queued locked js

abbrev pub start_row : ℕ → MigrationJob → MigrationJob
start_row started_at job = record job {
  status = running;
  stage = preparing;
  started_at = some started_at;
}

-- The job that a claim returns is built anew from the fixed fields of the row.
abbrev pub claimed_job : ℕ → MigrationJob → MigrationJob
claimed_job started_at job = record job {
  status = running;
  stage = preparing;
  started_at = some started_at;
  completed_at = none;
  duration_ms = none;
  failure_category = none;
  batch_progress = none;
  progress_updated_at = none;
}

-- The UPDATE of a claim, and the job that it returns.
unfoldable pub claim_row : ℕ → Option MigrationJob → Store → Outcome (Option MigrationJob × Store)
claim_row started_at none s = ok (none, s)
claim_row started_at (some row) s = do
  job ← load_job row
  jobs ← or_raise persistence_error (
      update job_key job.job_id (λ r. same_job_status r.status queued) (start_row started_at)
        s.jobs)
  claimed ← load_job (claimed_job started_at job)
  ok (some claimed, record s { jobs = jobs })

-- claim_next_migration_job: SKIP LOCKED passes over the rows that `locked` names.
unfoldable pub claim_next_migration_job :
    (ℕ → Bool) → ℕ → Store → Outcome (Option MigrationJob × Store)
claim_next_migration_job locked started_at s = claim_row started_at (oldest_queued locked s.jobs) s

abbrev pub if_claimable : (ℕ → Bool) → Option MigrationJob → Option MigrationJob
if_claimable locked none = none
if_claimable locked (some j) =
    if same_job_status j.status queued && not (locked j.job_id) then some j else none

-- claim_migration_job
unfoldable pub claim_migration_job :
    (ℕ → Bool) → ℕ → ℕ → Store → Outcome (Option MigrationJob × Store)
claim_migration_job locked job_id started_at s =
    claim_row started_at (if_claimable locked (find_job job_id s)) s

abbrev pub has_stage : JobStage → List JobStage → Bool
has_stage stage l = any (same_stage stage) l

unfoldable pub is_valid_advance : MigrationJob → JobStage → JobStage → Bool
is_valid_advance job expected new =
    same_job_status job.status running
    && (same_stage job.stage expected
        && (not (same_stage new completed) && has_stage new (next_stages job.stage)))

-- update_migration_job_stage
unfoldable pub update_migration_job_stage :
    ℕ → JobStage → JobStage → Store → Outcome (MigrationJob × Store)
update_migration_job_stage job_id expected new s = do
  row ← or_raise job_not_found (find_job job_id s)
  job ← load_job row
  require (is_valid_advance job expected new) job_transition
  jobs ← or_raise job_transition (
      update job_key job_id (λ r. same_job_status r.status running && same_stage r.stage expected)
        (λ r. record r { stage = new }) s.jobs)
  updated ← load_job (record job { stage = new })
  ok (updated, record s { jobs = jobs })

abbrev pub same_estimate : Option ℕ → Option ℕ → Bool
same_estimate none none = true
same_estimate (some a) (some b) = a == b
same_estimate _ _ = false

abbrev pub later_than : Option ℕ → ℕ → Bool
later_than none t = false
later_than (some p) t = ltb p t

abbrev pub at_or_after : Option ℕ → ℕ → Bool
at_or_after none t = false
at_or_after (some p) t = leb p t

unfoldable pub is_newer :
    Option BatchTransportProgress → Option ℕ → BatchTransportProgress → ℕ → Bool
is_newer none previous_at progress updated_at = true
is_newer (some previous) previous_at progress updated_at =
    later_than previous_at updated_at
    && (ltb previous.batches_completed progress.batches_completed
        && (ltb previous.rows_read progress.rows_read
            && (ltb previous.rows_written progress.rows_written
                && same_estimate progress.total_rows_estimate previous.total_rows_estimate)))

unfoldable pub is_valid_progress : MigrationJob → BatchTransportProgress → ℕ → Bool
is_valid_progress job progress updated_at =
    same_job_status job.status running
    && (same_stage job.stage staging
        && (at_or_after job.started_at updated_at
            && (ltb 0 progress.batches_completed
                && (ltb 0 progress.rows_read
                    && is_newer job.batch_progress job.progress_updated_at progress updated_at))))

abbrev pub with_progress : BatchTransportProgress → ℕ → MigrationJob → MigrationJob
with_progress progress updated_at job = record job {
  batch_progress = some progress;
  progress_updated_at = some updated_at;
}

-- update_migration_job_progress
unfoldable pub update_migration_job_progress :
    ℕ → BatchTransportProgress → ℕ → Store → Outcome (MigrationJob × Store)
update_migration_job_progress job_id progress updated_at s = do
  row ← or_raise job_not_found (find_job job_id s)
  job ← load_job row
  require (is_valid_progress job progress updated_at) job_transition
  require (valid_job (with_progress progress updated_at job)) job_transition
  jobs ← or_raise job_transition (
      update job_key job_id (λ r. same_job_status r.status running && same_stage r.stage staging)
        (with_progress progress updated_at) s.jobs)
  ok (with_progress progress updated_at job, record s { jobs = jobs })

abbrev pub same_category : Option Text → Option Text → Bool
same_category none none = true
same_category (some a) (some b) = text_eq a b
same_category _ _ = false

-- FAILED, REVIEW_REQUIRED and RECOVERY_REQUIRED
unfoldable pub is_failure : JobStatus → Bool
is_failure failed = true
is_failure review_required = true
is_failure recovery_required = true
is_failure _ = false

-- The same outcome was stored before.
unfoldable pub is_exact_replay : MigrationJob → JobStage → JobStatus → Option Text → Bool
is_exact_replay job expected outcome category =
    (same_job_status outcome succeeded
      && (same_job_status job.status outcome && is_none job.failure_category))
    || (is_failure outcome
        && (same_job_status job.status outcome
            && (same_stage job.stage expected && same_category job.failure_category category)))

unfoldable pub is_valid_finish : MigrationJob → JobStage → JobStatus → ℕ → Option Text → Bool
is_valid_finish job expected outcome completed_at category =
    same_job_status job.status running
    && (is_terminal outcome
        && (((same_job_status outcome succeeded
                && (same_stage job.stage validating
                    && (same_stage expected validating && is_none category)))
              || (is_failure outcome && (same_stage job.stage expected && is_some category)))
            && at_or_after job.started_at completed_at))

-- `int((completed_at - started_at).total_seconds() * 1000)` is a float computation: `millis` is
-- what Python makes of a difference in microseconds.
abbrev pub elapsed : (ℕ → ℕ) → Option ℕ → ℕ → ℕ
elapsed millis none completed_at = 0
elapsed millis (some started_at) completed_at = millis (completed_at - started_at)

abbrev pub finished_job : (ℕ → ℕ) → JobStatus → ℕ → Option Text → MigrationJob → MigrationJob
finished_job millis outcome completed_at category job = record job {
  status = outcome;
  stage = if same_job_status outcome succeeded then completed else job.stage;
  completed_at = some completed_at;
  duration_ms = some (elapsed millis job.started_at completed_at);
  failure_category = category;
}

-- The part of finish_migration_job after the test for a replay.
unfoldable pub store_outcome :
    (ℕ → ℕ)
    → MigrationJob
    → JobStage
    → JobStatus
    → ℕ
    → Option Text
    → Store
    → Outcome (MigrationJob × Store)
store_outcome millis job expected outcome completed_at category s = do
  require (is_valid_finish job expected outcome completed_at category) job_transition
  require (valid_job (finished_job millis outcome completed_at category job)) job_transition
  jobs ← or_raise job_transition (
      update job_key job.job_id
        (λ r. same_job_status r.status running && same_stage r.stage expected)
        (finished_job millis outcome completed_at category) s.jobs)
  ok (finished_job millis outcome completed_at category job, record s { jobs = jobs })

-- finish_migration_job
unfoldable pub finish_migration_job :
    (ℕ → ℕ) → ℕ → JobStage → JobStatus → ℕ → Option Text → Store → Outcome (MigrationJob × Store)
unfolding store_outcome
finish_migration_job millis job_id expected outcome completed_at category s = do
  row ← or_raise job_not_found (find_job job_id s)
  job ← load_job row
  (if is_exact_replay job expected outcome category
      then ok (job, s)
      else store_outcome millis job expected outcome completed_at category s)
