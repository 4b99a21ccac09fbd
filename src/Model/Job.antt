-- ===== src/Model/Job.antt =====
-- schemabridge/models/migration_job.py: the status and stage of a background job, and what its
-- constructor accepts.
use schemabridge.Base.{
  ℕ, ◌∙◌, sym, ap, ◌≡◌, refl, Bool, true, false, ◌&&◌, Option, none, some, List, [], ◌∷◌, leb, ◌==◌,
  if◌then◌else◌, is_none, is_some, ==_iff,
}
use schemabridge.Base.Text.{Text, valid_text, valid_code, valid_hash}
use schemabridge.Model.Workflow.{ActorType, valid_optional}
use schemabridge.Model.Progress.{BatchTransportProgress, valid_progress}

pub data JobStatus : Type 0 where
  queued running succeeded failed review_required recovery_required : JobStatus

pub data JobStage : Type 0 where
  queued preparing staging transforming executing cleaning_up validating completed : JobStage

abbrev pub job_status_index : JobStatus → ℕ
job_status_index JobStatus.queued = 0
job_status_index running = 1
job_status_index succeeded = 2
job_status_index failed = 3
job_status_index review_required = 4
job_status_index recovery_required = 5

-- The order of the pipeline.
abbrev pub stage_index : JobStage → ℕ
stage_index JobStage.queued = 0
stage_index preparing = 1
stage_index staging = 2
stage_index transforming = 3
stage_index executing = 4
stage_index cleaning_up = 5
stage_index validating = 6
stage_index completed = 7

unfoldable pub same_job_status : JobStatus → JobStatus → Bool
same_job_status a b = job_status_index a == job_status_index b

unfoldable pub same_stage : JobStage → JobStage → Bool
same_stage a b = stage_index a == stage_index b

-- ALLOWED_JOB_STAGE_TRANSITIONS
unfoldable pub next_stages : JobStage → List JobStage
next_stages JobStage.queued = preparing ∷ []
next_stages preparing = staging ∷ []
next_stages staging = transforming ∷ []
next_stages transforming = executing ∷ []
next_stages executing = cleaning_up ∷ []
next_stages cleaning_up = validating ∷ []
next_stages validating = completed ∷ []
next_stages completed = []

pub record MigrationJob : Type 0 where
  pub job_id : ℕ
  pub workflow_id : ℕ
  pub expected_workflow_version : ℕ
  pub source_discovery_artifact_version : ℕ
  pub approved_mapping_artifact_version : ℕ
  pub source_profile_id : Text
  pub target_profile_id : Text
  pub batch_size : ℕ
  pub timeout_seconds : ℕ
  pub job_fingerprint : Text
  pub status : JobStatus
  pub stage : JobStage
  pub queued_at : ℕ
  pub actor_type : ActorType
  pub idempotency_key : Text
  pub actor_reference : Option Text
  pub started_at : Option ℕ
  pub completed_at : Option ℕ
  pub duration_ms : Option ℕ
  pub failure_category : Option Text
  pub batch_progress : Option BatchTransportProgress
  pub progress_updated_at : Option ℕ

-- The checks on the fields that are fixed when the job is queued.
unfoldable pub valid_inputs : MigrationJob → Bool
valid_inputs j =
    leb 1 j.expected_workflow_version
    && (leb 1 j.source_discovery_artifact_version
        && (leb 1 j.approved_mapping_artifact_version
            && (leb 1 j.batch_size
                && (leb 1 j.timeout_seconds
                    && (leb j.batch_size 10000
                        && (valid_text 256 j.source_profile_id
                            && (valid_text 256 j.target_profile_id
                                && (valid_hash j.job_fingerprint
                                    && (valid_text 128 j.idempotency_key
                                        && valid_optional (valid_text 256)
                                            j.actor_reference)))))))))

-- `a <= b` where an absent left side makes the test fail, and an absent right side passes.
abbrev pub follows : Option ℕ → Option ℕ → Bool
follows a none = true
follows none (some b) = false
follows (some a) (some b) = leb a b

-- started_at and completed_at are in order.
unfoldable pub valid_times : MigrationJob → Bool
valid_times j = follows (some j.queued_at) j.started_at && follows j.started_at j.completed_at

unfoldable pub is_progress_stage : JobStage → Bool
is_progress_stage JobStage.queued = false
is_progress_stage preparing = false
is_progress_stage _ = true

abbrev pub not_after : ℕ → Option ℕ → Bool
not_after t none = true
not_after t (some c) = leb t c

progress_timing : Option BatchTransportProgress → Option ℕ → MigrationJob → Bool
progress_timing none none j = true
progress_timing none (some t) j = false
progress_timing (some p) none j = false
progress_timing (some p) (some t) j =
    valid_progress p
    && (is_progress_stage j.stage
        && (is_some j.started_at && (follows j.started_at (some t) && not_after t j.completed_at)))

-- Progress and its time appear together, in a stage that has progress, within the run.
unfoldable pub valid_progress_fields : MigrationJob → Bool
unfolding progress_timing
valid_progress_fields j = progress_timing j.batch_progress j.progress_updated_at j

-- `stage not in {QUEUED, COMPLETED}`
unfoldable pub is_inner_stage : JobStage → Bool
is_inner_stage JobStage.queued = false
is_inner_stage completed = false
is_inner_stage _ = true

abbrev pub is_queued_stage : JobStage → Bool
is_queued_stage JobStage.queued = true
is_queued_stage _ = false

abbrev pub is_completed_stage : JobStage → Bool
is_completed_stage completed = true
is_completed_stage _ = false

lifecycle : JobStatus → MigrationJob → Bool
lifecycle JobStatus.queued j =
    is_queued_stage j.stage
    && (is_none j.started_at
        && (is_none j.completed_at && (is_none j.duration_ms && is_none j.failure_category)))
lifecycle running j =
    is_inner_stage j.stage
    && (is_some j.started_at
        && (is_none j.completed_at && (is_none j.duration_ms && is_none j.failure_category)))
lifecycle succeeded j =
    is_completed_stage j.stage
    && (is_some j.started_at
        && (is_some j.completed_at && (is_some j.duration_ms && is_none j.failure_category)))
lifecycle _ j =
    is_inner_stage j.stage
    && (is_some j.started_at
        && (is_some j.completed_at && (is_some j.duration_ms && is_some j.failure_category)))

-- The fields that each status asks for.
unfoldable pub valid_lifecycle : MigrationJob → Bool
unfolding lifecycle
valid_lifecycle j = lifecycle j.status j

-- MigrationJob.__post_init__
unfoldable pub valid_job : MigrationJob → Bool
valid_job j =
    valid_inputs j
    && (valid_times j
        && (valid_optional valid_code j.failure_category
            && (valid_progress_fields j && valid_lifecycle j)))

-- SUCCEEDED, FAILED, REVIEW_REQUIRED and RECOVERY_REQUIRED
unfoldable pub is_terminal : JobStatus → Bool
is_terminal JobStatus.queued = false
is_terminal running = false
is_terminal _ = true

status_at : ℕ → JobStatus
status_at n =
    if n == 0
    then JobStatus.queued
    else if n == 1
    then running
    else if n == 2
    then succeeded
    else if n == 3
    then failed
    else if n == 4
    then review_required
    else recovery_required

status_at-job_status_index : (s : JobStatus) → status_at (job_status_index s) ≡ s
unfolding status_at
status_at-job_status_index JobStatus.queued = refl
status_at-job_status_index _ = refl

pub eq_of_same_job_status : (a b : JobStatus) → same_job_status a b ≡ true → a ≡ b
unfolding same_job_status
eq_of_same_job_status a b h =
    sym (status_at-job_status_index a)
    ∙ ap status_at ((==_iff (job_status_index a) (job_status_index b)).0 h)
    ∙ status_at-job_status_index b

stage_at : ℕ → JobStage
stage_at n =
    if n == 0
    then JobStage.queued
    else if n == 1
    then preparing
    else if n == 2
    then staging
    else if n == 3
    then transforming
    else if n == 4
    then executing
    else if n == 5
    then cleaning_up
    else if n == 6
    then validating
    else completed

stage_at-stage_index : (s : JobStage) → stage_at (stage_index s) ≡ s
unfolding stage_at
stage_at-stage_index JobStage.queued = refl
stage_at-stage_index _ = refl

pub eq_of_same_stage : (a b : JobStage) → same_stage a b ≡ true → a ≡ b
unfolding same_stage
eq_of_same_stage a b h =
    sym (stage_at-stage_index a)
    ∙ ap stage_at ((==_iff (stage_index a) (stage_index b)).0 h)
    ∙ stage_at-stage_index b
