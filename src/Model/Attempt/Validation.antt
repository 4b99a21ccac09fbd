-- ===== src/Model/Attempt/Validation.antt =====
-- schemabridge/models/workflow_validation.py
use schemabridge.Base.{
  ◌≡◌, refl, arith, ℕ, Bool, true, false, ◌&&◌, Option, none, some, leb, is_none, is_some,
}
use schemabridge.Base.Text.{Text, valid_text, valid_code, valid_hash}
use schemabridge.Model.Workflow.{ActorType, valid_optional}
use schemabridge.Model.Attempt.Execution.{in_order}

pub data WorkflowValidationRunStatus : Type 0 where
  claimed running succeeded review_required outcome_uncertain : WorkflowValidationRunStatus

pub record WorkflowValidationRun : Type 0 where
  pub run_id : ℕ
  pub workflow_id : ℕ
  pub execution_attempt_id : ℕ
  pub execution_evidence_artifact_version : ℕ
  pub approved_mapping_artifact_version : ℕ
  pub validation_preview_artifact_version : ℕ
  pub source_profile_id : Text
  pub target_profile_id : Text
  pub validation_fingerprint : Text
  pub status : WorkflowValidationRunStatus
  pub timeout_seconds : ℕ
  pub claimed_at : ℕ
  pub actor_type : ActorType
  pub idempotency_key : Text
  pub actor_reference : Option Text
  pub running_at : Option ℕ
  pub completed_at : Option ℕ
  pub duration_ms : Option ℕ
  pub evidence_artifact_id : Option ℕ
  pub failure_category : Option Text

-- The fields that are fixed by the claim.
unfoldable pub valid_claim : WorkflowValidationRun → Bool
valid_claim r =
    leb 1 r.execution_evidence_artifact_version
    && (leb 1 r.approved_mapping_artifact_version
        && (leb 1 r.validation_preview_artifact_version
            && (leb 1 r.timeout_seconds
                && (valid_text 256 r.source_profile_id
                    && (valid_text 256 r.target_profile_id
                        && (valid_hash r.validation_fingerprint
                            && (valid_text 128 r.idempotency_key
                                && valid_optional (valid_text 256) r.actor_reference)))))))

no_result : WorkflowValidationRun → Bool
no_result r =
    is_none r.completed_at
    && (is_none r.duration_ms && (is_none r.evidence_artifact_id && is_none r.failure_category))

-- The fields that each status asks for.
lifecycle : WorkflowValidationRunStatus → WorkflowValidationRun → Bool
unfolding no_result
lifecycle claimed r = is_none r.running_at && no_result r
lifecycle running r = is_some r.running_at && no_result r
lifecycle outcome_uncertain r =
    is_some r.running_at
    && (is_some r.completed_at
        && (is_some r.duration_ms
            && (is_none r.evidence_artifact_id && is_some r.failure_category)))
lifecycle _ r =
    is_some r.running_at
    && (is_some r.completed_at
        && (is_some r.duration_ms
            && (is_some r.evidence_artifact_id && is_none r.failure_category)))

-- WorkflowValidationRun.__post_init__
unfoldable pub valid_validation_run : WorkflowValidationRun → Bool
unfolding lifecycle
valid_validation_run r =
    valid_claim r
    && (in_order (some r.claimed_at) r.running_at
        && (in_order r.running_at r.completed_at
            && (valid_optional valid_code r.failure_category && lifecycle r.status r)))

abbrev pub is_claimed : WorkflowValidationRunStatus → Bool
is_claimed claimed = true
is_claimed _ = false

abbrev pub is_running : WorkflowValidationRunStatus → Bool
is_running running = true
is_running _ = false

-- Every status of a run keeps another run from being claimed.
abbrev pub is_blocking : WorkflowValidationRunStatus → Bool
is_blocking s = true

abbrev pub rank_of : WorkflowValidationRunStatus → ℕ
rank_of claimed = 0
rank_of running = 1
rank_of _ = 2

completed_terminal :
    (s : WorkflowValidationRunStatus) (a : WorkflowValidationRun) (c : ℕ)
    → a.completed_at ≡ some c
    → lifecycle s a ≡ true
    → rank_of s ≡ 2
unfolding lifecycle no_result
completed_terminal claimed a c e h = ground arith
completed_terminal running a c e h = ground arith
completed_terminal _ a c e h = refl

-- A valid row that is completed has a terminal status.
pub valid_validation_run_completed :
    (a : WorkflowValidationRun) (c : ℕ)
    → a.completed_at ≡ some c
    → valid_validation_run a ≡ true
    → rank_of a.status ≡ 2
unfolding valid_validation_run
valid_validation_run_completed a c e h =
    let living : lifecycle a.status a ≡ true = ground arith in
    completed_terminal a.status a c e living

-- The row as the INSERT of a claim writes it: the columns of a result are NULL.
abbrev pub without_result : WorkflowValidationRun → WorkflowValidationRun
without_result a = record a {
  running_at = none;
  completed_at = none;
  duration_ms = none;
  evidence_artifact_id = none;
  failure_category = none;
}

fresh_lifecycle :
    (s : WorkflowValidationRunStatus) (a : WorkflowValidationRun)
    → is_claimed s ≡ true
    → lifecycle s (without_result a) ≡ true
unfolding lifecycle no_result
fresh_lifecycle claimed a h = refl
fresh_lifecycle _ a h = cc

-- A valid claimed row is valid as it is inserted.
pub valid_validation_run_claimed :
    (a : WorkflowValidationRun)
    → is_claimed a.status ≡ true
    → valid_validation_run a ≡ true
    → valid_validation_run (without_result a) ≡ true
unfolding valid_validation_run valid_claim
valid_validation_run_claimed a q h = let living = fresh_lifecycle a.status a q in ground arith
