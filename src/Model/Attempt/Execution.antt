-- ===== src/Model/Attempt/Execution.antt =====
-- schemabridge/models/execution.py
use schemabridge.Base.{
  ◌≡◌, refl, arith, ℕ, Bool, true, false, ◌&&◌, Option, none, some, leb, ◌==◌, is_none, is_some,
}
use schemabridge.Base.Text.{Text, valid_text, valid_code, valid_hash}
use schemabridge.Model.Workflow.{ActorType, valid_optional}

pub data MigrationExecutionAttemptStatus : Type 0 where
  claimed running succeeded failed_rolled_back outcome_uncertain : MigrationExecutionAttemptStatus

pub data MigrationTransactionOutcome : Type 0 where
  committed rolled_back unknown : MigrationTransactionOutcome

pub record MigrationExecutionAttempt : Type 0 where
  pub attempt_id : ℕ
  pub workflow_id : ℕ
  pub approved_mapping_artifact_version : ℕ
  pub transformation_preview_artifact_version : ℕ
  pub target_profile_id : Text
  pub execution_fingerprint : Text
  pub status : MigrationExecutionAttemptStatus
  pub timeout_seconds : ℕ
  pub claimed_at : ℕ
  pub actor_type : ActorType
  pub idempotency_key : Text
  pub actor_reference : Option Text
  pub running_at : Option ℕ
  pub completed_at : Option ℕ
  pub evidence_artifact_id : Option ℕ
  pub failure_category : Option Text

-- The fields that are fixed by the claim.
unfoldable pub valid_claim : MigrationExecutionAttempt → Bool
valid_claim a =
    leb 1 a.approved_mapping_artifact_version
    && (leb 1 a.transformation_preview_artifact_version
        && (leb 1 a.timeout_seconds
            && (valid_text 256 a.target_profile_id
                && (valid_hash a.execution_fingerprint
                    && (valid_text 128 a.idempotency_key
                        && valid_optional (valid_text 256) a.actor_reference)))))

-- `later` does not precede `earlier`, where both are there.
abbrev pub in_order : Option ℕ → Option ℕ → Bool
in_order (some a) (some b) = leb a b
in_order _ _ = true

-- The fields that each status asks for.
lifecycle : MigrationExecutionAttemptStatus → MigrationExecutionAttempt → Bool
lifecycle claimed a =
    is_none a.running_at
    && (is_none a.completed_at && (is_none a.evidence_artifact_id && is_none a.failure_category))
lifecycle running a =
    is_some a.running_at
    && (is_none a.completed_at && (is_none a.evidence_artifact_id && is_none a.failure_category))
lifecycle _ a = is_some a.running_at && (is_some a.completed_at && is_some a.evidence_artifact_id)

-- MigrationExecutionAttempt.__post_init__
unfoldable pub valid_execution_attempt : MigrationExecutionAttempt → Bool
unfolding lifecycle
valid_execution_attempt a =
    valid_claim a
    && (in_order (some a.claimed_at) a.running_at
        && (in_order a.running_at a.completed_at
            && (valid_optional valid_code a.failure_category && lifecycle a.status a)))

abbrev pub is_claimed : MigrationExecutionAttemptStatus → Bool
is_claimed claimed = true
is_claimed _ = false

abbrev pub is_running : MigrationExecutionAttemptStatus → Bool
is_running running = true
is_running _ = false

-- `status IN ('CLAIMED','RUNNING','SUCCEEDED','OUTCOME_UNCERTAIN')`
abbrev pub is_blocking : MigrationExecutionAttemptStatus → Bool
is_blocking failed_rolled_back = false
is_blocking _ = true

abbrev pub rank_of : MigrationExecutionAttemptStatus → ℕ
rank_of claimed = 0
rank_of running = 1
rank_of _ = 2

pub record MigrationExecutionEvidence : Type 0 where
  pub attempt_id : ℕ
  pub workflow_id : ℕ
  pub status : MigrationExecutionAttemptStatus
  pub statement_count : ℕ
  pub affected_rows : Option ℕ
  pub target_relation : Option Text × Text × Text
  pub target_profile_id : Text
  pub connector_type : Text
  pub started_at : ℕ
  pub completed_at : ℕ
  pub duration_ms : ℕ
  pub transaction_outcome : MigrationTransactionOutcome
  pub approved_mapping_artifact_version : ℕ
  pub transformation_preview_artifact_version : ℕ
  pub execution_fingerprint : Text
  pub failure_category : Option Text

-- MigrationExecutionEvidence.__post_init__
unfoldable pub valid_execution_evidence : MigrationExecutionEvidence → Bool
valid_execution_evidence e =
    (rank_of e.status == 2)
    && ((e.statement_count == 1)
        && (valid_optional (valid_text 256) e.target_relation.0
            && (valid_text 256 e.target_relation.1
                && (valid_text 256 e.target_relation.2
                    && (valid_text 256 e.target_profile_id
                        && (valid_text 64 e.connector_type
                            && (leb e.started_at e.completed_at
                                && (leb 1 e.approved_mapping_artifact_version
                                    && (leb 1 e.transformation_preview_artifact_version
                                        && (valid_hash e.execution_fingerprint
                                            && valid_optional valid_code
                                                e.failure_category))))))))))

completed_terminal :
    (s : MigrationExecutionAttemptStatus) (a : MigrationExecutionAttempt) (c : ℕ)
    → a.completed_at ≡ some c
    → lifecycle s a ≡ true
    → rank_of s ≡ 2
unfolding lifecycle
completed_terminal claimed a c e h = ground arith
completed_terminal running a c e h = ground arith
completed_terminal _ a c e h = refl

-- A valid row that is completed has a terminal status.
pub valid_execution_attempt_completed :
    (a : MigrationExecutionAttempt) (c : ℕ)
    → a.completed_at ≡ some c
    → valid_execution_attempt a ≡ true
    → rank_of a.status ≡ 2
unfolding valid_execution_attempt
valid_execution_attempt_completed a c e h =
    let living : lifecycle a.status a ≡ true = ground arith in
    completed_terminal a.status a c e living

-- The row as the INSERT of a claim writes it: the columns of a result are NULL.
abbrev pub without_result : MigrationExecutionAttempt → MigrationExecutionAttempt
without_result a = record a {
  running_at = none;
  completed_at = none;
  evidence_artifact_id = none;
  failure_category = none;
}

fresh_lifecycle :
    (s : MigrationExecutionAttemptStatus) (a : MigrationExecutionAttempt)
    → is_claimed s ≡ true
    → lifecycle s (without_result a) ≡ true
unfolding lifecycle
fresh_lifecycle claimed a h = refl
fresh_lifecycle _ a h = cc

-- A valid claimed row is valid as it is inserted.
pub valid_execution_attempt_claimed :
    (a : MigrationExecutionAttempt)
    → is_claimed a.status ≡ true
    → valid_execution_attempt a ≡ true
    → valid_execution_attempt (without_result a) ≡ true
unfolding valid_execution_attempt valid_claim
valid_execution_attempt_claimed a q h = let living = fresh_lifecycle a.status a q in ground arith
