-- ===== src/Model/Attempt/Transport.antt =====
-- schemabridge/models/workflow_transport.py
use schemabridge.Base.{
  ◌≡◌, refl, arith, ℕ, Bool, true, false, ◌&&◌, Option, none, some, leb, ◌==◌, is_none, is_some,
}
use schemabridge.Base.Text.{Text, text_eq, valid_text, valid_code, valid_hash}
use schemabridge.Model.Workflow.{ActorType, valid_optional}
use schemabridge.Model.Job.{follows}
use schemabridge.Model.Progress.{same_bool}
use schemabridge.Transport.Batch.{TransportRelation}

pub data WorkflowTransportAttemptStatus : Type 0 where
  claimed running succeeded failed_cleaned_up outcome_uncertain : WorkflowTransportAttemptStatus

pub record WorkflowTransportAttempt : Type 0 where
  pub attempt_id : ℕ
  pub workflow_id : ℕ
  pub source_discovery_artifact_version : ℕ
  pub approved_mapping_artifact_version : ℕ
  pub source_profile_id : Text
  pub target_profile_id : Text
  pub staging_relation : TransportRelation
  pub batch_size : ℕ
  pub timeout_seconds : ℕ
  pub transport_fingerprint : Text
  pub status : WorkflowTransportAttemptStatus
  pub claimed_at : ℕ
  pub actor_type : ActorType
  pub idempotency_key : Text
  pub actor_reference : Option Text
  pub running_at : Option ℕ
  pub completed_at : Option ℕ
  pub evidence_artifact_id : Option ℕ
  pub failure_category : Option Text

-- The fields that are fixed by the claim.
unfoldable pub valid_claim : WorkflowTransportAttempt → Bool
valid_claim a =
    leb 1 a.source_discovery_artifact_version
    && (leb 1 a.approved_mapping_artifact_version
        && (valid_text 256 a.source_profile_id
            && (valid_text 256 a.target_profile_id
                && (leb 1 a.batch_size
                    && (leb 1 a.timeout_seconds
                        && (valid_hash a.transport_fingerprint
                            && (valid_text 128 a.idempotency_key
                                && valid_optional (valid_text 256) a.actor_reference)))))))

-- The fields that each status asks for.
lifecycle : WorkflowTransportAttemptStatus → WorkflowTransportAttempt → Bool
lifecycle claimed a =
    is_none a.running_at
    && (is_none a.completed_at && (is_none a.evidence_artifact_id && is_none a.failure_category))
lifecycle running a =
    is_some a.running_at
    && (is_none a.completed_at && (is_none a.evidence_artifact_id && is_none a.failure_category))
lifecycle succeeded a =
    is_some a.running_at
    && (is_some a.completed_at && (is_some a.evidence_artifact_id && is_none a.failure_category))
lifecycle _ a =
    is_some a.running_at
    && (is_some a.completed_at && (is_none a.evidence_artifact_id && is_some a.failure_category))

-- WorkflowTransportAttempt.__post_init__
unfoldable pub valid_transport_attempt : WorkflowTransportAttempt → Bool
unfolding lifecycle
valid_transport_attempt a =
    valid_claim a
    && (follows (some a.claimed_at) a.running_at
        && (follows a.running_at a.completed_at
            && (valid_optional valid_code a.failure_category && lifecycle a.status a)))

abbrev pub is_claimed : WorkflowTransportAttemptStatus → Bool
is_claimed claimed = true
is_claimed _ = false

abbrev pub is_running : WorkflowTransportAttemptStatus → Bool
is_running running = true
is_running _ = false

-- `status IN ('CLAIMED','RUNNING','SUCCEEDED','OUTCOME_UNCERTAIN')`
abbrev pub is_blocking : WorkflowTransportAttemptStatus → Bool
is_blocking failed_cleaned_up = false
is_blocking _ = true

abbrev pub rank_of : WorkflowTransportAttemptStatus → ℕ
rank_of claimed = 0
rank_of running = 1
rank_of _ = 2

pub record WorkflowTransportEvidence : Type 0 where
  pub attempt_id : ℕ
  pub workflow_id : ℕ
  pub source_relation : TransportRelation
  pub staging_relation : TransportRelation
  pub source_profile_id : Text
  pub target_profile_id : Text
  pub batch_size : ℕ
  pub batch_count : ℕ
  pub column_count : ℕ
  pub rows_read : ℕ
  pub rows_written : ℕ
  pub started_at : ℕ
  pub completed_at : ℕ
  pub duration_ms : ℕ
  pub source_discovery_artifact_version : ℕ
  pub approved_mapping_artifact_version : ℕ
  pub transport_fingerprint : Text

same_optional : Option Text → Option Text → Bool
same_optional none none = true
same_optional (some a) (some b) = text_eq a b
same_optional _ _ = false

-- `a == b` on two relations.
unfoldable pub same_relation : TransportRelation → TransportRelation → Bool
unfolding same_optional
same_relation a b =
    same_optional a.catalog_name b.catalog_name
    && (text_eq a.schema_name b.schema_name && text_eq a.object_name b.object_name)

-- WorkflowTransportEvidence.__post_init__
unfoldable pub valid_transport_evidence : WorkflowTransportEvidence → Bool
valid_transport_evidence e =
    valid_text 256 e.source_profile_id
    && (valid_text 256 e.target_profile_id
        && (leb 1 e.batch_size
            && (leb 1 e.column_count
                && ((e.rows_read == e.rows_written)
                    && (same_bool (e.batch_count == 0) (e.rows_read == 0)
                        && (leb e.started_at e.completed_at
                            && (leb 1 e.source_discovery_artifact_version
                                && (leb 1 e.approved_mapping_artifact_version
                                    && valid_hash e.transport_fingerprint))))))))

completed_terminal :
    (s : WorkflowTransportAttemptStatus) (a : WorkflowTransportAttempt) (c : ℕ)
    → a.completed_at ≡ some c
    → lifecycle s a ≡ true
    → rank_of s ≡ 2
unfolding lifecycle
completed_terminal claimed a c e h = ground arith
completed_terminal running a c e h = ground arith
completed_terminal _ a c e h = refl

-- A valid row that is completed has a terminal status.
pub valid_transport_attempt_completed :
    (a : WorkflowTransportAttempt) (c : ℕ)
    → a.completed_at ≡ some c
    → valid_transport_attempt a ≡ true
    → rank_of a.status ≡ 2
unfolding valid_transport_attempt
valid_transport_attempt_completed a c e h =
    let living : lifecycle a.status a ≡ true = ground arith in
    completed_terminal a.status a c e living

-- The row as the INSERT of a claim writes it: the columns of a result are NULL.
abbrev pub without_result : WorkflowTransportAttempt → WorkflowTransportAttempt
without_result a = record a {
  running_at = none;
  completed_at = none;
  evidence_artifact_id = none;
  failure_category = none;
}

fresh_lifecycle :
    (s : WorkflowTransportAttemptStatus) (a : WorkflowTransportAttempt)
    → is_claimed s ≡ true
    → lifecycle s (without_result a) ≡ true
unfolding lifecycle
fresh_lifecycle claimed a h = refl
fresh_lifecycle _ a h = cc

-- A valid claimed row is valid as it is inserted.
pub valid_transport_attempt_claimed :
    (a : WorkflowTransportAttempt)
    → is_claimed a.status ≡ true
    → valid_transport_attempt a ≡ true
    → valid_transport_attempt (without_result a) ≡ true
unfolding valid_transport_attempt valid_claim
valid_transport_attempt_claimed a q h = let living = fresh_lifecycle a.status a q in ground arith
