-- ===== src/Model/Event.antt =====
-- schemabridge/models/workflow.py: audit events.
use schemabridge.Base.{ℕ, Bool, false, not, ◌&&◌, Option, none, some, leb, is_none, is_some}
use schemabridge.Base.Text.{Text, valid_text, valid_code}
use schemabridge.Model.Status.{WorkflowStatus, draft, failed, cancelled, same_status}
use schemabridge.Model.Workflow.{ArtifactType, ActorType, valid_optional}
use schemabridge.Model.Progress.{same_bool}

pub data EventType : Type 0 where
  workflow_created status_changed artifact_appended workflow_failed workflow_cancelled : EventType

pub record MigrationAuditEvent : Type 0 where
  pub sequence_number : ℕ
  pub event_id : ℕ
  pub workflow_id : ℕ
  pub event_type : EventType
  pub previous_status : Option WorkflowStatus
  pub new_status : Option WorkflowStatus
  pub workflow_version : ℕ
  pub artifact_id : Option ℕ
  pub artifact_type : Option ArtifactType
  pub actor_type : ActorType
  pub actor_reference : Option Text
  pub request_id : Option Text
  pub idempotency_key : Text
  pub occurred_at : ℕ
  pub reason_code : Option Text

-- `value is status`
abbrev pub holds_status : WorkflowStatus → Option WorkflowStatus → Bool
holds_status s none = false
holds_status s (some t) = same_status t s

-- `previous is new`, and new is not None
abbrev pub same_present : Option WorkflowStatus → Option WorkflowStatus → Bool
same_present none b = false
same_present (some a) none = false
same_present (some a) (some b) = same_status a b

has_artifact : MigrationAuditEvent → Bool
has_artifact e = is_some e.artifact_id && is_some e.artifact_type

changes_status : MigrationAuditEvent → Bool
unfolding has_artifact
changes_status e = not (has_artifact e) && (is_some e.previous_status && is_some e.new_status)

consistent : EventType → MigrationAuditEvent → Bool
unfolding has_artifact changes_status
consistent workflow_created e =
    is_none e.previous_status && (holds_status draft e.new_status && not (has_artifact e))
consistent artifact_appended e = has_artifact e && same_present e.previous_status e.new_status
consistent status_changed e =
    changes_status e
    && not (holds_status failed e.new_status)
    && not (holds_status cancelled e.new_status)
consistent workflow_failed e = changes_status e && holds_status failed e.new_status
consistent workflow_cancelled e = changes_status e && holds_status cancelled e.new_status

-- MigrationAuditEvent.__post_init__
unfoldable pub valid_event : MigrationAuditEvent → Bool
unfolding consistent
valid_event e =
    leb 1 e.sequence_number
    && (leb 1 e.workflow_version
        && (valid_optional (valid_text 256) e.actor_reference
            && (valid_optional (valid_text 64) e.request_id
                && (valid_text 128 e.idempotency_key
                    && (valid_optional valid_code e.reason_code
                        && (consistent e.event_type e
                            && same_bool (is_none e.artifact_id) (is_none e.artifact_type)))))))
