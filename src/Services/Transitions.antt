-- ===== src/Services/Transitions.antt =====
-- WorkflowPersistenceService.transition_status of schemabridge/services/workflows/persistence.py:
-- the policy on the workflow as it was read, then the transaction of the repository. `s` is the
-- store at the read and `now` the store at the transaction; other commands may run in between.
pub mod Policy
use schemabridge.Base.{
  ℕ, ◌≡◌, Bool, true, false, not, ◌&&◌, ◌||◌, Option, none, some, List, [], ◌∷◌, leb, ◌==◌, length,
  if◌then◌else◌,
}
use schemabridge.Base.Text.{Text, is_blank}
use schemabridge.Base.Outcome.{
  Outcome, ok, raise, ◌>>=◌, ◌>>◌, require, value_error, workflow_not_found,
  invalid_workflow_transition,
}
use schemabridge.Model.Status.{
  WorkflowStatus, staging, staged, staging_recovery_required, execution_ready, executing, executed,
  execution_recovery_required, validation_ready, validating, validated, validation_review_required,
  validation_recovery_required, failed, cancelled, member, same_status, allowed_transitions,
}
use schemabridge.Model.Workflow.{MigrationWorkflow, ActorType}
use schemabridge.Model.Event.{
  MigrationAuditEvent, EventType, status_changed, workflow_failed, workflow_cancelled, valid_event,
}
use schemabridge.Repository.Store.{Store, find_workflow, or_raise, load_workflow}
use schemabridge.Repository.Workflows.{transition_status}

-- The statuses that only the orchestrators may set.
unfoldable pub managed : List WorkflowStatus
managed =
    staging ∷ staged ∷ staging_recovery_required ∷ execution_ready ∷ executing ∷ executed
    ∷ execution_recovery_required ∷ validation_ready ∷ validating ∷ validated
    ∷ validation_review_required ∷ validation_recovery_required ∷ []

-- The statuses that only the orchestrators may leave.
unfoldable pub in_progress : List WorkflowStatus
in_progress = staging ∷ executing ∷ validating ∷ []

-- The two tests, which a stale expected version skips.
unfoldable pub check_policy : MigrationWorkflow → ℕ → WorkflowStatus → Outcome (Unit {0})
unfolding managed in_progress
check_policy current expected new =
    require
      (not (
        (current.version == expected) && (member new managed || member current.status in_progress)))
      invalid_workflow_transition
    >> require
        (not (
          (current.version == expected)
          && (not (same_status new current.status)
              && not (member new (allowed_transitions current.status)))))
        invalid_workflow_transition

unfoldable pub event_type_of : WorkflowStatus → EventType
event_type_of new =
    if same_status new failed
    then workflow_failed
    else if same_status new cancelled
    then workflow_cancelled
    else status_changed

-- The arguments of a request beside its version and status: the identifier of the event and the
-- instant come from `uuid4` and the clock.
pub record Request : Type 0 where
  pub idempotency_key : Text
  pub digest : Text
  pub reason_code : Option Text
  pub actor_type : ActorType
  pub actor_reference : Option Text
  pub request_id : Option Text
  pub event_id : ℕ
  pub at : ℕ

-- `_event`
unfoldable pub status_event : MigrationWorkflow → WorkflowStatus → Request → MigrationAuditEvent
unfolding event_type_of
status_event current new q = record {
  sequence_number = 1;
  event_id = q.event_id;
  workflow_id = current.workflow_id;
  event_type = event_type_of new;
  previous_status = some current.status;
  new_status = some new;
  workflow_version = current.version;
  artifact_id = none;
  artifact_type = none;
  actor_type = q.actor_type;
  actor_reference = q.actor_reference;
  request_id = q.request_id;
  idempotency_key = q.idempotency_key;
  occurred_at = q.at;
  reason_code = q.reason_code;
}

unfoldable pub error_of : WorkflowStatus → Option Text → Option Text
error_of new reason = if same_status new failed then reason else none

unfoldable pub change_status :
    ℕ → ℕ → WorkflowStatus → Request → Store → Store → Outcome (MigrationWorkflow × Store)
unfolding check_policy status_event error_of
change_status workflow_id expected new q s now = do
  require (not (is_blank q.idempotency_key) && leb (length q.idempotency_key) 128) value_error
  require (leb 1 expected) value_error
  row ← or_raise workflow_not_found (find_workflow workflow_id s)
  current ← load_workflow row
  check_policy current expected new
  require (valid_event (status_event current new q)) value_error
  transition_status workflow_id expected new (status_event current new q)
      (error_of new q.reason_code) q.idempotency_key q.digest now
