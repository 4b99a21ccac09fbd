-- ===== src/Model/Attempt/Kinds.antt =====
-- The three tables of attempts as kinds.
use schemabridge.Model.Attempt.{Kind}
use schemabridge.Model.Attempt.Transport
use schemabridge.Model.Attempt.Transport.{WorkflowTransportAttempt, valid_transport_attempt}
use schemabridge.Model.Attempt.Execution
use schemabridge.Model.Attempt.Execution.{MigrationExecutionAttempt, valid_execution_attempt}
use schemabridge.Model.Attempt.Validation
use schemabridge.Model.Attempt.Validation.{WorkflowValidationRun, valid_validation_run}

abbrev pub transport_kind : Kind WorkflowTransportAttempt
transport_kind = record {
  key = λ a. a.attempt_id;
  owner = λ a. a.workflow_id;
  rank = λ a. Transport.rank_of a.status;
  fingerprint = λ a. a.transport_fingerprint;
  blocks = λ a. Transport.is_blocking a.status;
  valid = valid_transport_attempt;
}

abbrev pub execution_kind : Kind MigrationExecutionAttempt
execution_kind = record {
  key = λ a. a.attempt_id;
  owner = λ a. a.workflow_id;
  rank = λ a. Execution.rank_of a.status;
  fingerprint = λ a. a.execution_fingerprint;
  blocks = λ a. Execution.is_blocking a.status;
  valid = valid_execution_attempt;
}

abbrev pub validation_kind : Kind WorkflowValidationRun
validation_kind = record {
  key = λ r. r.run_id;
  owner = λ r. r.workflow_id;
  rank = λ r. Validation.rank_of r.status;
  fingerprint = λ r. r.validation_fingerprint;
  blocks = λ r. Validation.is_blocking r.status;
  valid = valid_validation_run;
}
