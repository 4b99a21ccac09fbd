-- ===== src/Tests/Commands.antt =====
-- A status command on the store of `World`, repeated after other commands.
use schemabridge.Base.{◌≡◌, ◌⊎◌, refl, false, none, some, List, [], ◌∷◌, arith}
use schemabridge.Base.Text.{Text, codes, text_eq, is_blank, valid_text, valid_hash}
use schemabridge.Base.Outcome.{ok, raise, idempotency_conflict}
use schemabridge.Base.Table.{find, update}
use schemabridge.Model.Status.{discovered, member, same_status, allowed_transitions}
use schemabridge.Model.Workflow.{
  MigrationWorkflow, user, valid_workflow, valid_identity, valid_relation, valid_codes,
  is_strictly_sorted,
}
use schemabridge.Model.Event.{MigrationAuditEvent, valid_event}
use schemabridge.Model.Job.{
  MigrationJob, valid_job, valid_inputs, valid_times, valid_progress_fields, valid_lifecycle,
  same_job_status, is_inner_stage,
}
use schemabridge.Repository.Store.{
  Store, find_workflow, find_job, recorded, find_idempotency, load_workflow, load_job, insert_event,
  insert_idempotency, numbered, result_row, status_scope,
}
use schemabridge.Repository.Jobs.{claim_next_migration_job, oldest_queued, claim_row}
use schemabridge.Repository.Jobs.Change.{Evolves}
use schemabridge.Repository.Workflows.{transition_status, with_status}
use schemabridge.Repository.Commands.{Command, claim_next, transition, run, execute}
use schemabridge.Repository.Commands.Consistent.{IsConsistent, run-IsConsistent}
use schemabridge.Repository.Commands.Life.{IsLater, run-Evolves, run-IsLater}
use schemabridge.Repository.Commands.Replay.{transition_status-run, transition_status_conflict-run}
use schemabridge.Services.Transitions.{Request, change_status, status_event}
use schemabridge.Services.Transitions.Policy.{IsPermitted, change_status-policy}
use schemabridge.Tests.World.{platform, millis, digest, sample, job, world, world-IsConsistent}

abbrev request : Request
request = record {
  idempotency_key = codes "discover-1";
  digest = digest;
  reason_code = none;
  actor_type = user;
  actor_reference = none;
  request_id = none;
  event_id = 101;
  at = 30;
}

abbrev event : MigrationAuditEvent
unfolding status_event
event = status_event sample discovered request

abbrev key : Text
key = codes "discover-1"

-- The claim of the next job, and the change to DISCOVERED.
abbrev commands : List Command
commands = claim_next (λ i. false) 25 ∷ transition 1 1 discovered event none key digest ∷ []

run-IsConsistent_example : IsConsistent (run platform millis commands world)
run-IsConsistent_example =
    run-IsConsistent platform millis commands world (tt, (tt, tt)) world-IsConsistent

run-Evolves_example :
    (j : MigrationJob) × (find_job 7 (run platform millis commands world) ≡ some j) × Evolves job j
unfolding find
run-Evolves_example =
    run-Evolves platform millis commands world 7 job (tt, (tt, tt)) world-IsConsistent refl

run-IsLater_example :
    (v : MigrationWorkflow) × (find_workflow 1 (run platform millis commands world) ≡ some v)
    × IsLater sample v
unfolding find
run-IsLater_example =
    run-IsLater platform millis commands world 1 sample (tt, (tt, tt)) world-IsConsistent refl

abbrev moved : MigrationWorkflow
moved = with_status discovered 2 30 none sample

abbrev after : Store
after = record world {
  workflows = moved ∷ [];
  events = numbered event 2 world.events ∷ world.events;
  idempotency = result_row (status_scope 1) key digest 1 1 ∷ [];
}

changed : transition_status 1 1 discovered event none key digest world ≡ ok (moved, after)
unfolding transition_status event recorded find_idempotency find load_workflow valid_workflow
    valid_identity valid_text valid_relation valid_codes is_strictly_sorted same_status update
    insert_event insert_idempotency
changed = refl

transition_status-run_example :
    (u : MigrationWorkflow) × (find_workflow 1 (run platform millis commands after) ≡ some u)
    × (transition_status 1 1 discovered event none key digest (run platform millis commands after)
        ≡ ok (u, run platform millis commands after))
transition_status-run_example =
    transition_status-run platform millis commands 1 1 discovered event none key digest world after
      moved (tt, (tt, tt)) world-IsConsistent changed

transition_status_conflict-run_example :
    transition_status 1 1 discovered event none key
      (codes "other")
      (run platform millis commands after)
    ≡ raise idempotency_conflict
unfolding text_eq
transition_status_conflict-run_example =
    transition_status_conflict-run platform millis commands 1 1 discovered event none key digest
      (codes "other") world after moved (tt, (tt, tt)) world-IsConsistent changed refl

-- A request that is read before a job is claimed and committed after it.
abbrev claims : List Command
claims = claim_next (λ i. false) 25 ∷ []

abbrev claimed : Store
claimed = run platform millis claims world

requested :
    change_status 1 1 discovered request world claimed
    ≡ ok (
      moved,
      record claimed {
        workflows = after.workflows;
        events = after.events;
        idempotency = after.idempotency;
      },
    )
unfolding change_status is_blank find load_workflow valid_workflow valid_identity valid_text
    valid_relation valid_codes is_strictly_sorted member allowed_transitions valid_event
    transition_status recorded find_idempotency run execute claim_next_migration_job oldest_queued
    load_job valid_job valid_inputs valid_hash valid_times valid_progress_fields valid_lifecycle
    same_status update insert_event insert_idempotency event claim_row same_job_status
    is_inner_stage
requested = refl

change_status-policy_example :
    (record claimed {
      workflows = after.workflows;
      events = after.events;
      idempotency = after.idempotency;
    }
      ≡ claimed)
    ⊎ ((find_workflow 1 claimed ≡ some sample) × IsPermitted sample discovered)
unfolding find
change_status-policy_example =
    change_status-policy platform millis claims 1 1 discovered request world
      (record claimed {
        workflows = after.workflows;
        events = after.events;
        idempotency = after.idempotency;
      })
      sample moved (tt, tt) world-IsConsistent refl (omega arith) requested
