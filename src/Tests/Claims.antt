-- ===== src/Tests/Claims.antt =====
-- Two claims on a store with two queued jobs.
use schemabridge.Base.{◌≡◌, ◌≢◌, refl, false, true, some, [], ◌∷◌, arith}
use schemabridge.Base.Outcome.{ok}
use schemabridge.Base.Table.{find, update}
use schemabridge.Base.Text.{valid_text, valid_hash}
use schemabridge.Model.Job.{
  MigrationJob, valid_job, valid_inputs, valid_times, valid_progress_fields, valid_lifecycle,
  same_job_status, is_inner_stage, is_terminal,
}
use schemabridge.Repository.Store.{Store, load_job}
use schemabridge.Repository.Jobs.{
  is_active, start_row, claim_next_migration_job, oldest_queued, claim_row, is_before,
}
use schemabridge.Repository.Jobs.Change.{active_count}
use schemabridge.Repository.Jobs.Claims.{next}
use schemabridge.Repository.Commands.{run}
use schemabridge.Repository.Commands.Consistent.{IsConsistent}
use schemabridge.Repository.Commands.Claims.{Claims-once}
use schemabridge.Tests.World.{platform, millis, job, job_valid, world, world-IsConsistent}

abbrev second_job : MigrationJob
second_job = record job { job_id = 8; workflow_id = 2; queued_at = 21 }

abbrev busy : Store
busy = record world { jobs = job ∷ second_job ∷ [] }

second_job_valid : valid_job second_job ≡ true
unfolding valid_job valid_inputs valid_text valid_hash valid_times valid_progress_fields
    valid_lifecycle
second_job_valid = refl

busy-IsConsistent : IsConsistent busy
unfolding find active_count is_active is_terminal
busy-IsConsistent = record {
  valid_workflows = world-IsConsistent.valid_workflows;
  distinct_workflows = world-IsConsistent.distinct_workflows;
  artifact_versions = world-IsConsistent.artifact_versions;
  event_numbers = world-IsConsistent.event_numbers;
  audited = world-IsConsistent.audited;
  valid_jobs = (job_valid, (second_job_valid, tt));
  distinct_jobs = (refl, (refl, tt));
  one_active = λ w. ground arith;
  attempts = world-IsConsistent.attempts;
}

abbrev one_taken : Store
one_taken = record world { jobs = start_row 25 job ∷ second_job ∷ [] }

abbrev both_taken : Store
both_taken = record world { jobs = start_row 25 job ∷ start_row 26 second_job ∷ [] }

first_claim :
    claim_next_migration_job (λ i. false) 25 busy ≡ ok (some (start_row 25 job), one_taken)
unfolding claim_next_migration_job oldest_queued claim_row load_job valid_job valid_inputs
    valid_text valid_hash valid_times valid_progress_fields valid_lifecycle same_job_status
    is_inner_stage update is_before
first_claim = refl

second_claim :
    claim_next_migration_job (λ i. false) 26 one_taken
    ≡ ok (some (start_row 26 second_job), both_taken)
unfolding claim_next_migration_job oldest_queued claim_row load_job valid_job valid_inputs
    valid_text valid_hash valid_times valid_progress_fields valid_lifecycle same_job_status
    is_inner_stage update is_before
second_claim = refl

Claims-once_example : second_job.job_id ≢ job.job_id
unfolding run
Claims-once_example =
    Claims-once platform millis [] busy one_taken both_taken (start_row 25 job)
      (start_row 26 second_job) tt busy-IsConsistent (next (λ i. false) 25 first_claim)
      (next (λ i. false) 26 second_claim)
