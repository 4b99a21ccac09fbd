-- ===== src/Services/Jobs/Ends/Failures.antt =====
-- The ways in which a step ends with a job that is not SUCCEEDED.
use schemabridge.Base.{ℕ, ◌≡◌, ◌≢◌, sym, ◌∙◌, some}
use schemabridge.Base.Text.{Text}
use schemabridge.Model.Job.{
  MigrationJob, JobStage, JobStatus, running, succeeded, failed, recovery_required,
}
use schemabridge.Services.Jobs.Program.{◌>>=◌, return}
use schemabridge.Services.Jobs.Steps.{advance, fail, require_recovery}
use schemabridge.Services.Jobs.Ends.{Ends, Ends-wrap, finish-Ends, advance-Ends}

-- A status that is not SUCCEEDED.
unfoldable pub Unsuccessful : JobStatus → Type 0
Unsuccessful x = x ≢ succeeded

pub failed-Unsuccessful : (x : JobStatus) → x ≡ failed → Unsuccessful x
unfolding Unsuccessful
failed-Unsuccessful x e q = cc (sym e ∙ q)

pub recovery-Unsuccessful : (x : JobStatus) → x ≡ recovery_required → Unsuccessful x
unfolding Unsuccessful
recovery-Unsuccessful x e q = cc (sym e ∙ q)

pub running-Unsuccessful : (x : JobStatus) → x ≡ running → Unsuccessful x
unfolding Unsuccessful
running-Unsuccessful x e q = cc (sym e ∙ q)

module _ (millis : ℕ → ℕ) (now : ℕ) {R : Type 0} (job_of : R → MigrationJob) (Q : R → Type 0) where
  -- A failure that ends a step with the failed job.
  pub fail-Ends :
      (id : ℕ) (stage : JobStage) (category : Text) (wrap : MigrationJob → R)
      → ((j : MigrationJob) → job_of (wrap j) ≡ j)
      → ((j : MigrationJob) → Unsuccessful j.status → Q (wrap j))
      → Ends id job_of Q (fail millis now id stage category >>= (λ j. return (wrap j)))
  unfolding fail
  fail-Ends id stage category wrap same post =
      Ends-wrap id job_of Q (fail millis now id stage category) wrap (λ j. j.status ≡ failed)
        (finish-Ends millis id stage failed now (some category)) same
        (λ j e. post j (failed-Unsuccessful j.status e))

  pub recovery-Ends :
      (id : ℕ) (stage : JobStage) (category : Text) (wrap : MigrationJob → R)
      → ((j : MigrationJob) → job_of (wrap j) ≡ j)
      → ((j : MigrationJob) → Unsuccessful j.status → Q (wrap j))
      → Ends id job_of Q (require_recovery millis now id stage category >>= (λ j. return (wrap j)))
  unfolding require_recovery
  recovery-Ends id stage category wrap same post =
      Ends-wrap id job_of Q (require_recovery millis now id stage category) wrap
        (λ j. j.status ≡ recovery_required)
        (finish-Ends millis id stage recovery_required now (some category)) same
        (λ j e. post j (recovery-Unsuccessful j.status e))

  pub advanced-Ends :
      (id : ℕ) (stage new : JobStage) (wrap : MigrationJob → R)
      → ((j : MigrationJob) → job_of (wrap j) ≡ j)
      → ((j : MigrationJob) → Unsuccessful j.status → Q (wrap j))
      → Ends id job_of Q (advance id stage new >>= (λ j. return (wrap j)))
  advanced-Ends id stage new wrap same post =
      Ends-wrap id job_of Q (advance id stage new) wrap (λ j. j.status ≡ running)
        (advance-Ends id stage new) same (λ j e. post j (running-Unsuccessful j.status e))
