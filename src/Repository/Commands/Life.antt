-- ===== src/Repository/Commands/Life.antt =====
-- What may become of one job and of one workflow while commands run.
use schemabridge.Base.{
  ℕ, ◌<◌, ◌≡◌, refl, subst, ◌⊎◌, inl, inr, Bool-cases, none, some, List, [], ◌∷◌, ◌==◌, All, ==_iff,
  arith,
}
use schemabridge.Base.Outcome.{Outcome, ok, raise}
use schemabridge.Base.Table.{find-insert}
use schemabridge.Model.Workflow.{MigrationWorkflow}
use schemabridge.Model.Job.{MigrationJob}
use schemabridge.Repository.Store.{Store, find_workflow, find_job}
use schemabridge.Repository.Jobs.Change.{Evolves, Evolves-refl, Evolves-trans, find-change}
use schemabridge.Repository.Workflows.{Platform}
use schemabridge.Repository.Commands.{Command, IsWellFormed, execute, or_keep, run}
use schemabridge.Repository.Commands.Change.{Change, on_jobs, created, written, execute-Change}
use schemabridge.Repository.Commands.Consistent.{IsConsistent, execute-IsConsistent, find-Write}

-- A row is the same, or its version has grown.
abbrev pub IsLater : MigrationWorkflow → MigrationWorkflow → Type 0
IsLater u v = (v ≡ u) ⊎ (u.version < v.version)

IsLater-trans : {u v w : MigrationWorkflow} → IsLater u v → IsLater v w → IsLater u w
IsLater-trans {u} {v} {w} (inl a) k = subst (λ x. IsLater x w) a k
IsLater-trans {u} {v} {w} (inr a) (inl b) = inr (rw b a)
IsLater-trans (inr a) (inr b) = inr (omega arith)

find_job-Change :
    {s t : Store} (k : ℕ) (j : MigrationJob)
    → Change s t
    → find_job k s ≡ some j
    → (j' : MigrationJob) × (find_job k t ≡ some j') × Evolves j j'
find_job-Change k j (on_jobs jobs ws arts es r a) h = find-change k j jobs h
find_job-Change k j (created v row valid one z x r) h = (j, rw x.jobs h, Evolves-refl j)
find_job-Change k j (written w out tried x r a) h = (j, rw x.jobs h, Evolves-refl j)

find_workflow-Change :
    {s t : Store} (k : ℕ) (u : MigrationWorkflow)
    → Change s t
    → find_workflow k s ≡ some u
    → (v : MigrationWorkflow) × (find_workflow k t ≡ some v) × IsLater u v
find_workflow-Change k u (on_jobs jobs ws arts es r a) h = (u, rw ws h, inl refl)
find_workflow-Change {s} k u (created v row valid one z x r) h =
    elim (Bool-cases (v.workflow_id == k)) [
      | inl q ↦
          let absent : find_workflow k s ≡ none =
            subst (λ i. find_workflow i s ≡ none) ((==_iff v.workflow_id k).0 q) x.fresh in
          absurd (ground arith)
      | inr q ↦ (u, rw (x.workflows, find-insert, q) h, inl refl)
    ]
find_workflow-Change {s} k u (written w out tried x r a) h = elim (Bool-cases (w == k)) [
  | inl q ↦
      let here : find_workflow k s ≡ some x.old =
        subst (λ i. find_workflow i s ≡ some x.old) ((==_iff w k).0 q) x.found in
      let same : x.old ≡ u = ground arith in
      (
        x.change x.old,
        rw (find-Write x k, q),
        inr (
            subst (λ o. o.version < (x.change x.old).version) same
              (ground (arith, x.next_version))),
      )
  | inr q ↦ (u, rw (find-Write x k, q) h, inl refl)
]

module _ (p : Platform) (millis : ℕ → ℕ) where
  execute_job :
      (c : Command) (s : Store) (k : ℕ) (j : MigrationJob)
      → IsWellFormed c
      → IsConsistent s
      → find_job k s ≡ some j
      → (j' : MigrationJob) × (find_job k (or_keep s (execute p millis c s)) ≡ some j')
        × Evolves j j'
  execute_job c s k j wf h found = go (execute p millis c s) refl
    where
      go :
          (o : Outcome Store)
          → execute p millis c s ≡ o
          → (j' : MigrationJob) × (find_job k (or_keep s o) ≡ some j') × Evolves j j'
      go (ok t) e = find_job-Change k j (execute-Change p millis c s t wf h.distinct_jobs e) found
      go (raise x) e = (j, found, Evolves-refl j)

  execute_workflow :
      (c : Command) (s : Store) (k : ℕ) (u : MigrationWorkflow)
      → IsWellFormed c
      → IsConsistent s
      → find_workflow k s ≡ some u
      → (v : MigrationWorkflow) × (find_workflow k (or_keep s (execute p millis c s)) ≡ some v)
        × IsLater u v
  execute_workflow c s k u wf h found = go (execute p millis c s) refl
    where
      go :
          (o : Outcome Store)
          → execute p millis c s ≡ o
          → (v : MigrationWorkflow) × (find_workflow k (or_keep s o) ≡ some v) × IsLater u v
      go (ok t) e =
          find_workflow-Change k u (execute-Change p millis c s t wf h.distinct_jobs e) found
      go (raise x) e = (u, found, inl refl)

  -- A stored job stays stored whatever commands run. Once it has a terminal status it never
  -- changes; its stage and its rows written never go back, it is never queued again, and its
  -- workflow, version, mapping and fingerprint stay.
  pub run-Evolves :
      (cs : List Command) (s : Store) (k : ℕ) (j : MigrationJob)
      → All IsWellFormed cs
      → IsConsistent s
      → find_job k s ≡ some j
      → (j' : MigrationJob) × (find_job k (run p millis cs s) ≡ some j') × Evolves j j'
  unfolding run
  run-Evolves [] s k j wf h found = (j, found, Evolves-refl j)
  run-Evolves (c ∷ cs) s k j wf h found =
      let (j₁, found₁, e₁) = execute_job c s k j wf.0 h found in
      let (j₂, found₂, e₂) =
        run-Evolves cs (or_keep s (execute p millis c s)) k j₁ wf.1
          (execute-IsConsistent p millis c s wf.0 h) found₁ in
      (j₂, found₂, Evolves-trans e₁ e₂)

  -- A stored workflow stays stored, and its row is unchanged as long as its version is: every
  -- change of the row is a new, greater version.
  pub run-IsLater :
      (cs : List Command) (s : Store) (k : ℕ) (u : MigrationWorkflow)
      → All IsWellFormed cs
      → IsConsistent s
      → find_workflow k s ≡ some u
      → (v : MigrationWorkflow) × (find_workflow k (run p millis cs s) ≡ some v) × IsLater u v
  unfolding run
  run-IsLater [] s k u wf h found = (u, found, inl refl)
  run-IsLater (c ∷ cs) s k u wf h found =
      let (v₁, found₁, e₁) = execute_workflow c s k u wf.0 h found in
      let (v₂, found₂, e₂) =
        run-IsLater cs (or_keep s (execute p millis c s)) k v₁ wf.1
          (execute-IsConsistent p millis c s wf.0 h) found₁ in
      (v₂, found₂, IsLater-trans e₁ e₂)
