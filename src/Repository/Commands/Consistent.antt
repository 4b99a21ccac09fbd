-- ===== src/Repository/Commands/Consistent.antt =====
-- What holds of the store between two commands.
mod Logs
use schemabridge.Base.{
  ℕ, suc, zero, ◌≤◌, ◌≡◌, refl, ap, sym, ◌∙◌, subst, ◌⊎◌, inl, inr, Bool, true, Bool-cases, Option,
  none, some, List, [], ◌∷◌, ◌==◌, if◌then◌else◌, All, ==_iff, arith,
}
use schemabridge.Base.Outcome.{Outcome, ok, raise}
use schemabridge.Base.Table.{
  find, modify, Distinct, All-modify, Distinct-modify, find-modify, find-modify_ne, find-insert,
  find-key,
}
use schemabridge.Model.Workflow.{MigrationWorkflow, WorkflowArtifact, valid_workflow}
use schemabridge.Model.Event.{MigrationAuditEvent}
use schemabridge.Repository.Store.{
  Store, Attempts, workflow_key, job_key, find_workflow, last_sequence, numbered, IdempotencyRow,
}
use schemabridge.Repository.Jobs.Change.{
  AllValid, OneActive, AllValid-change, OneActive-change, Distinct-change,
}
use schemabridge.Repository.Workflows.{Platform}
use schemabridge.Repository.Workflows.Write.{Logged, first, another, Stored, kept, appended, Write}
use schemabridge.Repository.Workflows.Results.{Created}
use schemabridge.Model.Attempt.Kinds.{transport_kind, execution_kind, validation_kind}
use schemabridge.Repository.Attempts.Rows.{Sound, Sound-change}
use schemabridge.Repository.Attempts.Writes.{AttemptsChange}
use schemabridge.Repository.Commands.{Command, IsWellFormed, execute, or_keep, run}
use schemabridge.Repository.Commands.Change.{Change, on_jobs, created, written, execute-Change}
use Logs.{countdown, versions_of, sequences_of, newest_version, Logged-sequences, Logged-newest}
unfoldable pub use Logs.{countdown, versions_of, sequences_of, newest_version}

-- The columns of a workflow, with zero for one that is not there.
abbrev pub latest_of : Option MigrationWorkflow → ℕ
latest_of none = 0
latest_of (some w) = w.latest_artifact_version

abbrev pub version_of : Option MigrationWorkflow → ℕ
version_of none = 0
version_of (some w) = w.version

pub record SoundAttempts (a : Attempts) : Type 0 where
  pub transports : Sound transport_kind a.transports
  pub executions : Sound execution_kind a.executions
  pub validations : Sound validation_kind a.validations

SoundAttempts-change : {a b : Attempts} → AttemptsChange a b → SoundAttempts a → SoundAttempts b
SoundAttempts-change c h = record {
  transports = Sound-change transport_kind c.transports h.transports;
  executions = Sound-change execution_kind c.executions h.executions;
  validations = Sound-change validation_kind c.validations h.validations;
}

-- Of each workflow: the artifacts are numbered from one to its latest version, the audit events
-- are numbered from one, and the newest event is at the version of the row. The rows of workflows,
-- of jobs and of the three kinds of attempts pass the validation of their models and have unique
-- keys. No workflow has two active jobs, two staging loads, two executions or two validation runs
-- that block another. Of artifacts and events only the numbers are covered.
pub record IsConsistent (s : Store) : Type 0 where
  pub valid_workflows : All (λ w. valid_workflow w ≡ true) s.workflows
  pub distinct_workflows : Distinct workflow_key s.workflows
  pub artifact_versions :
      (w : ℕ) → versions_of w s.artifacts ≡ countdown (latest_of (find_workflow w s))
  pub event_numbers : (w : ℕ) → sequences_of w s.events ≡ countdown (last_sequence w s.events)
  pub audited : (w : ℕ) → newest_version w s.events ≡ version_of (find_workflow w s)
  pub valid_jobs : AllValid s.jobs
  pub distinct_jobs : Distinct job_key s.jobs
  pub one_active : OneActive s.jobs
  pub attempts : SoundAttempts s.attempts

versions-Stored :
    (w u before after : ℕ) (o : Option MigrationWorkflow) (l m : List WorkflowArtifact)
    → Stored w before after l m
    → ((w == u) ≡ true → latest_of o ≡ before)
    → versions_of u l ≡ countdown (latest_of o)
    → versions_of u m ≡ countdown (if w == u then after else latest_of o)
unfolding versions_of
versions-Stored w u before after o l m (kept e same) known h = rw e (ground (arith, known))
versions-Stored w u before after o l m (appended a own next same e) known h =
    elim (Bool-cases (w == u)) [
      | inl q ↦
          let k : latest_of o ≡ before = known q in
          let n : after ≡ suc before = same ∙ next in
          rw (e, own, q, next, n, ← k) (ap (◌∷◌ (suc (latest_of o))) h)
      | inr q ↦ rw (e, own, q) h
    ]

module _ {w : ℕ} {s t : Store} where
  -- The rows after a write: only that of `w` differs.
  pub find-Write :
      {out : List IdempotencyRow} {tried : Attempts} (x : Write w out tried s t) (u : ℕ)
      → find_workflow u t ≡ (if w == u then some (x.change x.old) else find_workflow u s)
  find-Write x u = elim (Bool-cases (w == u)) [
    | inl q ↦ rw (
      q,
      x.workflows,
      ← (==_iff w u).0 q,
      find-modify workflow_key x.change x.same_id w s.workflows,
      x.found,
    )
    | inr q ↦ rw (
      q,
      x.workflows,
      find-modify_ne workflow_key x.change x.same_id w u s.workflows (λ e. cc ((==_iff w u).1 e)),
    )
  ]

  Write-IsConsistent :
      {out : List IdempotencyRow} {tried : Attempts}
      → Write w out tried s t
      → AttemptsChange s.attempts t.attempts
      → IsConsistent s
      → IsConsistent t
  Write-IsConsistent x a c = record {
    valid_workflows = rw x.workflows (
        All-modify workflow_key (λ v. valid_workflow v ≡ true) w x.change s.workflows
          c.valid_workflows
          (λ r q _.
            let e : x.old ≡ r = ground arith in
            subst (λ y. valid_workflow (x.change y) ≡ true) e x.new_valid));
    distinct_workflows =
        rw x.workflows
          (Distinct-modify workflow_key x.change x.same_id w s.workflows c.distinct_workflows);
    artifact_versions = λ u. rw (find-Write x u) (
        ground (
          arith,
          x.found,
          c.artifact_versions u,
          ==_iff w u,
          versions-Stored w u x.old.latest_artifact_version (x.change x.old).latest_artifact_version
              (find_workflow u s) s.artifacts t.artifacts x.artifacts
              (λ q.
                ap latest_of
                  (subst (λ v. find_workflow v s ≡ some x.old) ((==_iff w u).0 q) x.found))
              (c.artifact_versions u),
        ));
    event_numbers = λ u. Logged-sequences w _ u s.events t.events x.events (c.event_numbers u);
    audited = λ u.
        rw (find-Write x u, Logged-newest w _ u s.events t.events x.events)
          (ground (arith, c.audited u, x.next_version));
    valid_jobs = rw x.jobs c.valid_jobs;
    distinct_jobs = rw x.jobs c.distinct_jobs;
    one_active = rw x.jobs c.one_active;
    attempts = SoundAttempts-change a c.attempts;
  }

Created-IsConsistent :
    (v : MigrationWorkflow) {s t : Store} {row : IdempotencyRow}
    → valid_workflow v ≡ true
    → v.version ≡ 1
    → v.latest_artifact_version ≡ 0
    → Created v row s t
    → IsConsistent s
    → IsConsistent t
Created-IsConsistent v {s} {t} valid one zero_artifacts x c = record {
  valid_workflows = rw x.workflows (valid, c.valid_workflows);
  distinct_workflows = rw x.workflows (x.fresh, c.distinct_workflows);
  artifact_versions = λ u. elim (Bool-cases (v.workflow_id == u)) [
    | inl q ↦
        let m : v.workflow_id ≡ u = (==_iff _ u).0 q in
        let absent : find_workflow u s ≡ none = subst (λ k. find_workflow k s ≡ none) m x.fresh in
        rw (x.artifacts, x.workflows, find-insert, q, zero_artifacts, c.artifact_versions u, absent)
    | inr q ↦ rw (x.artifacts, x.workflows, find-insert, q) (c.artifact_versions u)
  ];
  event_numbers = λ u.
      Logged-sequences v.workflow_id v.version u s.events t.events x.events (c.event_numbers u);
  audited = λ u.
      rw
        (
          Logged-newest v.workflow_id v.version u s.events t.events x.events,
          x.workflows,
          find-insert,
        )
        (ground (arith, c.audited u));
  valid_jobs = rw x.jobs c.valid_jobs;
  distinct_jobs = rw x.jobs c.distinct_jobs;
  one_active = rw x.jobs c.one_active;
  attempts = rw x.attempts c.attempts;
}

Change-IsConsistent : {s t : Store} → Change s t → IsConsistent s → IsConsistent t
Change-IsConsistent (on_jobs jobs ws arts es r a) c = record {
  valid_workflows = rw ws c.valid_workflows;
  distinct_workflows = rw ws c.distinct_workflows;
  artifact_versions = λ u. rw (arts, ws) (c.artifact_versions u);
  event_numbers = λ u. rw es (c.event_numbers u);
  audited = λ u. rw (es, ws) (c.audited u);
  valid_jobs = AllValid-change jobs c.valid_jobs;
  distinct_jobs = Distinct-change jobs c.distinct_jobs;
  one_active = OneActive-change jobs c.one_active;
  attempts = SoundAttempts-change a c.attempts;
}
Change-IsConsistent (created v row valid one zero_artifacts x r) c =
    Created-IsConsistent v valid one zero_artifacts x c
Change-IsConsistent (written w out tried x r a) c = Write-IsConsistent x a c

pub execute-IsConsistent :
    (p : Platform) (millis : ℕ → ℕ) (c : Command) (s : Store)
    → IsWellFormed c
    → IsConsistent s
    → IsConsistent (or_keep s (execute p millis c s))
execute-IsConsistent p millis c s wf h = go (execute p millis c s) refl
  where
    go : (o : Outcome Store) → execute p millis c s ≡ o → IsConsistent (or_keep s o)
    go (ok t) e = Change-IsConsistent (execute-Change p millis c s t wf h.distinct_jobs e) h
    go (raise x) e = h

-- From a consistent store, any interleaving of well-formed commands leads to a consistent store,
-- whether each command succeeds, repeats an earlier one, or raises.
pub run-IsConsistent :
    (p : Platform) (millis : ℕ → ℕ) (cs : List Command) (s : Store)
    → All IsWellFormed cs
    → IsConsistent s
    → IsConsistent (run p millis cs s)
unfolding run
run-IsConsistent p millis [] s wf h = h
run-IsConsistent p millis (c ∷ cs) s wf h =
    run-IsConsistent p millis cs (or_keep s (execute p millis c s)) wf.1
      (execute-IsConsistent p millis c s wf.0 h)
