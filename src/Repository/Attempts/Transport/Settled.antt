-- ===== src/Repository/Attempts/Transport/Settled.antt =====
-- complete_transport_attempt: what the workflow, the attempt and the evidence are afterwards.
use schemabridge.Base.{
  ℕ, suc, ◌≡◌, refl, sym, ◌∙◌, ap, subst, true, ◌&&◌, Option, none, some, List, ◌∷◌, ◌==◌, ==_iff,
  ==_refl, and_left, arith, Bool-cases, inl, inr,
}
use schemabridge.Base.Text.{Text}
use schemabridge.Base.Outcome.{
  ok, >>=-eq-ok, require, require-eq-ok, workflow_not_found, workflow_conflict, persistence_error,
  ok-injective,
}
use schemabridge.Base.Table.{find, update, update_inv, find-modify, find-insert}
use schemabridge.Model.Status.{
  WorkflowStatus, same_status, staging, staged, mapping_approved, staging_recovery_required,
}
use schemabridge.Model.Workflow.{
  MigrationWorkflow, WorkflowArtifact, same_artifact_type, staging_load_evidence,
}
use schemabridge.Model.Event.{MigrationAuditEvent, holds_status}
use schemabridge.Model.Attempt.Transport.{
  WorkflowTransportAttempt, WorkflowTransportAttemptStatus, WorkflowTransportEvidence, is_running,
  succeeded, failed_cleaned_up, outcome_uncertain,
}
use schemabridge.Model.Attempt.Kinds.{transport_kind}
use schemabridge.Repository.Store.{
  Store, workflow_key, artifact_key, find_workflow, or_raise, or_raise-eq-ok, load_workflow,
  load_workflow-eq-ok,
}
use schemabridge.Repository.Workflows.{insert_artifact}
use schemabridge.Repository.Workflows.Effects.{insert_artifact_inv}
use schemabridge.Repository.Attempts.{load_row, write_workflow}
use schemabridge.Repository.Attempts.Rows.{load_row-eq-ok}
use schemabridge.Repository.Attempts.Writes.{write_workflow_tables}
use schemabridge.Repository.Attempts.Transport.{
  with_transports, Proof, bundle, terminal_of, artifact_matches, evidence_matches, store_evidence,
  evidence_id, latest_version, event_of, finish_attempt, with_outcome, write_outcome, settle,
  complete_transport_attempt,
}

-- The three ways to complete a load into workflow `w`: the new status of the workflow with the row
-- of the attempt.
pub data Settled (w : ℕ) (arts : List WorkflowArtifact)
    : WorkflowStatus → WorkflowTransportAttempt → Type 0 where
  loaded :
      {a : WorkflowTransportAttempt} (art : WorkflowArtifact)
      → find artifact_key art.artifact_id arts ≡ some art
      → art.workflow_id ≡ w
      → same_artifact_type art.artifact_type staging_load_evidence ≡ true
      → a.status ≡ succeeded
      → a.evidence_artifact_id ≡ some art.artifact_id
      → a.failure_category ≡ none
      → Settled w arts staged a
  removed :
      {a : WorkflowTransportAttempt} (category : Text)
      → a.status ≡ failed_cleaned_up
      → a.evidence_artifact_id ≡ none
      → a.failure_category ≡ some category
      → Settled w arts mapping_approved a
  unknown :
      {a : WorkflowTransportAttempt} (category : Text)
      → a.status ≡ outcome_uncertain
      → a.evidence_artifact_id ≡ none
      → a.failure_category ≡ some category
      → Settled w arts staging_recovery_required a

-- The artifact of the evidence can be found.
IsKept : Option Proof → List WorkflowArtifact → Type 0
IsKept none arts = Unit
IsKept (some proof) arts = find artifact_key proof.1.artifact_id arts ≡ some proof.1

store_evidence-IsKept :
    (w id : ℕ) (old : MigrationWorkflow) (a : WorkflowTransportAttempt) (proof : Option Proof)
    (rows : List WorkflowArtifact) {stored : List WorkflowArtifact}
    → store_evidence w id old a proof rows ≡ ok stored
    → IsKept proof stored
unfolding store_evidence IsKept
store_evidence-IsKept w id old a none rows h = tt
store_evidence-IsKept w id old a (some (evidence, artifact, event)) rows {stored} h =
    let (_, _, h₁) = >>=-eq-ok (require (evidence_matches w id a evidence) persistence_error) _ h in
    let (_, _, h₂) =
      >>=-eq-ok
        (require (artifact.artifact_version == suc old.latest_artifact_version) workflow_conflict) _
        h₁ in
    let (bs, i, h₃) = >>=-eq-ok (or_raise persistence_error (insert_artifact artifact rows)) _ h₂ in
    let (_, _, h₄) =
      >>=-eq-ok (require ((a.workflow_id == w) && (event.workflow_id == w)) persistence_error) _
        h₃ in
    let e : stored ≡ artifact ∷ rows =
      sym (ok-injective h₄)
      ∙ insert_artifact_inv artifact rows bs (or_raise-eq-ok persistence_error _ i) in
    rw (e, find-insert, ==_refl (artifact_key artifact)) refl

terminal_Settled :
    (w : ℕ) (arts : List WorkflowArtifact) (new : WorkflowStatus) (proof : Option Proof)
    (failure : Option Text) (at : ℕ) (a : WorkflowTransportAttempt)
    {s : WorkflowTransportAttemptStatus}
    → terminal_of new proof failure ≡ ok s
    → artifact_matches w proof ≡ true
    → IsKept proof arts
    → Settled w arts new (finish_attempt s at (evidence_id proof) failure a)
unfolding terminal_of IsKept
terminal_Settled w arts staged (some (evidence, art, event)) none at a h m k =
    elim (Bool-cases (same_artifact_type art.artifact_type staging_load_evidence)) [
      | inl q ↦
          loaded art k ((==_iff art.workflow_id w).0 (and_left (art.workflow_id == w) _ m)) q
            (sym (ok-injective (rw q at h))) refl refl
      | inr q ↦ absurd (ground arith)
    ]
terminal_Settled w arts mapping_approved none (some c) at a h m k =
    removed c (sym (ok-injective h)) refl refl
terminal_Settled w arts staging_recovery_required none (some c) at a h m k =
    unknown c (sym (ok-injective h)) refl refl
terminal_Settled w arts _ _ _ at a h m k = cc

write_outcome_values :
    (w expected id : ℕ) (a : WorkflowTransportAttempt) (proof : Option Proof)
    (terminal : WorkflowTransportAttemptStatus) (new : WorkflowStatus) (e : MigrationAuditEvent)
    (at : ℕ) (failure : Option Text) (s : Store) {old : MigrationWorkflow}
    → find_workflow w s ≡ some old
    → find transport_kind.key id s.attempts.transports ≡ some a
    → {v : MigrationWorkflow} {b : WorkflowTransportAttempt} {art : Option WorkflowArtifact}
      {t : Store}
    → write_outcome w expected id old a proof terminal new e at failure s ≡ ok ((v, b, art), t)
    → (v.status ≡ new)
      × (find_workflow w t ≡ some v)
      × (find transport_kind.key id t.attempts.transports ≡ some b)
      × (b ≡ finish_attempt terminal at (evidence_id proof) failure a)
      × IsKept proof t.artifacts
unfolding write_outcome
write_outcome_values w expected id a proof terminal new e at failure s {old} found stands {v} {b}
      {art} {t} h =
    let (stored, k, h₁) = >>=-eq-ok (store_evidence w id old a proof s.artifacts) _ h in
    let kept = store_evidence-IsKept w id old a proof s.artifacts k in
    let finish = finish_attempt terminal at (evidence_id proof) failure in
    let (rows, u, h₂) =
      >>=-eq-ok
        (or_raise workflow_conflict
          (update transport_kind.key id (λ r. is_running r.status) finish s.attempts.transports))
        _ h₁ in
    let (_, _, _, z) =
      update_inv transport_kind.key id (λ r. is_running r.status) finish s.attempts.transports rows
        (or_raise-eq-ok workflow_conflict _ u) in
    let change = with_outcome new (suc old.version) at (latest_version old proof) in
    let s₁ : Store = record (with_transports s rows) { artifacts = stored } in
    let (logged, m, h₃) =
      >>=-eq-ok (write_workflow w expected change (event_of proof) e (suc old.version) s₁) _ h₂ in
    let (ws, as_rows, tries) =
      write_workflow_tables w expected change (event_of proof) e (suc old.version) s₁ m in
    let (updated, l, h₄) = >>=-eq-ok (load_row transport_kind (finish a)) _ h₃ in
    let (res, l', h₅) = >>=-eq-ok (load_workflow (change old)) _ h₄ in
    let out : logged ≡ t = ap (λ p. p.1) (ok-injective h₅) in
    let is_b : finish a ≡ b =
      (load_row-eq-ok transport_kind (finish a) updated l).1 ∙ ap (λ p. p.0.1) (ok-injective h₅) in
    let is_v : change old ≡ v =
      (load_workflow-eq-ok (change old) res l').1 ∙ ap (λ p. p.0.0) (ok-injective h₅) in
    let there : find_workflow w logged ≡ some (change old) =
      rw (ws, find-modify workflow_key change (λ x. refl) w s.workflows, found) refl in
    let held : find transport_kind.key id logged.attempts.transports ≡ some (finish a) =
      rw
        (
          tries,
          z,
          find-modify transport_kind.key finish (λ x. refl) id s.attempts.transports,
          stands,
        )
        refl in
    (
      sym (ap (λ (x : MigrationWorkflow). x.status) is_v),
      subst (λ x. find_workflow w x ≡ some v) out (there ∙ ap some is_v),
      subst (λ (x : Store). find transport_kind.key id x.attempts.transports ≡ some b) out
          (held ∙ ap some is_b),
      sym is_b,
      subst (λ (x : Store). IsKept proof x.artifacts) out (subst (IsKept proof) (sym as_rows) kept),
    )

-- complete_transport_attempt leaves the workflow with the new status and the attempt with the status
-- that goes with it: STAGED with SUCCEEDED and an evidence artifact of the workflow that is stored,
-- MAPPING_APPROVED with FAILED_CLEANED_UP, or STAGING_RECOVERY_REQUIRED with OUTCOME_UNCERTAIN, the
-- last two with a failure category and no evidence. Any other new status is refused.
pub complete_transport_attempt-Settled :
    (w expected id : ℕ) (evidence : Option WorkflowTransportEvidence)
    (artifact : Option WorkflowArtifact) (artifact_event : Option MigrationAuditEvent)
    (new : WorkflowStatus) (e : MigrationAuditEvent) (at : ℕ) (failure : Option Text) (s t : Store)
    (v : MigrationWorkflow) (b : WorkflowTransportAttempt) (art : Option WorkflowArtifact)
    → complete_transport_attempt w expected id evidence artifact artifact_event new e at failure s
      ≡ ok ((v, b, art), t)
    → (v.status ≡ new)
      × (find_workflow w t ≡ some v)
      × (find transport_kind.key id t.attempts.transports ≡ some b)
      × Settled w t.artifacts new b
unfolding complete_transport_attempt settle
complete_transport_attempt-Settled w expected id evidence artifact artifact_event new e at failure s
      t v b art h =
    let (proof, _, h₁) = >>=-eq-ok (bundle evidence artifact artifact_event) _ h in
    let (terminal, ends, h₂) = >>=-eq-ok (terminal_of new proof failure) _ h₁ in
    let (_, _, h₃) =
      >>=-eq-ok
        (require
          ((e.workflow_id == w)
            && (holds_status staging e.previous_status && holds_status new e.new_status))
          persistence_error)
        _ h₂ in
    let (_, m, h₄) = >>=-eq-ok (require (artifact_matches w proof) persistence_error) _ h₃ in
    let (row, found, h₅) = >>=-eq-ok (or_raise workflow_not_found (find_workflow w s)) _ h₄ in
    let (old, l, h₆) = >>=-eq-ok (load_workflow row) _ h₅ in
    let (_, _, h₇) =
      >>=-eq-ok
        (require ((old.version == expected) && same_status old.status staging) workflow_conflict) _
        h₆ in
    let (held, g, h₈) =
      >>=-eq-ok (or_raise workflow_not_found (find transport_kind.key id s.attempts.transports)) _
        h₇ in
    let (a, l', h₉) = >>=-eq-ok (load_row transport_kind held) _ h₈ in
    let (_, _, h₁₀) = >>=-eq-ok (require (is_running a.status) workflow_conflict) _ h₉ in
    let (is_new, there, stands, is_b, kept) =
      write_outcome_values w expected id a proof terminal new e at failure s
        (or_raise-eq-ok workflow_not_found _ found ∙ ap some (load_workflow-eq-ok row old l).1)
        (or_raise-eq-ok workflow_not_found _ g
          ∙ ap some (load_row-eq-ok transport_kind held a l').1)
        h₁₀ in
    (
      is_new,
      there,
      stands,
      subst (Settled w t.artifacts new) (sym is_b) (
          terminal_Settled w t.artifacts new proof failure at a ends
            (require-eq-ok _ persistence_error m) kept),
    )
