-- ===== src/Services/Transitions/Policy.antt =====
-- The policy holds for the row that is committed, whatever runs between the read and the commit.
use schemabridge.Base.{
  ℕ, ◌≤◌, ◌≡◌, sym, ap, ◌∙◌, ◌⊎◌, inl, inr, true, false, not, ◌&&◌, some, List, leb, length, All,
  arith, subst,
}
use schemabridge.Base.Text.{is_blank}
use schemabridge.Base.Outcome.{
  ok, >>=-eq-ok, require, value_error, workflow_not_found, some-injective,
}
use schemabridge.Model.Status.{WorkflowStatus, member, same_status, allowed_transitions}
use schemabridge.Model.Workflow.{MigrationWorkflow}
use schemabridge.Model.Event.{valid_event}
use schemabridge.Repository.Store.{
  Store, find_workflow, or_raise, or_raise-eq-ok, load_workflow, load_workflow-eq-ok,
}
use schemabridge.Repository.Workflows.{Platform}
use schemabridge.Repository.Workflows.Guards.{Moved, transition_status-Moved}
use schemabridge.Repository.Commands.{Command, IsWellFormed, run}
use schemabridge.Repository.Commands.Consistent.{IsConsistent}
use schemabridge.Repository.Commands.Life.{IsLater, run-IsLater}
use schemabridge.Services.Transitions.{
  managed, in_progress, check_policy, Request, status_event, error_of, change_status,
}

-- The change of `old` to `new` keeps the policy for callers.
pub record IsPermitted (old : MigrationWorkflow) (new : WorkflowStatus) : Type 0 where
  pub allowed : member new (allowed_transitions old.status) ≡ true
  pub unmanaged : member new managed ≡ false
  pub resting : member old.status in_progress ≡ false

check_policy-ok :
    (current : MigrationWorkflow) (expected : ℕ) (new : WorkflowStatus)
    → check_policy current expected new ≡ ok tt
    → current.version ≡ expected
    → same_status new current.status ≡ false
    → IsPermitted current new
unfolding check_policy
check_policy-ok current expected new h v other = record {
  allowed = ground arith;
  unmanaged = ground arith;
  resting = ground arith;
}

same_status-false : (a b : WorkflowStatus) → same_status a b ≡ false → same_status b a ≡ false
unfolding same_status
same_status-false a b h = ground arith

permitted :
    (current : MigrationWorkflow) (w expected : ℕ) (new : WorkflowStatus) (q : Request)
    (now : Store) (r : MigrationWorkflow)
    → check_policy current expected new ≡ ok tt
    → expected ≤ current.version
    → (v : MigrationWorkflow) → find_workflow w now ≡ some v
    → IsLater current v
    → Moved w expected new
        (status_event current new q).occurred_at
        (error_of new q.reason_code)
        now
        r
    → (find_workflow w now ≡ some current) × IsPermitted current new
permitted current w expected new q now r policy le v found later moved =
    let same_row : moved.old ≡ v = ground (arith, moved.found) in
    let version : v.version ≡ expected = ap (λ x. x.version) (sym same_row) ∙ moved.version in
    let unchanged : v ≡ current = elim later [ inl e ↦ e | inr greater ↦ absurd (omega arith) ] in
    let version' : current.version ≡ expected = ap (λ x. x.version) (sym unchanged) ∙ version in
    let other : same_status moved.old.status new ≡ false = moved.another in
    let other' : same_status current.status new ≡ false =
      subst (λ x. same_status x.status new ≡ false) (same_row ∙ unchanged) other in
    (
      found ∙ ap some unchanged,
      check_policy-ok current expected new policy version' (same_status-false _ _ other'),
    )

-- Let a caller's expected version be at most the version that the service reads. Then, whatever
-- commands run between the read and the commit, a request for a status change that succeeds either
-- repeats a recorded one and changes nothing, or the row committed on is the very row that was
-- read, the change is in ALLOWED_TRANSITIONS, its new status is not one that the orchestrators
-- manage, and the old status is not one of work in progress.
pub change_status-policy :
    (p : Platform) (millis : ℕ → ℕ) (cs : List Command) (w expected : ℕ) (new : WorkflowStatus)
    (q : Request) (s t : Store) (current r : MigrationWorkflow)
    → All IsWellFormed cs
    → IsConsistent s
    → find_workflow w s ≡ some current
    → expected ≤ current.version
    → change_status w expected new q s (run p millis cs s) ≡ ok (r, t)
    → (t ≡ run p millis cs s)
      ⊎ ((find_workflow w (run p millis cs s) ≡ some current) × IsPermitted current new)
unfolding change_status
change_status-policy p millis cs w expected new q s t current r wf h found le done =
    let key_test = not (is_blank q.idempotency_key) && leb (length q.idempotency_key) 128 in
    let (_, _, h₁) = >>=-eq-ok (require key_test value_error) _ done in
    let (_, _, h₂) = >>=-eq-ok (require (leb 1 expected) value_error) _ h₁ in
    let (row, i, h₃) = >>=-eq-ok (or_raise workflow_not_found (find_workflow w s)) _ h₂ in
    let (read, l, h₄) = >>=-eq-ok (load_workflow row) _ h₃ in
    let (_, e) = load_workflow-eq-ok row read l in
    let here : read ≡ current =
      sym e ∙ some-injective (sym (or_raise-eq-ok workflow_not_found _ i) ∙ found) in
    let (_, policy, h₅) = >>=-eq-ok (check_policy read expected new) _ h₄ in
    let (_, _, h₆) = >>=-eq-ok (require (valid_event (status_event read new q)) value_error) _ h₅ in
    let (v, found', later) = run-IsLater p millis cs s w current wf h found in
    elim (transition_status-Moved w expected new (status_event read new q)
      (error_of new q.reason_code) q.idempotency_key q.digest (run p millis cs s) t r h₆) [
        | inl same ↦ inl same
        | inr moved ↦ inr (
            subst (λ x. (find_workflow w (run p millis cs s) ≡ some x) × IsPermitted x new) here
              (permitted read w expected new q (run p millis cs s) r policy
                (subst (λ x. expected ≤ x.version) (sym here) le) v found'
                (subst (λ x. IsLater x v) (sym here) later) moved))
      ]
