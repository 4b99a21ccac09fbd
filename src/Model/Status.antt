-- ===== src/Model/Status.antt =====
-- schemabridge/models/workflow.py: the phases of a workflow and the table of transitions.
use schemabridge.Base.{
  ℕ, ◌≡◌, refl, ◌∙◌, sym, ap, Bool, true, List, [], ◌∷◌, ◌==◌, if◌then◌else◌, any, ==_iff, ==_refl,
}

pub data WorkflowStatus : Type 0 where
  draft discovered mapping_proposed mapping_approved : WorkflowStatus
  staging staged staging_recovery_required : WorkflowStatus
  execution_ready executing executed execution_recovery_required : WorkflowStatus
  validation_ready validating validated : WorkflowStatus
  validation_review_required validation_recovery_required : WorkflowStatus
  failed cancelled : WorkflowStatus

-- The position of a member in its enum, which stands for its text.
abbrev pub status_index : WorkflowStatus → ℕ
status_index draft = 0
status_index discovered = 1
status_index mapping_proposed = 2
status_index mapping_approved = 3
status_index staging = 4
status_index staged = 5
status_index staging_recovery_required = 6
status_index execution_ready = 7
status_index executing = 8
status_index executed = 9
status_index execution_recovery_required = 10
status_index validation_ready = 11
status_index validating = 12
status_index validated = 13
status_index validation_review_required = 14
status_index validation_recovery_required = 15
status_index failed = 16
status_index cancelled = 17

-- `a is b` on two members.
unfoldable pub same_status : WorkflowStatus → WorkflowStatus → Bool
same_status a b = status_index a == status_index b

-- ALLOWED_TRANSITIONS
unfoldable pub allowed_transitions : WorkflowStatus → List WorkflowStatus
allowed_transitions draft = discovered ∷ failed ∷ cancelled ∷ []
allowed_transitions discovered = mapping_proposed ∷ failed ∷ cancelled ∷ []
allowed_transitions mapping_proposed = mapping_approved ∷ failed ∷ cancelled ∷ []
allowed_transitions mapping_approved = staging ∷ execution_ready ∷ failed ∷ cancelled ∷ []
allowed_transitions staging = staged ∷ mapping_approved ∷ staging_recovery_required ∷ []
allowed_transitions staged = execution_ready ∷ failed ∷ cancelled ∷ []
allowed_transitions staging_recovery_required = failed ∷ cancelled ∷ []
allowed_transitions execution_ready = executing ∷ failed ∷ cancelled ∷ []
allowed_transitions executing = executed ∷ execution_ready ∷ execution_recovery_required ∷ []
allowed_transitions executed = validation_ready ∷ validating ∷ failed ∷ cancelled ∷ []
allowed_transitions execution_recovery_required = failed ∷ cancelled ∷ []
allowed_transitions validation_ready = validating ∷ failed ∷ cancelled ∷ []
allowed_transitions validating =
    validated ∷ validation_review_required ∷ validation_recovery_required ∷ failed ∷ cancelled ∷ []
allowed_transitions validated = []
allowed_transitions validation_review_required = []
allowed_transitions validation_recovery_required = failed ∷ cancelled ∷ []
allowed_transitions failed = []
allowed_transitions cancelled = []

-- `new in collection`
unfoldable pub member : WorkflowStatus → List WorkflowStatus → Bool
unfolding same_status
member s l = any (same_status s) l

status_at : ℕ → WorkflowStatus
status_at n =
    if n == 0
    then draft
    else if n == 1
    then discovered
    else if n == 2
    then mapping_proposed
    else if n == 3
    then mapping_approved
    else if n == 4
    then staging
    else if n == 5
    then staged
    else if n == 6
    then staging_recovery_required
    else if n == 7
    then execution_ready
    else if n == 8
    then executing
    else if n == 9
    then executed
    else if n == 10
    then execution_recovery_required
    else if n == 11
    then validation_ready
    else if n == 12
    then validating
    else if n == 13
    then validated
    else if n == 14
    then validation_review_required
    else if n == 15
    then validation_recovery_required
    else if n == 16
    then failed
    else cancelled

status_at-status_index : (s : WorkflowStatus) → status_at (status_index s) ≡ s
unfolding status_at
status_at-status_index draft = refl
status_at-status_index _ = refl

pub eq_of_same_status : (a b : WorkflowStatus) → same_status a b ≡ true → a ≡ b
unfolding same_status
eq_of_same_status a b h =
    sym (status_at-status_index a)
    ∙ ap status_at ((==_iff (status_index a) (status_index b)).0 h)
    ∙ status_at-status_index b

pub same_status_refl : (a : WorkflowStatus) → same_status a a ≡ true
unfolding same_status
same_status_refl a = ==_refl (status_index a)
