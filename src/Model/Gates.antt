-- ===== src/Model/Gates.antt =====
-- Paths through ALLOWED_TRANSITIONS: the gates that every successful migration passes.
use schemabridge.Base.{
  ℕ, zero, suc, ◌≤◌, ◌≡◌, refl, inl, inr, true, Bool, List, [], ◌∷◌, arith, ◌==◌, leb, ◌&&◌, ◌||◌,
  if◌then◌else◌, Bool-cases, all, any, leb→le, subst, and_left, and_right,
}
use schemabridge.Model.Status.{
  WorkflowStatus, draft, discovered, mapping_proposed, mapping_approved, staging, staged,
  execution_ready, executing, executed, validation_ready, validating, validated,
  allowed_transitions, member, same_status, eq_of_same_status,
}

-- A sequence of status changes, each one in ALLOWED_TRANSITIONS.
pub data Route : WorkflowStatus → WorkflowStatus → Type 0 where
  stop : (a : WorkflowStatus) → Route a a
  step :
      (a b : WorkflowStatus) {c : WorkflowStatus}
      → member b (allowed_transitions a) ≡ true
      → Route b c
      → Route a c

-- The statuses after the first one.
unfoldable pub visited : {a b : WorkflowStatus} → Route a b → List WorkflowStatus
visited (stop a) = []
visited (step a b h p) = b ∷ visited p

-- The first list is contained in the second, in the same order.
pub data InOrder : List WorkflowStatus → List WorkflowStatus → Type 0 where
  nothing : {l : List WorkflowStatus} → InOrder [] l
  skip : (x : WorkflowStatus) {k l : List WorkflowStatus} → InOrder k l → InOrder k (x ∷ l)
  keep : (x : WorkflowStatus) {k l : List WorkflowStatus} → InOrder k l → InOrder (x ∷ k) (x ∷ l)

InOrder-tail : (x : WorkflowStatus) {k l : List WorkflowStatus} → InOrder (x ∷ k) l → InOrder k l
InOrder-tail x (skip y i) = skip y (InOrder-tail x i)
InOrder-tail x (keep y i) = skip y i

-- The gate that is passed with `n` others to come.
gate : ℕ → WorkflowStatus
gate n =
    if n == 0
    then validated
    else if n == 1
    then validating
    else if n == 2
    then executed
    else if n == 3
    then executing
    else if n == 4
    then execution_ready
    else if n == 5
    then mapping_approved
    else if n == 6
    then mapping_proposed
    else discovered

last_gates : ℕ → List WorkflowStatus
last_gates zero = []
last_gates (suc n) = gate n ∷ last_gates n

-- How many gates are still to come; statuses that reach no success count as far away.
ahead : WorkflowStatus → ℕ
ahead draft = 8
ahead discovered = 7
ahead mapping_proposed = 6
ahead mapping_approved = 5
ahead staging = 5
ahead staged = 5
ahead execution_ready = 4
ahead executing = 3
ahead executed = 2
ahead validation_ready = 2
ahead validating = 1
ahead validated = 0
ahead _ = 8

-- A change brings at most one gate nearer, and then it is the change to that gate.
fits : WorkflowStatus → WorkflowStatus → Bool
unfolding ahead gate
fits a b = leb (ahead a) (ahead b) || ((ahead a == suc (ahead b)) && same_status b (gate (ahead b)))

all_fit : (a : WorkflowStatus) → all (fits a) (allowed_transitions a) ≡ true
unfolding fits allowed_transitions ahead gate same_status
all_fit draft = refl
all_fit _ = refl

all-any :
    (f g : WorkflowStatus → Bool) (l : List WorkflowStatus) (b : WorkflowStatus)
    → ((x : WorkflowStatus) → g x ≡ true → b ≡ x)
    → all f l ≡ true
    → any g l ≡ true
    → f b ≡ true
all-any f g [] b same h k = cc
all-any f g (x ∷ l) b same h k = elim (Bool-cases (g x)) [
  | inl q ↦ rw (same x q) (and_left (f x) (all f l) h)
  | inr q ↦ all-any f g l b same (and_right (f x) (all f l) h) (rw q at k)
]

step-fits : (a b : WorkflowStatus) → member b (allowed_transitions a) ≡ true → fits a b ≡ true
unfolding member
step-fits a b h =
    all-any (fits a) (same_status b) (allowed_transitions a) b (eq_of_same_status b) (all_fit a) h

last_gates-le :
    (m n : ℕ) {l : List WorkflowStatus}
    → m ≤ n
    → InOrder (last_gates n) l
    → InOrder (last_gates m) l
unfolding last_gates
last_gates-le m zero {l} h i =
    let e : zero ≡ m = omega arith in subst (λ k. InOrder (last_gates k) l) e i
last_gates-le m (suc n) {l} h i = elim (Bool-cases (leb m n)) [
  | inl q ↦ last_gates-le m n (leb→le m n q) (InOrder-tail (gate n) i)
  | inr q ↦ let e : suc n ≡ m = ground arith in subst (λ k. InOrder (last_gates k) l) e i
]

gates-step :
    (a b : WorkflowStatus) {l : List WorkflowStatus}
    → fits a b ≡ true
    → InOrder (last_gates (ahead b)) l
    → InOrder (last_gates (ahead a)) (b ∷ l)
unfolding fits last_gates
gates-step a b {l} h i = elim (Bool-cases (leb (ahead a) (ahead b))) [
  | inl q ↦ skip b (last_gates-le (ahead a) (ahead b) (leb→le (ahead a) (ahead b) q) i)
  | inr q ↦
      let next : suc (ahead b) ≡ ahead a = ground arith in
      let here : b ≡ gate (ahead b) = eq_of_same_status b (gate (ahead b)) (ground arith) in
      subst (λ n. InOrder (last_gates n) (b ∷ l)) next
        (subst (λ g. InOrder (g ∷ last_gates (ahead b)) (b ∷ l)) here (keep b i))
]

visited-gates :
    {a b : WorkflowStatus} (p : Route a b)
    → b ≡ validated
    → InOrder (last_gates (ahead a)) (visited p)
unfolding visited last_gates ahead
visited-gates (stop a) e = rw e nothing
visited-gates (step a b h p) e = gates-step a b (step-fits a b h) (visited-gates p e)

-- Every sequence of allowed changes from DRAFT to VALIDATED, with whatever recoveries and retries,
-- passes these statuses in this order.
pub validated_gates :
    (p : Route draft validated)
    → InOrder
        (discovered ∷ mapping_proposed ∷ mapping_approved ∷ execution_ready ∷ executing ∷ executed
          ∷ validating ∷ validated ∷ [])
        (visited p)
unfolding last_gates ahead gate
validated_gates p = visited-gates p refl

-- No allowed change leaves a status without allowed changes.
pub visited_terminal :
    {a b : WorkflowStatus} (p : Route a b) → allowed_transitions a ≡ [] → visited p ≡ []
unfolding visited member
visited_terminal (stop a) e = refl
visited_terminal (step a b h p) e = absurd (ground (arith, h, e))
