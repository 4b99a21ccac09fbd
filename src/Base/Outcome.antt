-- ===== src/Base/Outcome.antt =====
-- Results of the control plane: a value, or one of the fixed errors (persistence/errors.py) and
-- Python's own.
use mathlib.Core.Path.{◌≡◌, refl, ap}
use mathlib.Core.Bool.{Bool, true, false}
use mathlib.Core.Option.{some}

-- The classes of persistence/errors.py that the modelled code raises, and the built-in ones.
pub data Error : Type 0 where
  workflow_not_found workflow_conflict invalid_workflow_transition : Error
  idempotency_conflict persistence_error artifact_validation : Error
  required_artifact stale_artifact operation_unavailable : Error
  transport_already_in_progress transport_confirmed_failure transport_outcome_uncertain : Error
  execution_already_in_progress validation_already_in_progress : Error
  staging_cleanup mapping_approval_required preview_compilation : Error
  target_profile_unavailable target_profile_not_write_capable : Error
  unsupported_execution_connector unsafe_generated_statement : Error
  execution_confirmed_failure execution_outcome_uncertain : Error
  validation_not_ready validation_execution validation_outcome_uncertain : Error
  unsafe_validation_query batch_transport processor_contract : Error
  job_not_found job_already_active job_transition : Error
  value_error type_error : Error

pub data Outcome {ℓ} (A : Type ℓ) : Type ℓ where
  ok : A → Outcome A
  raise : Error → Outcome A

-- `if not test: raise error`
abbrev pub require : Bool → Error → Outcome (Unit {0})
require false error = raise error
require true error = ok tt

infixl 5 ◌>>=◌
abbrev pub ◌>>=◌ {ℓ κ} : {B : Type κ} {A : Type ℓ} → Outcome A → (A → Outcome B) → Outcome B
raise error >>= next = raise error
ok value >>= next = next value

infixl 5 ◌>>◌
abbrev pub ◌>>◌ {κ} : {B : Type κ} → Outcome (Unit {0}) → Outcome B → Outcome B
check >> next = check >>= λ u. next

-- A bind that succeeds has a first part that succeeds.
pub >>=-eq-ok {ℓ κ} :
    {B : Type κ} {A : Type ℓ} (first : Outcome A) (next : A → Outcome B) {result : B}
    → (first >>= next) ≡ ok result
    → (value : A) × (first ≡ ok value) × (next value ≡ ok result)
>>=-eq-ok (raise error) next h = cc
>>=-eq-ok (ok value) next h = (value, refl, h)

pub require-eq-ok : (b : Bool) (e : Error) {u : Unit {0}} → require b e ≡ ok u → b ≡ true
require-eq-ok true e h = refl
require-eq-ok false e h = cc

value_or {ℓ} : {A : Type ℓ} → A → Outcome A → A
value_or d (ok a) = a
value_or d (raise e) = d

pub some-injective {ℓ} : {A : Type ℓ} {a b : A} → some a ≡ some b → a ≡ b
some-injective h = cc

pub ok-injective {ℓ} : {A : Type ℓ} {a b : A} → ok a ≡ ok b → a ≡ b
unfolding value_or
ok-injective {a} h = ap (value_or a) h
