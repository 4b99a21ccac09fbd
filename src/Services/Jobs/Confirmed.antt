-- ===== src/Services/Jobs/Confirmed.antt =====
-- services/jobs/pipeline.py: the one way through the three steps that ends with SUCCEEDED.
pub mod Staging
pub mod Handlers
pub mod Execution
pub mod Validation
use schemabridge.Base.{
  ℕ, ◌≡◌, refl, sym, ◌∙◌, ap, ◌⊎◌, inl, inr, Option, none, some, Bool, true, false, arith,
}
use schemabridge.Base.Outcome.{Outcome, Error, ok, raise, ok-injective}
use schemabridge.Repository.Store.{Store}
use schemabridge.Services.Jobs.Program.{
  Program, ◌>>=◌, return, trying, otherwise, rescued, after-eq-ok,
}
use schemabridge.Services.Jobs.Staging.{check}
use schemabridge.Services.Jobs.Ends.{Rescues}

-- Every result that the program returns is as `Q` says.
abbrev pub Returns : {R : Type 0} → (R → Type 0) → Program R → Type 0
Returns {R} Q m = (s t : Store) (r : R) → m s ≡ (ok r, t) → Q r

pub contradiction : {A : Type 0} (b : Bool) → b ≡ true → b ≡ false → A
contradiction b h k = absurd (ground arith)

pub check-ok :
    (b : Bool) (e : Error) (s t : Store) {u : Unit {0}}
    → check b e s ≡ (ok u, t)
    → (b ≡ true) × (s ≡ t)
check-ok true e s t h = (refl, ap (λ x. x.1) h)
check-ok false e s t h = cc h

module _ {R : Type 0} where
  rescued-Returns :
      (Q : R → Type 0) (o : Option (Program R)) (e : Error) (u t : Store) (r : R)
      → Rescues (Returns Q) o
      → rescued o e u ≡ (ok r, t)
      → Q r
  rescued-Returns Q none e u t r h q = cc
  rescued-Returns Q (some handler) e u t r h q = h u t r q

  -- A `try` that returns: its body has returned, or a handler has.
  pub otherwise-eq-ok :
      {A : Type 0} (Q : R → Type 0) (x : Outcome A × Store) (handlers : Error → Option (Program R))
      (next : A → Program R) (t : Store) (r : R)
      → ((e : Error) → Rescues (Returns Q) (handlers e))
      → otherwise x handlers next ≡ (ok r, t)
      → ((a : A) × (u : Store) × (x ≡ (ok a, u)) × (next a u ≡ (ok r, t))) ⊎ Q r
  otherwise-eq-ok Q (ok a, u) handlers next t r h q = inl (a, u, refl, q)
  otherwise-eq-ok Q (raise e, u) handlers next t r h q =
      inr (rescued-Returns Q (handlers e) e u t r (h e) q)

  -- A last transaction whose result is wrapped.
  pub wrapped :
      {A : Type 0} (m : Program A) (wrap : A → R) (s t : Store) (r : R)
      → (m >>= (λ a. return (wrap a))) s ≡ (ok r, t)
      → (a : A) × (m s ≡ (ok a, t)) × (wrap a ≡ r)
  wrapped m wrap s t r q =
      let (a, u, e, n) = after-eq-ok (m s) (λ x. return (wrap x)) q in
      (a, e ∙ ap (λ x. (ok a, x.1)) n, ok-injective (ap (λ x. x.0) n))
