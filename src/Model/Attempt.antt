-- ===== src/Model/Attempt.antt =====
-- The attempts of a workflow: a staging load, an execution on the target and a validation run, each
-- claimed once, run once and completed once. `Kind` is what the three tables share.
pub mod Transport
pub mod Execution
pub mod Validation
pub mod Kinds
use schemabridge.Base.{ℕ, ◌≤◌, ◌≡◌, refl, ◌∙◌, sym, true, Bool, Option, none, some, leb, arith}
use schemabridge.Base.Text.{Text}

-- `rank` is zero for a claimed row, one for a running one and two for a terminal one. A row that
-- blocks keeps another attempt of its workflow from being claimed.
pub record Kind (R : Type 0) : Type 0 where
  pub key : R → ℕ
  pub owner : R → ℕ
  pub rank : R → ℕ
  pub fingerprint : R → Text
  pub blocks : R → Bool
  pub valid : R → Bool

-- The life of one attempt: it never goes back, a terminal one never changes, and one that let
-- another attempt start never blocks again.
pub record Progresses {R : Type 0} (k : Kind R) (a b : R) : Type 0 where
  pub same_key : k.key b ≡ k.key a
  pub same_owner : k.owner b ≡ k.owner a
  pub same_fingerprint : k.fingerprint b ≡ k.fingerprint a
  pub forward : k.rank a ≤ k.rank b
  pub final : k.rank a ≡ 2 → b ≡ a
  pub unblocked : k.blocks b ≡ true → k.blocks a ≡ true

pub Progresses-refl : {R : Type 0} (k : Kind R) (a : R) → Progresses k a a
Progresses-refl k a = record {
  same_key = refl;
  same_owner = refl;
  same_fingerprint = refl;
  forward = omega arith;
  final = λ e. refl;
  unblocked = λ e. e;
}

pub Progresses-trans :
    {R : Type 0} (k : Kind R) {a b c : R} → Progresses k a b → Progresses k b c → Progresses k a c
Progresses-trans k {a} {b} {c} x y = record {
  same_key = y.same_key ∙ x.same_key;
  same_owner = y.same_owner ∙ x.same_owner;
  same_fingerprint = y.same_fingerprint ∙ x.same_fingerprint;
  forward = omega (arith, x.forward, y.forward);
  final = λ e. let same : b ≡ a = x.final e in y.final (rw same e) ∙ same;
  unblocked = λ e. x.unblocked (y.unblocked e);
}
