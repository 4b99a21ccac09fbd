-- ===== src/Repository/Attempts/Running.antt =====
-- mark_transport_running, mark_execution_running and mark_validation_running: what they do to the
-- table, and which caller is told that it started the attempt.
use schemabridge.Base.{
  ℕ, ◌≡◌, refl, ◌∙◌, sym, ap, subst, Bool, true, false, some, List, ◌==◌, Bool-cases, inl, inr,
  ==_iff, arith,
}
use schemabridge.Base.Outcome.{
  ok, >>=-eq-ok, ok-injective, some-injective, workflow_conflict, workflow_not_found,
  persistence_error,
}
use schemabridge.Base.Table.{find, update, update_inv, find-modify}
use schemabridge.Model.Attempt.{Kind, Progresses}
use schemabridge.Repository.Store.{or_raise, or_raise-eq-ok}
use schemabridge.Repository.Attempts.{load_row, mark_running, restart}
use schemabridge.Repository.Attempts.Rows.{RowsChange, unchanged, rewritten, load_row-eq-ok}

module _ {R : Type 0} (k : Kind R) where
  -- The caller's claimed row is now running, and `a` is what it was given.
  pub record Starts (id : ℕ) (a : R) (rs ts : List R) : Type 0 where
    pub before : R
    pub was_stored : find k.key id rs ≡ some before
    pub was_claimed : k.rank before ≡ 0
    pub is_stored : find k.key id ts ≡ some a
    pub is_running : k.rank a ≡ 1

  module _ (start : R → R) (same : (r : R) → k.key (start r) ≡ k.key r)
      (starts : (r : R) → k.rank r ≡ 0 → Progresses k r (start r))
      (runs : (r : R) → k.rank (start r) ≡ 1) where
    restart_result :
        (id : ℕ) (attempt : R) (rs : List R) {a : R} {flag : Bool} {ts : List R}
        → restart k id start attempt rs ≡ ok ((a, flag), ts)
        → RowsChange k rs ts × Starts id a rs ts
    unfolding restart
    restart_result id attempt rs {a} {flag} {ts} h =
        let (rows, u, h₁) =
          >>=-eq-ok (or_raise workflow_conflict (update k.key id (λ r. k.rank r == 0) start rs)) _
            h in
        let (r, found, test, z) =
          update_inv k.key id (λ r. k.rank r == 0) start rs rows
            (or_raise-eq-ok workflow_conflict _ u) in
        let (row, g, h₂) = >>=-eq-ok (or_raise persistence_error (find k.key id rows)) _ h₁ in
        let (running, l, h₃) = >>=-eq-ok (load_row k row) _ h₂ in
        let (v, e) = load_row-eq-ok k row running l in
        let zero : k.rank r ≡ 0 = (==_iff (k.rank r) 0).0 test in
        let there : find k.key id rows ≡ some (start r) =
          rw (z, find-modify k.key start same id rs, found) refl in
        let is : row ≡ start r =
          some-injective (sym (or_raise-eq-ok persistence_error _ g) ∙ there) in
        let out : rows ≡ ts = ap (λ p. p.1) (ok-injective h₃) in
        let given : start r ≡ a = sym is ∙ e ∙ ap (λ p. p.0.0) (ok-injective h₃) in
        (
          rewritten id start r found same (subst (λ x. k.valid x ≡ true) is v) (starts r zero)
              (sym out ∙ z),
          record {
            before = r;
            was_stored = found;
            was_claimed = zero;
            is_stored =
                subst (λ x. find k.key id x ≡ some a) out
                  (subst (λ x. find k.key id rows ≡ some x) given there);
            is_running = subst (λ x. k.rank x ≡ 1) given (runs r);
          },
        )

    pub mark_running_result :
        (id : ℕ) (rs : List R) {a : R} {flag : Bool} {ts : List R}
        → mark_running k id start rs ≡ ok ((a, flag), ts)
        → RowsChange k rs ts × (flag ≡ true → Starts id a rs ts)
    unfolding mark_running
    mark_running_result id rs {a} {flag} {ts} h =
        let (row, f, h₁) = >>=-eq-ok (or_raise workflow_not_found (find k.key id rs)) _ h in
        let (attempt, l, h₂) = >>=-eq-ok (load_row k row) _ h₁ in
        elim (Bool-cases (k.rank attempt == 0)) [
          | inl q ↦ let (c, x) = restart_result id attempt rs (rw q at h₂) in (c, λ e. x)
          | inr q ↦
              let m = rw q at h₂ in
              let not_first : false ≡ flag = ap (λ p. p.0.1) (ok-injective m) in
              (unchanged (sym (ap (λ p. p.1) (ok-injective m))), λ e. absurd (ground arith))
        ]
