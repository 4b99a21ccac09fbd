-- ===== src/Repository/Attempts/Rows.antt =====
-- What a transaction may do to a table of attempts: nothing, one new row of a workflow that no row
-- blocks, or one row rewritten within the life of an attempt.
use schemabridge.Base.{
  ℕ, ◌+◌, ◌≤◌, ◌≡◌, refl, ◌∙◌, sym, subst, true, false, ◌&&◌, none, some, List, [], ◌∷◌, ◌==◌,
  if◌then◌else◌, All, not, Bool-cases, inl, inr, ==_refl, arith,
}
use schemabridge.Base.Outcome.{ok, some-injective}
use schemabridge.Base.Table.{
  find, modify, All-modify, find-modify, find-modify_ne, find-insert, Distinct, Distinct-modify,
}
use schemabridge.Model.Attempt.{Kind, Progresses, Progresses-refl}
use schemabridge.Repository.Attempts.{load_row, blocked}

module _ {R : Type 0} (k : Kind R) where
  pub data RowsChange (rs ts : List R) : Type 0 where
    unchanged : ts ≡ rs → RowsChange rs ts
    inserted :
        (r : R)
        → find k.key (k.key r) rs ≡ none
        → k.valid r ≡ true
        → blocked k (k.owner r) rs ≡ false
        → ts ≡ r ∷ rs
        → RowsChange rs ts
    rewritten :
        (i : ℕ) (f : R → R) (r : R)
        → find k.key i rs ≡ some r
        → ((x : R) → k.key (f x) ≡ k.key x)
        → k.valid (f r) ≡ true
        → Progresses k r (f r)
        → ts ≡ modify k.key i f rs
        → RowsChange rs ts

  -- How many rows keep another attempt of the workflow from being claimed.
  unfoldable pub blocking_count : ℕ → List R → ℕ
  blocking_count w [] = 0
  blocking_count w (r ∷ rs) =
      (if (k.owner r == w) && k.blocks r then 1 else 0) + blocking_count w rs

  -- Every row passes the validation of its model, keys are unique, and no workflow has two rows
  -- that block.
  pub record Sound (rs : List R) : Type 0 where
    pub all_valid : All (λ r. k.valid r ≡ true) rs
    pub distinct : Distinct k.key rs
    pub one_blocking : (w : ℕ) → blocking_count w rs ≤ 1

  count_zero : (w : ℕ) (rs : List R) → blocked k w rs ≡ false → blocking_count w rs ≡ 0
  unfolding blocking_count blocked
  count_zero w [] h = refl
  count_zero w (r ∷ rs) h = ground (arith, count_zero w rs)

  flag_le :
      (w : ℕ) (a b : R)
      → Progresses k a b
      → (if (k.owner b == w) && k.blocks b then 1 else 0)
        ≤ (if (k.owner a == w) && k.blocks a then 1 else 0)
  flag_le w a b p = ground (arith, p.same_owner, p.unblocked)

  count_modify :
      (w i : ℕ) (f : R → R) (rs : List R)
      → ((r : R) → find k.key i rs ≡ some r → Progresses k r (f r))
      → blocking_count w (modify k.key i f rs) ≤ blocking_count w rs
  unfolding blocking_count modify find
  count_modify w i f [] p = omega arith
  count_modify w i f (r ∷ rs) p = elim (Bool-cases (k.key r == i)) [
    | inl e ↦ rw e (omega (arith, flag_le w r (f r) (p r (rw e))))
    | inr e ↦ rw e (omega (arith, count_modify w i f rs (λ x q. p x (rw e q))))
  ]

  pub Sound-change : {rs ts : List R} → RowsChange rs ts → Sound rs → Sound ts
  unfolding blocking_count
  Sound-change {rs} {ts} (unchanged e) c = subst Sound (sym e) c
  Sound-change {rs} {ts} (inserted r fresh v free e) c = subst Sound (sym e) (record {
    all_valid = (v, c.all_valid);
    distinct = (fresh, c.distinct);
    one_blocking = λ w. ground (arith, c.one_blocking w, count_zero w rs);
  })
  Sound-change {rs} {ts} (rewritten i f r found same v p e) c = subst Sound (sym e) (record {
    all_valid =
        All-modify k.key (λ x. k.valid x ≡ true) i f rs c.all_valid
          (λ x q _. subst (λ y. k.valid (f y) ≡ true) (some-injective (sym found ∙ q)) v);
    distinct = Distinct-modify k.key f same i rs c.distinct;
    one_blocking = λ w. omega (
      arith,
      c.one_blocking w,
      count_modify w i f rs
          (λ x q. subst (λ y. Progresses k y (f y)) (some-injective (sym found ∙ q)) p),
    );
  })

  -- A row that the table holds is still there afterwards, further on in its life or as it was.
  pub find-change :
      {rs ts : List R} (i : ℕ) (a : R)
      → RowsChange rs ts
      → find k.key i rs ≡ some a
      → (b : R) × (find k.key i ts ≡ some b) × Progresses k a b
  find-change i a (unchanged e) h = (a, rw e h, Progresses-refl k a)
  find-change {rs} i a (inserted n fresh v free e) h = elim (Bool-cases (k.key n == i)) [
    | inl q ↦ absurd (ground arith)
    | inr q ↦ (a, rw (e, find-insert) (ground arith), Progresses-refl k a)
  ]
  find-change {rs} i a (rewritten j f r found same v p e) h = elim (Bool-cases (j == i)) [
    | inl q ↦
        let m : j ≡ i = ground arith in
        let x : r ≡ a = ground arith in
        (f a, rw (e, m, find-modify k.key f same i rs, h), subst (λ y. Progresses k y (f y)) x p)
    | inr q ↦ (a, rw (e, find-modify_ne k.key f same j i rs (ground arith)) h, Progresses-refl k a)
  ]

  pub load_row-eq-ok : (r a : R) → load_row k r ≡ ok a → (k.valid r ≡ true) × (r ≡ a)
  unfolding load_row
  load_row-eq-ok r a h = ground arith

  -- A new row `i` of workflow `w`, which no row of the workflow blocked.
  pub record ClaimsRow (w i : ℕ) (rs ts : List R) : Type 0 where
    pub row : R
    pub was_free : blocked k w rs ≡ false
    pub same_key : k.key row ≡ i
    pub same_owner : k.owner row ≡ w
    pub is_stored : find k.key i ts ≡ some row

  pub ClaimsRow-cons :
      (w : ℕ) (r : R) (rs ts : List R)
      → k.owner r ≡ w
      → not (blocked k w rs) ≡ true
      → ts ≡ r ∷ rs
      → ClaimsRow w (k.key r) rs ts
  ClaimsRow-cons w r rs ts own free e = record {
    row = r;
    was_free = ground arith;
    same_key = refl;
    same_owner = own;
    is_stored = rw (e, find-insert) (ground (arith, ==_refl (k.key r)));
  }

  -- A stored row of a workflow that nothing blocks does not block.
  pub blocked-find :
      (i w : ℕ) (r : R) (rs : List R)
      → find k.key i rs ≡ some r
      → k.owner r ≡ w
      → blocked k w rs ≡ false
      → k.blocks r ≡ false
  unfolding find blocked
  blocked-find i w r [] h own free = cc
  blocked-find i w r (x ∷ rs) h own free = ground (arith, blocked-find i w r rs)
