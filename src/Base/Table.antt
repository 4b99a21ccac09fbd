-- ===== src/Base/Table.antt =====
-- A database table with a numeric primary key: its rows as a list, the SELECT by key, the UPDATE
-- of one row with its row count, and the INSERT that a duplicate key refuses.
use Prim.Native.Nat.{ℕ}
use mathlib.Core.Path.{◌≡◌, refl, subst}
use mathlib.Core.Logic.{◌≢◌, inl, inr}
use mathlib.Core.Bool.{Bool, true}
use mathlib.Core.Option
use mathlib.Core.Option.{Option, none, some}
use mathlib.Core.List.{List, [], ◌∷◌}
use native.Mathlib.Omega.{arith}
use schemabridge.Base.Tests.{◌==◌, if◌then◌else◌, is_none, Bool-cases, Option-cases}
use schemabridge.Base.Lists.{All}

module _ {R : Type 0} (key : R → ℕ) where
  -- SELECT ... WHERE key = k
  unfoldable pub find : ℕ → List R → Option R
  find k [] = none
  find k (r ∷ rs) = if key r == k then some r else find k rs

  -- The rows with the row of key `k` rewritten.
  unfoldable pub modify : ℕ → (R → R) → List R → List R
  modify k f [] = []
  modify k f (r ∷ rs) = if key r == k then f r ∷ rs else r ∷ modify k f rs

  -- UPDATE ... WHERE key = k AND test: `none` when the row count is not 1.
  unfoldable pub update : ℕ → (R → Bool) → (R → R) → List R → Option (List R)
  update k test f [] = none
  update k test f (r ∷ rs) =
      if key r == k
      then if test r then some (f r ∷ rs) else none
      else Option.map (◌∷◌ r) (update k test f rs)

  -- INSERT: `none` when the key is taken.
  unfoldable pub insert : R → List R → Option (List R)
  insert r rs = if is_none (find (key r) rs) then some (r ∷ rs) else none

  pub find-key : (k : ℕ) (rs : List R) (r : R) → find k rs ≡ some r → key r ≡ k
  unfolding find
  find-key k [] r h = cc
  find-key k (x ∷ rs) r h = ground (arith, find-key k rs r)

  pub update-eq-modify :
      (k : ℕ) (test : R → Bool) (f : R → R) (rs : List R) (r : R)
      → find k rs ≡ some r
      → test r ≡ true
      → update k test f rs ≡ some (modify k f rs)
  unfolding find modify update
  update-eq-modify k test f [] r h t = cc
  update-eq-modify k test f (x ∷ rs) r h t = ground (arith, update-eq-modify k test f rs r)

  -- An UPDATE that reports one row found it, passed its condition, and rewrote that row.
  pub update_inv :
      (k : ℕ) (test : R → Bool) (f : R → R) (rs rs' : List R)
      → update k test f rs ≡ some rs'
      → (r : R) × (find k rs ≡ some r) × (test r ≡ true) × (rs' ≡ modify k f rs)
  unfolding find modify update
  update_inv k test f [] rs' h = cc
  update_inv k test f (x ∷ rs) rs' h = elim (Bool-cases (key x == k)) [
    | inl e ↦ (x, rw e, ground arith, ground arith)
    | inr e ↦ elim (Option-cases (update k test f rs)) [
      | inl u ↦ absurd (ground arith)
      | inr (rs₁, u) ↦
          let (r, found, passed, same) = update_inv k test f rs rs₁ u in
          (r, rw e found, passed, ground arith)
    ]
  ]

  pub insert_inv :
      (r : R) (rs rs' : List R) → insert r rs ≡ some rs' → (find (key r) rs ≡ none) × (rs' ≡ r ∷ rs)
  unfolding insert
  insert_inv r rs rs' h = ground arith

  pub find-insert :
      (r : R) (rs : List R) (k : ℕ) → find k (r ∷ rs) ≡ (if key r == k then some r else find k rs)
  unfolding find
  find-insert r rs k = refl

  module _ (f : R → R) (same : (r : R) → key (f r) ≡ key r) where
    pub find-modify : (k : ℕ) (rs : List R) → find k (modify k f rs) ≡ Option.map f (find k rs)
    unfolding find modify
    find-modify k [] = refl
    find-modify k (x ∷ rs) = ground (arith, same x, find-modify k rs)

    pub find-modify_ne : (k j : ℕ) (rs : List R) → k ≢ j → find j (modify k f rs) ≡ find j rs
    unfolding find modify
    find-modify_ne k j [] h = refl
    find-modify_ne k j (x ∷ rs) h = ground (arith, same x, find-modify_ne k j rs)

  module _ (P : R → Type 0) where
    pub All-find : (k : ℕ) (rs : List R) (r : R) → All P rs → find k rs ≡ some r → P r
    unfolding find
    All-find k [] r a h = cc
    All-find k (x ∷ rs) r a h = elim (Bool-cases (key x == k)) [
      | inl e ↦ let q : x ≡ r = ground arith in subst P q a.0
      | inr e ↦ All-find k rs r a.1 (rw e at h)
    ]

    -- A rewritten row that satisfies the predicate keeps it for the table.
    pub All-modify :
        (k : ℕ) (f : R → R) (rs : List R)
        → All P rs
        → ((r : R) → find k rs ≡ some r → P r → P (f r))
        → All P (modify k f rs)
    unfolding find modify
    All-modify k f [] a h = tt
    All-modify k f (x ∷ rs) a h = elim (Bool-cases (key x == k)) [
      | inl e ↦ rw e (h x (rw e) a.0, a.1)
      | inr e ↦ rw e (a.0, All-modify k f rs a.1 (λ r q. h r (rw e q)))
    ]

  -- No two rows have the same key.
  abbrev pub Distinct : List R → Type 0
  Distinct [] = Unit
  Distinct (r ∷ rs) = (find (key r) rs ≡ none) × Distinct rs

  find-modify-none :
      (f : R → R)
      → ((r : R) → key (f r) ≡ key r)
      → (k j : ℕ) (rs : List R) → find j rs ≡ none
      → find j (modify k f rs) ≡ none
  unfolding find modify
  find-modify-none f same k j [] h = refl
  find-modify-none f same k j (x ∷ rs) h = ground (arith, same x, find-modify-none f same k j rs)

  pub Distinct-modify :
      (f : R → R)
      → ((r : R) → key (f r) ≡ key r)
      → (k : ℕ) (rs : List R) → Distinct rs
      → Distinct (modify k f rs)
  unfolding find modify
  Distinct-modify f same k [] d = tt
  Distinct-modify f same k (x ∷ rs) d = elim (Bool-cases (key x == k)) [
    | inl e ↦ rw e (rw (same x) d.0, d.1)
    | inr e ↦ rw e (find-modify-none f same k (key x) rs d.0, Distinct-modify f same k rs d.1)
  ]
