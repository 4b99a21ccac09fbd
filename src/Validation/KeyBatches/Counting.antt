-- ===== src/Validation/KeyBatches/Counting.antt =====
-- The reconciliation of two readings and the multisets of their keys.
use schemabridge.Base.{
  ℕ, suc, ◌+◌, ◌≤◌, ◌≡◌, refl, ap, Bool, true, false, List, [], ◌∷◌, ltb, length, if◌then◌else◌,
  arith, inl, inr, ◌↔◌, Bool-cases, subst,
}
use schemabridge.Validation.KeyBatches.{
  matches, flatten, sum_values, sum_duplicates, count_of, increment, counter, subtract,
  reconcile_primary_key_batches,
}

module _ {K : Type 0} (same : K → K → Bool)
    (same_iff : (a b : K) → (same a b ≡ true) ↔ (a ≡ b)) where
  -- How often a key stands in a list.
  unfoldable pub occurrences : K → List K → ℕ
  occurrences k [] = 0
  occurrences k (j ∷ l) = if same j k then suc (occurrences k l) else occurrences k l

  count_of-increment :
      (k j : K) (m : List (K × ℕ))
      → count_of same k (increment same j m)
        ≡ (if same j k then suc (count_of same k m) else count_of same k m)
  unfolding count_of increment
  count_of-increment k j [] = ground arith
  count_of-increment k j ((i, n) ∷ m) =
      let step = count_of-increment k j m in
      ground (arith, same_iff i j, same_iff i k, same_iff j k)

  count_of-counter :
      (k : K) (m : List (K × ℕ)) (l : List K)
      → count_of same k (counter same m l) ≡ count_of same k m + occurrences k l
  unfolding counter occurrences
  count_of-counter k m [] = omega arith
  count_of-counter k m (j ∷ l) =
      let step = count_of-counter k (increment same j m) l in
      let one = count_of-increment k j m in ground arith

  -- The keys of a counter are distinct.
  Keyed : List (K × ℕ) → Type 0
  Keyed [] = Unit
  Keyed ((k, n) ∷ m) = (count_of same k m ≡ 0) × (1 ≤ n) × Keyed m

  increment-Keyed : (j : K) (m : List (K × ℕ)) → Keyed m → Keyed (increment same j m)
  unfolding Keyed increment count_of
  increment-Keyed j [] h = (refl, omega arith, tt)
  increment-Keyed j ((i, n) ∷ m) h = elim (Bool-cases (same i j)) [
    | inl q ↦ rw q (h.0, omega (arith, h.1), h.2)
    | inr q ↦
        let other : same j i ≡ false = ground (arith, same_iff i j, same_iff j i) in
        rw q (rw (count_of-increment i j m, other) h.0, h.1, increment-Keyed j m h.2)
  ]

  counter-Keyed : (m : List (K × ℕ)) (l : List K) → Keyed m → Keyed (counter same m l)
  unfolding counter
  counter-Keyed m [] h = h
  counter-Keyed m (j ∷ l) h = counter-Keyed (increment same j m) l (increment-Keyed j m h)

  -- A difference is empty exactly if no count is greater than the other.
  subtract-zero :
      (m n : List (K × ℕ))
      → sum_values (subtract same m n) ≡ 0
      → (k : K) → count_of same k m ≤ count_of same k n
  unfolding subtract sum_values count_of
  subtract-zero [] n h k = omega arith
  subtract-zero ((j, c) ∷ m) n h k = elim (Bool-cases (ltb (count_of same j n) c)) [
    | inl q ↦ absurd (ground arith)
    | inr q ↦
        let rest = subtract-zero m n (rw q at h) k in
        elim (Bool-cases (same j k)) [
          | inl e ↦
              let at_k : count_of same j n ≡ count_of same k n =
                ap (λ x. count_of same x n) ((same_iff j k).0 e) in
              rw e (ground arith)
          | inr e ↦ rw e rest
        ]
  ]

  tail-le :
      (j : K) (c : ℕ) (m : List (K × ℕ)) (bound : K → ℕ)
      → count_of same j m ≡ 0
      → ((k : K) → count_of same k ((j, c) ∷ m) ≤ bound k)
      → (k : K) → count_of same k m ≤ bound k
  unfolding count_of
  tail-le j c m bound none h k = elim (Bool-cases (same j k)) [
    | inl q ↦
        let zero_k : count_of same k m ≡ 0 =
          subst (λ x. count_of same x m ≡ 0) ((same_iff j k).0 q) none in
        omega (arith, zero_k)
    | inr q ↦ let x = h k in rw q at x
  ]

  head-le :
      (j : K) (c : ℕ) (m : List (K × ℕ)) (bound : K → ℕ)
      → ((k : K) → count_of same k ((j, c) ∷ m) ≤ bound k)
      → c ≤ bound j
  unfolding count_of
  head-le j c m bound h =
      let here : same j j ≡ true = (same_iff j j).1 refl in let x = h j in rw here at x

  subtract_nothing :
      (m n : List (K × ℕ))
      → Keyed m
      → ((k : K) → count_of same k m ≤ count_of same k n)
      → sum_values (subtract same m n) ≡ 0
  unfolding subtract sum_values Keyed
  subtract_nothing [] n keyed h = refl
  subtract_nothing ((j, c) ∷ m) n keyed h =
      let rest = subtract_nothing m n keyed.2 (tail-le j c m (λ k. count_of same k n) keyed.0 h) in
      let here = head-le j c m (λ k. count_of same k n) h in ground arith

  duplicates-zero : (m : List (K × ℕ)) → sum_duplicates m ≡ 0 → (k : K) → count_of same k m ≤ 1
  unfolding sum_duplicates count_of
  duplicates-zero [] h k = omega arith
  duplicates-zero ((j, c) ∷ m) h k = elim (Bool-cases (ltb 1 c)) [
    | inl q ↦ absurd (ground arith)
    | inr q ↦ let rest = duplicates-zero m (rw q at h) k in ground arith
  ]

  no_duplicates :
      (m : List (K × ℕ)) → Keyed m → ((k : K) → count_of same k m ≤ 1) → sum_duplicates m ≡ 0
  unfolding sum_duplicates Keyed
  no_duplicates [] keyed h = refl
  no_duplicates ((j, c) ∷ m) keyed h =
      let rest = no_duplicates m keyed.2 (tail-le j c m (λ k. 1) keyed.0 h) in
      let here = head-le j c m (λ k. 1) h in ground arith

  sum-increment : (j : K) (m : List (K × ℕ)) → sum_values (increment same j m) ≡ suc (sum_values m)
  unfolding sum_values increment
  sum-increment j [] = omega arith
  sum-increment j ((i, n) ∷ m) = let rest = sum-increment j m in ground arith

  sum-counter :
      (m : List (K × ℕ)) (l : List K) → sum_values (counter same m l) ≡ sum_values m + length l
  unfolding counter
  sum-counter m [] = omega arith
  sum-counter m (j ∷ l) =
      let rest = sum-counter (increment same j m) l in
      let one = sum-increment j m in omega (arith, rest, one)

  count_of-keys : (k : K) (l : List K) → count_of same k (counter same [] l) ≡ occurrences k l
  unfolding count_of
  count_of-keys k l = let e = count_of-counter k [] l in omega (arith, e)

  -- The reconciliation matches exactly if every key stands in the source as often as in the target,
  -- and never twice.
  pub reconcile-matches :
      (source target : List (List K))
      → (matches (reconcile_primary_key_batches same source target) ≡ true) ↔ (
          (k : K)
          → (occurrences k (flatten source) ≡ occurrences k (flatten target))
            × (occurrences k (flatten source) ≤ 1))
  unfolding matches reconcile_primary_key_batches Keyed
  reconcile-matches source target =
      let s = counter same [] (flatten source) in
      let t = counter same [] (flatten target) in
      let s_keyed : Keyed s = counter-Keyed [] (flatten source) tt in
      let t_keyed : Keyed t = counter-Keyed [] (flatten target) tt in
      (
        λ h k.
            let missing = subtract-zero s t (ground arith) k in
            let extra = subtract-zero t s (ground arith) k in
            let once = duplicates-zero s (ground arith) k in
            let s_k = count_of-keys k (flatten source) in
            let t_k = count_of-keys k (flatten target) in (omega arith, omega arith),
        λ h.
            let at_s : (k : K) → count_of same k s ≡ occurrences k (flatten source) =
              λ k. count_of-keys k (flatten source) in
            let at_t : (k : K) → count_of same k t ≡ occurrences k (flatten target) =
              λ k. count_of-keys k (flatten target) in
            let a = subtract_nothing s t s_keyed (λ k. omega (arith, at_s k, at_t k, (h k).0)) in
            let b = subtract_nothing t s t_keyed (λ k. omega (arith, at_s k, at_t k, (h k).0)) in
            let c = no_duplicates s s_keyed (λ k. omega (arith, at_s k, (h k).1)) in
            let d = no_duplicates t t_keyed (λ k. omega (arith, at_t k, (h k).0, (h k).1)) in
            ground arith,
      )

  -- The two key counts are the numbers of keys read, duplicates included.
  pub reconcile_counts :
      (source target : List (List K))
      → ((reconcile_primary_key_batches same source target).source_key_count
          ≡ length (flatten source))
        × ((reconcile_primary_key_batches same source target).target_key_count
            ≡ length (flatten target))
  unfolding reconcile_primary_key_batches sum_values
  reconcile_counts source target = (
    let e = sum-counter [] (flatten source) in omega (arith, e),
    let e = sum-counter [] (flatten target) in omega (arith, e),
  )
