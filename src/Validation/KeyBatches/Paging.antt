-- ===== src/Validation/KeyBatches/Paging.antt =====
-- The batches of a table are its keys, whatever cap the connector puts on a batch.
use schemabridge.Base.{
  ℕ, zero, suc, ◌+◌, ◌≤◌, ◌<◌, ◌≡◌, refl, sym, ap, ◌∙◌, take-append-drop, length-append, true,
  false, Option, some, List, [], ◌∷◌, ◌++◌, leb, length, take, drop, arith, ◌⊎◌, inl, inr,
}
use schemabridge.Validation.KeyBatches.{batches, is_empty, read_primary_key_batches, flatten}

module _ {K : Type 0} where
  -- Each query returns the next keys from its offset on: at most as many as its limit, and at least
  -- one while there are any.
  pub record Pages (keys : List K) (size : ℕ) (execute : ℕ → ℕ → Option (List K)) : Type 0 where
    pub page : (offset : ℕ) → List K
    pub returned : (offset : ℕ) → execute offset size ≡ some (page offset)
    pub bounded : (offset : ℕ) → length (page offset) ≤ size
    pub from_offset : (offset : ℕ) → page offset ≡ take (length (page offset)) (drop offset keys)
    pub advances : (offset : ℕ) → page offset ≡ [] → drop offset keys ≡ []

  empty-cases : (l : List K) → (l ≡ []) ⊎ ((k : K) × (ks : List K) × (l ≡ k ∷ ks))
  empty-cases [] = inl refl
  empty-cases (k ∷ ks) = inr (k, ks, refl)

  drop_nil : (n : ℕ) → [] ≡ drop {A = K} n []
  drop_nil zero = refl
  drop_nil (suc n) = refl

  drop_add : (m n : ℕ) (l : List K) → drop (m + n) l ≡ drop n (drop m l)
  drop_add zero n l = let e : zero + n ≡ n = omega arith in ap (λ k. drop k l) e
  drop_add (suc m) n [] = let e : suc m + n ≡ suc (m + n) = omega arith in rw e (drop_nil n)
  drop_add (suc m) n (x ∷ l) =
      let e : suc m + n ≡ suc (m + n) = omega arith in rw e (drop_add m n l)

  module _ (keys : List K) (size : ℕ) (execute : ℕ → ℕ → Option (List K))
      (pages : Pages keys size execute) where
    split :
        (offset : ℕ)
        → drop offset keys ≡ pages.page offset ++ drop (offset + length (pages.page offset)) keys
    split offset =
        sym (take-append-drop (length (pages.page offset)) (drop offset keys))
        ∙ ap (λ l. l ++ drop (length (pages.page offset)) (drop offset keys))
            (sym (pages.from_offset offset))
        ∙ ap (λ l. pages.page offset ++ l) (sym (drop_add offset (length (pages.page offset)) keys))

    next_length :
        (offset fuel : ℕ) (k : K) (ks : List K)
        → pages.page offset ≡ k ∷ ks
        → length (drop offset keys) < suc fuel
        → length (drop (offset + length (pages.page offset)) keys) < fuel
    next_length offset fuel k ks e h =
        let lengths : length (drop offset keys)
            ≡ length (pages.page offset)
              + length (drop (offset + length (pages.page offset)) keys) =
          ap length (split offset) ∙ length-append (pages.page offset) _ in
        let some_key : length (pages.page offset) ≡ suc (length ks) = ap length e in
        omega (arith, lengths, some_key)

    read_from :
        (fuel offset : ℕ)
        → length (drop offset keys) < fuel
        → (bs : List (List K)) × (read_primary_key_batches fuel execute size offset ≡ batches bs)
          × (flatten bs ≡ drop offset keys)
    unfolding read_primary_key_batches is_empty
    read_from zero offset h = absurd (omega arith)
    read_from (suc fuel) offset h = elim (empty-cases (pages.page offset)) [
      | inl e ↦
          let fits : leb (length (pages.page offset)) size ≡ true =
            let bound = pages.bounded offset in ground arith in
          let no_key : is_empty (pages.page offset) ≡ true = rw e refl in
          (
            [],
            rw (read_primary_key_batches, pages.returned offset, fits, no_key) refl,
            sym (pages.advances offset e),
          )
      | inr (k, ks, e) ↦
          let (bs, read, whole) =
            read_from fuel (offset + length (pages.page offset))
              (next_length offset fuel k ks e h) in
          let fits : leb (length (pages.page offset)) size ≡ true =
            let bound = pages.bounded offset in ground arith in
          let some_key : is_empty (pages.page offset) ≡ false = rw e refl in
          (
            pages.page offset ∷ bs,
            rw (read_primary_key_batches, pages.returned offset, fits, some_key, read) refl,
            ap (λ l. pages.page offset ++ l) whole ∙ sym (split offset),
          )
    ]

    -- However low the connector caps the rows of a query, with fuel for more turns than there are
    -- keys the reading ends, and its batches put together are all the keys, each once and in order.
    pub read_primary_key_batches_all :
        (fuel : ℕ)
        → length keys < fuel
        → (bs : List (List K)) × (read_primary_key_batches fuel execute size 0 ≡ batches bs)
          × (flatten bs ≡ keys)
    read_primary_key_batches_all fuel h = read_from fuel 0 h
