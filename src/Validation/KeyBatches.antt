-- ===== src/Validation/KeyBatches.antt =====
-- schemabridge/validation/key_batches.py: primary keys read in bounded batches and compared as
-- multisets. A key is an element of `K`, compared by `same`.
pub mod Paging
pub mod Counting
use schemabridge.Base.{
  ℕ, zero, suc, ◌+◌, ◌-◌, Bool, true, false, not, ◌&&◌, Option, none, some, List, [], ◌∷◌, ◌==◌,
  leb, length, if◌then◌else◌, ◌++◌, ltb,
}

-- What the reading of all batches ends with; `unfinished` is for the fuel of the model only.
pub data Reading (K : Type 0) : Type 0 where
  batches : List (List K) → Reading K
  malformed : Reading K
  unfinished : Reading K

module _ {K : Type 0} where
  abbrev pub before : List K → Reading K → Reading K
  before b (batches bs) = batches (b ∷ bs)
  before b malformed = malformed
  before b unfinished = unfinished

  unfoldable pub is_empty : List K → Bool
  is_empty [] = true
  is_empty (k ∷ ks) = false

  -- `read_primary_key_batches` from an offset. `execute offset limit` is the normalized result of
  -- the generated query, none when the connector raises or its result is malformed.
  unfoldable pub read_primary_key_batches : ℕ → (ℕ → ℕ → Option (List K)) → ℕ → ℕ → Reading K
  unfolding is_empty
  read_primary_key_batches zero execute batch_size offset = unfinished
  read_primary_key_batches (suc fuel) execute batch_size offset = elim (execute offset batch_size) [
    | none ↦ malformed
    | some batch ↦
        let rest = read_primary_key_batches fuel execute batch_size (offset + length batch) in
        if not (leb (length batch) batch_size)
        then malformed
        else if is_empty batch
        then batches []
        else before batch rest
  ]

-- PrimaryKeyReconciliation of schemabridge/models/validation.py
pub record PrimaryKeyReconciliation : Type 0 where
  pub source_key_count : ℕ
  pub target_key_count : ℕ
  pub missing_key_count : ℕ
  pub extra_key_count : ℕ
  pub source_duplicate_key_count : ℕ
  pub target_duplicate_key_count : ℕ

-- PrimaryKeyReconciliation.matches
unfoldable pub matches : PrimaryKeyReconciliation → Bool
matches r =
    (r.missing_key_count == 0)
    && ((r.extra_key_count == 0)
        && ((r.source_duplicate_key_count == 0) && (r.target_duplicate_key_count == 0)))

module _ {K : Type 0} where
  -- `key for batch in batches for key in batch`
  abbrev pub flatten : List (List K) → List K
  flatten [] = []
  flatten (b ∷ bs) = b ++ flatten bs

  -- `sum(counter.values())`
  unfoldable pub sum_values : List (K × ℕ) → ℕ
  sum_values [] = 0
  sum_values ((k, n) ∷ m) = n + sum_values m

  -- `sum(count - 1 for count in counter.values() if count > 1)`
  unfoldable pub sum_duplicates : List (K × ℕ) → ℕ
  sum_duplicates [] = 0
  sum_duplicates ((k, n) ∷ m) = if ltb 1 n then (n - 1) + sum_duplicates m else sum_duplicates m

  module _ (same : K → K → Bool) where
    -- `counter[key]`, zero for a missing key.
    unfoldable pub count_of : K → List (K × ℕ) → ℕ
    count_of k [] = 0
    count_of k ((j, n) ∷ m) = if same j k then n else count_of k m

    -- `counter[key] += 1`
    unfoldable pub increment : K → List (K × ℕ) → List (K × ℕ)
    increment k [] = (k, 1) ∷ []
    increment k ((j, n) ∷ m) = if same j k then (j, suc n) ∷ m else (j, n) ∷ increment k m

    -- `Counter(iterable)`, from the counts of what came before.
    unfoldable pub counter : List (K × ℕ) → List K → List (K × ℕ)
    unfolding increment
    counter m [] = m
    counter m (k ∷ ks) = counter (increment k m) ks

    -- `source - target` keeps the positive differences of the counts.
    unfoldable pub subtract : List (K × ℕ) → List (K × ℕ) → List (K × ℕ)
    unfolding count_of
    subtract [] n = []
    subtract ((k, c) ∷ m) n =
        if ltb (count_of k n) c then (k, c - count_of k n) ∷ subtract m n else subtract m n

    unfoldable pub reconcile_primary_key_batches :
        List (List K) → List (List K) → PrimaryKeyReconciliation
    unfolding counter subtract sum_values sum_duplicates
    reconcile_primary_key_batches source_batches target_batches =
        let source = counter [] (flatten source_batches) in
        let target = counter [] (flatten target_batches) in
        record {
          source_key_count = sum_values source;
          target_key_count = sum_values target;
          missing_key_count = sum_values (subtract source target);
          extra_key_count = sum_values (subtract target source);
          source_duplicate_key_count = sum_duplicates source;
          target_duplicate_key_count = sum_duplicates target;
        }
