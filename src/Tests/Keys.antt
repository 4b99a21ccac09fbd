-- ===== src/Tests/Keys.antt =====
-- Two readings of the keys one, two and three, and a path to VALIDATED.
use schemabridge.Base.{
  ℕ, ◌≤◌, ◌≡◌, ◌↔◌, refl, true, Bool, some, List, [], ◌∷◌, ◌==◌, ==_iff, arith, length,
  length-take-le, take, drop,
}
use schemabridge.Model.Status.{
  draft, discovered, mapping_proposed, mapping_approved, staging, staged, execution_ready,
  executing, executed, validating, validated, allowed_transitions, member, same_status,
}
use schemabridge.Model.Gates.{Route, stop, step, visited, InOrder, validated_gates}
use schemabridge.Validation.KeyBatches.{
  batches, read_primary_key_batches, flatten, reconcile_primary_key_batches, matches,
}
use schemabridge.Validation.KeyBatches.Paging.{Pages, read_primary_key_batches_all}
use schemabridge.Validation.KeyBatches.Counting.{occurrences, reconcile-matches, reconcile_counts}

abbrev same_key : ℕ → ℕ → Bool
same_key a b = a == b

abbrev keys : List ℕ
keys = 1 ∷ 2 ∷ 3 ∷ []

-- A connector that returns one row for each query.
abbrev page_of : ℕ → List ℕ
page_of offset = take 1 (drop offset keys)

page_of_bound : (offset : ℕ) → length (take 1 (drop offset keys)) ≤ 1
page_of_bound offset = length-take-le 1 (drop offset keys)

take_again : (l : List ℕ) → take 1 l ≡ take (length (take 1 l)) l
take_again [] = refl
take_again (x ∷ l) = refl

empty_page : (l : List ℕ) → take 1 l ≡ [] → l ≡ []
empty_page [] h = refl
empty_page (x ∷ l) h = cc

pages : Pages keys 2 (λ offset limit. some (page_of offset))
pages = record {
  page = page_of;
  returned = λ offset. refl;
  bounded = λ offset. let h = page_of_bound offset in omega arith;
  from_offset = λ offset. take_again (drop offset keys);
  advances = λ offset. empty_page (drop offset keys);
}

read_primary_key_batches_all_example :
    (bs : List (List ℕ)) × (read_primary_key_batches 4 (λ offset limit. some (page_of offset)) 2 0
      ≡ batches bs)
    × (flatten bs ≡ keys)
read_primary_key_batches_all_example =
    read_primary_key_batches_all keys 2 (λ offset limit. some (page_of offset)) pages 4
      (omega arith)

abbrev source : List (List ℕ)
source = (1 ∷ 2 ∷ []) ∷ (3 ∷ []) ∷ []

abbrev target : List (List ℕ)
target = (3 ∷ 1 ∷ []) ∷ (2 ∷ []) ∷ []

reconcile-matches_example :
    (matches (reconcile_primary_key_batches same_key source target) ≡ true) ↔ (
      (k : ℕ)
      → (occurrences same_key ==_iff k (flatten source)
          ≡ occurrences same_key ==_iff k (flatten target))
        × (occurrences same_key ==_iff k (flatten source) ≤ 1))
reconcile-matches_example = reconcile-matches same_key ==_iff source target

reconcile_counts_example :
    ((reconcile_primary_key_batches same_key source target).source_key_count ≡ 3)
    × ((reconcile_primary_key_batches same_key source target).target_key_count ≡ 3)
reconcile_counts_example = reconcile_counts same_key ==_iff source target

-- With a staging load that is recovered once.
abbrev path : Route draft validated
unfolding member same_status allowed_transitions
path = step draft discovered refl (
    step discovered mapping_proposed refl (
      step mapping_proposed mapping_approved refl (
        step mapping_approved staging refl (
          step staging mapping_approved refl (
            step mapping_approved staging refl (
              step staging staged refl (
                step staged execution_ready refl (
                  step execution_ready executing refl (
                    step executing executed refl (
                      step executed validating refl
                        (step validating validated refl (stop validated))))))))))))

validated_gates_example :
    InOrder
      (discovered ∷ mapping_proposed ∷ mapping_approved ∷ execution_ready ∷ executing ∷ executed
        ∷ validating ∷ validated ∷ [])
      (visited path)
validated_gates_example = validated_gates path
