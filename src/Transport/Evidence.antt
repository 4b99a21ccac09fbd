-- ===== src/Transport/Evidence.antt =====
-- What a transfer that returns has done.
use schemabridge.Base.{
  ℕ, suc, ◌+◌, ◌≤◌, ◌≡◌, refl, sym, ap, ◌∙◌, Bool, true, false, Option, List, [], ◌∷◌, ◌++◌, length,
  map, arith, subst,
}
use mathlib.Core.List.{append-nil, append_assoc}
use schemabridge.Base.Text.{Text}
use schemabridge.Model.Progress.{BatchTransportProgress}
use schemabridge.Transport.Batch.{
  StagingTableDefinition, column_names, DataBatch, row_count, BatchWriteResult,
}
use schemabridge.Transport.Service.{
  Failure, Attempt, done, failed, Writer, Reporter, Totals, progress_of, same_names, is_expected,
  is_evidence, add_batch, and_then, check, report_progress, copy_batch, copy_batches,
  invariant_violated,
}

module _ {S : Type 0} where
  pub and_then-done :
      {A B : Type 0} (m : S × Attempt A) (k : S → A → S × Attempt B) {t : S} {b : B}
      → and_then m k ≡ (t, done b)
      → (s : S) × (a : A) × (m ≡ (s, done a)) × (k s a ≡ (t, done b))
  and_then-done (s, done a) k h = (s, a, refl, h)
  and_then-done (s, failed f) k h = cc

  pub check-done :
      (b : Bool) (f : Failure) (s : S) {t : S} {u : Unit {0}}
      → check b f s ≡ (t, done u)
      → (b ≡ true) × (s ≡ t)
  check-done true f s h = (refl, ap (λ p. p.0) h)
  check-done false f s h = cc

value_or : {A : Type 0} → A → Attempt A → A
value_or a (done b) = b
value_or a (failed f) = a

pub done-injective : {A : Type 0} {a b : A} → done a ≡ done b → b ≡ a
unfolding value_or
done-injective {a} h = sym (ap (value_or a) h)

module _ {Value : Type 0} where
  abbrev pub total_rows : List (DataBatch Value) → ℕ
  total_rows [] = 0
  total_rows (b ∷ bs) = row_count b + total_rows bs

  abbrev pub all_rows : List (DataBatch Value) → List (List Value)
  all_rows [] = []
  all_rows (b ∷ bs) = b.rows ++ all_rows bs

  -- Batches numbered from `n` on, each with the columns `names` and at most `size` rows.
  abbrev pub InSequence : ℕ → List Text → ℕ → List (DataBatch Value) → Type 0
  InSequence n names size [] = Unit
  InSequence n names size (b ∷ bs) =
      (b.batch_number ≡ n)
      × (same_names b.names names ≡ true)
      × (row_count b ≤ size)
      × InSequence (suc n) names size bs

  module _ {S : Type 0} (writer : Writer S Value) (reporter : Option (Reporter S)) where
    -- The content of the staging table as the connectors treat it: prepared empty, extended by the
    -- rows of a batch that the writer confirms, and not touched by the reporter.
    pub record IsFaithful (content : S → List (List Value)) : Type 0 where
      pub prepared :
          (d : StagingTableDefinition) (s t : S) {u : Unit {0}}
          → writer.prepare_staging_table d s ≡ (t, done u)
          → content t ≡ []
      pub written :
          (d : StagingTableDefinition) (b : DataBatch Value) (s t : S) (w : BatchWriteResult)
          → writer.write_batch d b s ≡ (t, done w)
          → w.rows_written ≡ row_count b
          → content t ≡ content s ++ b.rows
      pub reported :
          (x : BatchTransportProgress) (s t : S) {u : Unit {0}}
          → report_progress reporter x s ≡ (t, done u)
          → content t ≡ content s

    module _ (d : StagingTableDefinition) (size : ℕ) (estimate : Option ℕ) where
      pub copy_batch-done :
          (totals : Totals) (b : DataBatch Value) (s t : S) (next : Totals)
          → copy_batch writer reporter d size estimate totals b s ≡ (t, done next)
          → (is_expected (column_names d) size totals b ≡ true)
            × ((next.batch_count ≡ suc totals.batch_count)
                × (next.rows_read ≡ totals.rows_read + row_count b)
                × (next.rows_written ≡ totals.rows_written + row_count b))
            × ((content : S → List (List Value))
                → IsFaithful content
                → content t ≡ content s ++ b.rows)
      unfolding copy_batch is_evidence
      copy_batch-done totals b s t next h =
          let (s₁, _, c₁, h₁) =
            and_then-done (check (is_expected (column_names d) size totals b) invariant_violated s)
              _ h in
          let (s₂, w, c₂, h₂) = and_then-done (writer.write_batch d b s₁) _ h₁ in
          let (s₃, _, c₃, h₃) =
            and_then-done (check (is_evidence b w) invariant_violated s₂) _ h₂ in
          let progress = progress_of estimate (add_batch b w totals) in
          let (s₄, _, c₄, h₄) = and_then-done (report_progress reporter progress s₃) _ h₃ in
          let (expected, e₁) = check-done _ invariant_violated s c₁ in
          let (evidence, e₂) = check-done _ invariant_violated s₂ c₃ in
          let all_written : w.rows_written ≡ row_count b = ground arith in
          let result : next ≡ add_batch b w totals = done-injective (ap (λ p. p.1) h₄) in
          (
            expected,
            (rw result refl, rw result refl, rw (result, all_written) refl),
            λ content f.
                sym (ap content (ap (λ p. p.0) h₄))
                ∙ f.reported progress s₃ s₄ c₄
                ∙ sym (ap content e₂)
                ∙ f.written d b s₁ s₂ w c₂ all_written
                ∙ sym (ap (λ x. content x ++ b.rows) e₁),
          )

      -- Every item was a batch, each one was accepted, and the totals are theirs.
      pub record Copied (totals next : Totals) (items : List (Attempt (DataBatch Value))) (s t : S)
          : Type 0 where
        pub batches : List (DataBatch Value)
        pub yielded : items ≡ map done batches
        pub in_sequence : InSequence (suc totals.batch_count) (column_names d) size batches
        pub batch_count : next.batch_count ≡ totals.batch_count + length batches
        pub rows_read : next.rows_read ≡ totals.rows_read + total_rows batches
        pub rows_written : next.rows_written ≡ totals.rows_written + total_rows batches
        pub stored :
            (content : S → List (List Value))
            → IsFaithful content
            → content t ≡ content s ++ all_rows batches

      pub copy_batches-done :
          (totals : Totals) (items : List (Attempt (DataBatch Value))) (s t : S) (next : Totals)
          → copy_batches writer reporter d size estimate totals items s ≡ (t, done next)
          → Copied totals next items s t
      unfolding copy_batches is_expected
      copy_batches-done totals [] s t next h =
          let same : next ≡ totals = done-injective (ap (λ p. p.1) h) in
          record {
            batches = [];
            yielded = refl;
            in_sequence = tt;
            batch_count = rw same (omega arith);
            rows_read = rw same (omega arith);
            rows_written = rw same (omega arith);
            stored = λ content f. sym (ap content (ap (λ p. p.0) h)) ∙ sym (append-nil (content s));
          }
      copy_batches-done totals (failed f ∷ items) s t next h = absurd cc
      copy_batches-done totals (done b ∷ items) s t next h =
          let (s₁, mid, c, h₁) =
            and_then-done (copy_batch writer reporter d size estimate totals b s) _ h in
          let (expected, (count, read, written), stored) = copy_batch-done totals b s s₁ mid c in
          let rest = copy_batches-done mid items s₁ t next h₁ in
          record {
            batches = b ∷ rest.batches;
            yielded = ap (◌∷◌ (done b)) rest.yielded;
            in_sequence = (
              ground arith,
              ground arith,
              ground arith,
              subst (λ n. InSequence (suc n) (column_names d) size rest.batches) count
                  rest.in_sequence,
            );
            batch_count = omega (arith, rest.batch_count, count);
            rows_read = omega (arith, rest.rows_read, read);
            rows_written = omega (arith, rest.rows_written, written);
            stored = λ content f.
                rest.stored content f
                ∙ ap (λ l. l ++ all_rows rest.batches) (stored content f)
                ∙ append_assoc (content s) b.rows (all_rows rest.batches);
          }
