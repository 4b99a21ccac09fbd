-- ===== src/Transport/Transfer.antt =====
-- The whole of BatchTransportService.transfer: what its result says of the batches and the staging
-- table, and when its result is valid.
use schemabridge.Base.{
  ℕ, suc, ◌≡◌, refl, sym, ap, ◌∙◌, subst, true, ◌&&◌, Option, none, some, List, [], ◌∷◌, ◌++◌, leb,
  length, map, arith, Bool-cases, inl, inr,
}
use schemabridge.Base.Text.{Text}
use schemabridge.Transport.Batch.{
  TransportRelation, StagingColumn, StagingTableDefinition, column_names, DataBatch,
  BatchTransportResult, valid_result, valid_transport_relation,
}
use schemabridge.Transport.Service.{
  Attempt, done, failed, SourceTable, Writer, Reporter, zero_totals, check, copy_batches,
  source_relation, transfer_into, transfer, staging_relation, staging_definition, invalid_request,
  or_fail, finish,
}
use schemabridge.Transport.Evidence.{
  and_then-done, done-injective, total_rows, all_rows, InSequence, IsFaithful, copy_batches-done,
}

length-names : (l : List StagingColumn) → length (map (λ c. c.name) l) ≡ length l
length-names [] = refl
length-names (c ∷ l) = ap suc (length-names l)

staging_definition_inv :
    (source : SourceTable) (relation : TransportRelation) (d : StagingTableDefinition)
    → staging_definition source relation ≡ some d
    → record { relation = relation; columns = source.columns } ≡ d
unfolding staging_definition
staging_definition_inv source relation d h = ground arith

module _ {S : Type 0} where
  finish-done :
      (r q : BatchTransportResult) (s t : S)
      → finish r s ≡ (t, done q)
      → (valid_result r ≡ true) × (s ≡ t) × (q ≡ r)
  unfolding finish
  finish-done r q s t h = elim (Bool-cases (valid_result r)) [
    | inl v ↦
        let p : ◌≡◌ {A = S × Attempt BatchTransportResult} (s, done r) (t, done q) = rw v at h in
        (v, ap (λ x. x.0) p, done-injective (ap (λ x. x.1) p))
    | inr v ↦ absurd (
        let p : ◌≡◌ {A = S × Attempt BatchTransportResult} (s, failed invalid_request) (t, done q) =
          rw v at h in
        cc)
  ]

  or_fail-done :
      {A : Type 0} (o : Option A) (s t : S) {a : A}
      → or_fail o s ≡ (t, done a)
      → (o ≡ some a) × (s ≡ t)
  unfolding or_fail
  or_fail-done none s t h = cc
  or_fail-done (some x) s t h = (ap some (sym (done-injective (ap (λ p. p.1) h))), ap (λ p. p.0) h)

module _ {S Value : Type 0} (writer : Writer S Value) (reporter : Option (Reporter S))
    (read : TransportRelation → List Text → ℕ → List (Attempt (DataBatch Value))) where
  -- What a transfer of `source` into the table `relation` has done when it returns the result `r`.
  pub record Transferred (source : SourceTable) (relation : TransportRelation) (size : ℕ)
      (r : BatchTransportResult) (t : S) : Type 0 where
    pub batches : List (DataBatch Value)
    pub yielded :
        read (source_relation source) (map (λ c. c.name) source.columns) size ≡ map done batches
    pub in_sequence : InSequence 1 (map (λ c. c.name) source.columns) size batches
    pub column_count : r.column_count ≡ length source.columns
    pub loaded_into : r.staging_relation ≡ relation
    pub batch_count : r.batch_count ≡ length batches
    pub rows_read : r.rows_read ≡ total_rows batches
    pub rows_written : r.rows_written ≡ total_rows batches
    pub valid : valid_result r ≡ true
    pub stored :
        (content : S → List (List Value))
        → IsFaithful writer reporter content
        → content t ≡ all_rows batches

  pub transfer_into-done :
      (id : ℕ) (source : SourceTable) (relation : TransportRelation) (size : ℕ) (s t : S)
      (r : BatchTransportResult)
      → transfer_into writer reporter
          (λ x names. read x names size)
          id
          source
          size
          (record { relation = relation; columns = source.columns })
          s
        ≡ (t, done r)
      → Transferred source relation size r t
  unfolding transfer_into
  transfer_into-done id source relation size s t r h =
      let d : StagingTableDefinition = record { relation = relation; columns = source.columns } in
      let (s₁, _, c₁, h₁) =
        and_then-done (check (valid_transport_relation (source_relation source)) invalid_request s)
          _ h in
      let (s₂, _, c₂, h₂) = and_then-done (writer.prepare_staging_table d s₁) _ h₁ in
      let items = read (source_relation source) (column_names d) size in
      let (s₃, totals, c₃, h₃) =
        and_then-done
          (copy_batches writer reporter d size source.estimated_row_count zero_totals items s₂) _
          h₂ in
      let x =
        copy_batches-done writer reporter d size source.estimated_row_count zero_totals items s₂ s₃
          totals c₃ in
      let (valid, e, same) = finish-done _ r s₃ t h₃ in
      record {
        batches = x.batches;
        yielded = x.yielded;
        in_sequence = x.in_sequence;
        column_count = rw same (length-names source.columns);
        loaded_into = rw same refl;
        batch_count = rw same (omega (arith, x.batch_count));
        rows_read = rw same (omega (arith, x.rows_read));
        rows_written = rw same (omega (arith, x.rows_written));
        valid = rw same valid;
        stored = λ content f.
            sym (ap content e)
            ∙ x.stored content f
            ∙ ap (λ l. l ++ all_rows x.batches) (f.prepared d s₁ s₂ c₂);
      }

  -- A transfer that returns has read the whole source: the reader, asked for all columns of the
  -- source table, yielded batches only, numbered one, two, three and so on, each with exactly these
  -- columns and at most `batch_size` rows. The result names the staging table of the transport,
  -- counts exactly these columns, batches and their rows, as read and as written, and is valid.
  -- With connectors that treat the staging table as they promise, the table then holds the rows of
  -- the batches, all of them, once and in the order in which they were read.
  pub transfer-done :
      (name_of : ℕ → Text) (id : ℕ) (source : SourceTable) (database schema : Text)
      (size timeout : ℕ) (s t : S) (r : BatchTransportResult)
      → transfer writer reporter name_of read id source database schema size timeout s ≡ (t, done r)
      → (relation : TransportRelation) × (staging_relation name_of id database schema
          ≡ some relation)
        × Transferred source relation size r t
  unfolding transfer
  transfer-done name_of id source database schema size timeout s t r h =
      let (s₁, _, c₁, h₁) =
        and_then-done (check (leb 1 size && leb 1 timeout) invalid_request s) _ h in
      let (s₂, relation, c₂, h₂) =
        and_then-done (or_fail (staging_relation name_of id database schema) s₁) _ h₁ in
      let (s₃, d, c₃, h₃) = and_then-done (or_fail (staging_definition source relation) s₂) _ h₂ in
      let is : record { relation = relation; columns = source.columns } ≡ d =
        staging_definition_inv source relation d (or_fail-done _ s₂ s₃ c₃).0 in
      let h₄ =
        subst
          (λ x.
            transfer_into writer reporter (λ y names. read y names size) id source size x s₃
            ≡ (t, done r))
          (sym is) h₃ in
      (relation, (or_fail-done _ s₁ s₂ c₂).0, transfer_into-done id source relation size s₃ t r h₄)
