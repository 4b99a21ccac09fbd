-- ===== src/Transport/Success.antt =====
-- A transfer between reliable connectors returns.
use schemabridge.Base.{
  ℕ, suc, ◌≤◌, ◌≡◌, refl, true, ◌&&◌, Option, some, List, [], ◌∷◌, ◌==◌, leb, length, map, arith,
  All,
}
use schemabridge.Base.Text.{Text}
use schemabridge.Model.Progress.{BatchTransportProgress, valid_progress, same_bool}
use schemabridge.Transport.Batch.{
  TransportRelation, StagingTableDefinition, column_names, DataBatch, row_count, BatchWriteResult,
  BatchTransportResult, valid_result, valid_transport_relation,
}
use schemabridge.Transport.Service.{
  Attempt, done, SourceTable, Writer, Reporter, Totals, zero_totals, copy_batch, copy_batches,
  source_relation, transfer_into, transfer, staging_relation, staging_definition, or_fail, finish,
  report_progress, is_expected, is_evidence, add_batch, progress_of,
}
use schemabridge.Transport.Evidence.{InSequence}

abbrev confirmation : {Value : Type 0} → DataBatch Value → BatchWriteResult
confirmation b = record {
  batch_number = b.batch_number;
  rows_received = row_count b;
  rows_written = row_count b;
}

module _ {S Value : Type 0} (writer : Writer S Value) (reporter : Option (Reporter S)) where
  -- Connectors that never raise, and a writer that confirms every row of a batch.
  pub record IsReliable : Type 0 where
    pub prepares :
        (d : StagingTableDefinition) (s : S)
        → (t : S) × (writer.prepare_staging_table d s ≡ (t, done tt))
    pub writes :
        (d : StagingTableDefinition) (b : DataBatch Value) (s : S)
        → (t : S) × (writer.write_batch d b s ≡ (t, done (confirmation b)))
    pub reports :
        (x : BatchTransportProgress) (s : S)
        → valid_progress x ≡ true
        → (t : S) × (report_progress reporter x s ≡ (t, done tt))

  -- The totals agree with each other, as valid progress asks.
  AreSound : Totals → Type 0
  AreSound x =
      (x.rows_read ≡ x.rows_written) × (same_bool (x.batch_count == 0) (x.rows_read == 0) ≡ true)

  module _ (reliable : IsReliable) (d : StagingTableDefinition) (size : ℕ)
      (estimate : Option ℕ) where
    copy_batch_returns :
        (totals : Totals) (b : DataBatch Value) (s : S)
        → 1 ≤ row_count b
        → AreSound totals
        → is_expected (column_names d) size totals b ≡ true
        → (t : S) × (copy_batch writer reporter d size estimate totals b s
            ≡ (t, done (add_batch b (confirmation b) totals)))
    unfolding copy_batch AreSound is_evidence valid_progress
    copy_batch_returns totals b s some_rows sound expected =
        let (s₁, c₁) = reliable.writes d b s in
        let progress : BatchTransportProgress =
          progress_of estimate (add_batch b (confirmation b) totals) in
        let (s₂, c₂) = reliable.reports progress s₁ (ground arith) in
        let evidence : is_evidence b (confirmation b) ≡ true = ground arith in
        (s₂, rw (expected, c₁, evidence, c₂) refl)

    copy_batches_returns :
        (totals : Totals) (bs : List (DataBatch Value)) (s : S)
        → All (λ b. 1 ≤ row_count b) bs
        → AreSound totals
        → InSequence (suc totals.batch_count) (column_names d) size bs
        → (t : S) × (out : Totals) × (copy_batches writer reporter d size estimate totals
              (map done bs)
              s
            ≡ (t, done out))
          × AreSound out
    unfolding copy_batches is_expected AreSound
    copy_batches_returns totals [] s some_rows sound seq = (s, totals, refl, sound)
    copy_batches_returns totals (b ∷ bs) s some_rows sound seq =
        let expected : is_expected (column_names d) size totals b ≡ true =
          ground (arith, seq.0, seq.1, seq.2) in
        let (s₁, c) = copy_batch_returns totals b s some_rows.0 sound expected in
        let next : Totals = add_batch b (confirmation b) totals in
        let (t, out, c₁, sound₁) =
          copy_batches_returns next bs s₁ some_rows.1 (ground (arith, some_rows.0, sound.0))
            seq.3 in
        (t, out, rw c c₁, sound₁)

  -- Let the connectors be reliable and let the request be valid: positive limits, relations and a
  -- staging definition that pass their validation. If the reader yields non-empty batches in
  -- sequence, each with the columns asked for and at most `batch_size` rows, the transfer returns a
  -- result.
  pub transfer_returns :
      (reliable : IsReliable)
      (read : TransportRelation → List Text → ℕ → List (Attempt (DataBatch Value)))
      (name_of : ℕ → Text) (id : ℕ) (source : SourceTable) (database schema : Text)
      (size timeout : ℕ) (s : S) (relation : TransportRelation) (d : StagingTableDefinition)
      (bs : List (DataBatch Value))
      → 1 ≤ size
      → 1 ≤ timeout
      → staging_relation name_of id database schema ≡ some relation
      → staging_definition source relation ≡ some d
      → valid_transport_relation (source_relation source) ≡ true
      → 1 ≤ length (column_names d)
      → read (source_relation source) (column_names d) size ≡ map done bs
      → All (λ b. 1 ≤ row_count b) bs
      → InSequence 1 (column_names d) size bs
      → (t : S) × (r : BatchTransportResult) × (transfer writer reporter name_of read id source
            database schema size timeout s
          ≡ (t, done r))
  unfolding transfer transfer_into or_fail finish AreSound valid_result
  transfer_returns reliable read name_of id source database schema size timeout s relation d bs h₁
        h₂ q₁ q₂ q₃ columns yielded some_rows seq =
      let (s₁, c₁) = reliable.prepares d s in
      let (t, out, c₂, sound) =
        copy_batches_returns reliable d size source.estimated_row_count zero_totals bs s₁ some_rows
          (refl, refl) seq in
      let limits : (leb 1 size && leb 1 timeout) ≡ true = ground arith in
      let r : BatchTransportResult = record {
        transport_id = id;
        source_relation = source_relation source;
        staging_relation = d.relation;
        batch_size = size;
        batch_count = out.batch_count;
        column_count = length (column_names d);
        rows_read = out.rows_read;
        rows_written = out.rows_written;
      } in
      let valid : valid_result r ≡ true = ground (arith, sound.0, sound.1) in
      (t, r, rw (limits, q₁, q₂, q₃, c₁, yielded, c₂, valid) refl)
