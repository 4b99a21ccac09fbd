-- ===== src/Transport/Service.antt =====
-- BatchTransportService.transfer. The reader, the writer and the progress reporter are parameters
-- over a state `S` of the outside world, which they may change also when they raise.
use schemabridge.Base.{
  ℕ, suc, ◌+◌, Bool, true, false, ◌&&◌, Option, none, some, List, [], ◌∷◌, ◌==◌, leb, length,
  if◌then◌else◌,
}
use schemabridge.Base.Text.{Text, text_eq}
use schemabridge.Model.Progress.{BatchTransportProgress, valid_progress}
use schemabridge.Transport.Batch.{
  TransportRelation, valid_transport_relation, StagingColumn, StagingTableDefinition,
  valid_definition, valid_identifier, column_names, DataBatch, row_count, BatchWriteResult,
  BatchTransportResult, valid_result,
}

-- The exceptions that `transfer` may end with.
pub data Failure : Type 0 where
  invalid_request : Failure
  reader_failed : Failure
  writer_failed : Failure
  invariant_violated : Failure
  progress_reporting_failed : Failure

pub data Attempt (A : Type 0) : Type 0 where
  done : A → Attempt A
  failed : Failure → Attempt A

-- A column of TableMetadata, with the fields that the staging table takes over.
abbrev pub SourceColumn : Type 0
SourceColumn = StagingColumn

-- TableMetadata, with the fields that a transfer reads.
pub record SourceTable : Type 0 where
  pub catalog_name : Option Text
  pub schema_name : Text
  pub object_name : Text
  pub columns : List SourceColumn
  pub estimated_row_count : Option ℕ

-- StagingTableWriter
pub record Writer (S Value : Type 0) : Type 0 where
  pub prepare_staging_table : StagingTableDefinition → S → S × Attempt (Unit {0})
  pub write_batch : StagingTableDefinition → DataBatch Value → S → S × Attempt BatchWriteResult
  pub drop_staging_table : TransportRelation → S → S × Attempt (Unit {0})

-- BatchProgressReporter.report
abbrev pub Reporter : Type 0 → Type 0
Reporter S = BatchTransportProgress → S → S × Attempt (Unit {0})

-- `staging_relation`: the name ends with the hexadecimal digits of the identifier.
unfoldable pub staging_relation : (ℕ → Text) → ℕ → Text → Text → Option TransportRelation
staging_relation name_of transport_id target_database target_schema =
    if valid_identifier target_database && valid_identifier target_schema
    then some (record {
      catalog_name = some target_database;
      schema_name = target_schema;
      object_name = name_of transport_id;
    })
    else none

-- `staging_definition`
unfoldable pub staging_definition : SourceTable → TransportRelation → Option StagingTableDefinition
staging_definition source relation =
    let d : StagingTableDefinition = record { relation = relation; columns = source.columns } in
    if valid_definition d then some d else none

unfoldable pub same_names : List Text → List Text → Bool
same_names [] [] = true
same_names [] (y ∷ ys) = false
same_names (x ∷ xs) [] = false
same_names (x ∷ xs) (y ∷ ys) = text_eq x y && same_names xs ys

-- The running totals of the loop.
pub record Totals : Type 0 where
  pub batch_count : ℕ
  pub rows_read : ℕ
  pub rows_written : ℕ

abbrev pub zero_totals : Totals
zero_totals = record { batch_count = 0; rows_read = 0; rows_written = 0 }

abbrev pub progress_of : Option ℕ → Totals → BatchTransportProgress
progress_of estimate totals = record {
  batches_completed = totals.batch_count;
  rows_read = totals.rows_read;
  rows_written = totals.rows_written;
  total_rows_estimate = estimate;
}

abbrev pub source_relation : SourceTable → TransportRelation
source_relation t = record {
  catalog_name = t.catalog_name;
  schema_name = t.schema_name;
  object_name = t.object_name;
}

module _ {Value : Type 0} where
  -- The test on a batch of the reader.
  unfoldable pub is_expected : List Text → ℕ → Totals → DataBatch Value → Bool
  unfolding same_names
  is_expected names batch_size totals batch =
      (batch.batch_number == suc totals.batch_count)
      && (same_names batch.names names && leb (row_count batch) batch_size)

  -- The test on the evidence of the writer.
  unfoldable pub is_evidence : DataBatch Value → BatchWriteResult → Bool
  is_evidence batch written =
      (written.batch_number == batch.batch_number)
      && ((written.rows_received == row_count batch) && (written.rows_written == row_count batch))

  abbrev pub add_batch : DataBatch Value → BatchWriteResult → Totals → Totals
  add_batch batch written totals = record {
    batch_count = suc totals.batch_count;
    rows_read = totals.rows_read + row_count batch;
    rows_written = totals.rows_written + written.rows_written;
  }

module _ {S : Type 0} where
  abbrev pub and_then : {A B : Type 0} → S × Attempt A → (S → A → S × Attempt B) → S × Attempt B
  and_then (s, done a) k = k s a
  and_then (s, failed f) k = (s, failed f)

  abbrev pub check : Bool → Failure → S → S × Attempt (Unit {0})
  check true f s = (s, done tt)
  check false f s = (s, failed f)

  -- `except Exception`: any exception of the reporter is the same failure.
  or_reporting_failed : S × Attempt (Unit {0}) → S × Attempt (Unit {0})
  or_reporting_failed (s, done u) = (s, done u)
  or_reporting_failed (s, failed f) = (s, failed progress_reporting_failed)

  -- An invalid progress is an exception too.
  unfoldable pub report_progress :
      Option (Reporter S) → BatchTransportProgress → S → S × Attempt (Unit {0})
  unfolding or_reporting_failed
  report_progress none progress s = (s, done tt)
  report_progress (some report) progress s =
      if valid_progress progress
      then or_reporting_failed (report progress s)
      else (s, failed progress_reporting_failed)

  -- The BatchTransportResult at the end; its validation may raise.
  unfoldable pub finish : BatchTransportResult → S → S × Attempt BatchTransportResult
  finish result s = if valid_result result then (s, done result) else (s, failed invalid_request)

  unfoldable pub or_fail : {A : Type 0} → Option A → S → S × Attempt A
  or_fail none s = (s, failed invalid_request)
  or_fail (some a) s = (s, done a)

  module _ {Value : Type 0} (writer : Writer S Value) (reporter : Option (Reporter S)) where
    module _ (definition : StagingTableDefinition) (batch_size : ℕ) (estimate : Option ℕ) where
      -- One turn of the loop.
      unfoldable pub copy_batch : Totals → DataBatch Value → S → S × Attempt Totals
      copy_batch totals batch s =
          and_then
            (check (is_expected (column_names definition) batch_size totals batch)
              invariant_violated s)
            λ s₁ _. and_then (writer.write_batch definition batch s₁) λ s₂ written.
              and_then (check (is_evidence batch written) invariant_violated s₂) λ s₃ _.
                and_then
                  (report_progress reporter (progress_of estimate (add_batch batch written totals))
                    s₃)
                  λ s₄ _. (s₄, done (add_batch batch written totals))

      -- The loop over what the reader yields: a batch, or an exception.
      unfoldable pub copy_batches :
          Totals → List (Attempt (DataBatch Value)) → S → S × Attempt Totals
      unfolding copy_batch
      copy_batches totals [] s = (s, done totals)
      copy_batches totals (failed f ∷ items) s = (s, failed reader_failed)
      copy_batches totals (done batch ∷ items) s =
          and_then (copy_batch totals batch s) λ s₁ next. copy_batches next items s₁

    -- The relations and the definition are built before the first effect.
    unfoldable pub transfer_into :
        (TransportRelation → List Text → List (Attempt (DataBatch Value)))
        → ℕ
        → SourceTable
        → ℕ
        → StagingTableDefinition
        → S
        → S × Attempt BatchTransportResult
    unfolding copy_batches finish
    transfer_into read_batches transport_id source batch_size definition s =
        and_then (check (valid_transport_relation (source_relation source)) invalid_request s)
          λ s₁ _. and_then (writer.prepare_staging_table definition s₁) λ s₂ _.
            and_then
              (copy_batches definition batch_size source.estimated_row_count zero_totals
                (read_batches (source_relation source) (column_names definition)) s₂)
              λ s₃ totals.
                finish
                  record {
                    transport_id = transport_id;
                    source_relation = source_relation source;
                    staging_relation = definition.relation;
                    batch_size = batch_size;
                    batch_count = totals.batch_count;
                    column_count = length (column_names definition);
                    rows_read = totals.rows_read;
                    rows_written = totals.rows_written;
                  }
                  s₃

    -- `name_of` writes the name of the staging table; the timeout is part of the connectors.
    unfoldable pub transfer :
        (ℕ → Text)
        → (TransportRelation → List Text → ℕ → List (Attempt (DataBatch Value)))
        → ℕ
        → SourceTable
        → Text
        → Text
        → ℕ
        → ℕ
        → S
        → S × Attempt BatchTransportResult
    unfolding transfer_into or_fail
    transfer name_of read_batches transport_id source database schema batch_size timeout s =
        and_then (check (leb 1 batch_size && leb 1 timeout) invalid_request s) λ s₁ _.
          and_then (or_fail (staging_relation name_of transport_id database schema) s₁)
            λ s₂ relation.
              and_then (or_fail (staging_definition source relation) s₂) λ s₃ definition.
                transfer_into (λ r names. read_batches r names batch_size) transport_id source
                  batch_size definition s₃
