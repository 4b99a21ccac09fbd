-- ===== src/Tests/Connectors.antt =====
-- A transfer of three rows in two batches, between a reader over a list and a writer over a list.
use schemabridge.Base.{
  ℕ, ◌≡◌, refl, true, false, Option, none, some, List, [], ◌∷◌, ◌++◌, arith, length, map,
  if◌then◌else◌,
}
use schemabridge.Base.Text.{Text, codes, text_eq, is_blank, has_nul}
use schemabridge.Transport.Batch.{
  TransportRelation, StagingColumn, StagingTableDefinition, DataBatch, BatchTransportResult,
  valid_result, valid_definition, valid_transport_relation, valid_identifier,
}
use schemabridge.Transport.Service.{
  Attempt, done, failed, Failure, SourceTable, Writer, transfer, staging_relation,
  staging_definition, source_relation, report_progress, same_names, is_expected, is_evidence,
}
use schemabridge.Transport.Transfer.{Transferred, transfer-done}
use schemabridge.Transport.Success.{IsReliable, transfer_returns}
use schemabridge.Transport.Profiles.{
  Profile, ProfileService, PreparedBatchTransport, prepare, run_transport,
  ProfileBoundBatchTransportResult, confirmed_failed_cleaned_up,
}
use schemabridge.Transport.Profiles.Results.{IsLimited, prepare-some, Ran, run_transport-Ran}

abbrev Rows : Type 0
Rows = List (List ℕ)

-- A writer that appends the rows of a batch and drops all rows.
abbrev writer : Writer Rows ℕ
writer = record {
  prepare_staging_table = λ d s. ([], done tt);
  write_batch = λ d b s. (
    s ++ b.rows,
    done (record {
      batch_number = b.batch_number;
      rows_received = length b.rows;
      rows_written = length b.rows;
    }),
  );
  drop_staging_table = λ r s. ([], done tt);
}

abbrev id_column : StagingColumn
id_column = record {
  name = codes "id";
  canonical_type = 1;
  nullable = some false;
  character_length = none;
  numeric_precision = some 10;
  numeric_scale = some (false, 0);
  datetime_precision = none;
}

abbrev table : SourceTable
table = record {
  catalog_name = none;
  schema_name = codes "sales";
  object_name = codes "customers";
  columns = id_column ∷ [];
  estimated_row_count = some 3;
}

abbrev names : List Text
names = codes "id" ∷ []

abbrev first_batch : DataBatch ℕ
first_batch = record { batch_number = 1; names = names; rows = (1 ∷ []) ∷ (2 ∷ []) ∷ [] }

abbrev second_batch : DataBatch ℕ
second_batch = record { batch_number = 2; names = names; rows = (3 ∷ []) ∷ [] }

abbrev two_batches : List (DataBatch ℕ)
two_batches = first_batch ∷ second_batch ∷ []

abbrev reader : TransportRelation → List Text → ℕ → List (Attempt (DataBatch ℕ))
reader r columns size = map done two_batches

abbrev stage_name : ℕ → Text
stage_name i = codes "SB_STAGE_00000000000000000000000000000000"

abbrev staging : TransportRelation
staging = record {
  catalog_name = some (codes "DB");
  schema_name = codes "PUBLIC";
  object_name = stage_name 5;
}

abbrev definition : StagingTableDefinition
definition = record { relation = staging; columns = id_column ∷ [] }

abbrev summary : BatchTransportResult
summary = record {
  transport_id = 5;
  source_relation = source_relation table;
  staging_relation = staging;
  batch_size = 2;
  batch_count = 2;
  column_count = 1;
  rows_read = 3;
  rows_written = 3;
}

abbrev stored : Rows
stored = (1 ∷ []) ∷ (2 ∷ []) ∷ (3 ∷ []) ∷ []

transferred :
    transfer writer none stage_name reader 5 table (codes "DB") (codes "PUBLIC") 2 30 []
    ≡ (stored, done summary)
unfolding transfer staging_relation valid_identifier is_blank has_nul staging_definition
    valid_definition valid_transport_relation is_expected text_eq is_evidence report_progress
    valid_result
transferred = refl

transfer-done_example :
    (relation : TransportRelation) × (staging_relation stage_name 5 (codes "DB") (codes "PUBLIC")
      ≡ some relation)
    × Transferred writer none reader table relation 2 summary stored
transfer-done_example =
    transfer-done writer none reader stage_name 5 table (codes "DB") (codes "PUBLIC") 2 30 [] stored
      summary transferred

writer-IsReliable : IsReliable writer none
unfolding report_progress
writer-IsReliable = record {
  prepares = λ d s. ([], refl);
  writes = λ d b s. (s ++ b.rows, refl);
  reports = λ x s v. (s, refl);
}

transfer_returns_example :
    (t : Rows) × (r : BatchTransportResult) × (transfer writer none stage_name reader 5 table
        (codes "DB")
        (codes "PUBLIC")
        2
        30
        []
      ≡ (t, done r))
unfolding staging_relation staging_definition valid_transport_relation same_names is_blank has_nul
    valid_definition valid_identifier text_eq
transfer_returns_example =
    transfer_returns writer none writer-IsReliable reader stage_name 5 table (codes "DB")
      (codes "PUBLIC") 2 30 [] staging definition two_batches (omega arith) (omega arith) refl refl
      refl (omega arith) refl (omega arith, (omega arith, tt))
      (refl, refl, omega arith, (refl, refl, omega arith, tt))

abbrev local : Profile
local = record {
  profile_id = codes "local";
  database = codes "app";
  write_enabled = false;
  max_rows = 500;
  timeout_seconds = 60;
}

abbrev warehouse : Profile
warehouse = record {
  profile_id = codes "warehouse";
  database = codes "DB";
  write_enabled = true;
  max_rows = 1000;
  timeout_seconds = 30;
}

abbrev factory : Text → Option ProfileService
unfolding text_eq
factory i =
    if text_eq i (codes "local")
    then some (record { profile = local; reads_batches = true; writes_staging = true })
    else some (record { profile = warehouse; reads_batches = true; writes_staging = true })

abbrev prepared : PreparedBatchTransport
prepared = record {
  source_profile_id = codes "local";
  target_profile_id = codes "warehouse";
  batch_size = 200;
  timeout_seconds = 30;
  source_profile = local;
  target_profile = warehouse;
}

prepare-some_example : IsLimited prepared (some 200) none
unfolding prepare factory
prepare-some_example =
    prepare-some factory (codes "local") (codes "warehouse") (codes "DB") (some 200) none prepared
      refl

abbrev refused : ProfileBoundBatchTransportResult
refused = record {
  disposition = confirmed_failed_cleaned_up;
  result = none;
  failure_category = some (codes "STAGING_LOAD_FAILED");
}

-- A reader that fails after its first batch.
abbrev broken_reader : TransportRelation → List Text → ℕ → List (Attempt (DataBatch ℕ))
broken_reader r columns size = done first_batch ∷ failed Failure.reader_failed ∷ []

ran :
    run_transport writer stage_name
      (transfer writer none stage_name broken_reader)
      prepared
      5
      table
      (codes "DB")
      (codes "PUBLIC")
      stored
    ≡ ([], done refused)
unfolding run_transport transfer staging_relation valid_identifier is_blank has_nul
    staging_definition valid_definition valid_transport_relation is_expected text_eq is_evidence
    report_progress valid_result
ran = refl

run_transport-Ran_example :
    Ran writer none broken_reader stage_name prepared 5 table (codes "DB") (codes "PUBLIC") stored (
      run_transport writer stage_name
        (transfer writer none stage_name broken_reader)
        prepared
        5
        table
        (codes "DB")
        (codes "PUBLIC")
        stored)
run_transport-Ran_example =
    run_transport-Ran writer none broken_reader stage_name prepared 5 table (codes "DB")
      (codes "PUBLIC") stored
