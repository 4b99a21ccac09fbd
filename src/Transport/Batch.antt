-- ===== src/Transport/Batch.antt =====
-- schemabridge/models/transport.py: relations, staging tables, batches and their write evidence.
use schemabridge.Base.{
  ℕ, Bool, true, false, not, ◌&&◌, Option, none, some, List, [], ◌∷◌, ◌==◌, leb, length, all, any,
  map,
}
use schemabridge.Base.Text.{Text, text_eq, is_blank, has_nul}
use schemabridge.Model.Progress.{same_bool}

-- `_identifier(value, name)`
unfoldable pub valid_identifier : Text → Bool
valid_identifier s = not (is_blank s) && not (has_nul s)

valid_optional : Option Text → Bool
unfolding valid_identifier
valid_optional none = true
valid_optional (some s) = valid_identifier s

pub record TransportRelation : Type 0 where
  pub catalog_name : Option Text
  pub schema_name : Text
  pub object_name : Text

-- TransportRelation.__post_init__
unfoldable pub valid_transport_relation : TransportRelation → Bool
unfolding valid_identifier valid_optional
valid_transport_relation r =
    valid_optional r.catalog_name
    && (valid_identifier r.schema_name && valid_identifier r.object_name)

-- The canonical type is its position in the enum; a scale is a sign and a magnitude.
pub record StagingColumn : Type 0 where
  pub name : Text
  pub canonical_type : ℕ
  pub nullable : Option Bool
  pub character_length : Option ℕ
  pub numeric_precision : Option ℕ
  pub numeric_scale : Option (Bool × ℕ)
  pub datetime_precision : Option ℕ

pub record StagingTableDefinition : Type 0 where
  pub relation : TransportRelation
  pub columns : List StagingColumn

-- `len(set(names)) == len(names)`
unfoldable pub are_unique : List Text → Bool
are_unique [] = true
are_unique (x ∷ xs) = not (any (text_eq x) xs) && are_unique xs

is_empty {ℓ} : {A : Type ℓ} → List A → Bool
is_empty [] = true
is_empty (x ∷ xs) = false

abbrev pub column_names : StagingTableDefinition → List Text
column_names d = map (λ c. c.name) d.columns

-- StagingColumn.__post_init__ and StagingTableDefinition.__post_init__
unfoldable pub valid_definition : StagingTableDefinition → Bool
unfolding valid_identifier are_unique is_empty
valid_definition d =
    all (λ c. valid_identifier c.name) d.columns
    && (not (is_empty d.columns) && are_unique (column_names d))

-- A batch of rows of values.
pub record DataBatch (Value : Type 0) : Type 0 where
  pub batch_number : ℕ
  pub names : List Text
  pub rows : List (List Value)

module _ {Value : Type 0} where
  abbrev pub row_count : DataBatch Value → ℕ
  row_count b = length b.rows

  -- DataBatch.__post_init__
  unfoldable pub valid_batch : DataBatch Value → Bool
  unfolding valid_identifier are_unique is_empty
  valid_batch b =
      leb 1 b.batch_number
      && (not (is_empty b.names)
          && (all valid_identifier b.names
              && (are_unique b.names
                  && (not (is_empty b.rows) && all (λ r. length r == length b.names) b.rows))))

pub record BatchWriteResult : Type 0 where
  pub batch_number : ℕ
  pub rows_received : ℕ
  pub rows_written : ℕ

-- BatchWriteResult.__post_init__
unfoldable pub valid_write_result : BatchWriteResult → Bool
valid_write_result r =
    leb 1 r.batch_number && (leb 1 r.rows_received && leb r.rows_written r.rows_received)

pub record BatchTransportResult : Type 0 where
  pub transport_id : ℕ
  pub source_relation : TransportRelation
  pub staging_relation : TransportRelation
  pub batch_size : ℕ
  pub batch_count : ℕ
  pub column_count : ℕ
  pub rows_read : ℕ
  pub rows_written : ℕ

-- BatchTransportResult.__post_init__
unfoldable pub valid_result : BatchTransportResult → Bool
valid_result r =
    leb 1 r.batch_size
    && (leb 1 r.column_count
        && ((r.rows_read == r.rows_written) && same_bool (r.batch_count == 0) (r.rows_read == 0)))
