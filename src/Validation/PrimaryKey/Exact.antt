-- ===== src/Validation/PrimaryKey/Exact.antt =====
-- assess_primary_key_reconciliation: what an eligible decision rests on.
use schemabridge.Base.{◌≤◌, ◌≡◌, none, some, List, length}
use schemabridge.Base.Text.{Text}
use schemabridge.Validation.PrimaryKey.{
  complete, TableMetadata, ColumnMappingApproval, PrimaryKeyReconciliationEligibility,
}
use schemabridge.Validation.PrimaryKey.Copies.{Copies}

-- What an eligible decision on two tables rests on.
pub record IsExact (plan : List ColumnMappingApproval) (s t : TableMetadata)
    (r : PrimaryKeyReconciliationEligibility) : Type 0 where
  pub source_coverage : s.primary_key_coverage ≡ complete
  pub target_coverage : t.primary_key_coverage ≡ complete
  pub source_key : s.primary_key ≡ some r.source_key_columns
  pub target_key : t.primary_key ≡ some r.target_key_columns
  pub has_column : 1 ≤ length r.source_key_columns
  pub copies : Copies plan r.source_key_columns r.target_key_columns
  pub no_reason : r.reason ≡ none

-- The decision names the two keys that it has compared.
record Compared (plan : List ColumnMappingApproval) (source target : List Text)
    (r : PrimaryKeyReconciliationEligibility) : Type 0 where
  source_columns : r.source_key_columns ≡ source
  target_columns : r.target_key_columns ≡ target
  copies : Copies plan r.source_key_columns r.target_key_columns
  no_reason : r.reason ≡ none
