-- ===== src/Validation/PrimaryKey.antt =====
-- schemabridge/validation/primary_key.py: whether the keys of two tables can be compared exactly.
pub mod Copies
pub mod Exact
use schemabridge.Base.{Bool, true, false, ◌&&◌, Option, none, some, List, [], ◌∷◌, if◌then◌else◌}
use schemabridge.Base.Text.{Text, text_eq}

-- CoverageStatus of schemabridge/models/discovery.py
pub data CoverageStatus : Type 0 where
  complete : CoverageStatus
  partial : CoverageStatus
  unavailable : CoverageStatus
  not_applicable : CoverageStatus

-- What is read of TableMetadata: `coverage.primary_key`, and the columns of `primary_key`.
pub record TableMetadata : Type 0 where
  pub primary_key_coverage : CoverageStatus
  pub primary_key : Option (List Text)

-- MappingApprovalStatus of schemabridge/models/mapping.py
pub data MappingApprovalStatus : Type 0 where
  pending : MappingApprovalStatus
  approved : MappingApprovalStatus
  rejected : MappingApprovalStatus
  overridden : MappingApprovalStatus

-- TransformationExpressionType of schemabridge/models/mapping.py
pub data TransformationExpressionType : Type 0 where
  source_column_expression : TransformationExpressionType
  literal : TransformationExpressionType
  cast : TransformationExpressionType
  concat : TransformationExpressionType
  coalesce : TransformationExpressionType
  direct_copy : TransformationExpressionType

-- What is read of TransformationExpression.
pub record TransformationExpression : Type 0 where
  pub expression_type : TransformationExpressionType
  pub source_columns : List Text

-- What is read of ColumnMappingApproval.
pub record ColumnMappingApproval : Type 0 where
  pub source_column : Text
  pub target_column : Option Text
  pub status : MappingApprovalStatus
  pub transformation : Option TransformationExpression

pub data Reason : Type 0 where
  primary_key_metadata_incomplete : Reason
  primary_key_unavailable : Reason
  primary_key_mapping_incomplete : Reason
  primary_key_mapping_mismatch : Reason

pub record PrimaryKeyReconciliationEligibility : Type 0 where
  pub eligible : Bool
  pub source_key_columns : List Text
  pub target_key_columns : List Text
  pub reason : Option Reason

unfoldable pub is_complete : CoverageStatus → Bool
is_complete complete = true
is_complete partial = false
is_complete unavailable = false
is_complete not_applicable = false

-- The key's columns, none where the code tests `key is None or not key.columns`.
unfoldable pub key_columns : Option (List Text) → Option (List Text)
key_columns none = none
key_columns (some []) = none
key_columns (some (c ∷ cs)) = some (c ∷ cs)

-- `status in {APPROVED, OVERRIDDEN}`
unfoldable pub is_accepted : MappingApprovalStatus → Bool
is_accepted pending = false
is_accepted approved = true
is_accepted rejected = false
is_accepted overridden = true

-- `expression_type in {DIRECT_COPY, SOURCE_COLUMN}`
unfoldable pub is_copy : TransformationExpressionType → Bool
is_copy source_column_expression = true
is_copy literal = false
is_copy cast = false
is_copy concat = false
is_copy coalesce = false
is_copy direct_copy = true

-- `==` on tuples of column names
unfoldable pub columns_eq : List Text → List Text → Bool
columns_eq [] [] = true
columns_eq [] (d ∷ ds) = false
columns_eq (c ∷ cs) [] = false
columns_eq (c ∷ cs) (d ∷ ds) = text_eq c d && columns_eq cs ds

-- The two guards of the loop that pass an approval over, on its target and its transformation.
unfoldable pub copy_of :
    MappingApprovalStatus → Text → Option Text → Option TransformationExpression → Option Text
unfolding is_accepted is_copy columns_eq
copy_of status source none t = none
copy_of status source (some c) none = none
copy_of status source (some c) (some t) =
    if is_accepted status
      && (is_copy t.expression_type && columns_eq t.source_columns (source ∷ []))
    then some c
    else none

unfoldable pub copied : ColumnMappingApproval → Option Text
unfolding copy_of
copied a = copy_of a.status a.source_column a.target_column a.transformation

-- `mapped[source] = target`, or `continue`
unfoldable pub write : Text → Option Text → List (Text × Text) → List (Text × Text)
write source none mapped = mapped
write source (some target) mapped = (source, target) ∷ mapped

-- The dictionary `mapped`, the column written last first.
unfoldable pub mapping : List ColumnMappingApproval → List (Text × Text) → List (Text × Text)
unfolding copied write
mapping [] mapped = mapped
mapping (a ∷ plan) mapped = mapping plan (write a.source_column (copied a) mapped)

-- `mapped[column]`, none for a KeyError
unfoldable pub lookup : Text → List (Text × Text) → Option Text
lookup column [] = none
lookup column ((source, target) ∷ mapped) =
    if text_eq source column then some target else lookup column mapped

unfoldable pub prepend : Option Text → Option (List Text) → Option (List Text)
prepend none ts = none
prepend (some t) none = none
prepend (some t) (some ts) = some (t ∷ ts)

-- `tuple(mapped[column] for column in columns)`
unfoldable pub lookup_all : List Text → List (Text × Text) → Option (List Text)
unfolding lookup prepend
lookup_all [] mapped = some []
lookup_all (c ∷ cs) mapped = prepend (lookup c mapped) (lookup_all cs mapped)

unfoldable pub ineligible : Reason → PrimaryKeyReconciliationEligibility
ineligible reason = record {
  eligible = false;
  source_key_columns = [];
  target_key_columns = [];
  reason = some reason;
}

-- The decision on the target's key and the columns that the source's key is copied to.
unfoldable pub compare :
    List Text → List Text → Option (List Text) → PrimaryKeyReconciliationEligibility
unfolding columns_eq ineligible
compare source target none = ineligible primary_key_mapping_incomplete
compare source target (some columns) =
    if columns_eq columns target
    then record {
      eligible = true;
      source_key_columns = source;
      target_key_columns = target;
      reason = none;
    }
    else ineligible primary_key_mapping_mismatch

unfoldable pub compare_keys :
    List ColumnMappingApproval
    → Option (List Text)
    → Option (List Text)
    → PrimaryKeyReconciliationEligibility
unfolding mapping lookup_all compare ineligible
compare_keys plan none target = ineligible primary_key_unavailable
compare_keys plan (some source) none = ineligible primary_key_unavailable
compare_keys plan (some source) (some target) =
    compare source target (lookup_all source (mapping plan []))

-- `assess_primary_key_reconciliation` on a plan with `approved_mappings`.
unfoldable pub assess_primary_key_reconciliation :
    List ColumnMappingApproval → TableMetadata → TableMetadata → PrimaryKeyReconciliationEligibility
unfolding is_complete key_columns compare_keys ineligible
assess_primary_key_reconciliation plan source target =
    if is_complete source.primary_key_coverage && is_complete target.primary_key_coverage
    then compare_keys plan (key_columns source.primary_key) (key_columns target.primary_key)
    else ineligible primary_key_metadata_incomplete
