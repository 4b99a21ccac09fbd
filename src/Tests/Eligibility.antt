-- ===== src/Tests/Eligibility.antt =====
-- An order table whose key of two columns is copied under new names.
use schemabridge.Base.{some, List, [], ◌∷◌}
use schemabridge.Base.Text.{Text}
use schemabridge.Validation.PrimaryKey.{
  TableMetadata, ColumnMappingApproval, TransformationExpressionType, complete, approved,
  direct_copy, source_column_expression, cast,
}

abbrev order_id : Text
order_id = 111 ∷ []

abbrev line : Text
line = 108 ∷ []

abbrev price : Text
price = 112 ∷ []

abbrev order_key : Text
order_key = 111 ∷ 107 ∷ []

abbrev line_key : Text
line_key = 108 ∷ 107 ∷ []

abbrev approval : Text → Text → TransformationExpressionType → ColumnMappingApproval
approval source target type = record {
  source_column = source;
  target_column = some target;
  status = approved;
  transformation = some (record { expression_type = type; source_columns = source ∷ [] });
}

abbrev plan : List ColumnMappingApproval
plan =
    approval line line_key source_column_expression
    ∷ approval price price cast
    ∷ approval order_id order_key direct_copy
    ∷ []

abbrev source_table : TableMetadata
source_table = record { primary_key_coverage = complete; primary_key = some (order_id ∷ line ∷ []) }

abbrev target_table : TableMetadata
target_table = record {
  primary_key_coverage = complete;
  primary_key = some (order_key ∷ line_key ∷ []);
}
