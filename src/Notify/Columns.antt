-- ===== src/Notify/Columns.antt =====
-- The rows have the columns that schema/findings-tables.json declares for their table.
use claude_azure_o11y.Prelude.{
  ◌≡◌, refl, Bool, true, false, ◌&&◌, none, some, String, List, [], ◌∷◌, ◌==◌, string_eq, nat_eq,
  all, length,
}
use claude_azure_o11y.Prelude.Dict
use claude_azure_o11y.Float.{Float}
use claude_azure_o11y.Models.{HotAlert, Recommendation}
use claude_azure_o11y.Notify.{
  Cell, text, when, nat, num, money, source, level, names, pairs, Row, RunContext, MetricContext,
  ops_row, finops_row, common_columns, resource_columns, ownership_columns,
}

pub data ColumnType : Type 0 where
  datetime string real int dynamic : ColumnType

abbrev pub Schema : Type 0
Schema = List (String × ColumnType)

-- A cell as the JSON that the ingestion takes for a column of the type; a missing amount is null.
abbrev pub fits_type : {F : Type 0} → ColumnType → Cell F → Bool
fits_type datetime (when _) = true
fits_type string (text _) = true
fits_type string (source _) = true
fits_type string (level _) = true
fits_type real (num _) = true
fits_type real (money _) = true
fits_type int (nat _) = true
fits_type dynamic (names _) = true
fits_type dynamic (pairs _) = true
fits_type _ _ = false

-- As many cells as columns, and for each column one of its type.
abbrev pub conforms : {F : Type 0} → Schema → Row F → Bool
conforms schema row =
    (length row == length schema)
    && all (λ c. elim (Dict.lookup c.0 row) [ none ↦ false | some cell ↦ fits_type c.1 cell ])
        schema

abbrev pub ops_schema : Schema
ops_schema =
    ("TimeGenerated", datetime)
    ∷ ("RunId", string)
    ∷ ("ManagementGroupId", string)
    ∷ ("ResourceId", string)
    ∷ ("ResourceName", string)
    ∷ ("ResourceType", string)
    ∷ ("SubscriptionId", string)
    ∷ ("ResourceGroup", string)
    ∷ ("Location", string)
    ∷ ("Sku", string)
    ∷ ("MetricNamespace", string)
    ∷ ("MetricName", string)
    ∷ ("MetricKey", string)
    ∷ ("Unit", string)
    ∷ ("Aggregation", string)
    ∷ ("ObservedValue", real)
    ∷ ("Threshold", real)
    ∷ ("ThresholdSource", string)
    ∷ ("WindowStart", datetime)
    ∷ ("WindowEnd", datetime)
    ∷ ("LookbackMinutes", int)
    ∷ ("Owner", string)
    ∷ ("AssignmentGroup", string)
    ∷ ("AssignmentGroupEmail", string)
    ∷ ("CarId", string)
    ∷ ("MissingTags", dynamic)
    ∷ ("Tags", dynamic)
    ∷ ("PortalUrl", string)
    ∷ []

abbrev pub finops_schema : Schema
finops_schema =
    ("TimeGenerated", datetime)
    ∷ ("RunId", string)
    ∷ ("ManagementGroupId", string)
    ∷ ("ResourceId", string)
    ∷ ("ResourceName", string)
    ∷ ("ResourceType", string)
    ∷ ("SubscriptionId", string)
    ∷ ("ResourceGroup", string)
    ∷ ("Location", string)
    ∷ ("Sku", string)
    ∷ ("OsType", string)
    ∷ ("MetricNamespace", string)
    ∷ ("MetricName", string)
    ∷ ("MetricKey", string)
    ∷ ("Unit", string)
    ∷ ("Aggregation", string)
    ∷ ("Granularity", string)
    ∷ ("Percentile", int)
    ∷ ("ObservedValue", real)
    ∷ ("Threshold", real)
    ∷ ("ThresholdSource", string)
    ∷ ("WindowStart", datetime)
    ∷ ("WindowEnd", datetime)
    ∷ ("LookbackDays", int)
    ∷ ("DataCoverage", real)
    ∷ ("RecommendedSku", string)
    ∷ ("Confidence", string)
    ∷ ("Reason", string)
    ∷ ("CurrentMonthlyCost", real)
    ∷ ("ProjectedMonthlyCost", real)
    ∷ ("EstimatedMonthlySaving", real)
    ∷ ("Currency", string)
    ∷ ("Owner", string)
    ∷ ("AssignmentGroup", string)
    ∷ ("AssignmentGroupEmail", string)
    ∷ ("CarId", string)
    ∷ ("MissingTags", dynamic)
    ∷ ("Tags", dynamic)
    ∷ ("PortalUrl", string)
    ∷ []

module _ {F : Type 0} (is_email : String → Bool) where
  -- The row of an alert has exactly the columns of its table in the schema file, each with a cell of
  -- the column's type.
  pub ops_row-conforms :
      (alert : HotAlert F) (ctx : RunContext) (m : MetricContext F)
      → conforms ops_schema (ops_row is_email alert ctx m) ≡ true
  unfolding ops_row common_columns resource_columns ownership_columns Dict.lookup
  ops_row-conforms alert ctx m = refl

module _ {F : Type 0} ⦃fl : Float F⦄ (is_email : String → Bool) where
  -- The row of a recommendation has exactly the columns of its table in the schema file, each with a
  -- cell of the column's type.
  pub finops_row-conforms :
      (rec : Recommendation F) (ctx : RunContext) (m : MetricContext F)
      → conforms finops_schema (finops_row is_email rec ctx m) ≡ true
  unfolding finops_row common_columns resource_columns ownership_columns Dict.lookup
  finops_row-conforms rec ctx m = refl
