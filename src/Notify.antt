-- ===== src/Notify.antt =====
-- src/notify/findings.py: the rows of the findings tables. A row is its cells by column; `when` is
-- an instant that the source prints with `iso`, and `money` an amount that it rounds to cents.
pub mod Columns
use claude_azure_o11y.Prelude.{
  ℕ, Bool, true, false, not, ◌&&◌, Option, none, some, String, List, [], ◌∷◌, ◌++◌, ◌==◌, string_eq,
  if◌then◌else◌,
}
use claude_azure_o11y.Prelude.Text.{◌<>◌, lower, is_text}
use claude_azure_o11y.Prelude.Dict
use claude_azure_o11y.Prelude.Dict.{Dict}
use claude_azure_o11y.Prelude.Int.{ℤ, pos}
use claude_azure_o11y.Float.{Float}
use claude_azure_o11y.Models.{
  Resource, Time, ThresholdSource, HotAlert, Confidence, Recommendation, Decimal, tag, saving,
  text as text_value,
}
use claude_azure_o11y.Models.Props.{prop, str_of}
use claude_azure_o11y.Config.{TagNames, MetricThreshold}
use claude_azure_o11y.Config.Groups.{AssignmentGroups, email_for}

pub data Cell (F : Type 0) : Type 0 where
  text : String → Cell F
  when : Time → Cell F
  nat : ℕ → Cell F
  num : F → Cell F
  money : Option ℤ → Cell F
  source : ThresholdSource → Cell F
  level : Confidence → Cell F
  names : List String → Cell F
  pairs : Dict String String → Cell F

abbrev pub Row : Type 0 → Type 0
Row F = Dict String (Cell F)

abbrev pub ops_table : String
ops_table = "O11yOpsFindings_CL"

abbrev pub finops_table : String
finops_table = "O11yFinOpsFindings_CL"

pub record RunContext : Type 0 where
  pub run_id : String
  pub mg_id : String
  pub run_at : Time
  pub tags : TagNames
  pub assignment_groups : AssignmentGroups
  pub currency : String

pub record MetricContext (F : Type 0) : Type 0 where
  pub namespace : String
  pub metric_key : String
  pub metric : MetricThreshold F
  pub aggregation : String
  pub window_start : Time
  pub window_end : Time
  pub granularity : String

unfoldable pub portal_url : String → String
portal_url resource_id = "https://portal.azure.com/#resource" <> resource_id <> "/overview"

abbrev or_blank : Option String → String
or_blank none = ""
or_blank (some s) = s

-- The names whose check failed, in order.
unfoldable pub missing_names : List (String × Bool) → List String
missing_names [] = []
missing_names ((name, passed) ∷ checks) =
    let rest = missing_names checks in if passed then rest else name ∷ rest

abbrev amount : Option Decimal → Option ℤ
amount none = none
amount (some d) = some (pos d)

module _ {F : Type 0} where
  unfoldable pub resource_columns : Resource F → Row F
  resource_columns r =
      ("ResourceId", text r.id)
      ∷ ("ResourceName", text r.name)
      ∷ ("ResourceType", text (lower r.arm_type))
      ∷ ("SubscriptionId", text r.subscription_id)
      ∷ ("ResourceGroup", text r.resource_group)
      ∷ ("Location", text r.location)
      ∷ ("Sku", text r.sku)
      ∷ ("PortalUrl", text (portal_url r.id))
      ∷ ("Tags", pairs r.tags)
      ∷ []

-- `is_email` is the match of the pattern `_EMAIL`.
module _ {F : Type 0} (is_email : String → Bool) where
  unfoldable pub owner_of : Resource F → RunContext → String
  owner_of r ctx = or_blank (tag r ctx.tags.owner)

  unfoldable pub group_of : Resource F → RunContext → String
  group_of r ctx = or_blank (tag r ctx.tags.assignment_group)

  unfoldable pub missing_tags : Resource F → RunContext → List String
  unfolding owner_of group_of missing_names
  missing_tags r ctx = missing_names (
      (ctx.tags.owner, is_email (owner_of r ctx))
      ∷ (
        ctx.tags.assignment_group,
        is_text (or_blank (email_for ctx.assignment_groups (some (group_of r ctx)))),
      )
      ∷ (ctx.tags.car_id, is_text (or_blank (tag r ctx.tags.car_id)))
      ∷ [])

  unfoldable pub ownership_columns : Resource F → RunContext → Row F
  unfolding owner_of group_of missing_tags
  ownership_columns r ctx =
      ("Owner", text (owner_of r ctx))
      ∷ ("AssignmentGroup", text (group_of r ctx))
      ∷ (
        "AssignmentGroupEmail",
        text (or_blank (email_for ctx.assignment_groups (some (group_of r ctx)))),
      )
      ∷ ("CarId", text (or_blank (tag r ctx.tags.car_id)))
      ∷ ("MissingTags", names (missing_tags r ctx))
      ∷ []

  unfoldable pub common_columns : Resource F → RunContext → MetricContext F → Row F
  unfolding resource_columns ownership_columns
  common_columns r ctx m =
      (("TimeGenerated", when ctx.run_at)
        ∷ ("RunId", text ctx.run_id)
        ∷ ("ManagementGroupId", text ctx.mg_id)
        ∷ resource_columns r)
      ++ ((("MetricNamespace", text m.namespace)
            ∷ ("MetricName", text m.metric.metric_name)
            ∷ ("MetricKey", text m.metric_key)
            ∷ ("Unit", text m.metric.unit)
            ∷ ("Aggregation", text m.aggregation)
            ∷ ("WindowStart", when m.window_start)
            ∷ ("WindowEnd", when m.window_end)
            ∷ [])
          ++ ownership_columns r ctx)

  unfoldable pub ops_row : HotAlert F → RunContext → MetricContext F → Row F
  unfolding common_columns
  ops_row alert ctx m =
      common_columns alert.resource ctx m
      ++ (("ObservedValue", num alert.observed)
          ∷ ("Threshold", num alert.threshold)
          ∷ ("ThresholdSource", source alert.threshold_source)
          ∷ ("LookbackMinutes", nat alert.lookback_minutes)
          ∷ [])

module _ {F : Type 0} ⦃fl : Float F⦄ (is_email : String → Bool) where
  unfoldable pub finops_row : Recommendation F → RunContext → MetricContext F → Row F
  unfolding common_columns
  finops_row rec ctx m =
      let f = rec.finding in
      common_columns is_email f.resource ctx m
      ++ (("OsType", text (str_of (prop f.resource "os_type" (text_value ""))))
          ∷ ("Granularity", text m.granularity)
          ∷ ("Percentile", nat f.percentile)
          ∷ ("ObservedValue", num f.observed)
          ∷ ("Threshold", num f.threshold)
          ∷ ("ThresholdSource", source f.threshold_source)
          ∷ ("LookbackDays", nat f.lookback_days)
          ∷ ("DataCoverage", num f.coverage)
          ∷ ("RecommendedSku", text (or_blank rec.target_sku))
          ∷ ("Confidence", level rec.confidence)
          ∷ ("Reason", text rec.reason)
          ∷ ("CurrentMonthlyCost", money (amount rec.current_monthly))
          ∷ ("ProjectedMonthlyCost", money (amount rec.projected_monthly))
          ∷ ("EstimatedMonthlySaving", money (saving rec))
          ∷ ("Currency", text ctx.currency)
          ∷ [])
