-- ===== src/Config.antt =====
-- The validated configuration: the models of src/config/models.py, whose fields keep their names.
-- What pydantic checks by a field's type is the type of the field here.
pub mod Validate
pub mod Groups
pub mod Settings
pub mod Merge
pub mod Loader
pub mod Ignore
use claude_azure_o11y.Prelude.{
  ℕ, Bool, true, false, not, ◌&&◌, ◌||◌, Option, none, some, String, List, [], ◌∷◌, ◌++◌, map, ◌==◌,
  string_eq, any, all, filter, if◌then◌else◌,
}
use claude_azure_o11y.Prelude.Text.{lower, is_text, ◌<>◌, join}
use claude_azure_o11y.Prelude.Dict
use claude_azure_o11y.Prelude.Dict.{Dict}
use claude_azure_o11y.Float.{Float}
use claude_azure_o11y.Models.{Resource, text}
use claude_azure_o11y.Models.Props.{prop, str_of}

pub record TagNames : Type 0 where
  pub exclude : String
  pub threshold_prefix : String
  pub owner : String
  pub assignment_group : String
  pub car_id : String

pub record OpsWindow : Type 0 where
  pub lookback_minutes : ℕ
  pub granularity : String
  pub aggregation : String

pub record FinopsWindow (F : Type 0) : Type 0 where
  pub lookback_days : ℕ
  pub granularity : String
  pub aggregation : String
  pub percentile : ℕ
  pub min_coverage : F

pub record Windows (F : Type 0) : Type 0 where
  pub ops : OpsWindow
  pub finops : FinopsWindow F

pub record Granularity : Type 0 where
  pub ops : Option String
  pub finops : Option String

pub record DimensionFilter : Type 0 where
  pub name : String
  pub values : List String

-- `DimensionFilter.filter_string`
unfoldable pub filter_string : DimensionFilter → String
filter_string d = join " or " (map (λ v. d.name <> " eq '" <> v <> "'") d.values)

pub data HotWhen : Type 0 where
  above below : HotWhen

pub data Reduction : Type 0 where
  mean largest total : Reduction

pub record MetricThreshold (F : Type 0) : Type 0 where
  pub metric_name : String
  pub unit : String
  pub aggregation : String
  pub hot_when : HotWhen
  pub reduce : Reduction
  pub ops_hot : Option F
  pub finops_cold : Option F
  pub applies_to : Dict String (List String)
  pub derive : Option String
  pub inputs : List String
  pub capacity_prop : Option String
  pub dimension : Option DimensionFilter
  pub missing_as_zero : Bool

-- What `_one_request_per_raw_metric` is about: the raw metrics that one key asks for.
unfoldable pub raw_names : {F : Type 0} → MetricThreshold F → List String
raw_names m = elim m.derive [
  | none ↦ m.metric_name ∷ []
  | some how ↦ if is_text how then m.inputs else m.metric_name ∷ []
]

pub record ResourceTypeThresholds (F : Type 0) : Type 0 where
  pub namespace : String
  pub granularity : Granularity
  pub metrics : Dict String (MetricThreshold F)

pub record Thresholds (F : Type 0) : Type 0 where
  pub tags : TagNames
  pub windows : Windows F
  pub resource_types : Dict String (ResourceTypeThresholds F)

abbrev pub is_some {ℓ} : {A : Type ℓ} → Option A → Bool
is_some none = false
is_some (some a) = true

module _ {F : Type 0} where
  -- `MetricThreshold.filter`
  unfoldable pub metric_filter : MetricThreshold F → Option String
  metric_filter m = elim m.dimension [ none ↦ none | some d ↦ some (filter_string d) ]

  abbrev pub is_ops : MetricThreshold F → Bool
  is_ops m = is_some m.ops_hot

  abbrev pub is_finops : MetricThreshold F → Bool
  is_finops m = is_some m.finops_cold

  abbrev pub is_input : MetricThreshold F → Bool
  is_input m = not (is_some m.ops_hot) && not (is_some m.finops_cold)

  unfoldable pub ops_metrics : ResourceTypeThresholds F → Dict String (MetricThreshold F)
  ops_metrics t = filter (λ e. is_ops e.1) t.metrics

  unfoldable pub finops_metrics : ResourceTypeThresholds F → Dict String (MetricThreshold F)
  finops_metrics t = filter (λ e. is_finops e.1) t.metrics

  -- The metrics that are fetched for the recommender only.
  unfoldable pub input_metrics : ResourceTypeThresholds F → Dict String (MetricThreshold F)
  input_metrics t = filter (λ e. is_input e.1) t.metrics

abbrev one_of : String → List String → Bool
one_of value values = any (λ v. lower v == value) values

module _ {F : Type 0} ⦃fl : Float F⦄ where
  -- `MetricThreshold.applies`
  unfoldable pub applies : MetricThreshold F → Resource F → Bool
  applies m r = all (λ e. one_of (lower (str_of (prop r e.0 (text "")))) e.1) m.applies_to
