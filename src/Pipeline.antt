-- ===== src/Pipeline.antt =====
-- src/pipeline.py, src/ports.py and the records of src/resource_types/registry.py that a run reads.
-- The clients behind the ports are parameters: functions that answer or raise.
pub mod Action
pub mod Fetch
pub mod TypeRun
pub mod Run
pub mod Counters
pub mod Quiet
pub mod Outcome
use claude_azure_o11y.Prelude.{
  ℕ, ◌-◌, ◌*◌, Bool, Option, none, some, String, List, Result, ok, ◌>>=◌, if◌then◌else◌,
}
use claude_azure_o11y.Prelude.Text.{capitalize, is_text, or_text, ◌<>◌}
use claude_azure_o11y.Prelude.Dict.{Dict}
use claude_azure_o11y.Models.{
  Resource, Series, MetricRequest, Skip, ColdFinding, Recommendation, Decimal, Scope, Time,
}
use claude_azure_o11y.Config.{
  Thresholds, OpsWindow, FinopsWindow, ResourceTypeThresholds, MetricThreshold,
}
use claude_azure_o11y.Config.Groups.{AssignmentGroups}
use claude_azure_o11y.Inventory.Filters.{Pattern}
use claude_azure_o11y.Metrics.Derive.{RunMode, ops, finops, MetricSource, monitor, inventory}
use claude_azure_o11y.Notify.{Row, MetricContext}

pub record MetricWindow : Type 0 where
  pub start : Time
  pub end : Time
  pub granularity : Time
  pub aggregation : String

-- `X` is the type of the rules models and the SKU catalogs of all resource types.
pub record AppConfig (F X : Type 0) : Type 0 where
  pub thresholds : Thresholds F
  -- `config.ignore.patterns_for`
  pub patterns_for : String → List Pattern
  pub assignment_groups : AssignmentGroups
  pub rules : Dict String X
  pub catalogs : Dict String X

pub record ResourceTypeSpec (F X : Type 0) : Type 0 where
  pub kind : String
  pub enrich : Resource F → X → Result (Resource F)
  pub active : Resource F → Option Skip
  pub finops_skip : Resource F → Option Skip
  pub metric_source : MetricSource
  pub recommend : Option (ColdFinding F → AppConfig F X → Result (Recommendation F))
  pub priced : Bool

-- The arguments of `MetricsPort.query`.
pub record Query : Type 0 where
  pub region : String
  pub subscription_id : String
  pub resource_ids : List String
  pub namespace : String
  pub metrics : List MetricRequest
  pub window : MetricWindow

pub record Clients (F : Type 0) : Type 0 where
  pub list_resources : String → Scope → Result (List (Resource F))
  pub query : Query → Result (Dict String (Series F))
  pub monthly_price : (region sku os_type : String) → Result (Option Decimal)
  pub write : String → List (Row F) → Result String

abbrev pub minute : Time
minute = 60_000_000

-- `granularity or cfg.granularity`
abbrev pub or_default : Option String → String → String
or_default none default = default
or_default (some g) default = or_text g default

-- `MetricWindow.ops` and `MetricWindow.finops`; `parse_duration` is that of `isodate`.
module _ (parse_duration : String → Result Time) where
  unfoldable pub ops_window : OpsWindow → Time → Option String → Result MetricWindow
  ops_window cfg now granularity =
      parse_duration (or_default granularity cfg.granularity) >>= λ grain. ok (record {
        start = now - cfg.lookback_minutes * minute;
        end = now;
        granularity = grain;
        aggregation = capitalize cfg.aggregation;
      })

  unfoldable pub finops_window :
      {F : Type 0} → FinopsWindow F → Time → Option String → Result MetricWindow
  finops_window cfg now granularity =
      parse_duration (or_default granularity cfg.granularity) >>= λ grain. ok (record {
        start = now - cfg.lookback_days * (1440 * minute);
        end = now;
        granularity = grain;
        aggregation = capitalize cfg.aggregation;
      })

-- `cfg.derive` names a derivation.
abbrev derived_label : Option String → String → String
derived_label none aggregation = aggregation
derived_label (some how) aggregation =
    if is_text how then aggregation <> " (derived)" else aggregation

module _ {F : Type 0} where
  abbrev label_of : MetricSource → MetricThreshold F → String
  label_of inventory cfg = "computed"
  label_of monitor cfg = derived_label cfg.derive cfg.aggregation

  -- `_metric_ctx`
  unfoldable pub metric_context :
      ResourceTypeThresholds F
      → String
      → MetricThreshold F
      → MetricSource
      → MetricWindow
      → String
      → MetricContext F
  metric_context type_cfg key cfg source window granularity = record {
    namespace = type_cfg.namespace;
    metric_key = key;
    metric = cfg;
    aggregation = label_of source cfg;
    window_start = window.start;
    window_end = window.end;
    granularity = granularity;
  }
