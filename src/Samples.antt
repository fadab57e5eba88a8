-- ===== src/Samples.antt =====
-- The sample data of the tests: a virtual machine, its metrics and a small catalog, with the fixed
-- point numbers as floats.
use claude_azure_o11y.Prelude.{ℕ, ◌*◌, none, some, [], ◌∷◌, ok, err, value_error, false, true}
use claude_azure_o11y.Float.Fixed.{Fixed, unit}
use claude_azure_o11y.Models.{Resource, MetricPoint, ColdFinding, ColdObservation, config, Time}
use claude_azure_o11y.Config.{
  MetricThreshold, ResourceTypeThresholds, Thresholds, TagNames, above, mean,
}
use claude_azure_o11y.Config.Groups.{FamilySku, FamilySkuCatalog}
use claude_azure_o11y.Config.Settings.{Settings}
use claude_azure_o11y.Metrics.Derive.{monitor}
use claude_azure_o11y.Notify.{RunContext, MetricContext}
use claude_azure_o11y.Pipeline.{AppConfig, ResourceTypeSpec, Clients, MetricWindow}

abbrev pub vm : Resource Fixed
vm = record {
  kind = "vm";
  id = "/vm/web";
  name = "web";
  arm_type = "Microsoft.Compute/virtualMachines";
  subscription_id = "s1";
  resource_group = "rg-web";
  location = "westeurope";
  sku = "D4";
  tags = [];
  props = [];
}

abbrev pub excluded_vm : Resource Fixed
excluded_vm = record vm { id = "/vm/old"; tags = ("exclude", "True ") ∷ [] }

abbrev pub tag_names : TagNames
tag_names = record {
  exclude = "exclude";
  threshold_prefix = "o11y-";
  owner = "owner";
  assignment_group = "group";
  car_id = "car";
}

abbrev pub cpu : MetricThreshold Fixed
cpu = record {
  metric_name = "Percentage CPU";
  unit = "percent";
  aggregation = "average";
  hot_when = above;
  reduce = mean;
  ops_hot = some 900_000;
  finops_cold = some 200_000;
  applies_to = [];
  derive = none;
  inputs = [];
  capacity_prop = none;
  dimension = none;
  missing_as_zero = false;
}

abbrev pub vm_metrics : ResourceTypeThresholds Fixed
vm_metrics = record {
  namespace = "Microsoft.Compute/virtualMachines";
  granularity = record { ops = none; finops = none };
  metrics = ("cpu", cpu) ∷ [];
}

abbrev pub thresholds : Thresholds Fixed
thresholds = record {
  tags = tag_names;
  windows = record {
    ops = record { lookback_minutes = 30; granularity = "PT5M"; aggregation = "average" };
    finops = record {
      lookback_days = 1;
      granularity = "PT12H";
      aggregation = "average";
      percentile = 95;
      min_coverage = 5_000;
    };
  };
  resource_types = ("vm", vm_metrics) ∷ [];
}

abbrev pub at : Time → ℕ → MetricPoint Fixed
at ts percent = record { timestamp = ts; value = some (percent * unit) }

abbrev pub cold_observation : ColdObservation Fixed
cold_observation = record {
  metric = "cpu";
  percentile = 95;
  value = 100_000;
  median = 80_000;
  threshold = 200_000;
  cold = true;
  coverage = 10_000;
  threshold_source = config;
}

abbrev pub finding : ColdFinding Fixed
finding = record {
  resource = vm;
  metric = "cpu";
  observed = 100_000;
  percentile = 95;
  threshold = 200_000;
  lookback_days = 1;
  coverage = 10_000;
  threshold_source = config;
  observations = cold_observation ∷ [];
  inputs = [];
}

abbrev size_of : ℕ → FamilySku Fixed
size_of n = record { family = "D"; vcpu = n; memory_gib = n * 4 * unit }

abbrev pub catalog : FamilySkuCatalog Fixed
catalog = ("D4", size_of 4) ∷ ("D2", size_of 2) ∷ ("D8", size_of 8) ∷ []

abbrev pub settings : Settings
settings = record {
  mg_id = "mg";
  subscription_ids = "";
  resource_types = "";
  dry_run = false;
  max_concurrency = 4;
  pricing_currency = "USD";
  batch_size = 50;
}

abbrev pub app : AppConfig Fixed Unit
app = record {
  thresholds = thresholds;
  patterns_for = λ mg. [];
  assignment_groups = [];
  rules = ("vm", tt) ∷ [];
  catalogs = [];
}

-- Clients that list two machines, have no metrics and accept every row.
abbrev pub quiet_clients : Clients Fixed
quiet_clients = record {
  list_resources = λ kind scope. ok (vm ∷ excluded_vm ∷ []);
  query = λ q. err (value_error "no metrics");
  monthly_price = λ region sku os_type. ok none;
  write = λ table rows. ok table;
}

abbrev pub sample_spec : ResourceTypeSpec Fixed Unit
sample_spec = record {
  kind = "vm";
  enrich = λ r x. ok r;
  active = λ r. none;
  finops_skip = λ r. none;
  metric_source = monitor;
  recommend = none;
  priced = false;
}

abbrev pub window : MetricWindow
window = record { start = 0; end = 100; granularity = 10; aggregation = "Average" }

abbrev pub run_context : RunContext
run_context = record {
  run_id = "r1";
  mg_id = "mg";
  run_at = 100;
  tags = tag_names;
  assignment_groups = [];
  currency = "USD";
}

abbrev pub metric_context : MetricContext Fixed
metric_context = record {
  namespace = "Microsoft.Compute/virtualMachines";
  metric_key = "cpu";
  metric = cpu;
  aggregation = "average";
  window_start = 0;
  window_end = 100;
  granularity = "PT5M";
}
