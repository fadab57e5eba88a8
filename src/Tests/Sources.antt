-- ===== src/Tests/Sources.antt =====
-- The theorems about node pools, plans, prices, configuration, rows, queries and sinks at concrete
-- inputs.
use claude_azure_o11y.Prelude.{
  map_result, Ensures, ◌+◌, ℕ, ◌*◌, ◌-◌, ◌^◌, ◌≤◌, ◌<◌, ◌≡◌, ◌≢◌, ◌⊎◌, refl, true, false, Option,
  none, some, String, List, [], ◌∷◌, ◌++◌, Result, ok, err, All, Among, length, arith, any,
  if◌then◌else◌, string_eq, ◌==◌, Returns, map, inl, inr, value_error,
}
use claude_azure_o11y.Prelude.Text.{◌<>◌, show_nat, join, has_char}
use claude_azure_o11y.Prelude.Dict
use claude_azure_o11y.Prelude.Dict.{Dict}
use claude_azure_o11y.Float.Fixed.{plain_digits, Fixed, fixed, Fixed-IsFloat}
use claude_azure_o11y.Models.{
  Resource, Pool, ColdFinding, Recommendation, Value, text, nat, flag, pools, medium, low, Series,
}
use claude_azure_o11y.Recommend.Ladder.{needed_size}
use claude_azure_o11y.Recommend.Nodes.{
  AksRules, size_aks, pool_nodes, pools_of, pool_changes, pool_change, node_target, aks_answer,
}
use claude_azure_o11y.Recommend.NodeTargets.{IsChange, size_aks-IsChange}
use claude_azure_o11y.Recommend.Plans.{PlanRules, size_plan, plan_target, scale_in}
use claude_azure_o11y.Recommend.PlanTargets.{
  IsScaleIn, IsStepDown, size_plan-IsSafe, size_plan-Returns,
}
use claude_azure_o11y.Models.Props.{prop}
use claude_azure_o11y.Recommend.Units.{peak_of, AppGatewayRules}
use claude_azure_o11y.Types.Row.{Row, plain, text_column}
use claude_azure_o11y.Types.Compute.{parse_vm, vm_active}
use claude_azure_o11y.Types.Capacity.{parse_appgateway, appgateway_enrich, appgateway_finops_skip}
use claude_azure_o11y.Types.Gateway.{IsKept, appgateway_finops_skip-IsKept}
use claude_azure_o11y.Types.Registry.Identity.{parse-IsIdentity}
use claude_azure_o11y.Types.Row.Base.{IsIdentity}
use claude_azure_o11y.Types.Registry.Machines.{vm_spec}
use claude_azure_o11y.Types.States.{state_skip}
use claude_azure_o11y.Types.States.Checks.{vm_state, active-state_skip}
use claude_azure_o11y.Types.Subnets.{
  usable_ips, prefix_ips, behind_slash, ascii_length, size_of, float_limit,
}
use claude_azure_o11y.Types.Addresses.{IsSmall, sum, usable_ips-le, prefix_ips-printed}
use claude_azure_o11y.Config.Merge.{Entries, nil, cons, leaf, mapping, get, deep_merge}
use claude_azure_o11y.Config.Merge.Overlay.{IsDict, leaf_at, is_touched, deep_merge-overlay}
use claude_azure_o11y.Config.Loader.{TypeEntry, File, parsed, CatalogState, load_catalogs}
use claude_azure_o11y.Config.Loader.Catalogs.{logged, NoRepeats}
use claude_azure_o11y.Config.Loader.Content.{IsLoaded, load_catalogs-IsLoaded}
use claude_azure_o11y.Prelude.Text.{lower}
use claude_azure_o11y.Models.{MetricRequest}
use claude_azure_o11y.Recommend.Prices.{PriceItem, PriceClient, select_monthly_price, monthly_price}
use claude_azure_o11y.Recommend.Prices.Choice.{IsCheapest, select_monthly_price-IsCheapest}
use claude_azure_o11y.Recommend.Prices.Cache.{
  Lookup, key_for, look_up, lookups, monthly_price-stays,
}
use claude_azure_o11y.Pipeline.{Query}
use claude_azure_o11y.Metrics.Batch.Query.{group_keys, Call, CallAnswer, answered, query}
use claude_azure_o11y.Metrics.Batch.Groups.{IsGroupedOnce, IsGroup, group_keys-IsGroup}
use claude_azure_o11y.Metrics.Batch.Complete.{Never, query-Returns}
use claude_azure_o11y.Metrics.Batch.{ResponseEntry, parse_batch_response}
use claude_azure_o11y.Metrics.Batch.Response.{IsKeyed, parse_batch_response-IsKeyed}
use claude_azure_o11y.Storage.{lines_of, local_write}
use claude_azure_o11y.Storage.Append.{local_write-lines_of}
use claude_azure_o11y.Samples.{vm, finding, catalog, cold_observation, window}

abbrev pool : Pool
pool = record {
  name = "sys";
  vm_size = "D4";
  count = 5;
  mode = "System";
  autoscale = false;
  min_count = 0;
  max_count = 0;
}

abbrev cluster : Resource Fixed
cluster = record vm { kind = "aks"; props = ("pools", pools (pool ∷ [])) ∷ [] }

abbrev cluster_finding : ColdFinding Fixed
cluster_finding = record finding { resource = cluster }

abbrev aks_rules : AksRules Fixed
aks_rules = record { min_nodes = 1; min_vcpu = 2; headroom = 13_000 }

aks_answered :
    (rec : Recommendation Fixed) × (size_aks cluster_finding aks_rules catalog
        (some cold_observation)
        none
      ≡ ok rec)
    × (rec.target_sku ≡ some "sys: D4 x1")
unfolding size_aks pools_of pool_changes pool_change node_target pool_nodes needed_size show_nat
    aks_answer prop Dict.lookup peak_of join
aks_answered = (_, refl, refl)

known_pools : prop cluster "pools" (pools []) ≡ pools (pool ∷ [])
unfolding prop Dict.lookup
known_pools = refl

few_nodes :
    fixed.le
      (needed_size (pool_nodes pool) (peak_of (some cold_observation) none 100_000) 13_000)
      (fixed.of_nat 1)
    ≡ true
unfolding needed_size pool_nodes peak_of
few_nodes = refl

size_aks-IsChange_example :
    (changes : List String) × ("sys: D4 x1" ≡ join "; " changes)
    × All
        (IsChange (pool ∷ []) (peak_of (some cold_observation) none 100_000) catalog aks_rules)
        changes
size_aks-IsChange_example =
    size_aks-IsChange Fixed-IsFloat cluster_finding aks_rules catalog (some cold_observation) none
      (pool ∷ []) 1 aks_answered.0 "sys: D4 x1" known_pools (few_nodes, tt) aks_answered.1
      aks_answered.2

abbrev plan_rules : PlanRules Fixed
plan_rules = record { min_instances = 1; min_vcpu = 1; headroom = 13_000 }

few_instances : fixed.le (needed_size 4 100_000 13_000) (fixed.of_nat 1) ≡ true
unfolding needed_size
few_instances = refl

plan_answered :
    (rec : Recommendation Fixed) × (size_plan finding catalog plan_rules "cold" medium 100_000 "D4"
        4 false 2
      ≡ ok rec)
    × (rec.target_sku ≡ some "D4 x1")
unfolding size_plan plan_target scale_in needed_size show_nat
plan_answered = (_, refl, refl)

size_plan-IsSafe_example :
    (◌≡◌ {A = ℕ} 2 0 × ◌≡◌ {A = String} "D4 x1" "delete")
    ⊎ ((0 < 2)
        × (IsScaleIn finding catalog plan_rules "cold" medium 100_000 "D4" 4 false "D4 x1"
            ⊎ IsStepDown finding catalog plan_rules "cold" medium 100_000 "D4" 4 false "D4 x1"))
size_plan-IsSafe_example =
    size_plan-IsSafe Fixed-IsFloat finding catalog plan_rules "cold" medium 100_000 "D4" 4 false 2 1
      plan_answered.0 "D4 x1" few_instances plan_answered.1 plan_answered.2

enough_instances : fixed.le (fixed.of_nat 0) (needed_size 4 100_000 13_000) ≡ true
unfolding needed_size
enough_instances = refl

size_plan-Returns_example :
    Returns (size_plan finding catalog plan_rules "cold" medium 100_000 "D4" 4 false 2)
size_plan-Returns_example =
    size_plan-Returns Fixed-IsFloat finding catalog plan_rules "cold" medium 100_000 "D4" 4 false 2
      0 1 enough_instances few_instances (omega arith, (omega arith, (omega arith, tt)))

-- The columns that every query projects.
abbrev columns : Row Fixed
columns =
    ("id", plain (text "/gw"))
    ∷ ("name", plain (text "gw"))
    ∷ ("subscriptionId", plain (text "s1"))
    ∷ ("resourceGroup", plain (text "rg"))
    ∷ ("location", plain (text "westeurope"))
    ∷ []

abbrev gateway_row : Row Fixed
gateway_row =
    ("skuName", plain (text "WAF_v2"))
    ∷ ("tier", plain (text "WAF_v2"))
    ∷ ("capacity", plain (nat 3))
    ∷ ("state", plain (text "Running"))
    ∷ columns

abbrev gateway : Resource Fixed
gateway = record {
  kind = "appgateway";
  id = "/gw";
  name = "gw";
  arm_type = "microsoft.network/applicationgateways";
  subscription_id = "s1";
  resource_group = "rg";
  location = "westeurope";
  sku = "WAF_v2 x3";
  tags = [];
  props =
      ("sku_name", text "WAF_v2")
      ∷ ("tier", text "WAF_v2")
      ∷ ("v2", flag true)
      ∷ ("autoscale", flag false)
      ∷ ("capacity", nat 3)
      ∷ ("min_capacity", nat 0)
      ∷ ("max_capacity", nat 0)
      ∷ ("state", text "Running")
      ∷ [];
}

abbrev reserved_gateway : Resource Fixed
reserved_gateway = record gateway {
  props =
      ("sku_name", text "WAF_v2")
      ∷ ("tier", text "WAF_v2")
      ∷ ("v2", flag true)
      ∷ ("autoscale", flag false)
      ∷ ("capacity", nat 3)
      ∷ ("min_capacity", nat 0)
      ∷ ("max_capacity", nat 0)
      ∷ ("state", text "Running")
      ∷ ("reserved_capacity_units", nat 30)
      ∷ [];
}

abbrev gateway_rules : AppGatewayRules Fixed
gateway_rules = record { cu_per_instance = 10; min_instances = 2; headroom = 12_000 }

gateway_parsed : parse_appgateway gateway_row ≡ ok gateway
unfolding parse_appgateway claude_azure_o11y.Types.Row.count_column
    claude_azure_o11y.Types.Row.flag_column claude_azure_o11y.Types.Row.cell Dict.lookup
    claude_azure_o11y.Models.Props.truth claude_azure_o11y.Models.Props.int_of
    claude_azure_o11y.Types.Row.base_resource claude_azure_o11y.Types.Row.parse_tags
    claude_azure_o11y.Models.Props.str_of text_column claude_azure_o11y.Prelude.Text.ends_with
    show_nat claude_azure_o11y.Prelude.Text.lower
gateway_parsed = refl

gateway_enriched : appgateway_enrich gateway gateway_rules ≡ ok reserved_gateway
unfolding appgateway_enrich claude_azure_o11y.Models.Props.truth prop Dict.lookup
    claude_azure_o11y.Models.Props.int_of claude_azure_o11y.Models.Props.or_value Dict.update
    Dict.insert
gateway_enriched = refl

gateway_kept : appgateway_finops_skip reserved_gateway ≡ none
unfolding appgateway_finops_skip claude_azure_o11y.Models.Props.truth prop Dict.lookup
gateway_kept = refl

appgateway_finops_skip-IsKept_example : IsKept gateway gateway_rules reserved_gateway
appgateway_finops_skip-IsKept_example =
    appgateway_finops_skip-IsKept gateway_row gateway_rules gateway reserved_gateway gateway_parsed
      gateway_enriched gateway_kept

abbrev parsed_vm : Resource Fixed
parsed_vm = record gateway {
  kind = "vm";
  arm_type = "microsoft.compute/virtualmachines";
  sku = "";
  props = ("os_type", text "") ∷ ("power_state", text "") ∷ [];
}

vm_parsed : parse_vm gateway_row ≡ ok parsed_vm
unfolding parse_vm claude_azure_o11y.Types.Row.base_resource Dict.lookup
    claude_azure_o11y.Types.Row.parse_tags claude_azure_o11y.Models.Props.truth
    claude_azure_o11y.Models.Props.str_of text_column claude_azure_o11y.Types.Row.flag_column
vm_parsed = refl

parse-IsIdentity_example : IsIdentity gateway_row "vm" parsed_vm
parse-IsIdentity_example = parse-IsIdentity vm_spec gateway_row parsed_vm (inl refl) vm_parsed

active-state_skip_example :
    vm_active parsed_vm
    ≡ state_skip "/gw" (text_column gateway_row "powerState") "powerstate/running" "not_running"
active-state_skip_example = active-state_skip vm_state gateway_row parsed_vm (inl refl) vm_parsed

abbrev base_yaml : Entries ℕ
base_yaml = cons "vm" (mapping (cons "cpu" (leaf 1) (cons "memory" (leaf 2) nil))) nil

abbrev own_yaml : Entries ℕ
own_yaml = cons "vm" (mapping (cons "cpu" (leaf 5) nil)) nil

own_yaml-IsDict : IsDict own_yaml
unfolding IsDict get
own_yaml-IsDict = (refl, (refl, tt, tt), tt)

deep_merge-overlay_example :
    leaf_at ("vm" ∷ "memory" ∷ []) (mapping (deep_merge base_yaml own_yaml)) ≡ (
      if is_touched ("vm" ∷ "memory" ∷ []) (mapping own_yaml)
      then leaf_at ("vm" ∷ "memory" ∷ []) (mapping own_yaml)
      else leaf_at ("vm" ∷ "memory" ∷ []) (mapping base_yaml))
deep_merge-overlay_example =
    deep_merge-overlay base_yaml own_yaml ("vm" ∷ "memory" ∷ []) own_yaml-IsDict

abbrev types : List (TypeEntry String)
types =
    record { kind = "vm"; catalog = some ("vm-skus.yaml", "family") }
    ∷ record { kind = "aks"; catalog = some ("vm-skus.yaml", "family") }
    ∷ []

abbrev catalog_file : String → File ℕ
catalog_file path = parsed (mapping nil)

abbrev validate : String → Entries ℕ → Result String
validate model raw = ok model

abbrev loaded : CatalogState String (List String)
loaded = record {
  catalogs = ("vm", "family") ∷ ("aks", "family") ∷ [];
  by_file = ("vm-skus.yaml", "family") ∷ [];
  world = "vm-skus.yaml" ∷ [];
}

catalogs_loaded : load_catalogs (logged catalog_file) validate types [] ≡ ok loaded
unfolding load_catalogs Dict.lookup Dict.insert
catalogs_loaded = refl

vm_aks : ◌≢◌ {A = String} "vm" "aks"
vm_aks e = let clash : false ≡ true = (string_eq.same_iff "vm" "aks").1 e in absurd (cc)

load_catalogs-IsLoaded_example :
    NoRepeats ("vm-skus.yaml" ∷ [])
    × All (λ t. IsLoaded catalog_file validate types loaded t.catalog t.kind) types
load_catalogs-IsLoaded_example =
    load_catalogs-IsLoaded catalog_file validate types loaded ((vm_aks, tt), (tt, tt))
      catalogs_loaded

abbrev offer : PriceItem Fixed
offer =
    ("skuName", text "D4")
    ∷ ("productName", text "Virtual Machines D Series")
    ∷ ("unitPrice", text "0.2")
    ∷ []

abbrev parse_decimal : String → Option ℕ
parse_decimal s = some 2_000_000_000

offer_priced : select_monthly_price parse_decimal (offer ∷ []) "Linux" ≡ ok (some 1_460_000_000_000)
unfolding select_monthly_price claude_azure_o11y.Prelude.map_result
    claude_azure_o11y.Prelude.Text.contains lower Dict.lookup claude_azure_o11y.Models.Props.str_of
    claude_azure_o11y.Recommend.Ladder.least_of
offer_priced = refl

select_monthly_price-IsCheapest_example :
    IsCheapest parse_decimal (offer ∷ []) "Linux" (some 1_460_000_000_000)
select_monthly_price-IsCheapest_example =
    select_monthly_price-IsCheapest parse_decimal (offer ∷ []) "Linux" (some 1_460_000_000_000)
      offer_priced

abbrev client : PriceClient Fixed ℕ
client = record {
  fetch = λ calls flt currency. (ok (offer ∷ []), calls + 1);
  currency = "USD";
  parse_decimal = parse_decimal;
  is_caught = λ name. true;
}

abbrev first_lookup : Lookup
first_lookup = record { region = "westeurope"; sku = "D4"; os_type = "Linux" }

abbrev again : Lookup
again = record { region = "WestEurope"; sku = "d4"; os_type = "linux" }

first_price : (look_up client ([], 0) first_lookup).0 ≡ ok (some 1_460_000_000_000)
unfolding monthly_price Dict.lookup claude_azure_o11y.Prelude.map_result
    claude_azure_o11y.Prelude.Text.contains lower claude_azure_o11y.Models.Props.str_of
    claude_azure_o11y.Recommend.Ladder.least_of
first_price = refl

same_key : key_for again ≡ key_for first_lookup
unfolding lower
same_key = refl

monthly_price-stays_example :
    look_up client (lookups client (look_up client ([], 0) first_lookup).1 []) again
    ≡ (ok (some 1_460_000_000_000), lookups client (look_up client ([], 0) first_lookup).1 [])
monthly_price-stays_example =
    monthly_price-stays client ([], 0) first_lookup (some 1_460_000_000_000) [] again first_price
      same_key

abbrev requests : List MetricRequest
requests =
    record { name = "CPU"; aggregation = "Average"; filter = none; roll_up_by = none }
    ∷ record {
      name = "Hits";
      aggregation = "Total";
      filter = some "Code eq '429'";
      roll_up_by = some "Code";
    }
    ∷ []

abbrev repr : String → String
repr s = s

group_keys-IsGroup_example :
    All (IsGroupedOnce (group_keys repr requests) requests) requests
    × All (IsGroup requests) (group_keys repr requests)
group_keys-IsGroup_example = group_keys-IsGroup repr requests

abbrev asked : Query
asked = record {
  region = "westeurope";
  subscription_id = "s1";
  resource_ids = "/vm/web" ∷ [];
  namespace = "ns";
  metrics = requests;
  window = window;
}

-- One datapoint of the metric for the requested resource.
abbrev cpu_entry : ResponseEntry Fixed
cpu_entry = record {
  resourceid = some "/VM/WEB";
  value =
      record {
        name = "cpu";
        timeseries = (record { time_stamp = ok 0; fields = ("average", ok 40_000) ∷ [] } ∷ []) ∷ [];
      }
      ∷ [];
}

abbrev cpu_answer : Call → CallAnswer Fixed
cpu_answer c = answered (cpu_entry ∷ [])

query-Returns_example :
    (result : Dict String (Series Fixed)) × (query cpu_answer asked ≡ ok result)
    × IsKeyed ("/vm/web" ∷ []) result
query-Returns_example =
    query-Returns cpu_answer asked
      (λ c. (cpu_entry ∷ [], refl, (((((tt, (tt, tt)), tt), tt), tt), tt)))

parse_batch_response-IsKeyed_example :
    Ensures Never
      (IsKeyed ("/vm/web" ∷ []))
      (parse_batch_response (cpu_entry ∷ []) ("/vm/web" ∷ []) requests)
parse_batch_response-IsKeyed_example =
    parse_batch_response-IsKeyed Never (cpu_entry ∷ []) ("/vm/web" ∷ []) requests
      (((((tt, (tt, tt)), tt), tt), tt), tt)

prefix-IsSmall : IsSmall 24
unfolding float_limit
prefix-IsSmall = refl

usable_ips-le_example :
    (counts : List ℕ) × (map_result (prefix_ips plain_digits) ("10.0.0.0/24" ∷ "10.1.0.0/x" ∷ [])
      ≡ ok counts)
    × (usable_ips plain_digits ("10.0.0.0/24" ∷ "10.1.0.0/x" ∷ []) ≡ ok (sum counts))
    × (sum counts ≤ 2 * 4_294_967_291)
unfolding behind_slash has_char ascii_length size_of
usable_ips-le_example =
    usable_ips-le plain_digits ("10.0.0.0/24" ∷ "10.1.0.0/x" ∷ [])
      (inl (24, refl, omega arith, prefix-IsSmall), (inr (inr (refl, refl)), tt))

plain_address : has_char b':' "10.0.0.0" ≡ false
unfolding has_char
plain_address = refl

prefix_ips-printed_example :
    prefix_ips plain_digits ("10.0.0.0" <> ("/" <> show_nat 24)) ≡ ok (2 ^ (32 - 24) - 5)
prefix_ips-printed_example =
    prefix_ips-printed plain_digits "10.0.0.0" 24 (omega arith) plain_address

local_write-lines_of_example :
    lines_of "out/findings/Ops.jsonl"
      (local_write {F = Fixed} (λ row. "row") "out" "Ops" ([] ∷ []) []).1
    ≡ lines_of "out/findings/Ops.jsonl" []
      ++ (if string_eq.same "Ops" "Ops" then "row" ∷ [] else [])
local_write-lines_of_example =
    local_write-lines_of {F = Fixed} (λ row. "row") "out" "Ops" "Ops" ([] ∷ []) []
