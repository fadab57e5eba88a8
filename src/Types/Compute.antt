-- ===== src/Types/Compute.antt =====
-- src/resource_types/vm.py, postgres.py, aks.py and appserviceplan.py.
use claude_azure_o11y.Prelude.{
  ℕ, ◌+◌, ◌||◌, Option, none, some, String, List, [], ◌∷◌, map, Result, ok, err, ◌>>=◌, map_result,
  type_error, ◌==◌, string_eq, if◌then◌else◌,
}
use claude_azure_o11y.Prelude.Text.{◌<>◌, lower, is_text, join, show_nat}
use claude_azure_o11y.Prelude.Dict
use claude_azure_o11y.Prelude.Dict.{Dict}
use claude_azure_o11y.Float.{Float}
use claude_azure_o11y.Models.{Resource, Skip, Value, Pool, text, nat, flag, null, pools}
use claude_azure_o11y.Models.Props.{prop, str_of, truth, int_of, or_value}
use claude_azure_o11y.Types.Row.{
  Row, Cell, Item, plain, array, object, leaf, entry, cell, cell_truth, flag_column, text_column,
  count_column, base_resource, require_state,
}

-- `sum(p["count"] for p in pools)`
abbrev pub node_count : List Pool → ℕ
node_count [] = 0
node_count (p ∷ ps) = p.count + node_count ps

abbrev pub pools_label : List Pool → String
pools_label ps = join " + " (map (λ p. p.vm_size <> " x" <> show_nat p.count) ps)

abbrev plan_sku : String → ℕ → String
plan_sku sku_name instances =
    if is_text sku_name then sku_name <> " x" <> show_nat instances else ""

module _ {F : Type 0} ⦃fl : Float F⦄ where
  -- `vm.parse`
  unfoldable pub parse_vm : Row F → Result (Resource F)
  parse_vm row =
      base_resource row "vm" "microsoft.compute/virtualmachines" (text_column row "vmSize") (
        ("os_type", text (text_column row "osType"))
        ∷ ("power_state", text (text_column row "powerState"))
        ∷ [])

  -- `vm.active`
  unfoldable pub vm_active : Resource F → Option Skip
  vm_active = require_state "power_state" "powerstate/running" "not_running"

  -- `row.get(name)` as a value of `props`.
  abbrev cell_value : Cell F → Value F
  cell_value (plain v) = v
  cell_value (array shown items) = Value.other shown (cell_truth (array shown items))
  cell_value (object shown entries) = Value.other shown (cell_truth (object shown entries))

  -- `postgres.parse`
  unfoldable pub parse_postgres : Row F → Result (Resource F)
  parse_postgres row =
      base_resource row "postgres" "microsoft.dbforpostgresql/flexibleservers"
        (text_column row "skuName")
        (("tier", text (text_column row "tier"))
          ∷ ("state", text (text_column row "state"))
          ∷ ("storage_gb", cell_value (cell row "storageGb"))
          ∷ ("version", text (text_column row "version"))
          ∷ [])

  -- `postgres.active`
  unfoldable pub postgres_active : Resource F → Option Skip
  postgres_active = require_state "state" "ready" "not_ready"

  -- `profile.get(name)`
  unfoldable pub field : Dict String (Value F) → String → Value F
  field profile name = elim (Dict.lookup name profile) [ none ↦ null | some v ↦ v ]

  abbrev text_field : Dict String (Value F) → String → String
  text_field profile name = str_of (or_value (field profile name) (text ""))

  abbrev count_field : Dict String (Value F) → String → Result ℕ
  count_field profile name = int_of (or_value (field profile name) (nat 0))

  unfoldable pub parse_pool : Dict String (Value F) → Result Pool
  parse_pool profile = count_field profile "count" >>= λ count.
      count_field profile "minCount" >>= λ min_count.
      count_field profile "maxCount" >>= λ max_count. ok (record {
        name = text_field profile "name";
        vm_size = text_field profile "vmSize";
        count = count;
        mode = text_field profile "mode";
        autoscale = truth (field profile "enableAutoScaling");
        min_count = min_count;
        max_count = max_count;
      })

  -- The objects of a list, the other items passed over.
  unfoldable pub profiles_from : List (Item F) → List (Dict String (Value F))
  profiles_from [] = []
  profiles_from (leaf v ∷ items) = profiles_from items
  profiles_from (entry shown profile ∷ items) = profile ∷ profiles_from items

  -- `p for p in (c or []) if isinstance(p, dict)`: the keys of an object are no dicts.
  unfoldable pub profiles_of : Cell F → Result (List (Dict String (Value F)))
  unfolding profiles_from
  profiles_of (array shown items) = ok (profiles_from items)
  profiles_of (object shown entries) = ok []
  profiles_of (plain (text s)) = ok []
  profiles_of (plain v) = if truth v then err (type_error "object is not iterable") else ok []

  -- `aks.parse`
  unfoldable pub parse_aks : Row F → Result (Resource F)
  unfolding parse_pool profiles_of
  parse_aks row = profiles_of (cell row "pools") >>= λ profiles.
      map_result parse_pool profiles >>= λ ps.
      base_resource row "aks" "microsoft.containerservice/managedclusters" (pools_label ps) (
        ("tier", text (text_column row "tier"))
        ∷ ("power_state", text (text_column row "powerState"))
        ∷ ("k8s_version", text (text_column row "k8sVersion"))
        ∷ ("pools", pools ps)
        ∷ ("node_count", nat (node_count ps))
        ∷ [])

  -- `aks.active`
  unfoldable pub aks_active : Resource F → Option Skip
  aks_active = require_state "power_state" "Running" "not_running"

  -- `appserviceplan.parse`
  unfoldable pub parse_plan : Row F → Result (Resource F)
  parse_plan row =
      let sku_name = text_column row "skuName" in
      count_column row "capacity" >>= λ instances. count_column row "sites" >>= λ sites.
      base_resource row "appserviceplan" "microsoft.web/serverfarms" (plan_sku sku_name instances) (
        ("sku_name", text sku_name)
        ∷ ("tier", text (text_column row "tier"))
        ∷ ("instances", nat instances)
        ∷ ("status", text (text_column row "status"))
        ∷ ("sites", nat sites)
        ∷ ("elastic_scale", flag (flag_column row "elastic"))
        ∷ ("os", text (if flag_column row "reserved" then "linux" else "windows"))
        ∷ ("plan_kind", text (text_column row "kind"))
        ∷ [])

  -- `appserviceplan.active`
  unfoldable pub plan_active : Resource F → Option Skip
  plan_active = require_state "status" "Ready" "not_ready"

  -- `appserviceplan.finops_skip`
  unfoldable pub plan_finops_skip : Resource F → Option Skip
  plan_finops_skip r =
      let tier = str_of (prop r "tier" (text "")) in
      if lower tier == "free" || lower tier == "shared"
      then some (record { resource_id = r.id; reason = "no_capacity_model"; detail = tier })
      else none
