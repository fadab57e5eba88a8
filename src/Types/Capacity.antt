-- ===== src/Types/Capacity.antt =====
-- src/resource_types/eventhub.py, servicebus.py and appgateway.py: parsers, capacity models, skips.
use claude_azure_o11y.Prelude.{
  ℕ, ◌*◌, Bool, not, Option, none, some, String, [], ◌∷◌, Result, ok, ◌>>=◌, ◌==◌, string_eq,
  nat_eq, if◌then◌else◌,
}
use claude_azure_o11y.Prelude.Text.{◌<>◌, lower, is_text, show_nat, ends_with}
use claude_azure_o11y.Prelude.Dict
use claude_azure_o11y.Float.{Float}
use claude_azure_o11y.Models.{Resource, Skip, Value, text, nat, flag, num, null}
use claude_azure_o11y.Models.Props.{prop, str_of, truth, int_prop, or_value}
use claude_azure_o11y.Recommend.Units.{EventHubRules, unit_mbps, unit_label, AppGatewayRules}
use claude_azure_o11y.Types.Row.{
  Row, flag_column, text_column, count_column, base_resource, require_state,
}

-- `eventhub._sku`
unfoldable pub eventhub_sku : String → ℕ → String
unfolding unit_label
eventhub_sku tier capacity =
    if not (is_text tier)
    then ""
    else if lower tier == "dedicated"
    then tier
    else tier <> " " <> show_nat capacity <> " " <> unit_label tier

-- `servicebus._sku`
unfoldable pub servicebus_sku : String → ℕ → String
servicebus_sku tier capacity =
    if lower tier == "premium" then tier <> " " <> show_nat capacity <> " MU" else tier

-- `appgateway._sku`
unfoldable pub appgateway_sku : String → Bool → (capacity min_capacity max_capacity : ℕ) → String
appgateway_sku sku_name autoscale capacity min_capacity max_capacity =
    if not (is_text sku_name)
    then ""
    else if autoscale
    then sku_name <> " autoscale " <> show_nat min_capacity <> "-" <> show_nat max_capacity
    else sku_name <> " x" <> show_nat capacity

module _ {F : Type 0} where
  -- `replace(resource, props={**resource.props, name: value})`
  unfoldable pub with_prop : Resource F → String → Value F → Resource F
  with_prop r name v = record r { props = Dict.update r.props ((name, v) ∷ []) }

module _ {F : Type 0} ⦃fl : Float F⦄ where
  -- `eventhub.parse`
  unfoldable pub parse_eventhub : Row F → Result (Resource F)
  unfolding eventhub_sku
  parse_eventhub row =
      let tier = text_column row "tier" in
      count_column row "capacity" >>= λ capacity. count_column row "maxTu" >>= λ max_tu.
      base_resource row "eventhub" "microsoft.eventhub/namespaces" (eventhub_sku tier capacity) (
        ("tier", text tier)
        ∷ ("capacity", nat capacity)
        ∷ ("auto_inflate", flag (flag_column row "autoInflate"))
        ∷ ("max_tu", nat max_tu)
        ∷ [])

  -- `capacity * unit_mbps * BYTES_PER_MB`
  abbrev pub ingress_capacity : ℕ → F → F
  ingress_capacity capacity mbps = fl.mul (fl.mul (fl.of_nat capacity) mbps) (fl.of_nat 1_000_000)

  unfoldable pub attach_ingress : Resource F → ℕ → Option F → Resource F
  unfolding with_prop
  attach_ingress r capacity none = r
  attach_ingress r capacity (some mbps) =
      if capacity == 0
      then r
      else with_prop r "capacity_bytes_per_second" (num (ingress_capacity capacity mbps))

  -- `eventhub.enrich`
  unfoldable pub eventhub_enrich : Resource F → EventHubRules F → Result (Resource F)
  unfolding attach_ingress unit_mbps
  eventhub_enrich r rules = int_prop r "capacity" >>= λ capacity.
      ok (attach_ingress r capacity (unit_mbps rules (str_of (prop r "tier" (text "")))))

  -- `eventhub.finops_skip`
  unfoldable pub eventhub_finops_skip : Resource F → Option Skip
  eventhub_finops_skip r =
      if lower (str_of (prop r "tier" (text ""))) == "dedicated"
      then some (record { resource_id = r.id; reason = "no_capacity_model"; detail = "" })
      else none

  -- `servicebus.parse`
  unfoldable pub parse_servicebus : Row F → Result (Resource F)
  unfolding servicebus_sku
  parse_servicebus row =
      let tier = text_column row "tier" in
      count_column row "capacity" >>= λ capacity. count_column row "partitions" >>= λ partitions.
      base_resource row "servicebus" "microsoft.servicebus/namespaces"
        (servicebus_sku tier capacity)
        (("tier", text tier)
          ∷ ("capacity", nat capacity)
          ∷ ("partitions", nat partitions)
          ∷ ("status", text (text_column row "status"))
          ∷ [])

  -- `servicebus.active`
  unfoldable pub servicebus_active : Resource F → Option Skip
  servicebus_active = require_state "status" "active" "not_active"

  -- `servicebus.finops_skip`
  unfoldable pub servicebus_finops_skip : Resource F → Option Skip
  servicebus_finops_skip r =
      let tier = str_of (prop r "tier" (text "")) in
      if lower tier == "premium"
      then none
      else some (record { resource_id = r.id; reason = "no_capacity_model"; detail = tier })

  -- `appgateway.parse`
  unfoldable pub parse_appgateway : Row F → Result (Resource F)
  unfolding appgateway_sku
  parse_appgateway row =
      let sku_name = text_column row "skuName" in
      let tier = text_column row "tier" in
      let autoscale = flag_column row "autoscale" in
      count_column row "capacity" >>= λ capacity. count_column row "minCapacity" >>= λ min_capacity.
      count_column row "maxCapacity" >>= λ max_capacity.
      base_resource row "appgateway" "microsoft.network/applicationgateways"
        (appgateway_sku sku_name autoscale capacity min_capacity max_capacity)
        (("sku_name", text sku_name)
          ∷ ("tier", text tier)
          ∷ ("v2", flag (ends_with "_v2" (lower tier)))
          ∷ ("autoscale", flag autoscale)
          ∷ ("capacity", nat capacity)
          ∷ ("min_capacity", nat min_capacity)
          ∷ ("max_capacity", nat max_capacity)
          ∷ ("state", text (text_column row "state"))
          ∷ [])

  -- The instances that a gateway always runs: the autoscale minimum, or the fixed count.
  unfoldable pub gateway_instances : Resource F → Result ℕ
  gateway_instances r =
      int_prop r (if truth (prop r "autoscale" null) then "min_capacity" else "capacity")

  unfoldable pub attach_reserved : Resource F → ℕ → Resource F
  unfolding with_prop
  attach_reserved r reserved =
      if reserved == 0 then r else with_prop r "reserved_capacity_units" (nat reserved)

  -- `appgateway.enrich`
  unfoldable pub appgateway_enrich : Resource F → AppGatewayRules F → Result (Resource F)
  unfolding gateway_instances attach_reserved
  appgateway_enrich r rules =
      if truth (prop r "v2" (flag Bool.false))
      then (gateway_instances r >>= λ instances.
          ok (attach_reserved r (instances * rules.cu_per_instance)))
      else ok r

  -- `appgateway.active`
  unfoldable pub appgateway_active : Resource F → Option Skip
  appgateway_active = require_state "state" "Running" "not_running"

  -- `appgateway.finops_skip`
  unfoldable pub appgateway_finops_skip : Resource F → Option Skip
  appgateway_finops_skip r =
      if not (truth (prop r "v2" (flag Bool.false)))
      then some (record {
        resource_id = r.id;
        reason = "no_capacity_model";
        detail = str_of (or_value (prop r "tier" null) (text "v1"));
      })
      else if not (truth (prop r "reserved_capacity_units" null))
      then some (record {
        resource_id = r.id;
        reason = "no_capacity_model";
        detail = "autoscale minimum 0";
      })
      else none
