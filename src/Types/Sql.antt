-- ===== src/Types/Sql.antt =====
-- src/resource_types/sqldb.py, sqlpool.py and sqlmi.py.
use claude_azure_o11y.Prelude.{
  Bool, ◌||◌, Option, none, some, String, [], ◌∷◌, Result, ◌>>=◌, ◌==◌, string_eq, if◌then◌else◌,
}
use claude_azure_o11y.Prelude.Text.{◌<>◌, lower, upper, is_text, starts_with, contains, show_nat}
use claude_azure_o11y.Float.{Float}
use claude_azure_o11y.Models.{Resource, Skip, text, nat, flag}
use claude_azure_o11y.Models.Props.{prop, str_of}
use claude_azure_o11y.Types.Row.{Row, text_column, count_column, base_resource, require_state}

-- `tier.lower() in DTU_TIERS`
unfoldable pub is_dtu_tier : String → Bool
is_dtu_tier tier = lower tier == "basic" || (lower tier == "standard" || lower tier == "premium")

unfoldable pub purchasing_model : (tier sku_name : String) → String
unfolding is_dtu_tier
purchasing_model tier sku_name =
    if is_dtu_tier tier
    then "dtu"
    else if contains "_S_" (upper sku_name)
    then "serverless"
    else "vcore"

unfoldable pub is_hyperscale : (tier sku_name : String) → Bool
is_hyperscale tier sku_name = lower tier == "hyperscale" || starts_with "HS_" (upper sku_name)

-- `sqlpool._purchasing_model`
unfoldable pub pool_purchasing_model : String → String
unfolding is_dtu_tier
pool_purchasing_model tier = if is_dtu_tier tier then "dtu" else "vcore"

module _ {F : Type 0} ⦃fl : Float F⦄ where
  -- `sqldb.parse`
  unfoldable pub parse_sqldb : Row F → Result (Resource F)
  unfolding purchasing_model is_hyperscale
  parse_sqldb row =
      let tier = text_column row "tier" in
      let sku_name = text_column row "skuName" in
      count_column row "capacity" >>= λ capacity.
      base_resource row "sqldb" "microsoft.sql/servers/databases" sku_name (
        ("tier", text tier)
        ∷ ("sku_name", text sku_name)
        ∷ ("capacity", nat capacity)
        ∷ ("purchasing_model", text (purchasing_model tier sku_name))
        ∷ ("hyperscale", flag (is_hyperscale tier sku_name))
        ∷ ("pool_id", text (text_column row "poolId"))
        ∷ ("status", text (text_column row "status"))
        ∷ ("db_kind", text (text_column row "kind"))
        ∷ [])

  -- `sqldb.active`
  unfoldable pub sqldb_active : Resource F → Option Skip
  sqldb_active = require_state "status" "online" "not_online"

  -- `sqldb.finops_skip`
  unfoldable pub sqldb_finops_skip : Resource F → Option Skip
  sqldb_finops_skip r =
      let pool_id = str_of (prop r "pool_id" (text "")) in
      if is_text pool_id
      then some (record { resource_id = r.id; reason = "in_elastic_pool"; detail = pool_id })
      else none

  -- `sqlpool.parse`
  unfoldable pub parse_sqlpool : Row F → Result (Resource F)
  unfolding pool_purchasing_model
  parse_sqlpool row =
      let tier = text_column row "tier" in
      let sku_name = text_column row "skuName" in
      count_column row "capacity" >>= λ capacity.
      base_resource row "sqlpool" "microsoft.sql/servers/elasticpools"
        (sku_name <> " " <> show_nat capacity)
        (("tier", text tier)
          ∷ ("sku_name", text sku_name)
          ∷ ("capacity", nat capacity)
          ∷ ("purchasing_model", text (pool_purchasing_model tier))
          ∷ ("state", text (text_column row "state"))
          ∷ [])

  -- `sqlpool.active`
  unfoldable pub sqlpool_active : Resource F → Option Skip
  sqlpool_active = require_state "state" "ready" "not_ready"

  -- `sqlmi.parse`
  unfoldable pub parse_sqlmi : Row F → Result (Resource F)
  parse_sqlmi row =
      let sku_name = text_column row "skuName" in
      count_column row "vcores" >>= λ vcores. count_column row "storageGb" >>= λ storage_gb.
      base_resource row "sqlmi" "microsoft.sql/managedinstances"
        (sku_name <> " " <> show_nat vcores <> " vCores")
        (("tier", text (text_column row "tier"))
          ∷ ("sku_name", text sku_name)
          ∷ ("vcores", nat vcores)
          ∷ ("storage_gb", nat storage_gb)
          ∷ ("state", text (text_column row "state"))
          ∷ [])

  -- `sqlmi.active`
  unfoldable pub sqlmi_active : Resource F → Option Skip
  sqlmi_active = require_state "state" "ready" "not_ready"
