-- ===== src/Types/Registry.antt =====
-- The specs of src/resource_types, with the recommenders bound to the configured rules and catalogs;
-- and `rules_for` and `catalog_for` of src/config/models.py.
pub mod Machines
pub mod Services
pub mod Table
pub mod Identity
use claude_azure_o11y.Prelude.{
  ℕ, Bool, true, false, Option, none, some, String, List, [], ◌∷◌, Result, ok, err, ◌>>=◌,
  key_error, type_error, assertion_error, string_eq,
}
use claude_azure_o11y.Prelude.Text.{◌<>◌}
use claude_azure_o11y.Prelude.Dict
use claude_azure_o11y.Prelude.Dict.{Dict}
use claude_azure_o11y.Float.{Float}
use claude_azure_o11y.Models.{Resource, ColdFinding, Recommendation, Skip}
use claude_azure_o11y.Config.Groups.{FamilySkuCatalog, SqlSkuCatalog}
use claude_azure_o11y.Metrics.Derive.{MetricSource, monitor, inventory}
use claude_azure_o11y.Recommend.Family.{recommend_vm, recommend_postgres}
use claude_azure_o11y.Recommend.Sql.{SqlRules, recommend_sqldb, recommend_sqlpool, recommend_sqlmi}
use claude_azure_o11y.Recommend.Account.{
  CosmosRules, StorageRules, recommend_cosmos, recommend_storage,
}
use claude_azure_o11y.Recommend.Units.{
  EventHubRules, ServiceBusRules, AppGatewayRules, recommend_eventhub, recommend_servicebus,
  recommend_appgateway,
}
use claude_azure_o11y.Recommend.Redis.{RedisRules, RedisSkuCatalog, recommend_redis}
use claude_azure_o11y.Recommend.Nodes.{AksRules, recommend_aks}
use claude_azure_o11y.Recommend.Plans.{PlanRules, recommend_appserviceplan}
use claude_azure_o11y.Pipeline.{AppConfig, ResourceTypeSpec}
use claude_azure_o11y.Types.Row.{Row, never_skip, no_enrichment}
use claude_azure_o11y.Types.Compute.{
  parse_vm, vm_active, parse_postgres, postgres_active, parse_aks, aks_active, parse_plan,
  plan_active, plan_finops_skip,
}
use claude_azure_o11y.Types.Sql.{
  parse_sqldb, sqldb_active, sqldb_finops_skip, parse_sqlpool, sqlpool_active, parse_sqlmi,
  sqlmi_active,
}
use claude_azure_o11y.Types.Data.{
  parse_cosmos, cosmos_finops_skip, parse_redis, redis_active, parse_storage, storage_active,
  storage_finops_skip,
}
use claude_azure_o11y.Types.Capacity.{
  parse_eventhub, eventhub_enrich, eventhub_finops_skip, parse_servicebus, servicebus_active,
  servicebus_finops_skip, parse_appgateway, appgateway_enrich, appgateway_active,
  appgateway_finops_skip,
}
use claude_azure_o11y.Types.Subnets.{parse_vnet}

-- An instance of one of the pydantic models that `AppConfig.rules` and `AppConfig.catalogs` hold.
pub data Model (F : Type 0) : Type 0 where
  empty_rules : Model F
  vm_rules : (min_vcpu : ℕ) → Model F
  postgres_rules : (min_vcpu : ℕ) → Model F
  sqldb_rules : SqlRules F → Model F
  sqlpool_rules : SqlRules F → Model F
  sqlmi_rules : SqlRules F → Model F
  cosmos_rules : CosmosRules F → Model F
  storage_rules : StorageRules F → Model F
  eventhub_rules : EventHubRules F → Model F
  servicebus_rules : ServiceBusRules F → Model F
  appgateway_rules : AppGatewayRules F → Model F
  redis_rules : RedisRules F → Model F
  aks_rules : AksRules F → Model F
  plan_rules : PlanRules F → Model F
  family_catalog : FamilySkuCatalog F → Model F
  sql_catalog : SqlSkuCatalog → Model F
  redis_catalog : RedisSkuCatalog F → Model F

-- A parser with the spec that it belongs to, and the file of its catalog. The text of the query and
-- the class of the rules model have no counterpart: the query runs in the service, and `recommend`
-- and `enrich` say which rules they read.
pub record TypeModule (F : Type 0) : Type 0 where
  pub parse : Row F → Result (Resource F)
  pub spec : ResourceTypeSpec F (Model F)
  pub catalog_file : Option String

module _ {F A : Type 0} where
  -- `_narrow`: `pick` is the test and the view of the expected model.
  unfoldable pub narrow : (Model F → Option A) → (what : String) → Model F → Result A
  narrow pick what value = elim (pick value) [
    | none ↦ err (type_error what)
    | some rules ↦ ok rules
  ]

  unfoldable pub rules_for : AppConfig F (Model F) → String → (Model F → Option A) → Result A
  unfolding narrow
  rules_for config kind pick = elim (Dict.lookup kind config.rules) [
    | none ↦ err (key_error kind)
    | some value ↦ narrow pick ("rules for " <> kind) value
  ]

  unfoldable pub catalog_for : AppConfig F (Model F) → String → (Model F → Option A) → Result A
  unfolding narrow
  catalog_for config kind pick = elim (Dict.lookup kind config.catalogs) [
    | none ↦ err (key_error kind)
    | some value ↦ narrow pick ("catalog for " <> kind) value
  ]

module _ {F : Type 0} where
  abbrev pub pick_family : Model F → Option (FamilySkuCatalog F)
  pick_family (family_catalog c) = some c
  pick_family m = none

  abbrev pub pick_sql : Model F → Option SqlSkuCatalog
  pick_sql (sql_catalog c) = some c
  pick_sql m = none

  abbrev pub pick_redis_sizes : Model F → Option (RedisSkuCatalog F)
  pick_redis_sizes (redis_catalog c) = some c
  pick_redis_sizes m = none

  abbrev pub pick_vm : Model F → Option ℕ
  pick_vm (vm_rules n) = some n
  pick_vm m = none

  abbrev pub pick_postgres : Model F → Option ℕ
  pick_postgres (postgres_rules n) = some n
  pick_postgres m = none

  abbrev pub pick_sqldb : Model F → Option (SqlRules F)
  pick_sqldb (sqldb_rules r) = some r
  pick_sqldb m = none

  abbrev pub pick_sqlpool : Model F → Option (SqlRules F)
  pick_sqlpool (sqlpool_rules r) = some r
  pick_sqlpool m = none

  abbrev pub pick_sqlmi : Model F → Option (SqlRules F)
  pick_sqlmi (sqlmi_rules r) = some r
  pick_sqlmi m = none

  abbrev pub pick_cosmos : Model F → Option (CosmosRules F)
  pick_cosmos (cosmos_rules r) = some r
  pick_cosmos m = none

  abbrev pub pick_storage : Model F → Option (StorageRules F)
  pick_storage (storage_rules r) = some r
  pick_storage m = none

  abbrev pub pick_eventhub : Model F → Option (EventHubRules F)
  pick_eventhub (eventhub_rules r) = some r
  pick_eventhub m = none

  abbrev pub pick_servicebus : Model F → Option (ServiceBusRules F)
  pick_servicebus (servicebus_rules r) = some r
  pick_servicebus m = none

  abbrev pub pick_appgateway : Model F → Option (AppGatewayRules F)
  pick_appgateway (appgateway_rules r) = some r
  pick_appgateway m = none

  abbrev pub pick_redis : Model F → Option (RedisRules F)
  pick_redis (redis_rules r) = some r
  pick_redis m = none

  abbrev pub pick_aks : Model F → Option (AksRules F)
  pick_aks (aks_rules r) = some r
  pick_aks m = none

  abbrev pub pick_plan : Model F → Option (PlanRules F)
  pick_plan (plan_rules r) = some r
  pick_plan m = none

module _ {F : Type 0} where
  -- `assert isinstance(rules, …)` in front of an enricher.
  abbrev pub enriched_by :
      {A : Type 0}
      → (Model F → Option A)
      → (Resource F → A → Result (Resource F))
      → Resource F
      → Model F
      → Result (Resource F)
  enriched_by pick enrich r rules = elim (pick rules) [
    | none ↦ err (assertion_error "")
    | some knobs ↦ enrich r knobs
  ]
