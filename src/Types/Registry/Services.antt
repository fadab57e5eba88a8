-- ===== src/Types/Registry/Services.antt =====
-- The specs of the other types: accounts, namespaces, gateways, caches and subnets.
use claude_azure_o11y.Prelude.{false, none, some, Result, ◌>>=◌, string_eq}
use claude_azure_o11y.Float.{Float}
use claude_azure_o11y.Models.{ColdFinding, Recommendation}
use claude_azure_o11y.Metrics.Derive.{monitor, inventory}
use claude_azure_o11y.Recommend.Account.{recommend_cosmos, recommend_storage}
use claude_azure_o11y.Recommend.Units.{
  recommend_eventhub, recommend_servicebus, recommend_appgateway,
}
use claude_azure_o11y.Recommend.Redis.{recommend_redis}
use claude_azure_o11y.Pipeline.{AppConfig}
use claude_azure_o11y.Types.Row.{never_skip, no_enrichment}
use claude_azure_o11y.Types.Data.{
  parse_cosmos, cosmos_finops_skip, parse_redis, redis_active, parse_storage, storage_active,
  storage_finops_skip,
}
use claude_azure_o11y.Types.Capacity.{
  parse_eventhub, eventhub_enrich, eventhub_finops_skip, parse_servicebus, servicebus_active,
  servicebus_finops_skip, parse_appgateway, appgateway_enrich, appgateway_active,
  appgateway_finops_skip,
}
use claude_azure_o11y.Types.Subnets.{parse_vnet}
use claude_azure_o11y.Types.Registry.{
  Model, TypeModule, rules_for, catalog_for, enriched_by, pick_redis_sizes, pick_cosmos,
  pick_storage, pick_eventhub, pick_servicebus, pick_appgateway, pick_redis,
}

module _ {F : Type 0} ⦃fl : Float F⦄ where
  -- `cosmos.recommend`
  unfoldable pub cosmos_recommend :
      ColdFinding F → AppConfig F (Model F) → Result (Recommendation F)
  unfolding catalog_for rules_for
  cosmos_recommend finding config =
      rules_for config "cosmos" pick_cosmos >>= λ rules. recommend_cosmos finding rules

  -- `cosmos.SPEC`
  abbrev pub cosmos_spec : TypeModule F
  cosmos_spec = record {
    parse = parse_cosmos;
    spec = record {
      kind = "cosmos";
      enrich = no_enrichment;
      active = never_skip;
      finops_skip = cosmos_finops_skip;
      metric_source = monitor;
      recommend = some cosmos_recommend;
      priced = false;
    };
    catalog_file = none;
  }

  -- `eventhub.recommend`
  unfoldable pub eventhub_recommend :
      ColdFinding F → AppConfig F (Model F) → Result (Recommendation F)
  unfolding catalog_for rules_for
  eventhub_recommend finding config =
      rules_for config "eventhub" pick_eventhub >>= λ rules. recommend_eventhub finding rules

  -- `eventhub.SPEC`
  abbrev pub eventhub_spec : TypeModule F
  eventhub_spec = record {
    parse = parse_eventhub;
    spec = record {
      kind = "eventhub";
      enrich = enriched_by pick_eventhub eventhub_enrich;
      active = never_skip;
      finops_skip = eventhub_finops_skip;
      metric_source = monitor;
      recommend = some eventhub_recommend;
      priced = false;
    };
    catalog_file = none;
  }

  -- `vnet.SPEC`
  abbrev pub vnet_spec : TypeModule F
  vnet_spec = record {
    parse = parse_vnet;
    spec = record {
      kind = "vnet";
      enrich = no_enrichment;
      active = never_skip;
      finops_skip = never_skip;
      metric_source = inventory;
      recommend = none;
      priced = false;
    };
    catalog_file = none;
  }

  -- `redis.recommend`
  unfoldable pub redis_recommend : ColdFinding F → AppConfig F (Model F) → Result (Recommendation F)
  unfolding catalog_for rules_for
  redis_recommend finding config = catalog_for config "redis" pick_redis_sizes >>= λ catalog.
      rules_for config "redis" pick_redis >>= λ rules. recommend_redis finding catalog rules

  -- `redis.SPEC`
  abbrev pub redis_spec : TypeModule F
  redis_spec = record {
    parse = parse_redis;
    spec = record {
      kind = "redis";
      enrich = no_enrichment;
      active = redis_active;
      finops_skip = never_skip;
      metric_source = monitor;
      recommend = some redis_recommend;
      priced = false;
    };
    catalog_file = some "redis-skus.yaml";
  }

  -- `servicebus.recommend`
  unfoldable pub servicebus_recommend :
      ColdFinding F → AppConfig F (Model F) → Result (Recommendation F)
  unfolding catalog_for rules_for
  servicebus_recommend finding config =
      rules_for config "servicebus" pick_servicebus >>= λ rules. recommend_servicebus finding rules

  -- `servicebus.SPEC`
  abbrev pub servicebus_spec : TypeModule F
  servicebus_spec = record {
    parse = parse_servicebus;
    spec = record {
      kind = "servicebus";
      enrich = no_enrichment;
      active = servicebus_active;
      finops_skip = servicebus_finops_skip;
      metric_source = monitor;
      recommend = some servicebus_recommend;
      priced = false;
    };
    catalog_file = none;
  }

  -- `appgateway.recommend`
  unfoldable pub appgateway_recommend :
      ColdFinding F → AppConfig F (Model F) → Result (Recommendation F)
  unfolding catalog_for rules_for
  appgateway_recommend finding config =
      rules_for config "appgateway" pick_appgateway >>= λ rules. recommend_appgateway finding rules

  -- `appgateway.SPEC`
  abbrev pub appgateway_spec : TypeModule F
  appgateway_spec = record {
    parse = parse_appgateway;
    spec = record {
      kind = "appgateway";
      enrich = enriched_by pick_appgateway appgateway_enrich;
      active = appgateway_active;
      finops_skip = appgateway_finops_skip;
      metric_source = monitor;
      recommend = some appgateway_recommend;
      priced = false;
    };
    catalog_file = none;
  }

  -- `storage.recommend`
  unfoldable pub storage_recommend :
      ColdFinding F → AppConfig F (Model F) → Result (Recommendation F)
  unfolding catalog_for rules_for
  storage_recommend finding config =
      rules_for config "storage" pick_storage >>= λ rules. recommend_storage finding rules

  -- `storage.SPEC`
  abbrev pub storage_spec : TypeModule F
  storage_spec = record {
    parse = parse_storage;
    spec = record {
      kind = "storage";
      enrich = no_enrichment;
      active = storage_active;
      finops_skip = storage_finops_skip;
      metric_source = monitor;
      recommend = some storage_recommend;
      priced = false;
    };
    catalog_file = none;
  }
