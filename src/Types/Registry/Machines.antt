-- ===== src/Types/Registry/Machines.antt =====
-- The specs of the types with a SKU ladder: virtual machines, databases, clusters and plans.
use claude_azure_o11y.Prelude.{true, false, some, Result, ok, ◌>>=◌, string_eq}
use claude_azure_o11y.Float.{Float}
use claude_azure_o11y.Models.{ColdFinding, Recommendation}
use claude_azure_o11y.Metrics.Derive.{monitor}
use claude_azure_o11y.Recommend.Family.{recommend_vm, recommend_postgres}
use claude_azure_o11y.Recommend.Sql.{recommend_sqldb, recommend_sqlpool, recommend_sqlmi}
use claude_azure_o11y.Recommend.Nodes.{recommend_aks}
use claude_azure_o11y.Recommend.Plans.{recommend_appserviceplan}
use claude_azure_o11y.Pipeline.{AppConfig}
use claude_azure_o11y.Types.Row.{never_skip, no_enrichment}
use claude_azure_o11y.Types.Compute.{
  parse_vm, vm_active, parse_postgres, postgres_active, parse_aks, aks_active, parse_plan,
  plan_active, plan_finops_skip,
}
use claude_azure_o11y.Types.Sql.{
  parse_sqldb, sqldb_active, sqldb_finops_skip, parse_sqlpool, sqlpool_active, parse_sqlmi,
  sqlmi_active,
}
use claude_azure_o11y.Types.Registry.{
  Model, TypeModule, rules_for, catalog_for, pick_family, pick_sql, pick_vm, pick_postgres,
  pick_sqldb, pick_sqlpool, pick_sqlmi, pick_aks, pick_plan,
}

module _ {F : Type 0} ⦃fl : Float F⦄ where
  -- `vm.recommend`
  unfoldable pub vm_recommend : ColdFinding F → AppConfig F (Model F) → Result (Recommendation F)
  unfolding catalog_for rules_for
  vm_recommend finding config = catalog_for config "vm" pick_family >>= λ catalog.
      rules_for config "vm" pick_vm >>= λ rules. ok (recommend_vm finding catalog rules)

  -- `vm.SPEC`
  abbrev pub vm_spec : TypeModule F
  vm_spec = record {
    parse = parse_vm;
    spec = record {
      kind = "vm";
      enrich = no_enrichment;
      active = vm_active;
      finops_skip = never_skip;
      metric_source = monitor;
      recommend = some vm_recommend;
      priced = true;
    };
    catalog_file = some "vm-skus.yaml";
  }

  -- `sqldb.recommend`
  unfoldable pub sqldb_recommend : ColdFinding F → AppConfig F (Model F) → Result (Recommendation F)
  unfolding catalog_for rules_for
  sqldb_recommend finding config = catalog_for config "sqldb" pick_sql >>= λ catalog.
      rules_for config "sqldb" pick_sqldb >>= λ rules. recommend_sqldb finding rules catalog

  -- `sqldb.SPEC`
  abbrev pub sqldb_spec : TypeModule F
  sqldb_spec = record {
    parse = parse_sqldb;
    spec = record {
      kind = "sqldb";
      enrich = no_enrichment;
      active = sqldb_active;
      finops_skip = sqldb_finops_skip;
      metric_source = monitor;
      recommend = some sqldb_recommend;
      priced = false;
    };
    catalog_file = some "sql-skus.yaml";
  }

  -- `sqlpool.recommend`
  unfoldable pub sqlpool_recommend :
      ColdFinding F → AppConfig F (Model F) → Result (Recommendation F)
  unfolding catalog_for rules_for
  sqlpool_recommend finding config = catalog_for config "sqlpool" pick_sql >>= λ catalog.
      rules_for config "sqlpool" pick_sqlpool >>= λ rules. recommend_sqlpool finding rules catalog

  -- `sqlpool.SPEC`
  abbrev pub sqlpool_spec : TypeModule F
  sqlpool_spec = record {
    parse = parse_sqlpool;
    spec = record {
      kind = "sqlpool";
      enrich = no_enrichment;
      active = sqlpool_active;
      finops_skip = never_skip;
      metric_source = monitor;
      recommend = some sqlpool_recommend;
      priced = false;
    };
    catalog_file = some "sql-skus.yaml";
  }

  -- `sqlmi.recommend`
  unfoldable pub sqlmi_recommend : ColdFinding F → AppConfig F (Model F) → Result (Recommendation F)
  unfolding catalog_for rules_for
  sqlmi_recommend finding config = catalog_for config "sqlmi" pick_sql >>= λ catalog.
      rules_for config "sqlmi" pick_sqlmi >>= λ rules. recommend_sqlmi finding rules catalog

  -- `sqlmi.SPEC`
  abbrev pub sqlmi_spec : TypeModule F
  sqlmi_spec = record {
    parse = parse_sqlmi;
    spec = record {
      kind = "sqlmi";
      enrich = no_enrichment;
      active = sqlmi_active;
      finops_skip = never_skip;
      metric_source = monitor;
      recommend = some sqlmi_recommend;
      priced = false;
    };
    catalog_file = some "sql-skus.yaml";
  }

  -- `postgres.recommend`
  unfoldable pub postgres_recommend :
      ColdFinding F → AppConfig F (Model F) → Result (Recommendation F)
  unfolding catalog_for rules_for
  postgres_recommend finding config = catalog_for config "postgres" pick_family >>= λ catalog.
      rules_for config "postgres" pick_postgres >>= λ rules.
      ok (recommend_postgres finding catalog rules)

  -- `postgres.SPEC`
  abbrev pub postgres_spec : TypeModule F
  postgres_spec = record {
    parse = parse_postgres;
    spec = record {
      kind = "postgres";
      enrich = no_enrichment;
      active = postgres_active;
      finops_skip = never_skip;
      metric_source = monitor;
      recommend = some postgres_recommend;
      priced = false;
    };
    catalog_file = some "postgres-skus.yaml";
  }

  -- `appserviceplan.recommend`
  unfoldable pub plan_recommend : ColdFinding F → AppConfig F (Model F) → Result (Recommendation F)
  unfolding catalog_for rules_for
  plan_recommend finding config = catalog_for config "appserviceplan" pick_family >>= λ catalog.
      rules_for config "appserviceplan" pick_plan >>= λ rules.
      recommend_appserviceplan finding catalog rules

  -- `appserviceplan.SPEC`
  abbrev pub plan_spec : TypeModule F
  plan_spec = record {
    parse = parse_plan;
    spec = record {
      kind = "appserviceplan";
      enrich = no_enrichment;
      active = plan_active;
      finops_skip = plan_finops_skip;
      metric_source = monitor;
      recommend = some plan_recommend;
      priced = false;
    };
    catalog_file = some "appservice-skus.yaml";
  }

  -- `aks.recommend`
  unfoldable pub aks_recommend : ColdFinding F → AppConfig F (Model F) → Result (Recommendation F)
  unfolding catalog_for rules_for
  aks_recommend finding config = catalog_for config "aks" pick_family >>= λ catalog.
      rules_for config "aks" pick_aks >>= λ rules. recommend_aks finding rules catalog

  -- `aks.SPEC`
  abbrev pub aks_spec : TypeModule F
  aks_spec = record {
    parse = parse_aks;
    spec = record {
      kind = "aks";
      enrich = no_enrichment;
      active = aks_active;
      finops_skip = never_skip;
      metric_source = monitor;
      recommend = some aks_recommend;
      priced = false;
    };
    catalog_file = some "vm-skus.yaml";
  }
