-- ===== src/Tests.antt =====
-- The theorems at concrete inputs.
mod Sources
use mathlib.Core.List.{flatten}
use claude_azure_o11y.Prelude.{
  map, ◌⊎◌, Returns, ℕ, ◌*◌, ◌/◌, ◌≡◌, ◌≤◌, ◌<◌, refl, true, false, Option, none, some, String,
  List, [], ◌∷◌, Result, ok, All, Among, count, length, arith, any, filter, if◌then◌else◌,
  string_eq, nat_eq, ltb, ◌+◌,
}
use claude_azure_o11y.Prelude.Text.{◌<>◌, show_nat, lower, has_char, join, split}
use claude_azure_o11y.Prelude.Dict
use claude_azure_o11y.Float.Fixed.{Fixed, fixed, unit, Fixed-IsFloat}
use claude_azure_o11y.Models.{
  Resource, Skip, HotAlert, Series, config, recommendation, medium, observation,
}
use claude_azure_o11y.Models.Summary.{new_summary, skipped, count_skip, skipped-count_skip}
use claude_azure_o11y.Config.Validate.{
  one_request_per_raw_metric, check_name, check_names, check_mode,
}
use claude_azure_o11y.Config.{raw_names, ops_metrics, finops_metrics, input_metrics}
use claude_azure_o11y.Evaluate.Percentile.{percentile, rank}
use claude_azure_o11y.Evaluate.Percentile.Rank.{percentile-nearest_rank}
use claude_azure_o11y.Evaluate.Hot.{evaluate_hot}
use claude_azure_o11y.Evaluate.Hot.Breach.{IsAnswer, evaluate_hot-IsAnswer}
use claude_azure_o11y.Evaluate.Threshold.{valid, expected_points, resolve_threshold_with_source}
use claude_azure_o11y.Prelude.Sort.{sort}
use claude_azure_o11y.Evaluate.Cold.{
  evaluate_cold, applicable, cold_loop, observe_cold, measure_cold, cold_finding, inputs_from,
}
use claude_azure_o11y.Evaluate.Cold.Agreement.{
  IsCold, IsAllowing, primary_of, evaluate_cold-IsAllowing,
}
use claude_azure_o11y.Metrics.Derive.{ops, wanted_metrics, request_all, ratio_percent, by_time}
use claude_azure_o11y.Metrics.Derive.Requests.{Serves, requests_for-Serves}
use claude_azure_o11y.Metrics.Derive.Points.{Pairwise, IsRatio, ratio_percent-IsRatio}
use claude_azure_o11y.Metrics.Batch.{chunk}
use claude_azure_o11y.Metrics.Batch.Chunks.{IsSlice, chunk-slices}
use claude_azure_o11y.Inventory.Filters.{filter_resources}
use claude_azure_o11y.Inventory.Filters.Partition.{
  is_kept, is_tagged_out, drop_reasons, filter_resources-partition,
}
use claude_azure_o11y.Inventory.Graph.{Answer, page, pages_from}
use claude_azure_o11y.Inventory.Graph.Pages.{final, more, parse_pages, pages_from-Pages}
use claude_azure_o11y.Recommend.Ladder.{
  fit_up, fit_down, needed_size, next_smaller_in_family, downsize_in_family, step_down,
  smaller_members,
}
use claude_azure_o11y.Recommend.Ladder.Fit.{IsLeast, fit_up-IsLeast, fit_down-IsLeast}
use claude_azure_o11y.Recommend.Ladder.Step.{IsLargest, next_smaller-IsLargest}
use claude_azure_o11y.Notify.{ops_row, finops_row}
use claude_azure_o11y.Notify.Columns.{
  conforms, ops_schema, finops_schema, ops_row-conforms, finops_row-conforms,
}
use claude_azure_o11y.Pipeline.Fetch.{ChunkResult, all_batches, group_all, fetch_all}
use claude_azure_o11y.Pipeline.Fetch.Total.{IsAnswered, resources_of, fetch_all-IsAnswered}
use claude_azure_o11y.Pipeline.Run.{run}
use claude_azure_o11y.Pipeline.Outcome.{IsOutcome, run-IsOutcome}
use claude_azure_o11y.Recommend.Family.{recommend_vm, recommend_postgres}
use claude_azure_o11y.Recommend.Sql.{
  SqlRules, recommend_vcore, rename_vcores, pool_vcore, pool_edtu_target,
}
use claude_azure_o11y.Recommend.Targets.{
  IsDownsize, recommend_vm-IsDownsize, recommend_postgres-IsDownsize, IsConfident,
  recommend_vm-IsConfident, IsFinite, IsFit, vcore-IsFit, pool_vcore-IsFit, pool_edtu-IsFit,
}
use claude_azure_o11y.Recommend.Units.{size_eventhub, unit_label, AppGatewayRules, size_appgateway}
use claude_azure_o11y.Recommend.UnitTargets.{
  IsLeastCount, share_of, Targets, size_eventhub-least, size_appgateway-least,
}
use claude_azure_o11y.Config.Groups.{get_sku, family_members}
use claude_azure_o11y.Samples.{
  vm, excluded_vm, tag_names, cpu, vm_metrics, thresholds, at, cold_observation, finding, catalog,
  settings, app, sample_spec, quiet_clients, window, run_context, metric_context,
}

run-IsOutcome_example :
    IsOutcome
      (λ s. ok 300)
      (λ s. false)
      (("vm", sample_spec) ∷ [])
      settings
      app
      quiet_clients
      ops
      100
      "r1"
      (run
        (λ s. ok 300)
        (λ s. false)
        (("vm", sample_spec) ∷ [])
        settings
        app
        quiet_clients
        ops
        100
        "r1").0
      (run
        (λ s. ok 300)
        (λ s. false)
        (("vm", sample_spec) ∷ [])
        settings
        app
        quiet_clients
        ops
        100
        "r1").1
run-IsOutcome_example =
    run-IsOutcome (λ s. ok 300) (λ s. false) (("vm", sample_spec) ∷ []) settings app quiet_clients
      ops 100 "r1"

percentile-nearest_rank_example :
    (x : Fixed) × (percentile (3 * unit ∷ 1 * unit ∷ 2 * unit ∷ []) 50 ≡ ok (some x))
    × Among x (3 * unit ∷ 1 * unit ∷ 2 * unit ∷ [])
    × (rank fixed 50 3 ≤ count (λ v. fixed.le v x) (3 * unit ∷ 1 * unit ∷ 2 * unit ∷ []))
    × (count (λ v. fixed.lt v x) (3 * unit ∷ 1 * unit ∷ 2 * unit ∷ []) < rank fixed 50 3)
percentile-nearest_rank_example =
    percentile-nearest_rank Fixed-IsFloat (3 * unit) (1 * unit ∷ 2 * unit ∷ []) 50 (omega arith)
      (refl, (refl, (refl, tt)))

abbrev cold_series : Series Fixed
cold_series = ("cpu", at 0 10 ∷ at 1 8 ∷ []) ∷ []

finds_cold :
    evaluate_cold vm cold_series vm_metrics thresholds 43_200_000_000 ≡ ok (some finding, [])
unfolding evaluate_cold applicable finops_metrics Dict.lookup cold_loop observe_cold expected_points
    valid measure_cold percentile sort rank resolve_threshold_with_source cold_finding inputs_from
    input_metrics
finds_cold = refl

evaluate_cold-IsAllowing_example :
    (◌≡◌ {A = List Skip} [] [])
    × All IsCold (cold_observation ∷ [])
    × All
        (IsAllowing vm thresholds 43_200_000_000
          (primary_of (applicable vm_metrics cold_series))
          cold_series)
        (applicable vm_metrics cold_series)
evaluate_cold-IsAllowing_example =
    evaluate_cold-IsAllowing vm cold_series vm_metrics thresholds 43_200_000_000 finding []
      finds_cold

evaluate_hot-IsAnswer_example :
    (result : Option (HotAlert Fixed) × List Skip) × (evaluate_hot vm "cpu" cpu thresholds
        (at 0 95 ∷ at 1 97 ∷ [])
      ≡ ok result)
    × IsAnswer vm "cpu" cpu thresholds 900_000 (95 * unit ∷ 97 * unit ∷ []) result
unfolding valid
evaluate_hot-IsAnswer_example =
    evaluate_hot-IsAnswer vm "cpu" cpu thresholds Fixed-IsFloat (at 0 95 ∷ at 1 97 ∷ []) 900_000
      refl

fit_up-IsLeast_example :
    IsLeast
      (35 * unit / 10)
      2
      8
      (8 ∷ 2 ∷ 4 ∷ 6 ∷ [])
      (fit_up (8 ∷ 2 ∷ 4 ∷ 6 ∷ []) (35 * unit / 10) 2 8)
fit_up-IsLeast_example = fit_up-IsLeast Fixed-IsFloat (8 ∷ 2 ∷ 4 ∷ 6 ∷ []) (35 * unit / 10) 2 8 refl

fit_down-IsLeast_example :
    IsLeast
      (8 * unit * (10 * unit) / unit * unit / (100 * unit) * 12_000 / unit)
      1
      8
      (2 ∷ 4 ∷ 8 ∷ [])
      (fit_down (2 ∷ 4 ∷ 8 ∷ []) 8 (10 * unit) 12_000 1)
    × ((fixed.le (8 * unit) (8 * unit * (10 * unit) / unit * unit / (100 * unit) * 12_000 / unit)
          ≡ false)
        ⊎ (fit_down (2 ∷ 4 ∷ 8 ∷ []) 8 (10 * unit) 12_000 1 ≡ none))
fit_down-IsLeast_example =
    fit_down-IsLeast Fixed-IsFloat (2 ∷ 4 ∷ 8 ∷ []) 8 (10 * unit) 12_000 1 refl

next_smaller-IsLargest_example :
    IsLargest catalog
      (record { family = "D"; vcpu = 8; memory_gib = 32 * unit })
      2
      (next_smaller_in_family catalog (record { family = "D"; vcpu = 8; memory_gib = 32 * unit }) 2)
next_smaller-IsLargest_example =
    next_smaller-IsLargest catalog (record { family = "D"; vcpu = 8; memory_gib = 32 * unit }) 2

filter_resources-partition_example :
    ((filter_resources tag_names [] (λ r. none) (vm ∷ excluded_vm ∷ [])).kept
      ≡ filter (is_kept tag_names [] (λ r. none)) (vm ∷ excluded_vm ∷ []))
    × ((filter_resources tag_names [] (λ r. none) (vm ∷ excluded_vm ∷ [])).excluded
        ≡ filter (is_tagged_out tag_names [] (λ r. none)) (vm ∷ excluded_vm ∷ []))
    × ((filter_resources tag_names [] (λ r. none) (vm ∷ excluded_vm ∷ [])).skips
        ≡ drop_reasons tag_names [] (λ r. none) (vm ∷ excluded_vm ∷ []))
    × (length (filter_resources tag_names [] (λ r. none) (vm ∷ excluded_vm ∷ [])).kept
          + length (filter_resources tag_names [] (λ r. none) (vm ∷ excluded_vm ∷ [])).skips
        ≡ 2)
filter_resources-partition_example =
    filter_resources-partition tag_names [] (λ r. none) (vm ∷ excluded_vm ∷ [])

fetch_all-IsAnswered_example :
    (batches : List (List (Resource Fixed))) × (all_batches 1
        (Dict.values (group_all (vm ∷ excluded_vm ∷ []) []))
      ≡ ok batches)
    × (results : List (ChunkResult Fixed)) × (fetch_all quiet_clients 4 1
          (vm ∷ excluded_vm ∷ [])
          "ns"
          []
          window
        ≡ ok results)
    × All (IsAnswered quiet_clients "ns" [] window) results
    × (map resources_of results ≡ batches)
fetch_all-IsAnswered_example =
    fetch_all-IsAnswered quiet_clients "ns" [] window 4 1 (vm ∷ excluded_vm ∷ []) (omega arith)
      (omega arith)

chunk-slices_example :
    (chunks : List (List ℕ)) × (chunk (1 ∷ 2 ∷ 3 ∷ []) 2 ≡ ok chunks)
    × (flatten chunks ≡ 1 ∷ 2 ∷ 3 ∷ [])
    × All (IsSlice 2) chunks
chunk-slices_example = chunk-slices (1 ∷ 2 ∷ 3 ∷ []) 2 (omega arith)

ratio_percent-IsRatio_example :
    Pairwise
      (IsRatio (at 1 4 ∷ []))
      (at 0 1 ∷ at 1 1 ∷ [])
      (ratio_percent (at 0 1 ∷ at 1 1 ∷ []) (at 1 4 ∷ []))
ratio_percent-IsRatio_example =
    ratio_percent-IsRatio Fixed-IsFloat (at 0 1 ∷ at 1 1 ∷ []) (at 1 4 ∷ [])

accepts_vm : one_request_per_raw_metric vm_metrics ≡ ok vm_metrics
unfolding one_request_per_raw_metric check_mode ops_metrics check_names raw_names check_name
    Dict.lookup Dict.update input_metrics finops_metrics
accepts_vm = refl

requests_for-Serves_example :
    All
      (λ e. All (Serves (request_all (wanted_metrics vm_metrics ops) []) e.1) (raw_names e.1))
      (wanted_metrics vm_metrics ops)
requests_for-Serves_example = requests_for-Serves vm_metrics ops accepts_vm

abbrev two_pages : Option String → Answer ℕ
two_pages none = page (1 ∷ 2 ∷ []) (some "next")
two_pages (some t) = page (3 ∷ []) none

abbrev numbered : ℕ → Result (Resource Fixed)
numbered n = ok (record vm { id = show_nat n })

pages_from-Pages_example :
    pages_from two_pages numbered "mg" 2 none []
    ≡ some (parse_pages two_pages numbered "mg" ((1 ∷ 2 ∷ []) ∷ (3 ∷ []) ∷ []) [])
pages_from-Pages_example =
    pages_from-Pages two_pages numbered "mg" none ((1 ∷ 2 ∷ []) ∷ (3 ∷ []) ∷ []) 2 []
      (more refl refl (final refl refl)) (omega arith)

ops_row-conforms_example :
    conforms ops_schema (
      ops_row
        (λ s. false)
        (record {
          resource = vm;
          metric = "cpu";
          observed = 960_000;
          threshold = 900_000;
          lookback_minutes = 30;
          threshold_source = config;
        })
        run_context
        metric_context)
    ≡ true
ops_row-conforms_example =
    ops_row-conforms (λ s. false)
      (record {
        resource = vm;
        metric = "cpu";
        observed = 960_000;
        threshold = 900_000;
        lookback_minutes = 30;
        threshold_source = config;
      })
      run_context metric_context

finops_row-conforms_example :
    conforms finops_schema (
      finops_row
        (λ s. false)
        (recommendation finding (some "D2") medium "cold")
        run_context
        metric_context)
    ≡ true
finops_row-conforms_example =
    finops_row-conforms (λ s. false) (recommendation finding (some "D2") medium "cold") run_context
      metric_context

skipped-count_skip_example :
    skipped (count_skip "no_ops_data" (new_summary {F = Fixed} "mg" "ops" 0)) "no_ops_data"
    ≡ skipped (new_summary {F = Fixed} "mg" "ops" 0) "no_ops_data" + 1
skipped-count_skip_example =
    skipped-count_skip "no_ops_data" "no_ops_data" (new_summary {F = Fixed} "mg" "ops" 0)

vm_target : (recommend_vm finding catalog 1).target_sku ≡ some "D2"
unfolding recommend_vm downsize_in_family step_down get_sku lower next_smaller_in_family
    smaller_members family_members
vm_target = refl

recommend_vm-IsDownsize_example : IsDownsize finding catalog 1 "D2"
recommend_vm-IsDownsize_example = recommend_vm-IsDownsize finding catalog 1 "D2" vm_target

postgres_target : (recommend_postgres finding catalog 1).target_sku ≡ some "D2"
unfolding recommend_postgres downsize_in_family step_down get_sku lower next_smaller_in_family
    smaller_members family_members
postgres_target = refl

recommend_postgres-IsDownsize_example : IsDownsize finding catalog 1 "D2"
recommend_postgres-IsDownsize_example =
    recommend_postgres-IsDownsize finding catalog 1 "D2" postgres_target

recommend_vm-IsConfident_example :
    IsConfident
      (get_sku catalog "D4")
      (observation finding "memory")
      (recommend_vm finding catalog 1)
recommend_vm-IsConfident_example = recommend_vm-IsConfident finding catalog 1

abbrev sql_rules : SqlRules Fixed
sql_rules = record { min_vcores = 2; headroom = 12_000 }

sql_need : IsFinite finding sql_rules 8
unfolding needed_size
sql_need = refl

vcore_target :
    (recommend_vcore finding sql_rules "cold" "GP_Gen5_8" (2 ∷ 4 ∷ 8 ∷ []) 8).target_sku
    ≡ some "GP_Gen5_2"
unfolding recommend_vcore fit_down fit_up has_char rename_vcores join split show_nat needed_size
vcore_target = refl

vcore-IsFit_example :
    (n : ℕ) × ("GP_Gen5_2" ≡ rename_vcores "GP_Gen5_8" n)
    × IsFit finding sql_rules (2 ∷ 4 ∷ 8 ∷ []) 8 2 n
vcore-IsFit_example =
    vcore-IsFit Fixed-IsFloat finding sql_rules "cold" "GP_Gen5_8" (2 ∷ 4 ∷ 8 ∷ []) 8 "GP_Gen5_2"
      sql_need vcore_target

pool_target :
    (pool_vcore finding sql_rules "cold" "GP_Gen5" (2 ∷ 4 ∷ 8 ∷ []) 8).target_sku ≡ some "GP_Gen5 2"
unfolding pool_vcore fit_down fit_up show_nat needed_size
pool_target = refl

pool_vcore-IsFit_example :
    (n : ℕ) × ("GP_Gen5 2" ≡ "GP_Gen5" <> " " <> show_nat n)
    × IsFit finding sql_rules (2 ∷ 4 ∷ 8 ∷ []) 8 2 n
pool_vcore-IsFit_example =
    pool_vcore-IsFit Fixed-IsFloat finding sql_rules "cold" "GP_Gen5" (2 ∷ 4 ∷ 8 ∷ []) 8 "GP_Gen5 2"
      sql_need pool_target

edtu_target :
    (pool_edtu_target finding sql_rules "cold" "Standard" "StandardPool"
      (50 ∷ 100 ∷ [])
      400).target_sku
    ≡ some "StandardPool 50"
unfolding pool_edtu_target fit_down fit_up show_nat needed_size
edtu_target = refl

edtu_need : IsFinite finding sql_rules 400
unfolding needed_size
edtu_need = refl

pool_edtu-IsFit_example :
    (n : ℕ) × ("StandardPool 50" ≡ "StandardPool" <> " " <> show_nat n)
    × IsFit finding sql_rules (50 ∷ 100 ∷ []) 400 0 n
pool_edtu-IsFit_example =
    pool_edtu-IsFit Fixed-IsFloat finding sql_rules "cold" "Standard" "StandardPool" (50 ∷ 100 ∷ [])
      400 "StandardPool 50" edtu_need edtu_target

few_units : fixed.le (needed_size 8 (10 * unit) 12_000) (fixed.of_nat 4) ≡ true
unfolding needed_size
few_units = refl

size_eventhub-least_example :
    (n : ℕ) × IsLeastCount (needed_size 8 (10 * unit) 12_000) 1 n
    × ((size_eventhub finding 12_000 "Standard" 8).target_sku ≡ (
        if ltb n 8
        then some ("Standard" <> " " <> show_nat n <> " " <> unit_label "Standard")
        else none))
size_eventhub-least_example =
    size_eventhub-least Fixed-IsFloat finding 12_000 "Standard" 8 4 few_units

abbrev gateway_rules : AppGatewayRules Fixed
gateway_rules = record { cu_per_instance = 10; min_instances = 2; headroom = 12_000 }

small_share : fixed.le (share_of finding gateway_rules 100) (fixed.of_nat 4) ≡ true
unfolding needed_size
small_share = refl

size_appgateway-least_example :
    (n : ℕ) × IsLeastCount (share_of finding gateway_rules 100) 2 n
    × Targets (size_appgateway finding gateway_rules "WAF_v2" true 10 100 (ok 20)) (
        if ltb n 10
        then some ("WAF_v2" <> " autoscale " <> show_nat n <> "-" <> show_nat 20)
        else none)
    × Targets
        (size_appgateway finding gateway_rules "WAF_v2" false 10 100 (ok 20))
        (if ltb n 10 then some ("WAF_v2" <> " x" <> show_nat n) else none)
size_appgateway-least_example =
    size_appgateway-least Fixed-IsFloat finding gateway_rules "WAF_v2" 10 100 20 4 (omega arith)
      (omega arith) (omega arith) small_share
