-- ===== src/Recommend/Plans.antt =====
-- src/recommend/appserviceplan.py: fewer instances of a plan, or one step down its SKU family.
use Prim.Native.Nat.{max}
use claude_azure_o11y.Prelude.{
  ℕ, Bool, not, ◌&&◌, Option, none, some, String, [], ◌∷◌, ◌++◌, Result, ok, err, ◌>>=◌,
  assertion_error, value_error, exception, zero_division, ◌==◌, nat_eq, ltb, if◌then◌else◌,
}
use claude_azure_o11y.Prelude.Text.{◌<>◌, show_nat, join}
use claude_azure_o11y.Float.{Float, gt}
use claude_azure_o11y.Models.{
  ColdFinding, ColdObservation, Confidence, low, Recommendation, recommendation, observation, null,
}
use claude_azure_o11y.Models.Props.{prop, truth, int_prop, str_prop}
use claude_azure_o11y.Config.Groups.{FamilySku, FamilySkuCatalog, get_sku}
use claude_azure_o11y.Recommend.Ladder.{needed_size, next_smaller_in_family}
use claude_azure_o11y.Recommend.Family.{cpu_part, is_below, memory_confidence}
use claude_azure_o11y.Recommend.Units.{peak_of}
use claude_azure_o11y.Recommend.Nodes.{load_on}

pub record PlanRules (F : Type 0) : Type 0 where
  pub min_instances : ℕ
  pub min_vcpu : ℕ
  pub headroom : F

module _ {F : Type 0} ⦃fl : Float F⦄ where
  unfoldable plan_memory : Option (ColdObservation F) → String
  unfolding is_below
  plan_memory none = "Memory not evaluated (no MemoryPercentage data)."
  plan_memory (some mem) = is_below "memory" mem

  -- `max(min_instances, ceil(instances * peak / 100 * headroom))`; `ceil` refuses NaN and infinities.
  unfoldable pub plan_target : PlanRules F → (instances : ℕ) → (peak : F) → Result ℕ
  plan_target rules instances peak =
      let needed = needed_size instances peak rules.headroom in
      if fl.is_finite needed
      then ok (max rules.min_instances (fl.ceil needed))
      else if fl.eq needed needed
      then err (exception "OverflowError" "cannot convert float infinity to integer")
      else err (value_error "cannot convert float NaN to integer")

abbrev lever : Bool → String
lever elastic =
    if elastic then "Elastic scale manages the instance count" else "Instance count is at floor"

abbrev pub instances_of : String → ℕ → String
instances_of sku n = sku <> " x" <> show_nat n

module _ {F : Type 0} ⦃fl : Float F⦄ (finding : ColdFinding F) (catalog : FamilySkuCatalog F)
    (rules : PlanRules F) (why : String) (confidence : Confidence) (peak : F) (sku_name : String)
    (instances : ℕ) (elastic : Bool) where
  -- Behind the lookup of the smaller size.
  unfoldable pub fit_plan : FamilySku F → String → Option (FamilySku F) → Result (Recommendation F)
  unfolding load_on
  fit_plan current smaller none = err (assertion_error "")
  fit_plan current smaller (some target) =
      let projected = load_on peak rules.headroom current target in
      if target.vcpu == 0
      then err zero_division
      else if gt projected (fl.of_nat 100)
      then ok (
          recommendation finding none confidence (
            why
            <> " "
            <> lever elastic
            <> "; "
            <> smaller
            <> " would not fit the peak with "
            <> fl.show_g rules.headroom
            <> "x headroom ("
            <> fl.show_fixed 0 projected
            <> "% of "
            <> show_nat target.vcpu
            <> " vCPU)."))
      else ok (
          recommendation finding (some (instances_of smaller instances)) confidence (
            why
            <> " "
            <> lever elastic
            <> "; "
            <> instances_of smaller instances
            <> " covers the peak with "
            <> fl.show_g rules.headroom
            <> "x headroom."))

  unfoldable pub after_step : FamilySku F → Option String → Result (Recommendation F)
  unfolding fit_plan
  after_step current none = ok (
      recommendation finding none confidence (
        why
        <> " "
        <> lever elastic
        <> "; "
        <> sku_name
        <> " is already smallest allowed size in family "
        <> current.family
        <> " (min_vcpu="
        <> show_nat rules.min_vcpu
        <> ")."))
  after_step current (some smaller) = fit_plan current smaller (get_sku catalog smaller)

  -- Lever 2: one step down the SKU family.
  unfoldable pub step_plan : Option (FamilySku F) → Result (Recommendation F)
  unfolding after_step
  step_plan none = ok (
      recommendation finding none low
        (why <> " SKU " <> sku_name <> " not in config/appservice-skus.yaml; cannot recommend."))
  step_plan (some current) =
      after_step current (next_smaller_in_family catalog current rules.min_vcpu)

  -- Behind the count of lever 1.
  unfoldable pub scale_in : ℕ → Result (Recommendation F)
  unfolding step_plan
  scale_in n =
      if ltb n instances
      then ok (
          recommendation finding (some (instances_of sku_name n)) confidence (
            why
            <> " "
            <> show_nat n
            <> " instances cover the peak with "
            <> fl.show_g rules.headroom
            <> "x headroom."))
      else step_plan (get_sku catalog sku_name)

  -- Both levers behind the reading of the props; a plan without apps is deleted.
  unfoldable pub size_plan : (sites : ℕ) → Result (Recommendation F)
  unfolding plan_target scale_in
  size_plan sites =
      if sites == 0
      then ok (
          recommendation finding (some "delete") confidence
            (why <> " The plan hosts no apps (" <> show_nat sites <> " sites); delete it."))
      else if not elastic && ltb rules.min_instances instances
      then plan_target rules instances peak >>= scale_in
      else step_plan (get_sku catalog sku_name)

module _ {F : Type 0} ⦃fl : Float F⦄ where
  unfoldable pub recommend_appserviceplan :
      ColdFinding F → FamilySkuCatalog F → PlanRules F → Result (Recommendation F)
  unfolding size_plan plan_memory cpu_part memory_confidence
  recommend_appserviceplan finding catalog rules =
      let r = finding.resource in
      let cpu = observation finding "cpu" in
      let mem = observation finding "memory" in
      int_prop r "instances" >>= λ instances. int_prop r "sites" >>= λ sites.
      size_plan finding catalog rules (join " " (cpu_part finding cpu ++ (plan_memory mem ∷ [])))
        (memory_confidence mem) (peak_of cpu mem finding.observed) (str_prop r "sku_name") instances
        (truth (prop r "elastic_scale" null)) sites
