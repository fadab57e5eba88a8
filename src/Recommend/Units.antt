-- ===== src/Recommend/Units.antt =====
-- src/recommend/eventhub.py, servicebus.py and appgateway.py: fewer billed units.
use Prim.Native.Nat.{max}
use claude_azure_o11y.Prelude.{
  ℕ, Bool, ◌||◌, Option, none, some, String, List, [], ◌∷◌, ◌++◌, Result, ok, err, zero_division,
  ◌>>=◌, ◌==◌, string_eq, nat_eq, ltb, leb, if◌then◌else◌,
}
use claude_azure_o11y.Prelude.Text.{◌<>◌, show_nat, join, lower, or_text}
use claude_azure_o11y.Float.{Float, max_float}
use claude_azure_o11y.Models.{
  ColdFinding, ColdObservation, low, medium, Recommendation, recommendation, observation, null,
}
use claude_azure_o11y.Models.Props.{prop, truth, int_prop, str_prop}
use claude_azure_o11y.Recommend.Ladder.{needed_size, fit_down}
use claude_azure_o11y.Recommend.Family.{cpu_part, is_below, memory_confidence}

pub record EventHubRules (F : Type 0) : Type 0 where
  pub headroom : F
  pub mb_per_tu : F
  pub mb_per_pu : F

-- `EventHubRecommendRules.unit_mbps`
unfoldable pub unit_mbps : {F : Type 0} → EventHubRules F → String → Option F
unit_mbps rules tier =
    if lower tier == "premium"
    then some rules.mb_per_pu
    else if lower tier == "basic" || lower tier == "standard"
    then some rules.mb_per_tu
    else none

unfoldable pub unit_label : String → String
unit_label tier = if lower tier == "premium" then "PU" else "TU"

abbrev eventhub_note : String
eventhub_note = " Standard→Basic not evaluated (needs capture/consumer-group/retention checks)."

module _ {F : Type 0} ⦃fl : Float F⦄ where
  -- `max(1, ceil(capacity * observed / 100 * headroom))`
  unfoldable pub unit_target : ℕ → (observed headroom : F) → ℕ
  unit_target capacity observed headroom = max 1 (fl.ceil (needed_size capacity observed headroom))

  unfoldable pub size_eventhub : ColdFinding F → F → String → ℕ → Recommendation F
  unfolding unit_target unit_label
  size_eventhub finding headroom tier capacity =
      let unit = unit_label tier in
      let why =
        "P"
        <> show_nat finding.percentile
        <> " ingress "
        <> fl.show_g finding.observed
        <> "% of "
        <> show_nat capacity
        <> " "
        <> unit
        <> " over "
        <> show_nat finding.lookback_days
        <> "d is below "
        <> fl.show_g finding.threshold
        <> "%." in
      let target = unit_target capacity finding.observed headroom in
      if leb capacity target
      then recommendation finding none medium (
          why
          <> " "
          <> tier
          <> " "
          <> show_nat capacity
          <> " "
          <> unit
          <> " is already at the smallest size that covers the ingress."
          <> eventhub_note)
      else recommendation finding (some (tier <> " " <> show_nat target <> " " <> unit)) medium (
          why
          <> " "
          <> tier
          <> " "
          <> show_nat target
          <> " "
          <> unit
          <> " covers the observed ingress with "
          <> fl.show_g headroom
          <> "x headroom."
          <> eventhub_note)

  unfoldable pub recommend_eventhub : ColdFinding F → EventHubRules F → Result (Recommendation F)
  unfolding size_eventhub
  recommend_eventhub finding rules = int_prop finding.resource "capacity" >>= λ capacity.
      ok (size_eventhub finding rules.headroom (str_prop finding.resource "tier") capacity)

pub record ServiceBusRules (F : Type 0) : Type 0 where
  pub headroom : F
  pub min_units : ℕ
  pub messaging_units : List ℕ

abbrev servicebus_note : String
servicebus_note = " Premium→Standard not evaluated (VNet, message size, feature checks)."

abbrev partition_part : ℕ → List String
partition_part partitions =
    if ltb 1 partitions
    then ("Namespace has " <> show_nat partitions <> " messaging partitions.") ∷ []
    else []

module _ {F : Type 0} ⦃fl : Float F⦄ where
  servicebus_memory : Option (ColdObservation F) → String
  unfolding is_below
  servicebus_memory none = "Memory not evaluated (no NamespaceMemoryUsage data)."
  servicebus_memory (some mem) = is_below "memory" mem

  -- `max(peaks) if peaks else finding.observed`, of the observations that are there.
  unfoldable pub peak_of : Option (ColdObservation F) → Option (ColdObservation F) → F → F
  peak_of none none observed = observed
  peak_of (some cpu) none observed = cpu.value
  peak_of none (some mem) observed = mem.value
  peak_of (some cpu) (some mem) observed = max_float cpu.value mem.value

  unfoldable pub size_servicebus :
      ColdFinding F → ServiceBusRules F → String → (capacity partitions : ℕ) → Recommendation F
  unfolding cpu_part memory_confidence servicebus_memory peak_of
  size_servicebus finding rules tier capacity partitions =
      let cpu = observation finding "cpu" in
      let mem = observation finding "memory" in
      let why =
        join " " (cpu_part finding cpu ++ (servicebus_memory mem ∷ partition_part partitions)) in
      if capacity == 0
      then recommendation finding none low
          (why <> " Capacity unknown; cannot recommend." <> servicebus_note)
      else elim (fit_down rules.messaging_units capacity (peak_of cpu mem finding.observed)
          rules.headroom rules.min_units) [
            | none ↦ recommendation finding none (memory_confidence mem) (
                why
                <> " "
                <> tier
                <> " "
                <> show_nat capacity
                <> " MU is already at the smallest size that covers the peak (min_units="
                <> show_nat rules.min_units
                <> ")."
                <> servicebus_note)
            | some target ↦
                recommendation finding (some (tier <> " " <> show_nat target <> " MU"))
                  (memory_confidence mem)
                  (why
                    <> " "
                    <> tier
                    <> " "
                    <> show_nat target
                    <> " MU covers the peak with "
                    <> fl.show_g rules.headroom
                    <> "x headroom."
                    <> servicebus_note)
          ]

  unfoldable pub recommend_servicebus :
      ColdFinding F → ServiceBusRules F → Result (Recommendation F)
  unfolding size_servicebus
  recommend_servicebus finding rules = int_prop finding.resource "capacity" >>= λ capacity.
      int_prop finding.resource "partitions" >>= λ partitions.
      ok (size_servicebus finding rules (str_prop finding.resource "tier") capacity partitions)

pub record AppGatewayRules (F : Type 0) : Type 0 where
  pub cu_per_instance : ℕ
  pub min_instances : ℕ
  pub headroom : F

module _ {F : Type 0} ⦃fl : Float F⦄ (finding : ColdFinding F) (rules : AppGatewayRules F) where
  -- `max(min_instances, ceil(reserved * observed / 100 * headroom / cu_per_instance))`
  unfoldable pub instance_target : ℕ → ℕ
  instance_target reserved = max rules.min_instances (
      fl.ceil (
        fl.div (needed_size reserved finding.observed rules.headroom)
          (fl.of_nat rules.cu_per_instance)))

  -- The rule behind the reading of the props.
  unfoldable pub size_appgateway :
      (sku_name : String) → Bool → (current reserved : ℕ) → Result ℕ → Result (Recommendation F)
  unfolding instance_target
  size_appgateway sku_name autoscale current reserved max_capacity =
      let why =
        "P"
        <> show_nat finding.percentile
        <> " capacity units "
        <> fl.show_g finding.observed
        <> "% of "
        <> show_nat reserved
        <> " reserved ("
        <> show_nat current
        <> " instances × "
        <> show_nat rules.cu_per_instance
        <> " CU) over "
        <> show_nat finding.lookback_days
        <> "d is below "
        <> fl.show_g finding.threshold
        <> "%." in
      let target = instance_target reserved in
      if current == 0 || reserved == 0
      then ok (
          recommendation finding none low
            (why <> " No target: capacity unknown (" <> or_text sku_name "no SKU" <> ")."))
      else if rules.cu_per_instance == 0
      then err zero_division
      else if leb current target
      then ok (
          recommendation finding none medium (
            why
            <> " "
            <> show_nat current
            <> " instances is already at the smallest instance count that covers the load (min_instances="
            <> show_nat rules.min_instances
            <> ")."))
      else if autoscale
      then (max_capacity >>= λ most. ok (
          recommendation finding
            (some (sku_name <> " autoscale " <> show_nat target <> "-" <> show_nat most)) medium
            (why
              <> " Lower the minimum instance count from "
              <> show_nat current
              <> " to "
              <> show_nat target
              <> ".")))
      else ok (
          recommendation finding (some (sku_name <> " x" <> show_nat target)) medium (
            why
            <> " Lower the instance count from "
            <> show_nat current
            <> " to "
            <> show_nat target
            <> "."))

  unfoldable pub recommend_appgateway : Result (Recommendation F)
  unfolding size_appgateway
  recommend_appgateway =
      let r = finding.resource in
      let autoscale = truth (prop r "autoscale" null) in
      int_prop r (if autoscale then "min_capacity" else "capacity") >>= λ current.
      int_prop r "reserved_capacity_units" >>= λ reserved.
      size_appgateway (str_prop r "sku_name") autoscale current reserved (int_prop r "max_capacity")
