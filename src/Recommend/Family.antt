-- ===== src/Recommend/Family.antt =====
-- src/recommend/vm.py and src/recommend/postgres.py: one step down a SKU family.
use claude_azure_o11y.Prelude.{ℕ, Option, none, some, String, List, [], ◌∷◌, ◌++◌}
use claude_azure_o11y.Prelude.Text.{◌<>◌, show_nat, join}
use claude_azure_o11y.Float.{Float}
use claude_azure_o11y.Models.{
  ColdFinding, ColdObservation, Confidence, low, medium, Recommendation, observation,
}
use claude_azure_o11y.Config.Groups.{FamilySkuCatalog}
use claude_azure_o11y.Recommend.Ladder.{downsize_in_family}

module _ {F : Type 0} ⦃fl : Float F⦄ where
  -- `f"P{o.percentile} <label> {o.value:g}% over {days}d is below {o.threshold:g}%."`
  unfoldable pub over_days : String → ℕ → ColdObservation F → String
  over_days label days o =
      "P"
      <> show_nat o.percentile
      <> " "
      <> label
      <> " "
      <> fl.show_g o.value
      <> "% over "
      <> show_nat days
      <> "d is below "
      <> fl.show_g o.threshold
      <> "%."

  -- `f"P{o.percentile} <label> {o.value:g}% is below {o.threshold:g}%."`
  unfoldable pub is_below : String → ColdObservation F → String
  is_below label o =
      "P"
      <> show_nat o.percentile
      <> " "
      <> label
      <> " "
      <> fl.show_g o.value
      <> "% is below "
      <> fl.show_g o.threshold
      <> "%."

  -- The part of the reasons about CPU, if that was observed.
  unfoldable pub cpu_part : ColdFinding F → Option (ColdObservation F) → List String
  unfolding over_days
  cpu_part finding none = []
  cpu_part finding (some cpu) = over_days "CPU" finding.lookback_days cpu ∷ []

  -- `medium` with a memory observation, else `low`.
  unfoldable pub memory_confidence : Option (ColdObservation F) → Confidence
  memory_confidence none = low
  memory_confidence (some mem) = medium

  vm_memory : Option (ColdObservation F) → String
  vm_memory none = "Memory not evaluated (no Available Memory Percentage data)."
  vm_memory (some mem) =
      "P"
      <> show_nat mem.percentile
      <> " available memory "
      <> fl.show_g mem.value
      <> "% is above "
      <> fl.show_g mem.threshold
      <> "% (peak use "
      <> fl.show_g (fl.sub (fl.of_nat 100) mem.value)
      <> "%)."

  -- `recommend_vm`, with the rules' `min_vcpu`.
  unfoldable pub recommend_vm :
      ColdFinding F → FamilySkuCatalog F → (min_vcpu : ℕ) → Recommendation F
  unfolding cpu_part memory_confidence vm_memory
  recommend_vm finding catalog min_vcpu =
      let mem = observation finding "memory" in
      downsize_in_family finding catalog "config/vm-skus.yaml" min_vcpu
        (join " " (cpu_part finding (observation finding "cpu") ++ (vm_memory mem ∷ [])))
        (memory_confidence mem)

  postgres_memory : Option (ColdObservation F) → String
  unfolding is_below
  postgres_memory none = "Memory not evaluated (no memory_percent data)."
  postgres_memory (some mem) = is_below "memory" mem

  -- `recommend_postgres`, with the rules' `min_vcpu`.
  unfoldable pub recommend_postgres :
      ColdFinding F → FamilySkuCatalog F → (min_vcpu : ℕ) → Recommendation F
  unfolding cpu_part memory_confidence postgres_memory
  recommend_postgres finding catalog min_vcpu =
      let mem = observation finding "memory" in
      downsize_in_family finding catalog "config/postgres-skus.yaml" min_vcpu
        (join " " (cpu_part finding (observation finding "cpu") ++ (postgres_memory mem ∷ [])))
        (memory_confidence mem)
