-- ===== src/Recommend/UnitTargets.antt =====
-- The targets of the rules that count units: Event Hubs, Application Gateway, Storage.
use Prim.Native.Nat.{max}
use claude_azure_o11y.Prelude.{
  ℕ, ◌≤◌, ◌<◌, ◌≡◌, ◌∙◌, true, false, Option, none, some, String, arith, ltb, if◌then◌else◌, le→leb,
  ok, err, Result, nat_eq,
}
use claude_azure_o11y.Prelude.Text.{◌<>◌, show_nat}
use claude_azure_o11y.Float.{Float, IsFloat}
use claude_azure_o11y.Models.{ColdFinding, Recommendation}
use claude_azure_o11y.Recommend.Ladder.{needed_size}
use claude_azure_o11y.Recommend.Units.{
  unit_label, unit_target, size_eventhub, AppGatewayRules, instance_target, size_appgateway,
}

-- The rule returns a recommendation with this target.
abbrev pub Targets : {F : Type 0} → Result (Recommendation F) → Option String → Type 0
Targets (ok rec) t = rec.target_sku ≡ t
Targets (err x) t = ⊥

module _ {F : Type 0} ⦃fl : Float F⦄ where
  -- The least count of at least `floor` that covers the need.
  abbrev pub IsLeastCount : F → ℕ → ℕ → Type 0
  IsLeastCount needed floor n =
      (floor ≤ n)
      × (fl.le needed (fl.of_nat n) ≡ true)
      × ((m : ℕ) → floor ≤ m → fl.le needed (fl.of_nat m) ≡ true → n ≤ m)

  -- The units that the gateway needs, as a share of what one instance gives.
  abbrev pub share_of : ColdFinding F → AppGatewayRules F → ℕ → F
  share_of finding rules reserved =
      fl.div (needed_size reserved finding.observed rules.headroom)
        (fl.of_nat rules.cu_per_instance)

module _ {F : Type 0} ⦃fl : Float F⦄ (laws : IsFloat fl) where
  pub ceil_least :
      (x : F) (low top : ℕ)
      → fl.le x (fl.of_nat top) ≡ true
      → let n = max low (fl.ceil x) in
        (fl.le x (fl.of_nat n) ≡ true) × ((m : ℕ) → low ≤ m → fl.le x (fl.of_nat m) ≡ true → n ≤ m)
  ceil_least x low top h = (
    laws.le_trans x (fl.of_nat (fl.ceil x)) (fl.of_nat (max low (fl.ceil x))) (laws.le-ceil x top h)
        (laws.le-of_nat (fl.ceil x) (max low (fl.ceil x)) ∙ le→leb _ _ (omega arith)),
    λ m l k. let c = laws.ceil-le x m k in omega arith,
  )

  -- When some count of units covers the need, the Event Hubs rule finds the least count of at least
  -- 1 that covers it: it recommends that count when it is below the current capacity, and has no
  -- target otherwise.
  pub size_eventhub-least :
      (finding : ColdFinding F) (headroom : F) (tier : String) (capacity top : ℕ)
      → fl.le (needed_size capacity finding.observed headroom) (fl.of_nat top) ≡ true
      → (n : ℕ) × IsLeastCount (needed_size capacity finding.observed headroom) 1 n
        × ((size_eventhub finding headroom tier capacity).target_sku ≡ (
            if ltb n capacity
            then some (tier <> " " <> show_nat n <> " " <> unit_label tier)
            else none))
  unfolding size_eventhub
  size_eventhub-least finding headroom tier capacity top h =
      let (covers, least) = ceil_least (needed_size capacity finding.observed headroom) 1 top h in
      (unit_target capacity finding.observed headroom, (omega arith, covers, least), ground arith)

  -- With a known capacity and a positive CU rate, and when some instance count covers the need, the
  -- Application Gateway rule finds the least count of at least `min_instances` whose units cover it:
  -- it recommends that count, in the spelling of the gateway's scaling, when it is below the current
  -- one, and has no target otherwise.
  pub size_appgateway-least :
      (finding : ColdFinding F) (rules : AppGatewayRules F) (sku_name : String)
      (current reserved most top : ℕ)
      → 0 < current
      → 0 < reserved
      → 0 < rules.cu_per_instance
      → fl.le (share_of finding rules reserved) (fl.of_nat top) ≡ true
      → (n : ℕ) × IsLeastCount (share_of finding rules reserved) rules.min_instances n
        × Targets (size_appgateway finding rules sku_name true current reserved (ok most)) (
            if ltb n current
            then some (sku_name <> " autoscale " <> show_nat n <> "-" <> show_nat most)
            else none)
        × Targets
            (size_appgateway finding rules sku_name false current reserved (ok most))
            (if ltb n current then some (sku_name <> " x" <> show_nat n) else none)
  unfolding size_appgateway
  size_appgateway-least finding rules sku_name current reserved most top p q r h =
      let (covers, least) =
        ceil_least (share_of finding rules reserved) rules.min_instances top h in
      (
        instance_target finding rules reserved,
        (omega arith, covers, least),
        ground arith,
        ground arith,
      )
