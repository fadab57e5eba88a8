-- ===== src/Recommend/Account.antt =====
-- src/recommend/cosmos.py and storage.py: rules on account-level metrics.
use Prim.Native.Nat.{max}
use claude_azure_o11y.Prelude.{
  ℕ, ◌*◌, ◌^◌, Bool, ◌&&◌, Option, none, some, String, Result, ok, err, assertion_error, string_eq,
  if◌then◌else◌,
}
use claude_azure_o11y.Prelude.Text.{◌<>◌, show_nat}
use claude_azure_o11y.Prelude.Dict
use claude_azure_o11y.Float.{Float, ge, gt}
use claude_azure_o11y.Models.{
  ColdFinding, ColdObservation, low, Recommendation, recommendation, observation, text,
}
use claude_azure_o11y.Models.Props.{prop, str_of}
use claude_azure_o11y.Config.{is_some}

pub record CosmosRules (F : Type 0) : Type 0 where
  pub min_ru : ℕ
  pub headroom : F
  pub autoscale_ratio : F

abbrev verify : String
verify = " Account-level value; verify per container."

module _ {F : Type 0} ⦃fl : Float F⦄ where
  -- A reading that is missing or 0 is false in a test.
  unfoldable pub reading : Option F → Option F
  reading none = none
  reading (some x) = if fl.eq x (fl.of_nat 0) then none else some x

  -- `autoscale_max or provisioned`, where that is true.
  unfoldable pub base_of : Option F → Option F → Option F
  unfolding reading
  base_of autoscale_max provisioned = elim (reading autoscale_max) [
    | none ↦ reading provisioned
    | some x ↦ some x
  ]

  -- `max(min_ru, ceil(base * ru / 100 * headroom / 100) * 100)`
  unfoldable pub ru_target : CosmosRules F → (base value : F) → ℕ
  ru_target rules base value = max rules.min_ru (
      fl.ceil (
        fl.div (fl.mul (fl.div (fl.mul base value) (fl.of_nat 100)) rules.headroom) (fl.of_nat 100))
      * 100)

  module _ (finding : ColdFinding F) (rules : CosmosRules F) where
    -- The rule for a known throughput; `scaled` says that the account scales by itself.
    unfoldable pub size_cosmos : ColdObservation F → String → (scaled : Bool) → F → Recommendation F
    unfolding ru_target
    size_cosmos ru why scaled base =
        let target = ru_target rules base ru.value in
        if ge (fl.of_nat target) base
        then recommendation finding none low (
            why
            <> " Sized target "
            <> show_nat target
            <> " RU/s is not below current "
            <> fl.show_g base
            <> " RU/s."
            <> verify)
        else if scaled
        then recommendation finding (some ("autoscale " <> show_nat target <> " RU/s max")) low
            (why <> " Lower the autoscale max from " <> fl.show_g base <> " RU/s." <> verify)
        else if gt ru.median (fl.of_nat 0) && ge (fl.div ru.value ru.median) rules.autoscale_ratio
        then recommendation finding (some ("autoscale " <> show_nat target <> " RU/s max")) low (
            why
            <> " P95/median ratio "
            <> fl.show_fixed 1 (fl.div ru.value ru.median)
            <> " suggests autoscale."
            <> verify)
        else recommendation finding (some (show_nat target <> " RU/s")) low
            (why <> " Lower provisioned throughput from " <> fl.show_g base <> " RU/s." <> verify)

    unfoldable pub recommend_cosmos : Result (Recommendation F)
    unfolding size_cosmos base_of
    recommend_cosmos = elim (observation finding "ru") [
      | none ↦ err (assertion_error "cosmos finding without a ru observation")
      | some ru ↦
          let autoscale_max = Dict.lookup "autoscale_max" finding.inputs in
          let why =
            "P"
            <> show_nat ru.percentile
            <> " normalized RU "
            <> fl.show_g ru.value
            <> "% over "
            <> show_nat finding.lookback_days
            <> "d is below "
            <> fl.show_g ru.threshold
            <> "% (median "
            <> fl.show_g ru.median
            <> "%)." in
          ok (elim (base_of autoscale_max (Dict.lookup "provisioned" finding.inputs)) [
            | none ↦
                recommendation finding none low
                  (why <> " No provisioned throughput metric; cannot size." <> verify)
            | some base ↦ size_cosmos ru why (is_some (reading autoscale_max)) base
          ])
    ]

pub record StorageRules (F : Type 0) : Type 0 where
  pub min_gib : F
  pub target_tier : String

module _ {F : Type 0} ⦃fl : Float F⦄ (finding : ColdFinding F) (rules : StorageRules F) where
  unfoldable pub size_storage : String → Option F → Recommendation F
  size_storage why none =
      recommendation finding none low (why <> " Used capacity unknown; cannot size.")
  size_storage why (some used) =
      let used_gib = fl.div used (fl.of_nat (2 ^ 30)) in
      let sku_name = str_of (prop finding.resource "sku_name" (text "")) in
      let access_tier = str_of (prop finding.resource "access_tier" (text "")) in
      if fl.lt used_gib rules.min_gib
      then recommendation finding none low (
          why
          <> " "
          <> fl.show_fixed 0 used_gib
          <> " GiB is below min_gib="
          <> fl.show_g rules.min_gib
          <> "; tiering saves too little.")
      else recommendation finding (some (sku_name <> " " <> rules.target_tier)) low (
          why
          <> " "
          <> fl.show_fixed 0 used_gib
          <> " GiB in the "
          <> access_tier
          <> " tier: set the default access tier to "
          <> rules.target_tier
          <> " or add a lifecycle rule. Account-level; verify per container and check early-deletion and retrieval charges.")

  unfoldable pub recommend_storage : Result (Recommendation F)
  unfolding size_storage
  recommend_storage = elim (observation finding "transactions") [
    | none ↦ err (assertion_error "storage finding without a transactions observation")
    | some obs ↦ ok (
        size_storage
          ("P"
            <> show_nat obs.percentile
            <> " hourly transactions "
            <> fl.show_g obs.value
            <> " over "
            <> show_nat finding.lookback_days
            <> "d is below "
            <> fl.show_g obs.threshold
            <> ".")
          (Dict.lookup "used_capacity" finding.inputs))
  ]
