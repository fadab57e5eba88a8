-- ===== src/Recommend/Ladder.antt =====
-- The integer ladders and the family step of src/recommend/ladder.py.
pub mod Fit
pub mod Step
use claude_azure_o11y.Prelude.{
  ℕ, Bool, ◌&&◌, Option, none, some, String, List, [], ◌∷◌, map, filter, last, ltb, leb,
  if◌then◌else◌,
}
use claude_azure_o11y.Prelude.Text.{◌<>◌, show_nat}
use claude_azure_o11y.Prelude.Dict
use claude_azure_o11y.Float.{Float, max_float, ge}
use claude_azure_o11y.Models.{ColdFinding, Confidence, low, Recommendation, recommendation}
use claude_azure_o11y.Config.Groups.{FamilySku, FamilySkuCatalog, get_sku, family_members}

-- `min(candidates) if candidates else None`
unfoldable pub least_of : List ℕ → Option ℕ
least_of [] = none
least_of (x ∷ xs) = elim (least_of xs) [ none ↦ some x | some m ↦ some (if ltb m x then m else x) ]

module _ {F : Type 0} ⦃fl : Float F⦄ where
  -- `s >= max(needed, floor) and s < below`
  unfoldable pub fits : F → ℕ → ℕ → ℕ → Bool
  fits needed floor below s = ge (fl.of_nat s) (max_float needed (fl.of_nat floor)) && ltb s below

  unfoldable pub fit_up : List ℕ → (needed : F) → (floor below : ℕ) → Option ℕ
  unfolding fits least_of
  fit_up ladder needed floor below = least_of (filter (fits needed floor below) ladder)

  -- `current * observed_percent / 100 * headroom`
  unfoldable pub needed_size : ℕ → F → F → F
  needed_size current observed headroom =
      fl.mul (fl.div (fl.mul (fl.of_nat current) observed) (fl.of_nat 100)) headroom

  unfoldable pub fit_down : List ℕ → ℕ → (observed headroom : F) → (floor : ℕ) → Option ℕ
  unfolding needed_size
  fit_down ladder current observed headroom floor =
      fit_up ladder (needed_size current observed headroom) floor current

  -- The names of the family's members with `min_vcpu <= vcpu < current.vcpu`, in order.
  unfoldable pub smaller_members : FamilySkuCatalog F → FamilySku F → ℕ → FamilySkuCatalog F
  smaller_members catalog current min_vcpu =
      filter (λ e. leb min_vcpu e.1.vcpu && ltb e.1.vcpu current.vcpu)
        (family_members catalog current.family)

  unfoldable pub next_smaller_in_family : FamilySkuCatalog F → FamilySku F → ℕ → Option String
  next_smaller_in_family catalog current min_vcpu =
      last (Dict.keys (smaller_members catalog current min_vcpu))

  -- `downsize_in_family` behind the lookup of the current size.
  unfoldable pub step_down :
      ColdFinding F
      → FamilySkuCatalog F
      → FamilySku F
      → (min_vcpu : ℕ) → (why : String) → Confidence
      → Recommendation F
  step_down finding catalog current min_vcpu why confidence =
      elim (next_smaller_in_family catalog current min_vcpu) [
        | none ↦ recommendation finding none confidence (
            why
            <> " "
            <> finding.resource.sku
            <> " is already smallest allowed size in family "
            <> current.family
            <> " (min_vcpu="
            <> show_nat min_vcpu
            <> ").")
        | some target ↦
            recommendation finding (some target) confidence
              (why <> " Next smaller size in family " <> current.family <> ".")
      ]

  unfoldable pub downsize_in_family :
      ColdFinding F
      → FamilySkuCatalog F
      → (catalog_file : String) → (min_vcpu : ℕ) → (why : String) → Confidence
      → Recommendation F
  unfolding step_down
  downsize_in_family finding catalog catalog_file min_vcpu why confidence =
      elim (get_sku catalog finding.resource.sku) [
        | none ↦ recommendation finding none low (
            why <> " SKU " <> finding.resource.sku <> " not in " <> catalog_file
            <> "; cannot recommend.")
        | some current ↦ step_down finding catalog current min_vcpu why confidence
      ]
