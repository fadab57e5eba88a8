-- ===== src/Models.antt =====
-- The shared domain types: src/models.py. The dataclasses are records over the type `F` of floats;
-- `datetime` is a number of microseconds, and `Decimal` a number of 10^-10 currency units.
pub mod Props
pub mod Summary
use claude_azure_o11y.Prelude.{
  ℕ, ◌≡◌, Bool, true, false, Option, none, some, String, List, [], ◌∷◌, ◌==◌, string_eq, find,
  if◌then◌else◌,
}
use claude_azure_o11y.Prelude.Text.{lower, ◌<>◌, show_nat}
use claude_azure_o11y.Prelude.Dict
use claude_azure_o11y.Prelude.Dict.{Dict}
use claude_azure_o11y.Prelude.Int.{ℤ, sub_ℕ}
use claude_azure_o11y.Float.{Float}

abbrev pub Time : Type 0
Time = ℕ

abbrev pub Decimal : Type 0
Decimal = ℕ

pub data Scope : Type 0 where
  management_group : List String → Scope
  subscriptions : List String → Scope

-- An agent pool as the parser of AKS clusters makes it.
pub record Pool : Type 0 where
  pub name : String
  pub vm_size : String
  pub count : ℕ
  pub mode : String
  pub autoscale : Bool
  pub min_count : ℕ
  pub max_count : ℕ

-- A value of `props`. `texts` and `pools` are the lists that the parsers of subnets and of AKS
-- clusters store there. `other` is any object that the generic code only prints or tests: its `str`
-- and its truth value.
pub data Value (F : Type 0) : Type 0 where
  text : String → Value F
  nat : ℕ → Value F
  flag : Bool → Value F
  num : F → Value F
  null : Value F
  texts : List String → Value F
  pools : List Pool → Value F
  other : String → Bool → Value F

pub record Resource (F : Type 0) : Type 0 where
  pub kind : String
  pub id : String
  pub name : String
  pub arm_type : String
  pub subscription_id : String
  pub resource_group : String
  pub location : String
  pub sku : String
  pub tags : Dict String String
  pub props : Dict String (Value F)

pub record MetricPoint (F : Type 0) : Type 0 where
  pub timestamp : Time
  pub value : Option F

pub record MetricRequest : Type 0 where
  pub name : String
  pub aggregation : String
  pub filter : Option String
  pub roll_up_by : Option String

abbrev pub Series : Type 0 → Type 0
Series F = Dict String (List (MetricPoint F))

pub record Skip : Type 0 where
  pub resource_id : String
  pub reason : String
  pub detail : String

pub data ThresholdSource : Type 0 where
  config tag_override : ThresholdSource

pub record HotAlert (F : Type 0) : Type 0 where
  pub resource : Resource F
  pub metric : String
  pub observed : F
  pub threshold : F
  pub lookback_minutes : ℕ
  pub threshold_source : ThresholdSource

pub record ColdObservation (F : Type 0) : Type 0 where
  pub metric : String
  pub percentile : ℕ
  pub value : F
  pub median : F
  pub threshold : F
  pub cold : Bool
  pub coverage : F
  pub threshold_source : ThresholdSource

pub record ColdFinding (F : Type 0) : Type 0 where
  pub resource : Resource F
  pub metric : String
  pub observed : F
  pub percentile : ℕ
  pub threshold : F
  pub lookback_days : ℕ
  pub coverage : F
  pub threshold_source : ThresholdSource
  pub observations : List (ColdObservation F)
  pub inputs : Dict String F

pub data Confidence : Type 0 where
  high medium low : Confidence

pub record Recommendation (F : Type 0) : Type 0 where
  pub finding : ColdFinding F
  pub target_sku : Option String
  pub confidence : Confidence
  pub reason : String
  pub current_monthly : Option Decimal
  pub projected_monthly : Option Decimal

-- `Resource.tag`: names are compared without case, and the first match counts.
tag_from : String → Dict String String → Option String
tag_from name [] = none
tag_from name ((k, v) ∷ tags) = if lower k == lower name then some v else tag_from name tags

abbrev saving_of : Option Decimal → Option Decimal → Option ℤ
saving_of (some current) (some projected) = some (sub_ℕ current projected)
saving_of _ _ = none

module _ {F : Type 0} where
  unfoldable pub tag : Resource F → String → Option String
  unfolding tag_from
  tag r name = tag_from name r.tags

  -- `ColdFinding.observation`
  unfoldable pub observation : ColdFinding F → String → Option (ColdObservation F)
  observation f key = find (λ o. o.metric == key) f.observations

  -- `Recommendation.saving`
  unfoldable pub saving : Recommendation F → Option ℤ
  saving rec = saving_of rec.current_monthly rec.projected_monthly

  abbrev pub with_pricing : Recommendation F → Option Decimal → Option Decimal → Recommendation F
  with_pricing rec current projected = record rec {
    current_monthly = current;
    projected_monthly = projected;
  }

  abbrev pub with_note : Recommendation F → String → Recommendation F
  with_note rec note = record rec { reason = rec.reason <> (" " <> note) }

  -- `Recommendation(finding=…, target_sku=…, confidence=…, reason=…)`, without prices.
  abbrev pub recommendation : ColdFinding F → Option String → Confidence → String → Recommendation F
  recommendation f target c why = record {
    finding = f;
    target_sku = target;
    confidence = c;
    reason = why;
    current_monthly = none;
    projected_monthly = none;
  }

module _ {F : Type 0} ⦃fl : Float F⦄ where
  -- `ColdFinding.evidence`
  unfoldable pub evidence : ColdFinding F → String → String
  evidence f label =
      "P"
      <> show_nat f.percentile
      <> " "
      <> label
      <> " "
      <> fl.show_g f.observed
      <> "% over "
      <> show_nat f.lookback_days
      <> "d is below "
      <> fl.show_g f.threshold
      <> "%."
