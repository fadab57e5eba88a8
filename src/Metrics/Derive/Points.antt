-- ===== src/Metrics/Derive/Points.antt =====
-- What `ratio_percent` derives, said of the two lists of points.
use claude_azure_o11y.Prelude.{
  ◌≡◌, refl, ◌∙◌, ap, ◌⊎◌, inl, inr, Bool, true, false, Option, none, some, List, [], ◌∷◌, ◌++◌,
  map, arith, All, ◌==◌, if◌then◌else◌, nat_eq, Bool-cases, le→leb,
}
use claude_azure_o11y.Prelude.Dict
use claude_azure_o11y.Prelude.Dict.{Dict, lookup-insert}
use claude_azure_o11y.Float.{Float, IsFloat}
use claude_azure_o11y.Models.{MetricPoint, Time}
use claude_azure_o11y.Metrics.Derive.{point, joined, by_time, ratio_of, ratio_percent}

module _ {F : Type 0} where
  abbrev IsApart : Time → MetricPoint F → Type 0
  IsApart ts p = (p.timestamp == ts) ≡ false

  -- The value of the last point at a time, or that no point is at that time.
  abbrev pub IsLatest : List (MetricPoint F) → Time → Option (Option F) → Type 0
  IsLatest points ts none = All (IsApart ts) points
  IsLatest points ts (some v) =
      (before : List (MetricPoint F)) × (p : MetricPoint F) × (after : List (MetricPoint F))
      × (points ≡ before ++ (p ∷ after))
      × ((p.timestamp == ts) ≡ true)
      × (p.value ≡ v)
      × All (IsApart ts) after

  abbrev IsFound : List (MetricPoint F) → Dict Time (Option F) → Time → Type 0
  IsFound points d ts =
      (All (IsApart ts) points × (Dict.lookup ts (by_time points d) ≡ Dict.lookup ts d))
      ⊎ ((v : Option F) × (Dict.lookup ts (by_time points d) ≡ some v)
          × IsLatest points ts (some v))

  -- The table by time has the last point of each time, in front of what it started with.
  by_time-IsFound :
      (points : List (MetricPoint F)) (d : Dict Time (Option F)) (ts : Time) → IsFound points d ts
  unfolding by_time
  by_time-IsFound [] d ts = inl (tt, refl)
  by_time-IsFound (p ∷ points) d ts =
      step (p.timestamp == ts) refl (lookup-insert p.timestamp ts p.value d)
        (by_time-IsFound points (Dict.insert p.timestamp p.value d) ts)
    where
      step :
          (b : Bool)
          → (p.timestamp == ts) ≡ b
          → Dict.lookup ts (Dict.insert p.timestamp p.value d)
            ≡ (if b then some p.value else Dict.lookup ts d)
          → IsFound points (Dict.insert p.timestamp p.value d) ts
          → IsFound (p ∷ points) d ts
      step b e here (inr (v, found, (before, q, after, split, at, own, rest))) =
          inr (v, found, (p ∷ before, q, after, ap (◌∷◌ p) split, at, own, rest))
      step true e here (inl (apart, same)) =
          inr (p.value, same ∙ here, ([], p, points, refl, e, refl, apart))
      step false e here (inl (apart, same)) = inl ((e, apart), same ∙ here)

module _ {F : Type 0} ⦃fl : Float F⦄ where
  -- The quotient of two values as a percentage to two digits. It is missing where one of them is, and
  -- where the divisor is at or below 0; else the divisor is above 0 or NaN.
  abbrev pub IsQuotient : Option F → Option (Option F) → Option F → Type 0
  IsQuotient none d v = v ≡ none
  IsQuotient (some x) none v = v ≡ none
  IsQuotient (some x) (some none) v = v ≡ none
  IsQuotient (some x) (some (some d)) v =
      (((fl.lt (fl.of_nat 0) d ≡ true) ⊎ (fl.le d d ≡ false))
        × (v ≡ some (fl.round (fl.mul (fl.div x d) (fl.of_nat 100)) 2)))
      ⊎ ((fl.le d (fl.of_nat 0) ≡ true) × (v ≡ none))

  -- The point of the quotient for one point of the numerator.
  abbrev pub IsRatio : List (MetricPoint F) → MetricPoint F → MetricPoint F → Type 0
  IsRatio denominator p q =
      (q.timestamp ≡ p.timestamp)
      × (d : Option (Option F)) × IsLatest denominator p.timestamp d
      × IsQuotient p.value d q.value

  abbrev pub Pairwise :
      (MetricPoint F → MetricPoint F → Type 0)
      → List (MetricPoint F)
      → List (MetricPoint F)
      → Type 0
  Pairwise R [] [] = Unit
  Pairwise R (p ∷ ps) (q ∷ qs) = R p q × Pairwise R ps qs
  Pairwise R _ _ = ⊥

module _ {F : Type 0} ⦃fl : Float F⦄ (laws : IsFloat fl) where
  ratio_of-IsQuotient :
      (x : Option F) (d : Option (Option F)) → IsQuotient x d (ratio_of x (joined d))
  unfolding ratio_of
  ratio_of-IsQuotient none d = refl
  ratio_of-IsQuotient (some x) none = refl
  ratio_of-IsQuotient (some x) (some none) = refl
  ratio_of-IsQuotient (some x) (some (some d)) = split (fl.le d (fl.of_nat 0)) refl
    where
      zero_number : fl.le (fl.of_nat 0) (fl.of_nat 0) ≡ true
      zero_number = laws.le-of_nat 0 0 ∙ le→leb 0 0 (omega arith)

      split :
          (b : Bool)
          → fl.le d (fl.of_nat 0) ≡ b
          → let v : Option F =
              if b then none else some (fl.round (fl.mul (fl.div x d) (fl.of_nat 100)) 2) in
            (((fl.lt (fl.of_nat 0) d ≡ true) ⊎ (fl.le d d ≡ false))
              × (v ≡ some (fl.round (fl.mul (fl.div x d) (fl.of_nat 100)) 2)))
            ⊎ ((fl.le d (fl.of_nat 0) ≡ true) × (v ≡ none))
      split true e = inr (e, refl)
      split false e = elim (Bool-cases (fl.le d d)) [
        | inl number ↦
            inl (inl (ground (arith, laws.lt-not_le (fl.of_nat 0) d zero_number number)), refl)
        | inr nan ↦ inl (inr nan, refl)
      ]

  ratio_of-IsRatio :
      (denominator : List (MetricPoint F)) (p : MetricPoint F)
      → IsRatio denominator p (
          point p.timestamp
            (ratio_of p.value (joined (Dict.lookup p.timestamp (by_time denominator [])))))
  unfolding Dict.lookup
  ratio_of-IsRatio denominator p =
      let (d, last, quotient) = found (by_time-IsFound denominator [] p.timestamp) in
      (refl, d, last, quotient)
    where
      found :
          IsFound denominator [] p.timestamp
          → (d : Option (Option F)) × IsLatest denominator p.timestamp d
            × IsQuotient p.value d
                (ratio_of p.value (joined (Dict.lookup p.timestamp (by_time denominator []))))
      found (inl (apart, e)) = (none, apart, rw e (ratio_of-IsQuotient p.value none))
      found (inr (v, e, last)) = (some v, last, rw e (ratio_of-IsQuotient p.value (some v)))

  map-IsRatio :
      (denominator points : List (MetricPoint F))
      → Pairwise (IsRatio denominator) points (
          map
            (λ p.
              point p.timestamp
                (ratio_of p.value (joined (Dict.lookup p.timestamp (by_time denominator [])))))
            points)
  map-IsRatio denominator [] = tt
  map-IsRatio denominator (p ∷ points) =
      (ratio_of-IsRatio denominator p, map-IsRatio denominator points)

  -- `ratio_percent` returns one point for each point of the numerator, in order and at its time. With
  -- the last denominator point at that time, its value is the quotient of the two values as a
  -- percentage to two digits when the divisor is above 0, and is missing when one of the two values
  -- is, when the denominator has no point there, or when the divisor is at or below 0. A divisor
  -- that is NaN counts as one above 0.
  pub ratio_percent-IsRatio :
      (numerator denominator : List (MetricPoint F))
      → Pairwise (IsRatio denominator) numerator (ratio_percent numerator denominator)
  unfolding ratio_percent
  ratio_percent-IsRatio numerator denominator = map-IsRatio denominator numerator
