-- ===== src/Metrics/Batch/Reading.antt =====
-- What the reading of the points of src/metrics/batch.py raises.
use claude_azure_o11y.Prelude.{
  ◌≡◌, refl, Bool, true, false, Option, none, some, String, List, [], ◌∷◌, arith, ◌==◌, string_eq,
  if◌then◌else◌, subst, All, Result, ok, Exception, Ensures, bind-Ensures,
}
use claude_azure_o11y.Prelude.Text.{lower}
use claude_azure_o11y.Prelude.Dict
use claude_azure_o11y.Prelude.Dict.{Dict, lookup-insert}
use claude_azure_o11y.Float.{Float}
use claude_azure_o11y.Models.{Time}
use claude_azure_o11y.Metrics.Batch.{
  DataPoint, MetricEntry, ResponseEntry, read_value, plain_points, plain_series, sum_points,
  sum_series, points_of,
}

-- A value of a dictionary has what all its values have.
lookup-All :
    {V : Type 0} (P : V → Type 0) (k : String) (d : Dict String V) (v : V)
    → All (λ (e : String × V). P e.1) d
    → Dict.lookup k d ≡ some v
    → P v
unfolding Dict.lookup
lookup-All P k [] v h e = absurd (cc)
lookup-All P k ((j, w) ∷ d) v (h, hs) e = split (j == k) (lookup-All P k d v hs) e
  where
    split :
        (b : Bool)
        → (Dict.lookup k d ≡ some v → P v)
        → (if b then some w else Dict.lookup k d) ≡ some v
        → P v
    split true later e' = let same : w ≡ v = ground arith in subst P same h
    split false later e' = later e'

-- What the reading of a point raises is in `E`; so for a metric, and for an entry.
module _ {F : Type 0} (E : Exception → Type 0) where
  abbrev pub IsRead : DataPoint F → Type 0
  IsRead d =
      Ensures E (λ t. Unit {0}) d.time_stamp
      × All (λ (e : String × Result F). Ensures E (λ x. Unit {0}) e.1) d.fields

  abbrev pub IsReadMetric : MetricEntry F → Type 0
  IsReadMetric metric = All (All IsRead) metric.timeseries

  abbrev pub IsReadEntry : ResponseEntry F → Type 0
  IsReadEntry entry = All IsReadMetric entry.value

module _ {F : Type 0} ⦃fl : Float F⦄ (E : Exception → Type 0) where
  read_value-Ensures :
      (field : String) (d : DataPoint F)
      → IsRead E d
      → Ensures E (λ v. Unit {0}) (read_value (Dict.lookup field d.fields))
  read_value-Ensures field d (h, hs) = split (Dict.lookup field d.fields) refl
    where
      split :
          (o : Option (Result F))
          → Dict.lookup field d.fields ≡ o
          → Ensures E (λ v. Unit {0}) (read_value o)
      split none e = tt
      split (some value) e =
          bind-Ensures E (λ x. Unit {0}) (λ v. Unit {0}) value (λ x. ok (some x))
            (lookup-All (λ r. Ensures E (λ x. Unit {0}) r) field d.fields value hs e) (λ x u. tt)

  plain_points-Ensures :
      (field : String) (points : List (DataPoint F))
      → All (IsRead E) points
      → Ensures E (λ ps. Unit {0}) (plain_points field points)
  unfolding plain_points
  plain_points-Ensures field [] h = tt
  plain_points-Ensures field (d ∷ points) (h, hs) =
      bind-Ensures E (λ t. Unit {0}) (λ ps. Unit {0}) d.time_stamp _ h.0
        (λ ts u.
          bind-Ensures E (λ v. Unit {0}) (λ ps. Unit {0}) (read_value (Dict.lookup field d.fields))
            _ (read_value-Ensures field d h)
            (λ value u'.
              bind-Ensures E (λ ps. Unit {0}) (λ ps. Unit {0}) (plain_points field points) _
                (plain_points-Ensures field points hs) (λ rest u''. tt)))

  plain_series-Ensures :
      (field : String) (series : List (List (DataPoint F)))
      → All (All (IsRead E)) series
      → Ensures E (λ ps. Unit {0}) (plain_series field series)
  unfolding plain_series
  plain_series-Ensures field [] h = tt
  plain_series-Ensures field (points ∷ series) (h, hs) =
      bind-Ensures E (λ ps. Unit {0}) (λ ps. Unit {0}) (plain_points field points) _
        (plain_points-Ensures field points h)
        (λ here u.
          bind-Ensures E (λ ps. Unit {0}) (λ ps. Unit {0}) (plain_series field series) _
            (plain_series-Ensures field series hs) (λ rest u'. tt))

  sum_points-Ensures :
      (field : String) (points : List (DataPoint F)) (summed : Dict Time (Option F))
      → All (IsRead E) points
      → Ensures E (λ s. Unit {0}) (sum_points field points summed)
  unfolding sum_points
  sum_points-Ensures field [] summed h = tt
  sum_points-Ensures field (d ∷ points) summed (h, hs) =
      bind-Ensures E (λ t. Unit {0}) (λ s. Unit {0}) d.time_stamp _ h.0
        (λ ts u.
          bind-Ensures E (λ v. Unit {0}) (λ s. Unit {0}) (read_value (Dict.lookup field d.fields)) _
            (read_value-Ensures field d h) (λ value u'. sum_points-Ensures field points _ hs))

  sum_series-Ensures :
      (field : String) (series : List (List (DataPoint F))) (summed : Dict Time (Option F))
      → All (All (IsRead E)) series
      → Ensures E (λ s. Unit {0}) (sum_series field series summed)
  unfolding sum_series
  sum_series-Ensures field [] summed h = tt
  sum_series-Ensures field (points ∷ series) summed (h, hs) =
      bind-Ensures E (λ s. Unit {0}) (λ s. Unit {0}) (sum_points field points summed) _
        (sum_points-Ensures field points summed h)
        (λ next u. sum_series-Ensures field series next hs)

  pub points_of-Ensures :
      (metric : MetricEntry F) (aggregation : String) (filtered : Bool)
      → IsReadMetric E metric
      → Ensures E (λ ps. Unit {0}) (points_of metric aggregation filtered)
  unfolding points_of
  points_of-Ensures metric aggregation true h =
      bind-Ensures E (λ s. Unit {0}) (λ ps. Unit {0})
        (sum_series (lower aggregation) metric.timeseries []) _
        (sum_series-Ensures (lower aggregation) metric.timeseries [] h) (λ summed u. tt)
  points_of-Ensures metric aggregation false h =
      plain_series-Ensures (lower aggregation) metric.timeseries h
