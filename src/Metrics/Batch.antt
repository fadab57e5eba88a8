-- ===== src/Metrics/Batch.antt =====
-- src/metrics/batch.py: the chunks of ids, and the mapping of one batch response to series. A
-- response is modelled behind its JSON decoding: a point has what the reading of its timestamp and of
-- each of its aggregations answers, which is a value or an exception.
pub mod Chunks
pub mod Reading
pub mod Response
pub mod Query
pub mod Groups
pub mod Complete
use claude_azure_o11y.Prelude.{
  ℕ, zero, suc, ◌-◌, Bool, true, false, not, ◌&&◌, Option, none, some, String, List, [], ◌∷◌, ◌++◌,
  map, Result, ok, err, ◌>>=◌, value_error, key_error, ◌==◌, string_eq, nat_eq, all, is_empty,
  length, take, drop, ltb, if◌then◌else◌,
}
use claude_azure_o11y.Prelude.Text.{lower}
use claude_azure_o11y.Prelude.Dict
use claude_azure_o11y.Prelude.Dict.{Dict}
use claude_azure_o11y.Float.{Float}
use claude_azure_o11y.Models.{MetricPoint, MetricRequest, Series, Time}
use claude_azure_o11y.Config.{is_some}
use claude_azure_o11y.Prelude.Sort.{sort}
use claude_azure_o11y.Metrics.Derive.{point}

-- The slices `ids[i : i + size]` while any id is left; the fuel is the number of ids.
unfoldable pub chunk_from : {A : Type 0} → ℕ → ℕ → List A → List (List A)
chunk_from fuel size [] = []
chunk_from zero size (x ∷ ids) = []
chunk_from (suc fuel) size (x ∷ ids) =
    take size (x ∷ ids) ∷ chunk_from fuel size (drop size (x ∷ ids))

-- `chunk`: `range` refuses a step of 0.
unfoldable pub chunk : {A : Type 0} → List A → ℕ → Result (List (List A))
unfolding chunk_from
chunk ids size =
    if size == 0
    then err (value_error "range() arg 3 must not be zero")
    else ok (chunk_from (length ids) size ids)

-- `time_stamp` is what `datetime.fromisoformat(str(d["timeStamp"])…)` answers, and `fields` has what
-- `float` answers for each entry that is not null.
pub record DataPoint (F : Type 0) : Type 0 where
  pub time_stamp : Result Time
  pub fields : Dict String (Result F)

pub record MetricEntry (F : Type 0) : Type 0 where
  pub name : String
  pub timeseries : List (List (DataPoint F))

pub record ResponseEntry (F : Type 0) : Type 0 where
  pub resourceid : Option String
  pub value : List (MetricEntry F)

-- The value of a read entry, or `None` for one that is missing or null.
abbrev pub read_value : {F : Type 0} → Option (Result F) → Result (Option F)
read_value none = ok none
read_value (some value) = value >>= λ x. ok (some x)

module _ {F : Type 0} where
  unfoldable pub plain_points : String → List (DataPoint F) → Result (List (MetricPoint F))
  plain_points field [] = ok []
  plain_points field (d ∷ points) = d.time_stamp >>= λ ts.
      read_value (Dict.lookup field d.fields) >>= λ value.
      plain_points field points >>= λ rest. ok (point ts value ∷ rest)

  unfoldable pub plain_series : String → List (List (DataPoint F)) → Result (List (MetricPoint F))
  unfolding plain_points
  plain_series field [] = ok []
  plain_series field (series ∷ more) =
      plain_points field series >>= λ here. plain_series field more >>= λ rest. ok (here ++ rest)

module _ {F : Type 0} ⦃fl : Float F⦄ where
  -- `(summed.get(ts) or 0.0) + value`
  abbrev add_to : Option (Option F) → F → F
  add_to (some (some x)) value = fl.add (if fl.eq x (fl.of_nat 0) then fl.of_nat 0 else x) value
  add_to _ value = fl.add (fl.of_nat 0) value

  abbrev add_point : Time → Option F → Dict Time (Option F) → Dict Time (Option F)
  add_point ts none summed = Dict.set_default ts none summed
  add_point ts (some value) summed =
      Dict.insert ts (some (add_to (Dict.lookup ts summed) value)) summed

  unfoldable pub sum_points :
      String → List (DataPoint F) → Dict Time (Option F) → Result (Dict Time (Option F))
  sum_points field [] summed = ok summed
  sum_points field (d ∷ points) summed = d.time_stamp >>= λ ts.
      read_value (Dict.lookup field d.fields) >>= λ value.
      sum_points field points (add_point ts value summed)

  unfoldable pub sum_series :
      String → List (List (DataPoint F)) → Dict Time (Option F) → Result (Dict Time (Option F))
  unfolding sum_points
  sum_series field [] summed = ok summed
  sum_series field (series ∷ rest) summed = sum_points field series summed >>= sum_series field rest

  abbrev earlier : Time × Option F → Time × Option F → Bool
  earlier (a, x) (b, y) = ltb a b

  -- `_points`
  unfoldable pub points_of : MetricEntry F → String → Bool → Result (List (MetricPoint F))
  unfolding plain_series sum_series sort
  points_of metric aggregation filtered =
      if filtered
      then (sum_series (lower aggregation) metric.timeseries [] >>= λ summed.
          ok (map (λ e. point e.0 e.1) (sort earlier summed)))
      else plain_series (lower aggregation) metric.timeseries

-- `{m.name.lower(): m for m in metrics}`
unfoldable pub wanted_by_name :
    List MetricRequest → Dict String MetricRequest → Dict String MetricRequest
wanted_by_name [] wanted = wanted
wanted_by_name (m ∷ metrics) wanted = wanted_by_name metrics (Dict.insert (lower m.name) m wanted)

-- `{m.name: [] for m in metrics}`
unfoldable pub blank_series : {F : Type 0} → List MetricRequest → Series F → Series F
blank_series [] blank = blank
blank_series (m ∷ metrics) blank = blank_series metrics (Dict.insert m.name [] blank)

-- `{rid: {…} for rid in requested_ids}`
unfoldable pub blank_result :
    {F : Type 0} → List String → Series F → Dict String (Series F) → Dict String (Series F)
blank_result [] blank result = result
blank_result (rid ∷ ids) blank result = blank_result ids blank (Dict.insert rid blank result)

-- `{rid.lower(): rid for rid in requested_ids}`
unfoldable pub ids_by_lower : List String → Dict String String → Dict String String
ids_by_lower [] d = d
ids_by_lower (rid ∷ ids) d = ids_by_lower ids (Dict.insert (lower rid) rid d)

-- `by_lower.get(str(entry["resourceid"]).lower())`
unfoldable pub requested : Dict String String → Option String → Option String
requested by_lower none = none
requested by_lower (some id) = Dict.lookup (lower id) by_lower

-- `result[rid][name] = points`
unfoldable pub set_series :
    {F : Type 0}
    → String
    → String
    → List (MetricPoint F)
    → Dict String (Series F)
    → Result (Dict String (Series F))
set_series rid name points result = elim (Dict.lookup rid result) [
  | none ↦ err (key_error rid)
  | some series ↦ ok (Dict.insert rid (Dict.insert name points series) result)
]

module _ {F : Type 0} ⦃fl : Float F⦄ where
  -- One metric of `fill`, with the request of its name.
  unfoldable pub fill_metric :
      String
      → MetricEntry F
      → Dict String (Series F)
      → Option MetricRequest
      → Result (Dict String (Series F))
  unfolding set_series points_of
  fill_metric rid metric result none = ok result
  fill_metric rid metric result (some req) =
      points_of metric req.aggregation (is_some req.filter) >>= λ points.
      set_series rid req.name points result

  -- `fill`
  unfoldable pub fill :
      Dict String MetricRequest
      → String
      → List (MetricEntry F)
      → Dict String (Series F)
      → Result (Dict String (Series F))
  unfolding fill_metric
  fill wanted rid [] result = ok result
  fill wanted rid (metric ∷ rest) result =
      fill_metric rid metric result (Dict.lookup (lower metric.name) wanted)
      >>= fill wanted rid rest

  -- One entry, for the requested id that its `resourceid` names, if any.
  unfoldable pub fill_entry :
      Dict String MetricRequest
      → ResponseEntry F
      → Dict String (Series F)
      → Option String
      → Result (Dict String (Series F))
  unfolding fill
  fill_entry wanted entry result none = ok result
  fill_entry wanted entry result (some rid) = fill wanted rid entry.value result

  -- The entries by their `resourceid`; one that was not requested is passed over.
  unfoldable pub fill_by_id :
      Dict String MetricRequest
      → Dict String String
      → List (ResponseEntry F)
      → Dict String (Series F)
      → Result (Dict String (Series F))
  unfolding fill_entry requested
  fill_by_id wanted by_lower [] result = ok result
  fill_by_id wanted by_lower (entry ∷ entries) result =
      fill_entry wanted entry result (requested by_lower entry.resourceid)
      >>= fill_by_id wanted by_lower entries

  -- `zip(requested_ids, values, strict=False)`
  unfoldable pub fill_by_order :
      Dict String MetricRequest
      → List String
      → List (ResponseEntry F)
      → Dict String (Series F)
      → Result (Dict String (Series F))
  unfolding fill
  fill_by_order wanted (rid ∷ ids) (entry ∷ entries) result =
      fill wanted rid entry.value result >>= fill_by_order wanted ids entries
  fill_by_order wanted _ _ result = ok result

  unfoldable pub parse_batch_response :
      List (ResponseEntry F) → List String → List MetricRequest → Result (Dict String (Series F))
  unfolding wanted_by_name blank_series blank_result ids_by_lower fill_by_id fill_by_order
  parse_batch_response values requested_ids metrics =
      let wanted = wanted_by_name metrics [] in
      let result = blank_result requested_ids (blank_series metrics []) [] in
      if not (is_empty values) && all (λ v. is_some v.resourceid) values
      then fill_by_id wanted (ids_by_lower requested_ids []) values result
      else fill_by_order wanted requested_ids values result
