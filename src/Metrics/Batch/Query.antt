-- ===== src/Metrics/Batch/Query.antt =====
-- `MetricsBatchClient.query` of src/metrics/batch.py: one SDK call for each distinct dimension filter,
-- the series of the calls merged per resource. The SDK call is a parameter.
use claude_azure_o11y.Prelude.{
  ℕ, Bool, Option, none, some, String, List, [], ◌∷◌, map, Result, ok, err, ◌>>=◌, Exception,
  exception, permission_missing, key_error, ◌==◌, Eq, string_eq, nat_eq, option_eq, pair_eq, filter,
  any, if◌then◌else◌,
}
use claude_azure_o11y.Prelude.Text.{◌<>◌, before}
use claude_azure_o11y.Prelude.Dict
use claude_azure_o11y.Prelude.Dict.{Dict}
use claude_azure_o11y.Prelude.Sort.{sort}
use claude_azure_o11y.Float.{Float}
use claude_azure_o11y.Models.{MetricRequest, Series, Time}
use claude_azure_o11y.Metrics.Batch.{ResponseEntry, parse_batch_response}
use claude_azure_o11y.Pipeline.{Query}

-- The arguments of `query_resources`, with the region of the client.
pub record Call : Type 0 where
  pub region : String
  pub resource_ids : List String
  pub namespace : String
  pub metric_names : List String
  pub start : Time
  pub end : Time
  pub granularity : Time
  pub aggregations : List String
  pub filter : Option String
  pub roll_up_by : Option String

-- A response with its body, an `HttpResponseError` with its status, or another exception.
pub data CallAnswer (F : Type 0) : Type 0 where
  answered : List (ResponseEntry F) → CallAnswer F
  refused : (status : ℕ) → (text : String) → CallAnswer F
  failed : Exception → CallAnswer F

-- The distinct elements, each where it is last.
module _ {A : Type 0} ⦃e : Eq A⦄ where
  unfoldable pub distinct : List A → List A
  distinct [] = []
  distinct (x ∷ xs) = let rest = distinct xs in if any (λ y. x == y) rest then rest else x ∷ rest

abbrev pub Key : Type 0
Key = Option String × Option String

abbrev pub key_of : MetricRequest → Key
key_of m = (m.filter, m.roll_up_by)

abbrev pub group_for : Key → List MetricRequest → List MetricRequest
group_for key metrics = filter (λ m. key_of m == key) metrics

show_option : (repr : String → String) → Option String → String
show_option repr none = "None"
show_option repr (some s) = repr s

-- `str(a) < str(b)` of two keys.
unfoldable pub key_before : (repr : String → String) → Key → Key → Bool
unfolding show_option
key_before repr (a, b) (c, d) =
    before ("(" <> show_option repr a <> ", " <> show_option repr b <> ")")
      ("(" <> show_option repr c <> ", " <> show_option repr d <> ")")

-- `sorted({(m.filter, m.roll_up_by) for m in metrics}, key=str)`
unfoldable pub group_keys : (repr : String → String) → List MetricRequest → List Key
unfolding distinct key_before
group_keys repr metrics = sort (key_before repr) (distinct (map key_of metrics))

-- The call for a group whose first metric is `m`.
unfoldable pub call_for : Query → MetricRequest → List MetricRequest → Call
unfolding distinct before
call_for q m group = record {
  region = q.region;
  resource_ids = q.resource_ids;
  namespace = q.namespace;
  metric_names = map (λ r. r.name) group;
  start = q.window.start;
  end = q.window.end;
  granularity = q.window.granularity;
  aggregations = sort before (distinct (map (λ r. r.aggregation) group));
  filter = m.filter;
  roll_up_by = m.roll_up_by;
}

module _ {F : Type 0} ⦃fl : Float F⦄ where
  unfoldable pub after_call :
      Query → List MetricRequest → CallAnswer F → Result (Dict String (Series F))
  unfolding parse_batch_response
  after_call q group (answered values) = parse_batch_response values q.resource_ids group
  after_call q group (refused status text) =
      if status == 403
      then err (permission_missing "metrics" (q.subscription_id <> "/" <> q.region))
      else err (exception "HttpResponseError" text)
  after_call q group (failed x) = err x

  -- `_query_group`
  unfoldable pub query_group :
      (Call → CallAnswer F) → Query → List MetricRequest → Result (Dict String (Series F))
  unfolding call_for after_call
  query_group call q [] = err (exception "IndexError" "list index out of range")
  query_group call q (m ∷ group) = after_call q (m ∷ group) (call (call_for q m (m ∷ group)))

  abbrev pub add_series :
      String
      → Series F
      → Option (Series F)
      → Dict String (Series F)
      → Result (Dict String (Series F))
  add_series rid series none result = err (key_error rid)
  add_series rid series (some old) result = ok (Dict.insert rid (Dict.update old series) result)

  -- `result[rid].update(series)` for each entry of a part.
  unfoldable pub merge_part :
      Dict String (Series F) → Dict String (Series F) → Result (Dict String (Series F))
  merge_part [] result = ok result
  merge_part ((rid, series) ∷ part) result =
      add_series rid series (Dict.lookup rid result) result >>= merge_part part

  unfoldable pub query_keys :
      (Call → CallAnswer F)
      → Query
      → List Key
      → Dict String (Series F)
      → Result (Dict String (Series F))
  unfolding query_group merge_part
  query_keys call q [] result = ok result
  query_keys call q (key ∷ keys) result = query_group call q (group_for key q.metrics) >>= λ part.
      merge_part part result >>= query_keys call q keys

  -- `{rid: {} for rid in resource_ids}`
  unfoldable pub empty_series : List String → Dict String (Series F) → Dict String (Series F)
  empty_series [] result = result
  empty_series (rid ∷ ids) result = empty_series ids (Dict.insert rid [] result)

  unfoldable pub query : (Call → CallAnswer F) → Query → Result (Dict String (Series F))
  unfolding query_keys group_keys empty_series
  query call q = query_keys call q (group_keys fl.repr q.metrics) (empty_series q.resource_ids [])
