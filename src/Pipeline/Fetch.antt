-- ===== src/Pipeline/Fetch.antt =====
-- `_fetch_chunk` and `_fetch_all`. The chunks are fetched at the same time, and each answers for
-- itself: `gather` returns the answers in the order of the tasks, so the order of the calls is not
-- modelled; the semaphore only bounds how many run at a time, if it has a slot at all.
pub mod Total
use claude_azure_o11y.Prelude.{
  ℕ, Option, none, some, String, List, [], ◌∷◌, ◌++◌, map, Exception, permission_missing, exception,
  Result, ok, err, ◌>>=◌, map_result, key_error, ◌==◌, string_eq, pair_eq, nat_eq, ◌&&◌, not,
  is_empty, if◌then◌else◌,
}
use claude_azure_o11y.Prelude.Text.{strip, ◌<>◌}
use claude_azure_o11y.Prelude.Dict
use claude_azure_o11y.Prelude.Dict.{Dict}
use claude_azure_o11y.Models.{Resource, Series, MetricRequest}
use claude_azure_o11y.Metrics.Batch.{chunk}
use claude_azure_o11y.Pipeline.{Clients, Query, MetricWindow}

-- `_ChunkResult`: the series, or the error that stands for them.
pub data ChunkResult (F : Type 0) : Type 0 where
  fetched : List (Resource F) → Dict String (Series F) → ChunkResult F
  failed : List (Resource F) → String → ChunkResult F

-- What the model answers for a call that does not return; it says nothing of what follows one.
abbrev pub blocked : Exception
blocked = exception "" "the call does not return"

-- `f"{type(e).__name__}: {e}"`; the text of `PermissionMissing` is that of its constructor.
abbrev pub error_text : Exception → String
error_text (permission_missing need detail) =
    "PermissionMissing: " <> strip ("missing permission for need '" <> need <> "' " <> detail)
error_text (exception name message) = name <> ": " <> message

module _ {F : Type 0} where
  abbrev pub answer : List (Resource F) → Result (Dict String (Series F)) → ChunkResult F
  answer resources (ok series) = fetched resources series
  answer resources (err x) = failed resources (error_text x)

  -- `_fetch_chunk`, of a chunk that is not empty.
  unfoldable pub fetch_chunk :
      Clients F
      → String
      → List MetricRequest
      → MetricWindow
      → Resource F
      → List (Resource F)
      → ChunkResult F
  fetch_chunk clients namespace requests window first rest = answer (first ∷ rest) (
      clients.query (record {
        region = first.location;
        subscription_id = first.subscription_id;
        resource_ids = map (λ r. r.id) (first ∷ rest);
        namespace = namespace;
        metrics = requests;
        window = window;
      }))

  -- `groups[(r.subscription_id, r.location)].append(r)`
  unfoldable pub add_to_group :
      Resource F
      → Dict (String × String) (List (Resource F))
      → Dict (String × String) (List (Resource F))
  add_to_group r groups =
      let key : String × String = (r.subscription_id, r.location) in
      Dict.insert key
        (elim (Dict.lookup key groups) [ none ↦ r ∷ [] | some members ↦ members ++ (r ∷ []) ])
        groups

  unfoldable pub group_all :
      List (Resource F)
      → Dict (String × String) (List (Resource F))
      → Dict (String × String) (List (Resource F))
  unfolding add_to_group
  group_all [] groups = groups
  group_all (r ∷ rest) groups = group_all rest (add_to_group r groups)

  -- `{r.id: r for r in group}`
  unfoldable pub index_by_id :
      List (Resource F) → Dict String (Resource F) → Dict String (Resource F)
  index_by_id [] d = d
  index_by_id (r ∷ rest) d = index_by_id rest (Dict.insert r.id r d)

  -- `by_id[i]`
  unfoldable pub resource_at : Dict String (Resource F) → String → Result (Resource F)
  resource_at by_id i = elim (Dict.lookup i by_id) [ none ↦ err (key_error i) | some r ↦ ok r ]

  -- The batches of resources of one group.
  unfoldable pub group_batches : ℕ → List (Resource F) → Result (List (List (Resource F)))
  unfolding index_by_id resource_at
  group_batches batch_size group = chunk (map (λ r. r.id) group) batch_size >>= λ chunks.
      map_result (map_result (resource_at (index_by_id group []))) chunks

  unfoldable pub all_batches : ℕ → List (List (Resource F)) → Result (List (List (Resource F)))
  unfolding group_batches
  all_batches batch_size [] = ok []
  all_batches batch_size (group ∷ groups) = group_batches batch_size group >>= λ here.
      all_batches batch_size groups >>= λ later. ok (here ++ later)

  -- `_fetch_chunk`: `resources[0]` raises in front of the `try`.
  unfoldable pub fetch_batch :
      Clients F
      → String
      → List MetricRequest
      → MetricWindow
      → List (Resource F)
      → Result (ChunkResult F)
  unfolding fetch_chunk
  fetch_batch clients namespace requests window [] =
      err (exception "IndexError" "list index out of range")
  fetch_batch clients namespace requests window (first ∷ rest) =
      ok (fetch_chunk clients namespace requests window first rest)

  -- The tasks under `Semaphore(max_concurrency)`. With no slot the first `acquire` waits for ever:
  -- the call does not return.
  unfoldable pub fetch_all :
      Clients F
      → (max_concurrency batch_size : ℕ) → List (Resource F)
      → String
      → List MetricRequest
      → MetricWindow
      → Result (List (ChunkResult F))
  unfolding fetch_batch group_all all_batches
  fetch_all clients max_concurrency batch_size resources namespace requests window =
      all_batches batch_size (Dict.values (group_all resources [])) >>= λ batches.
      if (max_concurrency == 0) && not (is_empty batches)
      then err blocked
      else map_result (fetch_batch clients namespace requests window) batches
