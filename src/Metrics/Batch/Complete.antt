-- ===== src/Metrics/Batch/Complete.antt =====
-- `MetricsBatchClient.query` of src/metrics/batch.py answers for every requested resource when its
-- calls are answered.
use claude_azure_o11y.Prelude.{
  ◌≡◌, refl, ◌∙◌, sym, ap, true, ◌||◌, Option, none, some, String, List, [], ◌∷◌, any, arith, ◌==◌,
  string_eq, Among, All, All-weaken, All-self, Result, ok, err, ◌>>=◌, Exception, Ensures,
  bind-Ensures, subst, inl, inr,
}
use claude_azure_o11y.Prelude.Dict
use claude_azure_o11y.Prelude.Dict.{Dict}
use claude_azure_o11y.Float.{Float}
use claude_azure_o11y.Models.{MetricRequest, Series}
use claude_azure_o11y.Pipeline.{Query}
use claude_azure_o11y.Metrics.Batch.{ResponseEntry}
use claude_azure_o11y.Metrics.Batch.Reading.{IsReadEntry}
use claude_azure_o11y.Metrics.Batch.Response.{
  IsKeyed, has_key, insert-has_key, or_false, parse_batch_response-IsKeyed,
}
use claude_azure_o11y.Metrics.Batch.Query.{
  Call, CallAnswer, answered, Key, group_for, group_keys, call_for, after_call, query_group,
  add_series, merge_part, query_keys, empty_series, query,
}
use claude_azure_o11y.Metrics.Batch.Groups.{IsGroup, group_keys-IsGroup}

-- The entries of a dictionary are found by their keys.
Among-has_key :
    {V : Type 0} (k : String) (v : V) (d : Dict String V) → Among (k, v) d → has_key k d ≡ true
unfolding Dict.lookup
Among-has_key k v [] m = absurd (m)
Among-has_key k v ((j, w) ∷ d) (inl same) =
    let here : k ≡ j = ap (λ e. e.0) same in ground (arith, (string_eq.same_iff j k).1 (sym here))
Among-has_key k v ((j, w) ∷ d) (inr m) = let more = Among-has_key k v d m in ground arith

module _ {F : Type 0} ⦃fl : Float F⦄ where
  empty_series-has_key :
      (k : String) (ids : List String) (result : Dict String (Series F))
      → has_key k (empty_series ids result) ≡ (any (λ i. k == i) ids || has_key k result)
  unfolding empty_series
  empty_series-has_key k [] result = refl
  empty_series-has_key k (rid ∷ ids) result =
      let rest = empty_series-has_key k ids (Dict.insert rid [] result) in
      let first = insert-has_key rid k [] result in ground arith

  -- The part's entries are for keys of the result, so that the merge returns, with the same keys.
  merge_part-Returns :
      (part result : Dict String (Series F)) (ids : List String)
      → All (λ e. any (λ i. e.0 == i) ids ≡ true) part
      → IsKeyed ids result
      → (merged : Dict String (Series F)) × (merge_part part result ≡ ok merged)
        × IsKeyed ids merged
  unfolding merge_part
  merge_part-Returns [] result ids inside keyed = (result, refl, keyed)
  merge_part-Returns ((rid, series) ∷ part) result ids (here, inside) keyed =
      split (Dict.lookup rid result) refl (λ next. merge_part-Returns part next ids inside)
    where
      split :
          (o : Option (Series F))
          → Dict.lookup rid result ≡ o
          → ((next : Dict String (Series F))
              → IsKeyed ids next
              → (merged : Dict String (Series F)) × (merge_part part next ≡ ok merged)
                × IsKeyed ids merged)
          → (merged : Dict String (Series F)) × ((add_series rid series o result
                >>= merge_part part)
              ≡ ok merged)
            × IsKeyed ids merged
      split none e more = let there = keyed rid in absurd (ground arith)
      split (some old) e more = more (Dict.insert rid (Dict.update old series) result) (λ k.
          insert-has_key rid k (Dict.update old series) result
          ∙ ground (arith, keyed k, string_eq.same_iff k rid))

  part-inside :
      (part : Dict String (Series F)) (ids : List String)
      → IsKeyed ids part
      → All (λ e. any (λ i. e.0 == i) ids ≡ true) part
  part-inside part ids keyed =
      All-weaken (λ e. Among e part) (λ e. any (λ i. e.0 == i) ids ≡ true) part
        (λ (k, v) m. sym (keyed k) ∙ Among-has_key k v part m) (All-self part)

module _ {F : Type 0} ⦃fl : Float F⦄ (E : Exception → Type 0) (call : Call → CallAnswer F)
    (q : Query) where
  -- Every call is answered with a response, and the reading of its points raises only what is in `E`.
  abbrev pub AreAnswered : Type 0
  AreAnswered =
      (c : Call)
      → (values : List (ResponseEntry F)) × (call c ≡ answered values) × All (IsReadEntry E) values

  query_group-Ensures :
      (group : List MetricRequest)
      → AreAnswered
      → ((m : MetricRequest) × Among m group)
      → Ensures E (IsKeyed q.resource_ids) (query_group call q group)
  unfolding query_group after_call
  query_group-Ensures [] answers (m, among) = absurd (among)
  query_group-Ensures (n ∷ group) answers (m, among) =
      let (values, e, readable) = answers (call_for q n (n ∷ group)) in
      subst (λ a. Ensures E (IsKeyed q.resource_ids) (after_call q (n ∷ group) a)) (sym e)
        (parse_batch_response-IsKeyed E values q.resource_ids (n ∷ group) readable)

  query_keys-Ensures :
      (keys : List Key) (result : Dict String (Series F))
      → AreAnswered
      → All (IsGroup q.metrics) keys
      → IsKeyed q.resource_ids result
      → Ensures E (IsKeyed q.resource_ids) (query_keys call q keys result)
  unfolding query_keys
  query_keys-Ensures [] result answers groups keyed = keyed
  query_keys-Ensures (key ∷ keys) result answers (group, groups) keyed =
      bind-Ensures E (IsKeyed q.resource_ids) (IsKeyed q.resource_ids)
        (query_group call q (group_for key q.metrics)) _
        (query_group-Ensures (group_for key q.metrics) answers group.0)
        (λ part inside.
          let (merged, into, keyed') =
            merge_part-Returns part result q.resource_ids (part-inside part q.resource_ids inside)
              keyed in
          subst (λ m. Ensures E (IsKeyed q.resource_ids) (m >>= query_keys call q keys)) (sym into)
            (query_keys-Ensures keys merged answers groups keyed'))

  -- When each SDK call is answered, a query raises nothing but what the reading of a point raises;
  -- and its result has a series for each requested resource and for no other.
  query-Ensures : AreAnswered → Ensures E (IsKeyed q.resource_ids) (query call q)
  unfolding query Dict.lookup
  query-Ensures answers =
      query_keys-Ensures (group_keys fl.repr q.metrics) (empty_series q.resource_ids []) answers
        (group_keys-IsGroup fl.repr q.metrics).1
        (λ k.
          empty_series-has_key k q.resource_ids [] ∙ or_false (any (λ i. k == i) q.resource_ids))

-- No exception.
abbrev pub Never : Exception → Type 0
Never x = ⊥

Ensures-Returns :
    {A : Type 0} (Q : A → Type 0) (m : Result A) → Ensures Never Q m → (a : A) × (m ≡ ok a) × Q a
Ensures-Returns Q (ok a) h = (a, refl, h)
Ensures-Returns Q (err x) h = absurd (h)

module _ {F : Type 0} ⦃fl : Float F⦄ where
  -- When each SDK call is answered with a response whose timestamps and values can be read, a query
  -- returns: every group has a first metric, and every series has a place in the result. The result
  -- has a series for each requested resource, and for no other.
  pub query-Returns :
      (call : Call → CallAnswer F) (q : Query)
      → AreAnswered Never call q
      → (result : Dict String (Series F)) × (query call q ≡ ok result)
        × IsKeyed q.resource_ids result
  query-Returns call q answers =
      Ensures-Returns (IsKeyed q.resource_ids) (query call q) (query-Ensures Never call q answers)
