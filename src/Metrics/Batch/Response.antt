-- ===== src/Metrics/Batch/Response.antt =====
-- `parse_batch_response` answers for the requested ids and for no other, and raises only what the
-- reading of a point raises.
use claude_azure_o11y.Prelude.{
  ◌≡◌, refl, ◌∙◌, Bool, true, false, ◌||◌, ◌&&◌, not, Option, none, some, String, List, [], ◌∷◌,
  any, all, is_empty, arith, ◌==◌, string_eq, if◌then◌else◌, sym, subst, All, All-weaken, All-self,
  Among, inl, inr, ok, err, Exception, key_error, Ensures, bind-Ensures,
}
use claude_azure_o11y.Prelude.Text.{lower}
use claude_azure_o11y.Prelude.Dict
use claude_azure_o11y.Prelude.Dict.{Dict, lookup-insert}
use claude_azure_o11y.Float.{Float}
use claude_azure_o11y.Models.{MetricPoint, MetricRequest, Series}
use claude_azure_o11y.Config.{is_some}
use claude_azure_o11y.Metrics.Batch.Reading.{IsReadMetric, IsReadEntry, points_of-Ensures}
use claude_azure_o11y.Metrics.Batch.{
  MetricEntry, ResponseEntry, points_of, blank_result, blank_series, set_series, fill_metric, fill,
  fill_entry, requested, fill_by_id, fill_by_order, ids_by_lower, wanted_by_name,
  parse_batch_response,
}

-- `k in result`
abbrev pub has_key : {V : Type 0} → String → Dict String V → Bool
has_key k result = is_some (Dict.lookup k result)

pub or_false : (b : Bool) → (b || false) ≡ b
or_false true = refl
or_false false = refl

pub insert-has_key :
    {V : Type 0} (k j : String) (v : V) (d : Dict String V)
    → has_key j (Dict.insert k v d) ≡ ((j == k) || has_key j d)
insert-has_key k j v d =
    ground (arith, lookup-insert k j v d, string_eq.same_iff k j, string_eq.same_iff j k)

module _ {F : Type 0} where
  blank_result-has_key :
      (k : String) (ids : List String) (blank : Series F) (result : Dict String (Series F))
      → has_key k (blank_result ids blank result) ≡ (any (λ i. k == i) ids || has_key k result)
  unfolding blank_result
  blank_result-has_key k [] blank result = refl
  blank_result-has_key k (rid ∷ ids) blank result = ground (
    arith,
    blank_result-has_key k ids blank (Dict.insert rid blank result),
    insert-has_key rid k blank result,
  )

-- The keys of a result are the ids.
abbrev pub IsKeyed : {F : Type 0} → List String → Dict String (Series F) → Type 0
IsKeyed ids result = (k : String) → has_key k result ≡ any (λ i. k == i) ids

-- The values of the table of lower-cased ids are requested ids.
ids_by_lower-requested :
    (all_ids ids : List String) (d : Dict String String) (k rid : String)
    → All (λ i. any (λ j. i == j) all_ids ≡ true) ids
    → ((j r : String) → Dict.lookup j d ≡ some r → any (λ i. r == i) all_ids ≡ true)
    → Dict.lookup k (ids_by_lower ids d) ≡ some rid
    → any (λ i. rid == i) all_ids ≡ true
unfolding ids_by_lower
ids_by_lower-requested all_ids [] d k rid h old e = old k rid e
ids_by_lower-requested all_ids (i ∷ ids) d k rid (here, h) old e =
    ids_by_lower-requested all_ids ids (Dict.insert (lower i) i d) k rid h next e
  where
    next :
        (j r : String)
        → Dict.lookup j (Dict.insert (lower i) i d) ≡ some r
        → any (λ s. r == s) all_ids ≡ true
    next j r found = split (lower i == j) (sym (lookup-insert (lower i) j i d) ∙ found)
      where
        split :
            (b : Bool)
            → (if b then some i else Dict.lookup j d) ≡ some r
            → any (λ s. r == s) all_ids ≡ true
        split true f =
            let same : i ≡ r = ground arith in
            subst (λ z. any (λ s. z == s) all_ids ≡ true) same here
        split false f = old j r f

module _ {F : Type 0} ⦃fl : Float F⦄ (E : Exception → Type 0) (ids : List String)
    (wanted : Dict String MetricRequest) where
  set_series-Ensures :
      (rid name : String) (points : List (MetricPoint F)) (result : Dict String (Series F))
      → any (λ i. rid == i) ids ≡ true
      → IsKeyed ids result
      → Ensures E (IsKeyed ids) (set_series rid name points result)
  unfolding set_series
  set_series-Ensures rid name points result asked keyed = split (Dict.lookup rid result) refl
    where
      split :
          (o : Option (Series F))
          → Dict.lookup rid result ≡ o
          → Ensures E (IsKeyed ids) (elim o [
            | none ↦ err (key_error rid)
            | some series ↦ ok (Dict.insert rid (Dict.insert name points series) result)
          ])
      split none e = let there = keyed rid in absurd (ground arith)
      split (some series) e = λ k.
          insert-has_key rid k (Dict.insert name points series) result
          ∙ ground (arith, keyed k, string_eq.same_iff k rid)

  fill-Ensures :
      (rid : String) (metrics : List (MetricEntry F)) (result : Dict String (Series F))
      → any (λ i. rid == i) ids ≡ true
      → All (IsReadMetric E) metrics
      → IsKeyed ids result
      → Ensures E (IsKeyed ids) (fill wanted rid metrics result)
  unfolding fill fill_metric
  fill-Ensures rid [] result asked h keyed = keyed
  fill-Ensures rid (metric ∷ rest) result asked (h, hs) keyed =
      bind-Ensures E (IsKeyed ids) (IsKeyed ids)
        (fill_metric rid metric result (Dict.lookup (lower metric.name) wanted)) _
        (split (Dict.lookup (lower metric.name) wanted))
        (λ next keyed'. fill-Ensures rid rest next asked hs keyed')
    where
      split : (o : Option MetricRequest) → Ensures E (IsKeyed ids) (fill_metric rid metric result o)
      split none = keyed
      split (some req) =
          bind-Ensures E (λ ps. Unit {0}) (IsKeyed ids)
            (points_of metric req.aggregation (is_some req.filter)) _
            (points_of-Ensures E metric req.aggregation (is_some req.filter) h)
            (λ points u. set_series-Ensures rid req.name points result asked keyed)

  fill_by_id-Ensures :
      (by_lower : Dict String String) (entries : List (ResponseEntry F))
      (result : Dict String (Series F))
      → ((k rid : String) → Dict.lookup k by_lower ≡ some rid → any (λ i. rid == i) ids ≡ true)
      → All (IsReadEntry E) entries
      → IsKeyed ids result
      → Ensures E (IsKeyed ids) (fill_by_id wanted by_lower entries result)
  unfolding fill_by_id fill_entry requested
  fill_by_id-Ensures by_lower [] result asked h keyed = keyed
  fill_by_id-Ensures by_lower (entry ∷ entries) result asked (h, hs) keyed =
      bind-Ensures E (IsKeyed ids) (IsKeyed ids)
        (fill_entry wanted entry result (requested by_lower entry.resourceid)) _
        (named entry.resourceid)
        (λ next keyed'. fill_by_id-Ensures by_lower entries next asked hs keyed')
    where
      found :
          (k : String) (o : Option String)
          → Dict.lookup k by_lower ≡ o
          → Ensures E (IsKeyed ids) (fill_entry wanted entry result o)
      found k none e = keyed
      found k (some rid) e = fill-Ensures rid entry.value result (asked k rid e) h keyed

      named :
          (o : Option String)
          → Ensures E (IsKeyed ids) (fill_entry wanted entry result (requested by_lower o))
      named none = keyed
      named (some id) = found (lower id) (Dict.lookup (lower id) by_lower) refl

  fill_by_order-Ensures :
      (asked : List String) (entries : List (ResponseEntry F)) (result : Dict String (Series F))
      → All (λ rid. any (λ i. rid == i) ids ≡ true) asked
      → All (IsReadEntry E) entries
      → IsKeyed ids result
      → Ensures E (IsKeyed ids) (fill_by_order wanted asked entries result)
  unfolding fill_by_order
  fill_by_order-Ensures [] entries result inside h keyed = keyed
  fill_by_order-Ensures (rid ∷ asked) [] result inside h keyed = keyed
  fill_by_order-Ensures (rid ∷ asked) (entry ∷ entries) result (here, inside) (h, hs) keyed =
      bind-Ensures E (IsKeyed ids) (IsKeyed ids) (fill wanted rid entry.value result) _
        (fill-Ensures rid entry.value result here h keyed)
        (λ next keyed'. fill_by_order-Ensures asked entries next inside hs keyed')

Among-any : (k : String) (ids : List String) → Among k ids → any (λ i. k == i) ids ≡ true
Among-any k [] m = absurd (m)
Among-any k (i ∷ ids) (inl e) = ground (arith, (string_eq.same_iff k i).1 e)
Among-any k (i ∷ ids) (inr m) = let more = Among-any k ids m in ground arith

ids-requested : (ids : List String) → All (λ rid. any (λ i. rid == i) ids ≡ true) ids
ids-requested ids =
    All-weaken (λ i. Among i ids) (λ rid. any (λ i. rid == i) ids ≡ true) ids
      (λ i m. Among-any i ids m) (All-self ids)

module _ {F : Type 0} ⦃fl : Float F⦄ where
  -- Whatever entries a batch response has: it raises nothing but what the reading of one of its
  -- timestamps or values raises, so that every series it fills has a place in the result; and a
  -- result has a series for every requested id and for no other id.
  pub parse_batch_response-IsKeyed :
      (E : Exception → Type 0) (values : List (ResponseEntry F)) (ids : List String)
      (metrics : List MetricRequest)
      → All (IsReadEntry E) values
      → Ensures E (IsKeyed ids) (parse_batch_response values ids metrics)
  unfolding parse_batch_response Dict.lookup
  parse_batch_response-IsKeyed E values ids metrics h =
      split (not (is_empty values) && all (λ v. is_some v.resourceid) values)
    where
      wanted : Dict String MetricRequest
      wanted = wanted_by_name metrics []

      blank : Dict String (Series F)
      blank = blank_result ids (blank_series metrics []) []

      start : IsKeyed ids blank
      start k =
          let h' : has_key k blank ≡ (any (λ i. k == i) ids || false) =
            blank_result-has_key k ids (blank_series metrics []) [] in
          h' ∙ or_false (any (λ i. k == i) ids)

      split :
          (b : Bool)
          → Ensures E (IsKeyed ids) (
              if b
              then fill_by_id wanted (ids_by_lower ids []) values blank
              else fill_by_order wanted ids values blank)
      split true =
          fill_by_id-Ensures E ids wanted (ids_by_lower ids []) values blank
            (λ k rid e.
              ids_by_lower-requested ids ids [] k rid (ids-requested ids) (λ j r e'. absurd (cc)) e)
            h start
      split false = fill_by_order-Ensures E ids wanted ids values blank (ids-requested ids) h start
