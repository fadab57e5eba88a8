-- ===== src/Metrics/Derive/Requests.antt =====
-- A config that passes `_one_request_per_raw_metric` loses nothing when `requests_for` de-duplicates.
use claude_azure_o11y.Prelude.{
  ◌≡◌, refl, ◌∙◌, sym, subst, Bool, true, false, Option, none, some, String, List, [], ◌∷◌, arith,
  ok, >>=-eq-ok, All, All-weaken, ◌==◌, string_eq, option_beq_iff, if◌then◌else◌,
}
use claude_azure_o11y.Prelude.Dict
use claude_azure_o11y.Prelude.Dict.{Dict, lookup-set_default}
use claude_azure_o11y.Models.{MetricRequest}
use claude_azure_o11y.Config.{
  MetricThreshold, ResourceTypeThresholds, raw_names, metric_filter, ops_metrics, finops_metrics,
  input_metrics,
}
use claude_azure_o11y.Config.Validate.{
  Seen, check_against, check_name, check_names, check_mode, one_request_per_raw_metric,
}
use claude_azure_o11y.Metrics.Derive.{
  RunMode, ops, finops, wanted_metrics, request_of, request_names, request_all,
}

-- The request asks for the aggregation and the filter that were noted first.
abbrev Matches : Option (String × String × Option String) → Option MetricRequest → Type 0
Matches none none = Unit
Matches (some (key, agg, flt)) (some req) = (req.aggregation ≡ agg) × (req.filter ≡ flt)
Matches _ _ = ⊥

Matches-subst :
    {o o' : Option (String × String × Option String)} {q q' : Option MetricRequest}
    → o' ≡ o
    → q' ≡ q
    → Matches o q
    → Matches o' q'
Matches-subst {o} {o'} {q} {q'} p r h =
    subst (λ x. Matches x q') (sym p) (subst (λ x. Matches o x) (sym r) h)

abbrev Agree : Seen → Dict String MetricRequest → Type 0
Agree seen reqs = (n : String) → Matches (Dict.lookup n seen) (Dict.lookup n reqs)

-- The request for a raw name is the one that the key wants.
abbrev pub Serves : {F : Type 0} → Dict String MetricRequest → MetricThreshold F → String → Type 0
Serves reqs m n =
    (req : MetricRequest) × (Dict.lookup n reqs ≡ some req)
    × (req.aggregation ≡ m.aggregation)
    × (req.filter ≡ metric_filter m)

module _ {F : Type 0} where
  -- What `check_name` requires of the first entry for the name.
  abbrev Fits : Option (String × String × Option String) → MetricThreshold F → Type 0
  Fits none m = Unit
  Fits (some (key, agg, flt)) m = (agg ≡ m.aggregation) × (flt ≡ metric_filter m)

  check_against-Fits :
      (key : String) (m : MetricThreshold F) (n : String) (seen seen' : Seen)
      (o : Option (String × String × Option String))
      → Dict.lookup n seen ≡ o
      → check_against key m n seen o ≡ ok seen'
      → Fits o m
        × ((j : String)
            → Dict.lookup j seen'
              ≡ Dict.lookup j (Dict.set_default n (key, m.aggregation, metric_filter m) seen))
  check_against-Fits key m n seen seen' none p e = (tt, λ j. cc)
  check_against-Fits key m n seen seen' (some (k, a, f)) p e =
      let agg : a ≡ m.aggregation = ground (arith, string_eq.same_iff a m.aggregation) in
      let flt : f ≡ metric_filter m = ground (
        arith,
        string_eq.same_iff a m.aggregation,
        option_beq_iff ⦃e = string_eq⦄ f (metric_filter m),
      ) in
      let same : seen ≡ seen' = ground (arith, string_eq.same_iff a m.aggregation) in
      (
        (agg, flt),
        λ j. ground (
          arith,
          p,
          same,
          string_eq.same_iff n j,
          lookup-set_default n j (key, m.aggregation, metric_filter m) seen,
        ),
      )

  -- Two dicts that agree still do when both take a default for one name.
  set_default-Agree :
      (key : String) (m : MetricThreshold F) (n : String) (seen : Seen)
      (reqs : Dict String MetricRequest)
      → Agree seen reqs
      → Agree
          (Dict.set_default n (key, m.aggregation, metric_filter m) seen)
          (Dict.set_default n (request_of m n) reqs)
  unfolding request_of
  set_default-Agree key m n seen reqs agree j =
      Matches-subst (lookup-set_default n j (key, m.aggregation, metric_filter m) seen)
        (lookup-set_default n j (request_of m n) reqs)
        (split (n == j) (Dict.lookup n seen) (Dict.lookup n reqs) (agree n))
    where
      split :
          (same : Bool) (o : Option (String × String × Option String)) (q : Option MetricRequest)
          → Matches o q
          → Matches
              (if same
                then some (elim o [ none ↦ (key, m.aggregation, metric_filter m) | some w ↦ w ])
                else Dict.lookup j seen)
              (if same
                then some (elim q [ none ↦ request_of m n | some w ↦ w ])
                else Dict.lookup j reqs)
      split true none none h = (refl, refl)
      split true (some (k, a, f)) (some req) h = h
      split true none (some req) h = absurd h
      split true (some (k, a, f)) none h = absurd h
      split false o q h = agree j

  -- A request that is there stays.
  set_default-Serves :
      (m : MetricThreshold F) (n k : String) (v : MetricRequest) (reqs : Dict String MetricRequest)
      → Serves reqs m n
      → Serves (Dict.set_default k v reqs) m n
  set_default-Serves m n k v reqs (req, at, agg, flt) =
      (req, ground (arith, string_eq.same_iff k n, lookup-set_default k n v reqs), agg, flt)

  -- The entry for a name that passed the check serves the key that asks for it.
  Fits-Serves :
      (m : MetricThreshold F) (n : String) (seen : Seen) (reqs : Dict String MetricRequest)
      → Fits (Dict.lookup n seen) m
      → Agree seen reqs
      → Serves (Dict.set_default n (request_of m n) reqs) m n
  unfolding request_of
  Fits-Serves m n seen reqs fits agree =
      split (Dict.lookup n seen) (Dict.lookup n reqs) refl fits (agree n)
    where
      split :
          (o : Option (String × String × Option String)) (q : Option MetricRequest)
          → Dict.lookup n reqs ≡ q
          → Fits o m
          → Matches o q
          → Serves (Dict.set_default n (request_of m n) reqs) m n
      split none none at f h = (
        request_of m n,
        ground (arith, string_eq.same_iff n n, lookup-set_default n n (request_of m n) reqs),
        refl,
        refl,
      )
      split (some (k, a, g)) (some req) at (agg, flt) (h, i) = (
        req,
        ground (arith, string_eq.same_iff n n, lookup-set_default n n (request_of m n) reqs),
        h ∙ agg,
        i ∙ flt,
      )
      split none (some req) at f h = absurd h
      split (some (k, a, g)) none at f h = absurd h

  check_name-Agree :
      (key : String) (m : MetricThreshold F) (n : String) (seen seen' : Seen)
      (reqs : Dict String MetricRequest)
      → Agree seen reqs
      → check_name key m n seen ≡ ok seen'
      → Agree seen' (Dict.set_default n (request_of m n) reqs)
        × Serves (Dict.set_default n (request_of m n) reqs) m n
  unfolding check_name
  check_name-Agree key m n seen seen' reqs agree e =
      let (fits, same) = check_against-Fits key m n seen seen' (Dict.lookup n seen) refl e in
      (
        (λ j. Matches-subst (same j) refl (set_default-Agree key m n seen reqs agree j)),
        Fits-Serves m n seen reqs fits agree,
      )

  request_names-Serves :
      (m c : MetricThreshold F) (n : String) (names : List String)
      (reqs : Dict String MetricRequest)
      → Serves reqs m n
      → Serves (request_names c names reqs) m n
  unfolding request_names
  request_names-Serves m c n [] reqs h = h
  request_names-Serves m c n (k ∷ names) reqs h =
      request_names-Serves m c n names (Dict.set_default k (request_of c k) reqs)
        (set_default-Serves m n k (request_of c k) reqs h)

  request_all-Serves :
      (m : MetricThreshold F) (n : String) (entries : Dict String (MetricThreshold F))
      (reqs : Dict String MetricRequest)
      → Serves reqs m n
      → Serves (request_all entries reqs) m n
  unfolding request_all
  request_all-Serves m n [] reqs h = h
  request_all-Serves m n ((key, c) ∷ rest) reqs h =
      request_all-Serves m n rest (request_names c (raw_names c) reqs)
        (request_names-Serves m c n (raw_names c) reqs h)

  -- One key: the two loops over its raw names in step.
  check_names-Agree :
      (key : String) (m : MetricThreshold F) (names : List String) (seen seen' : Seen)
      (reqs : Dict String MetricRequest)
      → Agree seen reqs
      → check_names key m names seen ≡ ok seen'
      → Agree seen' (request_names m names reqs) × All (Serves (request_names m names reqs) m) names
  unfolding check_names request_names
  check_names-Agree key m [] seen seen' reqs agree e =
      let same : seen ≡ seen' = cc in (subst (λ s. Agree s reqs) same agree, tt)
  check_names-Agree key m (n ∷ names) seen seen' reqs agree e =
      let (next, e', f') = >>=-eq-ok (check_name key m n seen) (check_names key m names) e in
      let (agree', serves) = check_name-Agree key m n seen next reqs agree e' in
      let (agree'', all) = check_names-Agree key m names next seen' _ agree' f' in
      (agree'', (request_names-Serves m m n names _ serves, all))

  -- One run mode: the validator's loop and the loop of `requests_for` in step.
  check_mode-Agree :
      (entries : Dict String (MetricThreshold F)) (seen seen' : Seen)
      (reqs : Dict String MetricRequest)
      → Agree seen reqs
      → check_mode entries seen ≡ ok seen'
      → All (λ e. All (Serves (request_all entries reqs) e.1) (raw_names e.1)) entries
  unfolding check_mode request_all
  check_mode-Agree [] seen seen' reqs agree e = tt
  check_mode-Agree ((key, m) ∷ rest) seen seen' reqs agree e =
      let (next, e', f') = >>=-eq-ok (check_names key m (raw_names m) seen) (check_mode rest) e in
      let (agree', here) = check_names-Agree key m (raw_names m) seen next reqs agree e' in
      (
        All-weaken (Serves (request_names m (raw_names m) reqs) m)
            (Serves (request_all rest (request_names m (raw_names m) reqs)) m) (raw_names m)
            (λ n h. request_all-Serves m n rest (request_names m (raw_names m) reqs) h) here,
        check_mode-Agree rest next seen' (request_names m (raw_names m) reqs) agree' f',
      )

  -- With a config that `_one_request_per_raw_metric` accepts, in each run mode the dict of requests
  -- that `requests_for` builds has, under the name of every raw metric of every wanted key, a request
  -- with the aggregation and the dimension filter of that key.
  pub requests_for-Serves :
      (t : ResourceTypeThresholds F) (mode : RunMode)
      → one_request_per_raw_metric t ≡ ok t
      → All
          (λ e. All (Serves (request_all (wanted_metrics t mode) []) e.1) (raw_names e.1))
          (wanted_metrics t mode)
  unfolding one_request_per_raw_metric wanted_metrics Dict.lookup
  requests_for-Serves t ops e =
      let (seen, e', f') = >>=-eq-ok (check_mode (ops_metrics t) []) _ e in
      check_mode-Agree (ops_metrics t) [] seen [] (λ j. tt) e'
  requests_for-Serves t finops e =
      let (seen, e', f') = >>=-eq-ok (check_mode (ops_metrics t) []) _ e in
      let (seen', e'', f'') =
        >>=-eq-ok (check_mode (Dict.update (finops_metrics t) (input_metrics t)) []) _ f' in
      check_mode-Agree (Dict.update (finops_metrics t) (input_metrics t)) [] seen' [] (λ j. tt) e''
