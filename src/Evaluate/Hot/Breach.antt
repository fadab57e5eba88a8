-- ===== src/Evaluate/Hot/Breach.antt =====
-- When `evaluate_hot` returns an alert, against a description of the threshold, of the reduced value
-- and of the two directions that names none of the functions of src/evaluate/metric.py.
use claude_azure_o11y.Prelude.{
  ◌≡◌, refl, ap, ◌⊎◌, all, inl, inr, Bool, true, false, Bool-cases, Option, none, some, String,
  List, [], ◌∷◌, ◌++◌, ok, arith, length, All, Among, ◌==◌, string_eq, if◌then◌else◌,
}
use claude_azure_o11y.Prelude.Text.{lower, ◌<>◌}
use claude_azure_o11y.Prelude.Dict.{Dict}
use claude_azure_o11y.Float.{Float, IsFloat, max_float}
use claude_azure_o11y.Float.Order.{le_of_lt, le_of_not_lt}
use claude_azure_o11y.Models.{
  Resource, MetricPoint, HotAlert, Skip, ThresholdSource, config, tag_override,
}
use claude_azure_o11y.Config.{
  MetricThreshold, Thresholds, HotWhen, above, below, Reduction, mean, largest, total,
}
use claude_azure_o11y.Evaluate.Threshold.{
  parsed, resolve_from, resolve_threshold_with_source, valid, largest_of, reduce_window,
}
use claude_azure_o11y.Evaluate.Hot.{breached, judge_hot, judge_values, no_ops_data, evaluate_hot}

module _ {F : Type 0} ⦃fl : Float F⦄ where
  -- At or beyond the threshold: from above or from below.
  abbrev pub IsBeyond : HotWhen → F → F → Type 0
  IsBeyond above observed threshold = fl.le threshold observed ≡ true
  IsBeyond below observed threshold = fl.le observed threshold ≡ true

  -- What the points of a window reduce to; a maximum is said of numbers only.
  abbrev pub IsReduced : Reduction → List F → F → Type 0
  IsReduced largest values x =
      Among x values × ((all (λ y. fl.le y y) values ≡ false) ⊎ All (λ y. fl.le y x ≡ true) values)
  IsReduced total values x = x ≡ fl.sum_floats values
  IsReduced mean values x = x ≡ fl.div (fl.sum_floats values) (fl.of_nat (length values))

  -- The first tag of the name, in any case of its letters, sets the threshold if it is a number; the
  -- default stands where no tag has the name, or where that tag is no number.
  abbrev pub IsResolved : Dict String String → String → F → F → ThresholdSource → Type 0
  IsResolved tags name default threshold source =
      (All (λ (e : String × String). (lower e.0 == name) ≡ false) tags
        × (threshold ≡ default)
        × (source ≡ config))
      ⊎ ((before : Dict String String) × (k : String) × (v : String) × (after : Dict String String)
          × (tags ≡ before ++ ((k, v) ∷ after))
          × All (λ (e : String × String). (lower e.0 == name) ≡ false) before
          × ((lower k == name) ≡ true)
          × (((fl.parse_float v ≡ some threshold) × (source ≡ tag_override))
              ⊎ ((fl.parse_float v ≡ none) × (threshold ≡ default) × (source ≡ config))))

module _ {F : Type 0} ⦃fl : Float F⦄ where
  resolve_from-IsResolved :
      (tags : Dict String String) (name : String) (default : F)
      → IsResolved tags name default
          (resolve_from tags name default).0
          (resolve_from tags name default).1
  unfolding resolve_from
  resolve_from-IsResolved [] name default = inl (tt, refl, refl)
  resolve_from-IsResolved ((k, v) ∷ tags) name default =
      split (lower k == name) refl (resolve_from-IsResolved tags name default)
    where
      read :
          (o : Option F)
          → fl.parse_float v ≡ o
          → (lower k == name) ≡ true
          → IsResolved ((k, v) ∷ tags) name default (parsed o default).0 (parsed o default).1
      read none e t = inr ([], k, v, tags, refl, tt, t, inr (e, refl, refl))
      read (some x) e t = inr ([], k, v, tags, refl, tt, t, inl (e, refl))

      later :
          {x : F} {s : ThresholdSource}
          → (lower k == name) ≡ false
          → IsResolved tags name default x s
          → IsResolved ((k, v) ∷ tags) name default x s
      later f (inl (none_has, same, from)) = inl ((f, none_has), same, from)
      later f (inr (before, j, w, after, split, others, named, rest)) =
          inr ((k, v) ∷ before, j, w, after, ap (◌∷◌ (k, v)) split, (f, others), named, rest)

      split :
          (b : Bool)
          → (lower k == name) ≡ b
          → IsResolved tags name default
              (resolve_from tags name default).0
              (resolve_from tags name default).1
          → IsResolved
              ((k, v) ∷ tags)
              name
              default
              (if b then parsed (fl.parse_float v) default else resolve_from tags name default).0
              (if b then parsed (fl.parse_float v) default else resolve_from tags name default).1
      split true e rest = read (fl.parse_float v) refl e
      split false e rest = later e rest

all-All : {A : Type 0} (p : A → Bool) (xs : List A) → all p xs ≡ true → All (λ x. p x ≡ true) xs
all-All p [] h = tt
all-All p (x ∷ xs) h = (ground arith, all-All p xs (ground arith))

module _ {F : Type 0} ⦃fl : Float F⦄ (laws : IsFloat fl) where
  largest_of-Among : (best : F) (xs : List F) → Among (largest_of best xs) (best ∷ xs)
  unfolding largest_of
  largest_of-Among best [] = inl refl
  largest_of-Among best (x ∷ xs) = split (fl.lt best x) (largest_of-Among (max_float best x) xs)
    where
      split :
          (b : Bool)
          → Among (largest_of (if b then x else best) xs) ((if b then x else best) ∷ xs)
          → Among (largest_of (if b then x else best) xs) (best ∷ x ∷ xs)
      split true m = inr m
      split false (inl e) = inl e
      split false (inr m) = inr (inr m)

  -- The running maximum is at or above where it starts and every later number.
  largest_of-le :
      (best : F) (xs : List F)
      → fl.le best best ≡ true
      → All (λ y. fl.le y y ≡ true) xs
      → (fl.le best (largest_of best xs) ≡ true) × All (λ y. fl.le y (largest_of best xs) ≡ true) xs
  unfolding largest_of
  largest_of-le best [] h hs = (h, tt)
  largest_of-le best (x ∷ xs) h (k, hs) =
      split (fl.lt best x) refl (largest_of-le x xs k hs) (largest_of-le best xs h hs)
    where
      IsTop : F → F → Type 0
      IsTop start top = (fl.le start top ≡ true) × All (λ y. fl.le y top ≡ true) xs

      split :
          (b : Bool)
          → fl.lt best x ≡ b
          → IsTop x (largest_of x xs)
          → IsTop best (largest_of best xs)
          → (fl.le best (largest_of (if b then x else best) xs) ≡ true)
            × All (λ y. fl.le y (largest_of (if b then x else best) xs) ≡ true) (x ∷ xs)
      split true e (first, rest) _ =
          (laws.le_trans best x _ (le_of_lt laws best x e) first, (first, rest))
      split false e _ (first, rest) =
          (first, (laws.le_trans x best _ (le_of_not_lt laws best x h k e) first, rest))

  reduce_window-IsReduced :
      (reduce : Reduction) (first : F) (rest : List F)
      → IsReduced reduce (first ∷ rest) (reduce_window first rest reduce)
  unfolding reduce_window
  reduce_window-IsReduced largest first rest = (
    largest_of-Among first rest,
    elim (Bool-cases (all (λ y. fl.le y y) (first ∷ rest))) [
      | inl numbers ↦
          let (h, hs) = all-All (λ y. fl.le y y) (first ∷ rest) numbers in
          inr (largest_of-le first rest h hs)
      | inr nan ↦ inl nan
    ],
  )
  reduce_window-IsReduced total first rest = refl
  reduce_window-IsReduced mean first rest = refl

module _ {F : Type 0} ⦃fl : Float F⦄ where
  breached-IsBeyond :
      (way : HotWhen) (observed threshold : F)
      → breached way observed threshold ≡ true
      → IsBeyond way observed threshold
  unfolding breached
  breached-IsBeyond above observed threshold h = h
  breached-IsBeyond below observed threshold h = h

  IsBeyond-breached :
      (way : HotWhen) (observed threshold : F)
      → IsBeyond way observed threshold
      → breached way observed threshold ≡ true
  unfolding breached
  IsBeyond-breached above observed threshold h = h
  IsBeyond-breached below observed threshold h = h

module _ {F : Type 0} ⦃fl : Float F⦄ (r : Resource F) (key : String) (cfg : MetricThreshold F)
    (th : Thresholds F) where
  -- The answer for an observed value and a threshold: an alert that shows them, or nothing.
  abbrev pub IsJudged : F → F → ThresholdSource → Option (HotAlert F) → Type 0
  IsJudged observed threshold source (some alert) =
      IsBeyond cfg.hot_when observed threshold
      × (alert.resource ≡ r)
      × (alert.metric ≡ key)
      × (alert.observed ≡ observed)
      × (alert.threshold ≡ threshold)
      × (alert.lookback_minutes ≡ th.windows.ops.lookback_minutes)
      × (alert.threshold_source ≡ source)
  IsJudged observed threshold source none = ¬ IsBeyond cfg.hot_when observed threshold

  -- The alert and the skips for a window with these values.
  abbrev pub IsAnswer : F → List F → Option (HotAlert F) × List Skip → Type 0
  IsAnswer ops_hot [] (alert, skips) = (alert ≡ none) × (skips ≡ no_ops_data r key cfg th ∷ [])
  IsAnswer ops_hot (first ∷ rest) (alert, skips) =
      (reduced : F) × (threshold : F) × (source : ThresholdSource) × (skips ≡ [])
      × IsReduced cfg.reduce (first ∷ rest) reduced
      × IsResolved r.tags (lower (th.tags.threshold_prefix <> key <> "-" <> "hot")) ops_hot
          threshold source
      × IsJudged (fl.round reduced 2) threshold source alert

  judge_hot-IsAnswer :
      IsFloat fl
      → (ops_hot : F) (values : List F)
      → IsAnswer ops_hot values (judge_values r key cfg th ops_hot values)
  unfolding judge_hot resolve_threshold_with_source
  judge_hot-IsAnswer laws ops_hot [] = (refl, refl)
  judge_hot-IsAnswer laws ops_hot (first ∷ rest) =
      let name = lower (th.tags.threshold_prefix <> key <> "-" <> "hot") in
      let resolved = resolve_from r.tags name ops_hot in
      let reduced = reduce_window first rest cfg.reduce in
      let known = reduce_window-IsReduced laws cfg.reduce first rest in
      let set = resolve_from-IsResolved r.tags name ops_hot in
      elim (Bool-cases (breached cfg.hot_when (fl.round reduced 2) resolved.0)) [
        | inl t ↦
            let beyond = breached-IsBeyond cfg.hot_when (fl.round reduced 2) resolved.0 t in
            rw t (
              reduced,
              resolved.0,
              resolved.1,
              refl,
              known,
              set,
              (beyond, refl, refl, refl, refl, refl, refl),
            )
        | inr f ↦
            let within : ¬ IsBeyond cfg.hot_when (fl.round reduced 2) resolved.0 = λ h.
              let t = IsBeyond-breached cfg.hot_when (fl.round reduced 2) resolved.0 h in
              absurd (cc) in
            rw f (reduced, resolved.0, resolved.1, refl, known, set, within)
      ]

  -- For a metric with an Ops threshold: a window without a value raises no alert and is skipped once
  -- as `no_ops_data`. A window with values gives no skip. Its values reduce to their mean, their sum
  -- or, when all are numbers, the largest of them; the first tag of the metric's threshold name sets
  -- the threshold if it reads as a number, and `ops_hot` does otherwise; and there is an alert, which
  -- shows the value to two digits, the threshold and its source, exactly when that value is at or
  -- above the threshold (`above`) or at or below it (`below`).
  pub evaluate_hot-IsAnswer :
      (laws : IsFloat fl) (points : List (MetricPoint F)) (ops_hot : F)
      → cfg.ops_hot ≡ some ops_hot
      → (result : Option (HotAlert F) × List Skip) × (evaluate_hot r key cfg th points ≡ ok result)
        × IsAnswer ops_hot (valid points) result
  unfolding evaluate_hot
  evaluate_hot-IsAnswer laws points ops_hot has = (
    judge_values r key cfg th ops_hot (valid points),
    rw has refl,
    judge_hot-IsAnswer laws ops_hot (valid points),
  )
