-- ===== src/Evaluate/Cold/Agreement.antt =====
-- When `evaluate_cold` returns a finding.
use claude_azure_o11y.Prelude.{
  ◌≡◌, sym, ap, ◌∙◌, subst, true, false, Option, some, String, List, [], ◌∷◌, ◌++◌, Result, ok,
  arith, ◌>>=◌, >>=-eq-ok, All, ◌==◌, string_eq,
}
use mathlib.Core.List.{append_assoc, append-nil}
use claude_azure_o11y.Prelude.Dict.{Dict}
use claude_azure_o11y.Float.{Float}
use claude_azure_o11y.Models.{
  Resource, Series, ColdObservation, ColdFinding, Skip, Time, MetricPoint,
}
use claude_azure_o11y.Config.{MetricThreshold, ResourceTypeThresholds, Thresholds}
use claude_azure_o11y.Evaluate.Cold.{
  Observed, seen, unseen, Verdict, dropped, all_cold, after_observation, points_at, cold_loop,
  observe_cold, applicable, cold_finding, finish_cold, evaluate_applicable, evaluate_cold,
}

module _ {F : Type 0} where
  abbrev pub IsCold : ColdObservation F → Type 0
  IsCold o = o.cold ≡ true

  -- The key of the primary metric; there is none without an applicable metric.
  abbrev pub primary_of : Dict String (MetricThreshold F) → String
  primary_of [] = ""
  primary_of ((key, cfg) ∷ rest) = key

module _ {F : Type 0} ⦃fl : Float F⦄ (resource : Resource F) (th : Thresholds F)
    (granularity : Time) (primary : String) (series : Series F) where
  -- An observation that does not speak against a resize: too little data only of a metric that is
  -- not the primary one.
  abbrev pub Allows : String → Observed F → Type 0
  Allows key (unseen skip) = (key == primary) ≡ false
  Allows key (seen o) = IsCold o

  -- A metric whose series was observed, and with such a result.
  abbrev pub IsAllowing : String × MetricThreshold F → Type 0
  IsAllowing (key, cfg) =
      (points : List (MetricPoint F)) × (obs : Observed F) × (points_at key series ≡ ok points)
      × (observe_cold resource th granularity points key cfg ≡ ok obs)
      × Allows key obs

  -- What the loop adds to the observations that it starts with.
  abbrev Adds : List (ColdObservation F) → List (ColdObservation F) → Type 0
  Adds before after = (more : List (ColdObservation F)) × (after ≡ before ++ more) × All IsCold more

  after_observation-Adds :
      {P : Type 0} (key : String) (go_on : List (ColdObservation F) → Result (Verdict F))
      (before after : List (ColdObservation F)) (obs : Observed F)
      → ((b : List (ColdObservation F)) → go_on b ≡ ok (all_cold after) → Adds b after × P)
      → after_observation resource th granularity primary key go_on before obs ≡ ok (all_cold after)
      → Adds before after × Allows key obs × P
  after_observation-Adds key go_on before after (unseen skip) next e =
      let (adds, p) = next before (ground (arith, string_eq.same_iff key primary)) in
      (adds, ground arith, p)
  after_observation-Adds key go_on before after (seen o) next e =
      let cold : o.cold ≡ true = ground arith in
      let ((more, joined, all), p) = next (before ++ (o ∷ [])) (ground arith) in
      ((o ∷ more, joined ∙ append_assoc before (o ∷ []) more, (cold, all)), cold, p)

  cold_loop-Adds :
      (entries : Dict String (MetricThreshold F)) (before after : List (ColdObservation F))
      → cold_loop resource th granularity primary series entries before ≡ ok (all_cold after)
      → Adds before after × All IsAllowing entries
  unfolding cold_loop
  cold_loop-Adds [] before after e =
      let same : after ≡ before = cc in (([], same ∙ sym (append-nil before), tt), tt)
  cold_loop-Adds ((key, cfg) ∷ rest) before after e =
      let go_on = cold_loop resource th granularity primary series rest in
      let (points, e1, f1) =
        >>=-eq-ok (points_at key series)
          (λ points.
            observe_cold resource th granularity points key cfg
            >>= after_observation resource th granularity primary key go_on before)
          e in
      let (obs, e2, f2) =
        >>=-eq-ok (observe_cold resource th granularity points key cfg)
          (after_observation resource th granularity primary key go_on before) f1 in
      let (adds, allows, later) =
        after_observation-Adds key go_on before after obs (λ b h. cold_loop-Adds rest b after h)
          f2 in
      (adds, ((points, obs, e1, e2, allows), later))

module _ {F : Type 0} ⦃fl : Float F⦄ (r : Resource F) (series : Series F)
    (t : ResourceTypeThresholds F) (th : Thresholds F) (granularity : Time) where
  -- The observations of a finding, from the loop's.
  finish_cold-observations :
      (verdict : Verdict F) (finding : ColdFinding F) (skips : List Skip)
      → finish_cold r series t th verdict ≡ ok (some finding, skips)
      → (verdict ≡ all_cold finding.observations) × (skips ≡ [])
  unfolding cold_finding
  finish_cold-observations (dropped s) finding skips e = absurd (ground arith)
  finish_cold-observations (all_cold []) finding skips e = absurd (ground arith)
  finish_cold-observations (all_cold (head ∷ rest)) finding skips e =
      (ap all_cold (ap observations_of e), sym (ap skips_of e))
    where
      observations_of : Result (Option (ColdFinding F) × List Skip) → List (ColdObservation F)
      observations_of (ok (some f, s)) = f.observations
      observations_of _ = []

      skips_of : Result (Option (ColdFinding F) × List Skip) → List Skip
      skips_of (ok (f, s)) = s
      skips_of _ = []

  -- When `evaluate_cold` returns a finding, it returns no skip with it, every observation in the
  -- finding is cold, and every applicable FinOps metric was observed and is cold or, when it is not
  -- the primary one, has too little data.
  pub evaluate_cold-IsAllowing :
      (finding : ColdFinding F) (skips : List Skip)
      → evaluate_cold r series t th granularity ≡ ok (some finding, skips)
      → (skips ≡ [])
        × All IsCold finding.observations
        × All
            (IsAllowing r th granularity (primary_of (applicable t series)) series)
            (applicable t series)
  unfolding evaluate_cold
  evaluate_cold-IsAllowing finding skips e = split (applicable t series) e
    where
      split :
          (entries : Dict String (MetricThreshold F))
          → evaluate_applicable r series t th granularity entries ≡ ok (some finding, skips)
          → (skips ≡ [])
            × All IsCold finding.observations
            × All (IsAllowing r th granularity (primary_of entries) series) entries
      split [] e = absurd (ground arith)
      split ((primary, cfg) ∷ rest) e =
          let (verdict, e1, f1) =
            >>=-eq-ok (cold_loop r th granularity primary series ((primary, cfg) ∷ rest) [])
              (finish_cold r series t th) e in
          let (is_all, none_skipped) = finish_cold-observations verdict finding skips f1 in
          let ((more, joined, cold), allowing) =
            cold_loop-Adds r th granularity primary series ((primary, cfg) ∷ rest) []
              finding.observations (e1 ∙ ap ok is_all) in
          (none_skipped, subst (All IsCold) (sym joined) cold, allowing)
