-- ===== src/Recommend/Sql.antt =====
-- src/recommend/sqldb.py, sqlmi.py and sqlpool.py: the smallest size that covers the peak.
use claude_azure_o11y.Prelude.{
  ℕ, ◌-◌, Bool, false, ◌||◌, Option, none, some, String, List, [], ◌∷◌, ◌++◌, Result, ok, ◌>>=◌,
  ◌==◌, string_eq, nat_eq, length, take, find, is_empty, if◌then◌else◌,
}
use claude_azure_o11y.Prelude.Text.{◌<>◌, show_nat, join, split, has_char, upper}
use claude_azure_o11y.Prelude.Dict
use claude_azure_o11y.Prelude.Dict.{Dict}
use claude_azure_o11y.Float.{Float}
use claude_azure_o11y.Models.{
  ColdFinding, low, medium, Recommendation, recommendation, evidence, Value, text, null,
}
use claude_azure_o11y.Models.Props.{prop, str_of, int_prop, str_prop}
use claude_azure_o11y.Prelude.Sort.{sort}
use claude_azure_o11y.Config.Groups.{SqlSkuCatalog}
use claude_azure_o11y.Prelude.{ltb}
use claude_azure_o11y.Recommend.Ladder.{fit_down}

-- The knobs that the three rules share.
pub record SqlRules (F : Type 0) : Type 0 where
  pub min_vcores : ℕ
  pub headroom : F

-- `catalog.vcore.get(name, [])`, `catalog.pool_edtu.get(tier, [])`
abbrev pub ladder_of : Dict String (List ℕ) → String → List ℕ
ladder_of ladders name = elim (Dict.lookup name ladders) [ none ↦ [] | some l ↦ l ]

-- `"_".join([*sku_name.split("_")[:-1], str(target)])`
unfoldable pub rename_vcores : String → ℕ → String
rename_vcores sku_name target =
    let parts = split b'_' sku_name in
    join "_" (take (length parts - 1) parts ++ (show_nat target ∷ []))

-- `r.prop("purchasing_model") == "dtu"`
abbrev is_dtu : {F : Type 0} → Value F → Bool
is_dtu (text s) = s == "dtu"
is_dtu _ = false

module _ {F : Type 0} ⦃fl : Float F⦄ (finding : ColdFinding F) (rules : SqlRules F) where
  -- The reason of a target: what covers the peak.
  unfoldable pub covers : String → String → String
  covers why what =
      why
      <> " "
      <> what
      <> " P"
      <> show_nat finding.percentile
      <> " with "
      <> fl.show_g rules.headroom
      <> "x headroom."

  -- `recommend_sqldb` of a DTU database whose tier has the objectives.
  unfoldable pub dtu_target : String → String → String → Dict String ℕ → ℕ → Recommendation F
  unfolding covers
  dtu_target why tier sku_name objectives current =
      elim (fit_down (sort ltb (Dict.values objectives)) current finding.observed rules.headroom
        0) [
          | none ↦
              recommendation finding none medium
                (why <> " " <> sku_name <> " is already the smallest " <> tier <> " objective.")
          | some target ↦
              recommendation finding
                (elim (find (λ e. e.1 == target) objectives) [
                  | none ↦ none
                  | some (n, dtu) ↦ some n
                ])
                medium (covers why (show_nat target <> " DTU covers"))
        ]

  unfoldable pub recommend_dtu :
      String → String → String → Option (Dict String ℕ) → Recommendation F
  unfolding dtu_target
  recommend_dtu why tier sku_name objectives =
      let unknown =
        recommendation finding none low
          (why <> " " <> sku_name <> " not in config/sql-skus.yaml; cannot recommend.") in
      elim objectives [
        | none ↦ unknown
        | some sizes ↦ elim (Dict.lookup sku_name sizes) [
          | none ↦ unknown
          | some current ↦ dtu_target why tier sku_name sizes current
        ]
      ]

  -- `recommend_sqldb` of a vCore database.
  unfoldable pub recommend_vcore : String → String → List ℕ → ℕ → Recommendation F
  unfolding covers
  recommend_vcore why sku_name ladder capacity =
      if is_empty ladder || capacity == 0
      then recommendation finding none low
          (why <> " vCore ladder or capacity unknown; cannot recommend.")
      else elim (fit_down ladder capacity finding.observed rules.headroom rules.min_vcores) [
        | none ↦ recommendation finding none medium (
            why
            <> " "
            <> sku_name
            <> " is already at min_vcores="
            <> show_nat rules.min_vcores
            <> ".")
        | some target ↦
            if has_char b'_' sku_name
            then recommendation finding (some (rename_vcores sku_name target)) medium
                (covers why (show_nat target <> " vCores cover"))
            else recommendation finding none low (
                why <> " SKU name " <> sku_name
                <> " is not in the expected <tier>_<gen>_<vcores> form; cannot name a target.")
      ]

  unfoldable pub recommend_sqldb : SqlSkuCatalog → Result (Recommendation F)
  unfolding recommend_dtu recommend_vcore
  recommend_sqldb catalog =
      let r = finding.resource in
      let why = evidence finding (upper finding.metric) in
      let tier = str_of (prop r "tier" (text "")) in
      int_prop r "capacity" >>= λ capacity.
      if is_dtu (prop r "purchasing_model" null)
      then ok (recommend_dtu why tier r.sku (Dict.lookup tier catalog.dtu))
      else ok (recommend_vcore why r.sku (ladder_of catalog.vcore "database") capacity)

  unfoldable pub recommend_sqlmi : SqlSkuCatalog → Result (Recommendation F)
  unfolding covers
  recommend_sqlmi catalog =
      let r = finding.resource in
      let why = evidence finding "CPU" in
      let sku_name = str_prop r "sku_name" in
      let ladder = ladder_of catalog.vcore "managed_instance" in
      int_prop r "vcores" >>= λ vcores.
      if is_empty ladder || vcores == 0
      then ok (
          recommendation finding none low
            (why <> " vCore ladder or capacity unknown; cannot recommend."))
      else ok (elim (fit_down ladder vcores finding.observed rules.headroom rules.min_vcores) [
        | none ↦ recommendation finding none medium (
            why <> " " <> r.sku <> " is already at min_vcores=" <> show_nat rules.min_vcores <> ".")
        | some target ↦
            recommendation finding (some (sku_name <> " " <> show_nat target <> " vCores")) medium
              (covers why (show_nat target <> " vCores cover"))
      ])

  -- `recommend_sqlpool` of a vCore pool.
  unfoldable pub pool_vcore : String → String → List ℕ → ℕ → Recommendation F
  unfolding covers
  pool_vcore why sku_name ladder capacity =
      if is_empty ladder || capacity == 0
      then recommendation finding none low
          (why <> " vCore ladder or capacity unknown; cannot recommend.")
      else elim (fit_down ladder capacity finding.observed rules.headroom rules.min_vcores) [
        | none ↦
            recommendation finding none medium
              (why <> " already at min_vcores=" <> show_nat rules.min_vcores <> ".")
        | some target ↦
            recommendation finding (some (sku_name <> " " <> show_nat target)) medium
              (covers why (show_nat target <> " vCores cover"))
      ]

  -- `recommend_sqlpool` of an eDTU pool.
  unfoldable pub pool_edtu_target : String → String → String → List ℕ → ℕ → Recommendation F
  unfolding covers
  pool_edtu_target why tier sku_name ladder capacity =
      if is_empty ladder
      then recommendation finding none low
          (why <> " " <> tier <> " not in config/sql-skus.yaml; cannot recommend.")
      else elim (fit_down ladder capacity finding.observed rules.headroom 0) [
        | none ↦
            recommendation finding none medium
              (why <> " " <> sku_name <> " is already the smallest " <> tier <> " pool size.")
        | some target ↦
            recommendation finding (some (sku_name <> " " <> show_nat target)) medium
              (covers why (show_nat target <> " eDTU covers"))
      ]

  unfoldable pub recommend_sqlpool : SqlSkuCatalog → Result (Recommendation F)
  unfolding pool_vcore pool_edtu_target
  recommend_sqlpool catalog =
      let r = finding.resource in
      let tier = str_of (prop r "tier" (text "")) in
      let sku_name = str_of (prop r "sku_name" (text "")) in
      let why = evidence finding (upper finding.metric) in
      int_prop r "capacity" >>= λ capacity.
      if str_of (prop r "purchasing_model" (text "")) == "vcore"
      then ok (pool_vcore why sku_name (ladder_of catalog.vcore "pool") capacity)
      else ok (pool_edtu_target why tier sku_name (ladder_of catalog.pool_edtu tier) capacity)
