-- ===== src/Recommend/Redis.antt =====
-- src/recommend/redis.py
use claude_azure_o11y.Prelude.{
  ℕ, ◌*◌, ◌+◌, ◌-◌, Bool, false, ◌&&◌, Option, none, some, String, [], ◌∷◌, ◌++◌, filter, last,
  Result, ok, ◌>>=◌, ◌==◌, string_eq, nat_eq, leb, ltb, if◌then◌else◌,
}
use Prim.Native.Char.{code}
use claude_azure_o11y.Prelude.Text.{◌<>◌, show_nat, join, lower, strip, or_text}
use claude_azure_o11y.Prelude.Dict.{Dict}
use claude_azure_o11y.Float.{Float, gt}
use claude_azure_o11y.Models.{
  ColdFinding, ColdObservation, low, Recommendation, recommendation, observation,
}
use claude_azure_o11y.Models.Props.{int_prop, str_prop}
use claude_azure_o11y.Prelude.Sort.{sort}
use claude_azure_o11y.Config.Groups.{entry_for}
use claude_azure_o11y.Recommend.Family.{cpu_part, is_below, memory_confidence}

pub record RedisSku (F : Type 0) : Type 0 where
  pub family : String
  pub memory_gb : F

abbrev pub RedisSkuCatalog : Type 0 → Type 0
RedisSkuCatalog F = Dict String (RedisSku F)

pub record RedisRules (F : Type 0) : Type 0 where
  pub min_capacity : ℕ
  pub headroom : F

abbrev is_digit : ℕ → Bool
is_digit n = leb b'0' n && leb n b'9'

-- The digits at the front of a text, as a number.
abbrev read_digits : ℕ → String → ℕ
read_digits n String.[] = n
read_digits n (String.◌∷◌ c s) =
    let more = read_digits (n * 10 + (code c - b'0')) s in if is_digit (code c) then more else n

-- `capacity_index`: the first run of digits; none stands for its -1.
unfoldable pub capacity_index : String → Option ℕ
capacity_index String.[] = none
capacity_index (String.◌∷◌ c s) =
    let later = capacity_index s in
    if is_digit (code c) then some (read_digits 0 (String.◌∷◌ c s)) else later

-- `capacity_index(name) >= min_capacity`, for a floor that is not negative.
abbrev pub at_floor : Option ℕ → ℕ → Bool
at_floor none floor = false
at_floor (some n) floor = leb floor n

premium_note : String
premium_note = " Premium→Standard not evaluated (clustering, persistence, VNet)."

-- `_notes`
unfoldable pub redis_notes : String → ℕ → String
unfolding premium_note
redis_notes tier shards =
    (if ltb 1 shards
      then " Cache has " <> show_nat shards <> " shards; the size applies per shard."
      else "")
    <> (if lower tier == "premium" then premium_note else "")

module _ {F : Type 0} ⦃fl : Float F⦄ where
  -- `RedisSkuCatalog.family_members`: by memory.
  unfoldable pub redis_members : RedisSkuCatalog F → String → RedisSkuCatalog F
  redis_members catalog family =
      sort (λ a b. fl.lt a.1.memory_gb b.1.memory_gb) (filter (λ e. e.1.family == family) catalog)

  -- Same family, smaller memory, at or above the configured floor.
  unfoldable pub redis_candidates :
      RedisSkuCatalog F → RedisRules F → RedisSku F → RedisSkuCatalog F
  redis_candidates catalog rules current =
      filter
        (λ e.
          fl.lt e.1.memory_gb current.memory_gb && at_floor (capacity_index e.0) rules.min_capacity)
        (redis_members catalog current.family)

  redis_memory : Option (ColdObservation F) → String
  unfolding is_below
  redis_memory none = "Memory not evaluated (no usedmemorypercentage data)."
  redis_memory (some mem) = is_below "used memory" mem

  -- `current.memory_gb * mem.value / 100 * headroom`
  unfoldable pub needed_gb : RedisSku F → F → F → F
  needed_gb current used headroom =
      fl.mul (fl.div (fl.mul current.memory_gb used) (fl.of_nat 100)) headroom

  module _ (finding : ColdFinding F) (rules : RedisRules F) (tier why notes : String) where
    -- The rule for the largest candidate.
    unfoldable pub redis_target :
        RedisSku F → Option (ColdObservation F) → String → RedisSku F → Recommendation F
    unfolding memory_confidence needed_gb
    redis_target current none target_size target =
        recommendation finding (some (strip (tier <> " " <> target_size)))
          (memory_confidence {F = F} none)
          (why <> " Next smaller size in family " <> current.family <> "." <> notes)
    redis_target current (some mem) target_size target =
        let needed = needed_gb current mem.value rules.headroom in
        if gt needed target.memory_gb
        then recommendation finding none (memory_confidence (some mem)) (
            why
            <> " No smaller size in family "
            <> current.family
            <> " fits the peak memory: "
            <> fl.show_g needed
            <> " GB needed with "
            <> fl.show_g rules.headroom
            <> "x headroom, "
            <> target_size
            <> " has "
            <> fl.show_g target.memory_gb
            <> " GB."
            <> notes)
        else recommendation finding (some (strip (tier <> " " <> target_size)))
            (memory_confidence (some mem))
            (why
              <> " Next smaller size in family "
              <> current.family
              <> ". "
              <> target_size
              <> " fits the peak memory with "
              <> fl.show_g rules.headroom
              <> "x headroom."
              <> notes)

    unfoldable pub size_redis :
        RedisSkuCatalog F → Option (ColdObservation F) → String → Recommendation F
    unfolding redis_target entry_for memory_confidence
    size_redis catalog mem size = elim (entry_for size catalog) [
      | none ↦ recommendation finding none low (
          why
          <> " Size "
          <> or_text size "unknown"
          <> " not in config/redis-skus.yaml; cannot recommend."
          <> notes)
      | some (name, current) ↦ elim (last (redis_candidates catalog rules current)) [
        | none ↦ recommendation finding none (memory_confidence mem) (
            why
            <> " "
            <> finding.resource.sku
            <> " is already the smallest allowed size in family "
            <> current.family
            <> " (min_capacity="
            <> show_nat rules.min_capacity
            <> ")."
            <> notes)
        | some (target_size, target) ↦ redis_target current mem target_size target
      ]
    ]

  unfoldable pub recommend_redis :
      ColdFinding F → RedisSkuCatalog F → RedisRules F → Result (Recommendation F)
  unfolding size_redis cpu_part redis_memory redis_notes
  recommend_redis finding catalog rules =
      let mem = observation finding "memory" in
      let tier = str_prop finding.resource "tier" in
      int_prop finding.resource "shards" >>= λ shards. ok (
        size_redis finding rules tier
          (join " " (cpu_part finding (observation finding "cpu") ++ (redis_memory mem ∷ [])))
          (redis_notes tier shards) catalog mem (str_prop finding.resource "size"))
