-- ===== src/Inventory/Filters.antt =====
-- src/inventory/filters.py
pub mod Partition
use claude_azure_o11y.Prelude.{
  ℕ, Bool, true, false, Option, none, some, String, List, [], ◌∷◌, ◌++◌, any, length, ◌==◌,
  string_eq, if◌then◌else◌,
}
use claude_azure_o11y.Prelude.Text.{lower, strip, ◌<>◌}
use claude_azure_o11y.Models.{Resource, Skip, tag}
use claude_azure_o11y.Config.{TagNames}

-- `IgnoreConfig`: a compiled pattern is its `fullmatch`, as a test.
abbrev pub Pattern : Type 0
Pattern = String → Bool

pub record FilterResult (F : Type 0) : Type 0 where
  pub kept : List (Resource F)
  pub skips : List Skip
  pub excluded : List (Resource F)
  pub ignored_rg_count : ℕ

-- A `set` of texts: adding one that is there changes nothing.
unfoldable pub add_text : String → List String → List String
add_text s texts = if any (λ t. t == s) texts then texts else texts ++ (s ∷ [])

abbrev pub skip_of : String → String → String → Skip
skip_of id reason detail = record { resource_id = id; reason = reason; detail = detail }

module _ {F : Type 0} (tags : TagNames) (patterns : List Pattern)
    (active : Resource F → Option Skip) where
  abbrev pub is_ignored : Resource F → Bool
  is_ignored r = any (λ p. p r.resource_group) patterns

  -- `(r.tag(tags.exclude) or "").strip().lower() == "true"`
  unfoldable pub is_excluded : Resource F → Bool
  is_excluded r = lower (strip (elim (tag r tags.exclude) [ none ↦ "" | some v ↦ v ])) == "true"

  -- The loop, with the result and the set `ignored_rgs` so far.
  unfoldable pub filter_from : List (Resource F) → List String → FilterResult F → FilterResult F
  filter_from [] ignored_rgs result = record result { ignored_rg_count = length ignored_rgs }
  filter_from (r ∷ rest) ignored_rgs result =
      filter_from rest
        (if is_ignored r
          then add_text (lower (r.subscription_id <> "/" <> r.resource_group)) ignored_rgs
          else ignored_rgs)
        (if is_ignored r
          then record result {
            skips = result.skips ++ (skip_of r.id "ignored_rg" r.resource_group ∷ []);
          }
          else if is_excluded r
          then record result {
            excluded = result.excluded ++ (r ∷ []);
            skips = result.skips ++ (skip_of r.id "excluded_by_tag" (tags.exclude <> "=true") ∷ []);
          }
          else elim (active r) [
            | some skip ↦ record result { skips = result.skips ++ (skip ∷ []) }
            | none ↦ record result { kept = result.kept ++ (r ∷ []) }
          ])

  unfoldable pub filter_resources : List (Resource F) → FilterResult F
  unfolding filter_from is_excluded add_text
  filter_resources resources =
      filter_from resources []
        (record { kept = []; skips = []; excluded = []; ignored_rg_count = 0 })
