-- ===== src/Inventory/Filters/Partition.antt =====
-- `filter_resources` sorts every resource into one of four groups.
use claude_azure_o11y.Prelude.{
  suc, ◌+◌, ◌≡◌, sym, ◌∙◌, Bool, true, false, not, ◌&&◌, Option, none, some, String, List, [], ◌∷◌,
  ◌++◌, arith, filter, length, if◌then◌else◌,
}
use mathlib.Core.List.{append_assoc, append-nil}
use claude_azure_o11y.Prelude.Text.{◌<>◌}
use claude_azure_o11y.Models.{Resource, Skip}
use claude_azure_o11y.Config.{TagNames, is_some}
use claude_azure_o11y.Inventory.Filters.{
  Pattern, FilterResult, is_ignored, is_excluded, filter_from, filter_resources, skip_of,
}

module _ {F : Type 0} (tags : TagNames) (patterns : List Pattern)
    (active : Resource F → Option Skip) where
  -- Whose resource group no pattern matches in full.
  abbrev pub is_listed : Resource F → Bool
  is_listed r = not (is_ignored tags patterns active r)

  abbrev pub is_kept : Resource F → Bool
  is_kept r = is_listed r && (not (is_excluded tags patterns active r) && not (is_some (active r)))

  abbrev pub is_tagged_out : Resource F → Bool
  is_tagged_out r = is_listed r && is_excluded tags patterns active r

  -- The skip that a resource is dropped with.
  abbrev pub drop_reason : Resource F → Option Skip
  drop_reason r =
      if is_ignored tags patterns active r
      then some (skip_of r.id "ignored_rg" r.resource_group)
      else if is_excluded tags patterns active r
      then some (skip_of r.id "excluded_by_tag" (tags.exclude <> "=true"))
      else active r

  unfoldable pub drop_reasons : List (Resource F) → List Skip
  drop_reasons [] = []
  drop_reasons (r ∷ rest) = elim (drop_reason r) [
    | none ↦ drop_reasons rest
    | some skip ↦ skip ∷ drop_reasons rest
  ]

  abbrev Parts : List (Resource F) → FilterResult F → FilterResult F → Type 0
  Parts rs result out =
      (out.kept ≡ result.kept ++ filter is_kept rs)
      × (out.excluded ≡ result.excluded ++ filter is_tagged_out rs)
      × (out.skips ≡ result.skips ++ drop_reasons rs)

  -- The result behind one more resource, by what is true of the resource.
  abbrev with_resource : Resource F → Bool → Bool → Option Skip → FilterResult F → FilterResult F
  with_resource r ignored excluded inactive result =
      if ignored
      then record result {
        skips = result.skips ++ (skip_of r.id "ignored_rg" r.resource_group ∷ []);
      }
      else if excluded
      then record result {
        excluded = result.excluded ++ (r ∷ []);
        skips = result.skips ++ (skip_of r.id "excluded_by_tag" (tags.exclude <> "=true") ∷ []);
      }
      else elim inactive [
        | some skip ↦ record result { skips = result.skips ++ (skip ∷ []) }
        | none ↦ record result { kept = result.kept ++ (r ∷ []) }
      ]

  with_resource-Parts :
      (r : Resource F) (rest : List (Resource F)) (ignored excluded : Bool) (inactive : Option Skip)
      (result out : FilterResult F)
      → Parts rest (with_resource r ignored excluded inactive result) out
      → (out.kept
          ≡ result.kept
            ++ (if not ignored && (not excluded && not (is_some inactive))
                then r ∷ filter is_kept rest
                else filter is_kept rest))
        × (out.excluded
            ≡ result.excluded
              ++ (if not ignored && excluded
                  then r ∷ filter is_tagged_out rest
                  else filter is_tagged_out rest))
        × (out.skips
            ≡ result.skips
              ++ elim (if ignored
                  then some (skip_of r.id "ignored_rg" r.resource_group)
                  else if excluded
                  then some (skip_of r.id "excluded_by_tag" (tags.exclude <> "=true"))
                  else inactive) [
                    | none ↦ drop_reasons rest
                    | some skip ↦ skip ∷ drop_reasons rest
                  ])
  with_resource-Parts r rest true x o result out (k, e, s) = (
    k,
    e,
    s
        ∙ append_assoc result.skips (skip_of r.id "ignored_rg" r.resource_group ∷ [])
            (drop_reasons rest),
  )
  with_resource-Parts r rest false true o result out (k, e, s) = (
    k,
    e ∙ append_assoc result.excluded (r ∷ []) (filter is_tagged_out rest),
    s
        ∙ append_assoc result.skips (skip_of r.id "excluded_by_tag" (tags.exclude <> "=true") ∷ [])
            (drop_reasons rest),
  )
  with_resource-Parts r rest false false (some skip) result out (k, e, s) =
      (k, e, s ∙ append_assoc result.skips (skip ∷ []) (drop_reasons rest))
  with_resource-Parts r rest false false none result out (k, e, s) =
      (k ∙ append_assoc result.kept (r ∷ []) (filter is_kept rest), e, s)

  filter_from-Parts :
      (rs : List (Resource F)) (rgs : List String) (result : FilterResult F)
      → Parts rs result (filter_from tags patterns active rs rgs result)
  unfolding filter_from drop_reasons
  filter_from-Parts [] rgs result = (sym (append-nil _), sym (append-nil _), sym (append-nil _))
  filter_from-Parts (r ∷ rest) rgs result =
      with_resource-Parts r rest (is_ignored tags patterns active r)
        (is_excluded tags patterns active r) (active r) result
        (filter_from tags patterns active (r ∷ rest) rgs result)
        (filter_from-Parts rest _ (
          with_resource r (is_ignored tags patterns active r) (is_excluded tags patterns active r)
            (active r) result))

  -- Every resource is kept or is dropped with one reason.
  length-drop_reasons :
      (rs : List (Resource F)) → length (filter is_kept rs) + length (drop_reasons rs) ≡ length rs
  unfolding drop_reasons
  length-drop_reasons [] = omega arith
  length-drop_reasons (r ∷ rest) =
      split (is_ignored tags patterns active r) (is_excluded tags patterns active r) (active r)
        (length-drop_reasons rest)
    where
      split :
          (ignored excluded : Bool) (inactive : Option Skip)
          → length (filter is_kept rest) + length (drop_reasons rest) ≡ length rest
          → length (
                if not ignored && (not excluded && not (is_some inactive))
                then r ∷ filter is_kept rest
                else filter is_kept rest)
              + length
                  (elim (if ignored
                    then some (skip_of r.id "ignored_rg" r.resource_group)
                    else if excluded
                    then some (skip_of r.id "excluded_by_tag" (tags.exclude <> "=true"))
                    else inactive) [
                      | none ↦ drop_reasons rest
                      | some skip ↦ skip ∷ drop_reasons rest
                    ])
            ≡ suc (length rest)
      split true x o h = omega (arith, h)
      split false true o h = omega (arith, h)
      split false false (some skip) h = omega (arith, h)
      split false false none h = omega (arith, h)

  -- `filter_resources` keeps, in the order of the inventory, the resources that no ignore pattern,
  -- exclude tag or `active` predicate drops; lists as excluded those that the tag drops outside the
  -- ignored groups; gives each dropped resource the reason of the first guard that drops it; and
  -- counts every resource once, as kept or as a skip.
  pub filter_resources-partition :
      (rs : List (Resource F))
      → let out = filter_resources tags patterns active rs in
        (out.kept ≡ filter is_kept rs)
        × (out.excluded ≡ filter is_tagged_out rs)
        × (out.skips ≡ drop_reasons rs)
        × (length out.kept + length out.skips ≡ length rs)
  unfolding filter_resources
  filter_resources-partition rs =
      let (k, e, s) = filter_from-Parts rs [] _ in (k, e, s, rw (k, s) (length-drop_reasons rs))
