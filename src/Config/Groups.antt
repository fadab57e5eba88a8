-- ===== src/Config/Groups.antt =====
-- `AssignmentGroups` and the SKU catalogs of src/config/models.py.
use claude_azure_o11y.Prelude.{
  ℕ, Bool, ◌&&◌, ◌||◌, Option, none, some, String, List, filter, find, ◌==◌, string_eq, nat_eq, ltb,
  if◌then◌else◌,
}
use claude_azure_o11y.Prelude.Text.{lower, is_text}
use claude_azure_o11y.Prelude.Dict.{Dict}
use claude_azure_o11y.Prelude.Sort.{sort}
use claude_azure_o11y.Float.{Float}

-- Group names and their e-mail addresses.
abbrev pub AssignmentGroups : Type 0
AssignmentGroups = Dict String String

-- The first entry whose name is `name`, without case: the loops of `email_for`,
-- `FamilySkuCatalog.get` and `canonical_name`.
module _ {V : Type 0} where
  unfoldable pub entry_for : String → Dict String V → Option (String × V)
  entry_for name d = find (λ e. lower e.0 == lower name) d

-- `AssignmentGroups.email_for`
unfoldable pub email_for : AssignmentGroups → Option String → Option String
unfolding entry_for
email_for groups none = none
email_for groups (some group) =
    if is_text group
    then elim (entry_for group groups) [ none ↦ none | some (name, email) ↦ some email ]
    else none

pub record FamilySku (F : Type 0) : Type 0 where
  pub family : String
  pub vcpu : ℕ
  pub memory_gib : F

abbrev pub FamilySkuCatalog : Type 0 → Type 0
FamilySkuCatalog F = Dict String (FamilySku F)

module _ {F : Type 0} where
  -- `FamilySkuCatalog.get`
  unfoldable pub get_sku : FamilySkuCatalog F → String → Option (FamilySku F)
  unfolding entry_for
  get_sku c sku = elim (entry_for sku c) [ none ↦ none | some (name, spec) ↦ some spec ]

  -- `FamilySkuCatalog.canonical_name`
  unfoldable pub canonical_name : FamilySkuCatalog F → String → Option String
  unfolding entry_for
  canonical_name c sku = elim (entry_for sku c) [ none ↦ none | some (name, spec) ↦ some name ]

module _ {F : Type 0} ⦃fl : Float F⦄ where
  -- The order of the sort keys `(vcpu, memory_gib)`.
  unfoldable pub smaller_sku : String × FamilySku F → String × FamilySku F → Bool
  smaller_sku (n, s) (m, t) =
      ltb s.vcpu t.vcpu || (s.vcpu == t.vcpu && fl.lt s.memory_gib t.memory_gib)

  -- `FamilySkuCatalog.family_members`
  unfoldable pub family_members : FamilySkuCatalog F → String → List (String × FamilySku F)
  unfolding sort smaller_sku
  family_members c family = sort smaller_sku (filter (λ e. e.1.family == family) c)

-- `SqlSkuCatalog`
pub record SqlSkuCatalog : Type 0 where
  pub dtu : Dict String (Dict String ℕ)
  pub pool_edtu : Dict String (List ℕ)
  pub vcore : Dict String (List ℕ)
