-- ===== src/Config/Merge.antt =====
-- `deep_merge` of src/config/loader.py. A YAML value is a mapping, or a leaf of type `L`: a scalar, a
-- list or null, which the merge takes whole.
pub mod Overlay
use claude_azure_o11y.Prelude.{
  Bool, true, false, Option, none, some, String, ◌==◌, string_eq, if◌then◌else◌,
}

mutual
  pub data Yaml (L : Type 0) : Type 0 where
    leaf : L → Yaml L
    mapping : Entries L → Yaml L

  -- The entries of a mapping, in their order.
  pub data Entries (L : Type 0) : Type 0 where
    nil : Entries L
    cons : String → Yaml L → Entries L → Entries L

module _ {L : Type 0} where
  -- `d.get(k)`
  unfoldable pub get : String → Entries L → Option (Yaml L)
  get k nil = none
  get k (cons j v d) = if j == k then some v else get k d

  -- `d[k] = v`
  unfoldable pub set : String → Yaml L → Entries L → Entries L
  set k v nil = cons k v nil
  set k v (cons j w d) = if j == k then cons k v d else cons j w (set k v d)

  unfoldable mutual
    unfolding get set

    -- The value that an override `v` leaves, with what was there before.
    pub merged : Option (Yaml L) → Yaml L → Yaml L
    merged (some (mapping old)) (mapping new) = mapping (deep_merge old new)
    merged (some (leaf x)) (mapping new) = mapping new
    merged none (mapping new) = mapping new
    merged old (leaf x) = leaf x

    pub deep_merge : (base override : Entries L) → Entries L
    deep_merge out nil = out
    deep_merge out (cons k v override) = deep_merge (set k (merged (get k out) v) out) override
