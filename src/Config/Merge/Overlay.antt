-- ===== src/Config/Merge/Overlay.antt =====
-- What `deep_merge` of src/config/loader.py leaves at each path of a configuration.
use claude_azure_o11y.Prelude.{
  ◌≡◌, refl, ◌∙◌, sym, ap, subst, Bool, true, false, Option, none, some, String, List, [], ◌∷◌,
  arith, Bool-cases, inl, inr, ◌==◌, string_eq, if◌then◌else◌,
}
use claude_azure_o11y.Config.Merge.{
  Yaml, leaf, mapping, Entries, nil, cons, get, set, merged, deep_merge,
}

module _ {L : Type 0} where
  -- A value whose mappings have each key once.
  unfoldable mutual
    pub IsTree : Yaml L → Type 0
    IsTree (leaf x) = Unit
    IsTree (mapping d) = IsDict d

    pub IsDict : Entries L → Type 0
    IsDict nil = Unit
    IsDict (cons k v d) = (get k d ≡ none) × IsTree v × IsDict d

  get-set :
      (k j : String) (v : Yaml L) (d : Entries L)
      → get j (set k v d) ≡ (if k == j then some v else get j d)
  unfolding get set
  get-set k j v nil = refl
  get-set k j v (cons i w d) = ground (
    arith,
    string_eq.same_iff k j,
    string_eq.same_iff i k,
    string_eq.same_iff i j,
    get-set k j v d,
  )

  -- The merge at one key: the override's value over what the base has there, or the base's value.
  abbrev overlaid : Option (Yaml L) → Option (Yaml L) → Option (Yaml L)
  overlaid old none = old
  overlaid old (some v) = some (merged old v)

  overlaid-set :
      (k j : String) (v : Yaml L) (base : Entries L) (o : Option (Yaml L))
      → (k ≡ j → o ≡ none)
      → overlaid (get j (set k (merged (get k base) v) base)) o
        ≡ (if k == j then some (merged (get j base) v) else overlaid (get j base) o)
  overlaid-set k j v base o free =
      ap (λ old. overlaid old o) (get-set k j (merged (get k base) v) base)
      ∙ split (k == j) (string_eq.same_iff k j).0
    where
      split :
          (b : Bool)
          → (b ≡ true → k ≡ j)
          → overlaid (if b then some (merged (get k base) v) else get j base) o
            ≡ (if b then some (merged (get j base) v) else overlaid (get j base) o)
      split true f = rw (free (f refl)) (ap (λ i. some (merged (get i base) v)) (f refl))
      split false f = refl

  -- Each key of a merge has the value of the override, merged over what the base has at the key, and
  -- a key that the override lacks has the value of the base.
  get-deep_merge :
      (base override : Entries L) (j : String)
      → IsDict override
      → get j (deep_merge base override) ≡ overlaid (get j base) (get j override)
  unfolding deep_merge get IsDict
  get-deep_merge base nil j h = refl
  get-deep_merge base (cons k v rest) j (free, tree, h) =
      get-deep_merge (set k (merged (get k base) v) base) rest j h
      ∙ overlaid-set k j v base (get j rest) (λ same. ap (λ i. get i rest) (sym same) ∙ free)
      ∙ split (k == j)
    where
      split :
          (b : Bool)
          → (if b then some (merged (get j base) v) else overlaid (get j base) (get j rest))
            ≡ overlaid (get j base) (if b then some v else get j rest)
      split true = refl
      split false = refl

  -- The leaf at a path of keys.
  unfoldable pub leaf_at : List String → Yaml L → Option L
  leaf_at [] (leaf x) = some x
  leaf_at [] (mapping d) = none
  leaf_at (k ∷ path) (leaf x) = none
  leaf_at (k ∷ path) (mapping d) = elim (get k d) [ none ↦ none | some y ↦ leaf_at path y ]

  -- An override says something at the path: it has a leaf on the way there, or a value at the end.
  unfoldable pub is_touched : List String → Yaml L → Bool
  is_touched path (leaf x) = true
  is_touched [] (mapping d) = true
  is_touched (k ∷ path) (mapping d) = elim (get k d) [ none ↦ false | some y ↦ is_touched path y ]

  get-IsTree : (d : Entries L) (k : String) (y : Yaml L) → IsDict d → get k d ≡ some y → IsTree y
  unfolding get IsDict
  get-IsTree nil k y h e = absurd (cc)
  get-IsTree (cons j v d) k y (free, tree, h) e = elim (Bool-cases (j == k)) [
    | inl t ↦ let same : v ≡ y = ground arith in subst IsTree same tree
    | inr f ↦ get-IsTree d k y h (ground arith)
  ]

  touched-merged :
      (path : List String) (old : Option (Yaml L)) (v : Yaml L)
      → IsTree v
      → is_touched path v ≡ true
      → leaf_at path (merged old v) ≡ leaf_at path v
  unfolding leaf_at is_touched merged IsTree
  touched-merged path none (leaf y) h t = refl
  touched-merged path (some b) (leaf y) h t = refl
  touched-merged path none (mapping d) h t = refl
  touched-merged path (some (leaf y)) (mapping d) h t = refl
  touched-merged [] (some (mapping b)) (mapping d) h t = refl
  touched-merged (k ∷ path) (some (mapping b)) (mapping d) h t =
      rw (get-deep_merge b d k h, leaf_at, merged)
        (split (get k d) (λ y. get-IsTree d k y h) t (λ y. touched-merged path (get k b) y))
    where
      split :
          (o : Option (Yaml L))
          → ((y : Yaml L) → o ≡ some y → IsTree y)
          → elim o [ none ↦ false | some y ↦ is_touched path y ] ≡ true
          → ((y : Yaml L)
              → IsTree y
              → is_touched path y ≡ true
              → leaf_at path (merged (get k b) y) ≡ leaf_at path y)
          → elim (overlaid (get k b) o) [ none ↦ none | some y ↦ leaf_at path y ]
            ≡ elim o [ none ↦ none | some y ↦ leaf_at path y ]
      split none trees t' more = absurd (cc)
      split (some y) trees t' more = more y (trees y refl) t'

  untouched-leaf_at :
      (path : List String) (v : Yaml L) → is_touched path v ≡ false → leaf_at path v ≡ none
  unfolding leaf_at is_touched
  untouched-leaf_at path (leaf y) h = absurd (cc)
  untouched-leaf_at [] (mapping d) h = absurd (cc)
  untouched-leaf_at (k ∷ path) (mapping d) h = split (get k d) h (λ y. untouched-leaf_at path y)
    where
      split :
          (o : Option (Yaml L))
          → elim o [ none ↦ false | some y ↦ is_touched path y ] ≡ false
          → ((y : Yaml L) → is_touched path y ≡ false → leaf_at path y ≡ none)
          → elim o [ none ↦ none | some y ↦ leaf_at path y ] ≡ none
      split none h' more = refl
      split (some y) h' more = more y h'

  untouched-merged :
      (path : List String) (b v : Yaml L)
      → IsTree v
      → is_touched path v ≡ false
      → leaf_at path (merged (some b) v) ≡ leaf_at path b
  unfolding leaf_at is_touched merged IsTree
  untouched-merged path b (leaf y) h t = absurd (cc)
  untouched-merged [] b (mapping d) h t = absurd (cc)
  untouched-merged (k ∷ path) (leaf x) (mapping d) h t = untouched-leaf_at (k ∷ path) (mapping d) t
  untouched-merged (k ∷ path) (mapping b) (mapping d) h t =
      rw (get-deep_merge b d k h, leaf_at, merged)
        (split (get k b) (get k d) (λ y. get-IsTree d k y h) t
          (λ old y. untouched-merged path old y))
    where
      split :
          (old o : Option (Yaml L))
          → ((y : Yaml L) → o ≡ some y → IsTree y)
          → elim o [ none ↦ false | some y ↦ is_touched path y ] ≡ false
          → ((x y : Yaml L)
              → IsTree y
              → is_touched path y ≡ false
              → leaf_at path (merged (some x) y) ≡ leaf_at path x)
          → elim (overlaid old o) [ none ↦ none | some y ↦ leaf_at path y ]
            ≡ elim old [ none ↦ none | some y ↦ leaf_at path y ]
      split old none trees t' more = refl
      split (some x) (some y) trees t' more = more x y (trees y refl) t'
      split none (some (leaf x)) trees t' more = absurd (cc)
      split none (some (mapping new)) trees t' more = untouched-leaf_at path (mapping new) t'

  -- Where the override's mappings have each key once: at every path of keys, the merge has the leaf of
  -- the override if the override touches the path, by a leaf on the way or a value at its end, and
  -- the leaf of the base otherwise.
  pub deep_merge-overlay :
      (base override : Entries L) (path : List String)
      → IsDict override
      → leaf_at path (mapping (deep_merge base override)) ≡ (
          if is_touched path (mapping override)
          then leaf_at path (mapping override)
          else leaf_at path (mapping base))
  unfolding merged IsTree
  deep_merge-overlay base override path h = elim (Bool-cases (is_touched path (mapping override))) [
    | inl t ↦ rw t (touched-merged path (some (mapping base)) (mapping override) h t)
    | inr f ↦ rw f (untouched-merged path (mapping base) (mapping override) h f)
  ]
