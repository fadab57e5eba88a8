-- ===== src/Recommend/Ladder/Step.antt =====
-- What the family step of src/recommend/ladder.py chooses.
use claude_azure_o11y.Prelude.{
  ℕ, ◌≤◌, ◌<◌, ◌≡◌, refl, subst, true, false, ◌&&◌, Option, none, some, String, [], ◌∷◌, arith,
  filter, last, Among, leb, ltb, string_eq, ◌==◌, nat_eq, Among-filter, Among-filter_of, All-Among,
}
use claude_azure_o11y.Prelude.Dict
use claude_azure_o11y.Prelude.Sort.{
  Ordered, sort-Ordered, Ordered-filter, last-Ordered, last-cons-ne-none, Among-sort, Among-sort_of,
}
use claude_azure_o11y.Float.{Float}
use claude_azure_o11y.Config.Groups.{FamilySku, FamilySkuCatalog, family_members, smaller_sku}
use claude_azure_o11y.Recommend.Ladder.{smaller_members, next_smaller_in_family}

module _ {F : Type 0} ⦃fl : Float F⦄ where
  -- An entry of the catalog that is a step down from `current`.
  abbrev pub IsStep : FamilySkuCatalog F → FamilySku F → ℕ → String × FamilySku F → Type 0
  IsStep catalog current min_vcpu e =
      Among e catalog
      × (e.1.family ≡ current.family)
      × (min_vcpu ≤ e.1.vcpu)
      × (e.1.vcpu < current.vcpu)

  -- The answer for a catalog: an entry that is a step down, and none has more vCPUs; or there is none.
  abbrev pub IsLargest : FamilySkuCatalog F → FamilySku F → ℕ → Option String → Type 0
  IsLargest catalog current min_vcpu (some name) =
      (spec : FamilySku F) × IsStep catalog current min_vcpu (name, spec)
      × ((e : String × FamilySku F) → IsStep catalog current min_vcpu e → e.1.vcpu ≤ spec.vcpu)
  IsLargest catalog current min_vcpu none =
      (e : String × FamilySku F) → ¬ IsStep catalog current min_vcpu e

  abbrev NotMore : String × FamilySku F → String × FamilySku F → Type 0
  NotMore a b = a.1.vcpu ≤ b.1.vcpu

  smaller_sku-le : (a b : String × FamilySku F) → smaller_sku a b ≡ true → NotMore a b
  unfolding smaller_sku
  smaller_sku-le (n, s) (m, t) h = ground arith

  not_smaller_sku-le : (a b : String × FamilySku F) → smaller_sku b a ≡ false → NotMore a b
  unfolding smaller_sku
  not_smaller_sku-le (n, s) (m, t) h = ground arith

  members-Ordered :
      (catalog : FamilySkuCatalog F) (family : String)
      → Ordered NotMore (family_members catalog family)
  unfolding family_members
  members-Ordered catalog family =
      sort-Ordered NotMore (λ a b c h k. omega arith) smaller_sku smaller_sku-le not_smaller_sku-le
        (filter (λ e. e.1.family == family) catalog)

  members-IsStep :
      (catalog : FamilySkuCatalog F) (current : FamilySku F) (min_vcpu : ℕ)
      (e : String × FamilySku F)
      → Among e (smaller_members catalog current min_vcpu)
      → IsStep catalog current min_vcpu e
  unfolding smaller_members family_members
  members-IsStep catalog current min_vcpu e m =
      let (m', test) =
        Among-filter (λ e. leb min_vcpu e.1.vcpu && ltb e.1.vcpu current.vcpu)
          (family_members catalog current.family) m in
      let (inside, family) =
        Among-filter (λ e. e.1.family == current.family) catalog
          (Among-sort smaller_sku e (filter (λ e. e.1.family == current.family) catalog) m') in
      (inside, (string_eq.same_iff e.1.family current.family).0 family, ground arith, ground arith)

  IsStep-members :
      (catalog : FamilySkuCatalog F) (current : FamilySku F) (min_vcpu : ℕ)
      (e : String × FamilySku F)
      → IsStep catalog current min_vcpu e
      → Among e (smaller_members catalog current min_vcpu)
  unfolding smaller_members family_members
  IsStep-members catalog current min_vcpu e (inside, family, up, down) =
      Among-filter_of (λ e. leb min_vcpu e.1.vcpu && ltb e.1.vcpu current.vcpu)
        (family_members catalog current.family) e
        (Among-sort_of smaller_sku e (filter (λ e. e.1.family == current.family) catalog) (
          Among-filter_of (λ e. e.1.family == current.family) catalog e inside
            ((string_eq.same_iff e.1.family current.family).1 family)))
        (ground arith)

  smaller-Ordered :
      (catalog : FamilySkuCatalog F) (current : FamilySku F) (min_vcpu : ℕ)
      → Ordered NotMore (smaller_members catalog current min_vcpu)
  unfolding smaller_members
  smaller-Ordered catalog current min_vcpu =
      Ordered-filter NotMore (λ e. leb min_vcpu e.1.vcpu && ltb e.1.vcpu current.vcpu)
        (family_members catalog current.family) (members-Ordered catalog current.family)

  last-keys :
      (d : FamilySkuCatalog F) (name : String)
      → last (Dict.keys d) ≡ some name
      → (spec : FamilySku F) × (last d ≡ some (name, spec))
  last-keys [] name h = absurd (cc)
  last-keys ((n, s) ∷ []) name h = (s, ground arith)
  last-keys ((n, s) ∷ e ∷ d) name h = last-keys (e ∷ d) name h

  last-keys-eq-none : (d : FamilySkuCatalog F) → last (Dict.keys d) ≡ none → d ≡ []
  last-keys-eq-none [] h = refl
  last-keys-eq-none ((n, s) ∷ d) h = absurd (last-cons-ne-none n (Dict.keys d) h)

  next_smaller_cases :
      (catalog : FamilySkuCatalog F) (current : FamilySku F) (min_vcpu : ℕ)
      → ((name : String)
          → next_smaller_in_family catalog current min_vcpu ≡ some name
          → IsLargest catalog current min_vcpu (some name))
        × (next_smaller_in_family catalog current min_vcpu ≡ none
            → IsLargest catalog current min_vcpu none)
  unfolding next_smaller_in_family
  next_smaller_cases catalog current min_vcpu = (chosen, missing)
    where
      members : FamilySkuCatalog F
      members = smaller_members catalog current min_vcpu

      chosen :
          (name : String)
          → last (Dict.keys members) ≡ some name
          → (spec : FamilySku F) × IsStep catalog current min_vcpu (name, spec)
            × ((e : String × FamilySku F)
                → IsStep catalog current min_vcpu e
                → e.1.vcpu ≤ spec.vcpu)
      chosen name h =
          let (spec, l) = last-keys members name h in
          let (m, most) =
            last-Ordered NotMore (λ a. omega arith) members (name, spec) l
              (smaller-Ordered catalog current min_vcpu) in
          (
            spec,
            members-IsStep catalog current min_vcpu (name, spec) m,
            λ e s.
                All-Among (λ b. NotMore b (name, spec)) members e most
                  (IsStep-members catalog current min_vcpu e s),
          )

      missing :
          last (Dict.keys members) ≡ none
          → (e : String × FamilySku F) → ¬ IsStep catalog current min_vcpu e
      missing h e s =
          subst (λ d. Among e d) (last-keys-eq-none members h)
            (IsStep-members catalog current min_vcpu e s)

  -- The step goes to a catalog entry of the same family with fewer vCPUs than the current size and at
  -- least the floor, and no such entry has more vCPUs; there is no step only when the catalog has no
  -- such entry.
  pub next_smaller-IsLargest :
      (catalog : FamilySkuCatalog F) (current : FamilySku F) (min_vcpu : ℕ)
      → IsLargest catalog current min_vcpu (next_smaller_in_family catalog current min_vcpu)
  next_smaller-IsLargest catalog current min_vcpu =
      split (next_smaller_in_family catalog current min_vcpu) refl
    where
      split :
          (o : Option String)
          → next_smaller_in_family catalog current min_vcpu ≡ o
          → IsLargest catalog current min_vcpu o
      split none e = (next_smaller_cases catalog current min_vcpu).1 e
      split (some name) e = (next_smaller_cases catalog current min_vcpu).0 name e
