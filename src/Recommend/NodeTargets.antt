-- ===== src/Recommend/NodeTargets.antt =====
-- The changes that src/recommend/aks.py proposes for a node pool are safe.
use claude_azure_o11y.Prelude.{
  ℕ, ◌<◌, ◌≡◌, refl, ◌∙◌, sym, ap, subst, true, false, Option, none, some, String, List, [], ◌∷◌,
  arith, Bool-cases, ◌⊎◌, inl, inr, nat_eq, ltb, ok, All, All-weaken, Among, >>=-eq-ok,
}
use claude_azure_o11y.Prelude.Text.{join}
use claude_azure_o11y.Float.{Float, IsFloat, gt}
use claude_azure_o11y.Models.{Pool, ColdFinding, ColdObservation, Recommendation, pools}
use claude_azure_o11y.Models.Props.{prop}
use claude_azure_o11y.Recommend.Units.{peak_of}
use claude_azure_o11y.Config.Groups.{FamilySku, FamilySkuCatalog, get_sku}
use claude_azure_o11y.Recommend.Ladder.{needed_size, next_smaller_in_family}
use claude_azure_o11y.Recommend.Ladder.Step.{IsStep, IsLargest, next_smaller-IsLargest}
use claude_azure_o11y.Recommend.UnitTargets.{IsLeastCount, ceil_least}
use claude_azure_o11y.Recommend.Nodes.{
  AksRules, pool_nodes, fewer_nodes, smaller_nodes, load_on, node_target, fit_nodes, after_smaller,
  smaller_size, pool_change, pool_changes, cons_change, aks_answer, size_aks, pools_of,
}

module _ {F : Type 0} ⦃fl : Float F⦄ where
  -- A step down of the catalog that carries the load: the size of the step, as the catalog finds it
  -- by name, is loaded up to 100 %.
  abbrev pub IsFittingStep :
      FamilySkuCatalog F → (min_vcpu : ℕ) → (peak headroom : F) → FamilySku F → String → Type 0
  IsFittingStep catalog min_vcpu peak headroom spec name =
      ((e : FamilySku F) × IsStep catalog spec min_vcpu (name, e))
      × ((target : FamilySku F) × (get_sku catalog name ≡ some target)
          × (gt (load_on peak headroom spec target) (fl.of_nat 100) ≡ false))

module _ {F : Type 0} ⦃fl : Float F⦄ (pool : Pool) (peak : F) (catalog : FamilySkuCatalog F)
    (rules : AksRules F) where
  -- Fewer nodes: the least count from `min_nodes` on that covers the peak.
  abbrev pub IsFewer : String → Type 0
  IsFewer t =
      (n : ℕ) × IsLeastCount (needed_size (pool_nodes pool) peak rules.headroom) rules.min_nodes n
      × (n < pool_nodes pool)
      × (t ≡ fewer_nodes pool n)

  -- As many nodes of a smaller size, for a pool at the floor.
  abbrev pub IsSmaller : String → Type 0
  IsSmaller t =
      (pool_nodes pool ≡ rules.min_nodes)
      × ((spec : FamilySku F) × (get_sku catalog pool.vm_size ≡ some spec)
          × ((name : String) × IsFittingStep catalog rules.min_vcpu peak rules.headroom spec name
              × (t ≡ smaller_nodes pool name)))

  fit_nodes-fits :
      (spec : FamilySku F) (name t : String) (o : Option (FamilySku F))
      → fit_nodes pool peak catalog rules spec name o ≡ ok (some t)
      → (target : FamilySku F) × (o ≡ some target)
        × (gt (load_on peak rules.headroom spec target) (fl.of_nat 100) ≡ false)
        × (t ≡ smaller_nodes pool name)
  unfolding fit_nodes
  fit_nodes-fits spec name t none h = absurd (cc)
  fit_nodes-fits spec name t (some target) h = (target, refl, ground arith, ground arith)

  after_smaller-fits :
      (spec : FamilySku F) (t : String) (o : Option String)
      → IsLargest catalog spec rules.min_vcpu o
      → after_smaller pool peak catalog rules spec o ≡ ok (some t)
      → (name : String) × IsFittingStep catalog rules.min_vcpu peak rules.headroom spec name
        × (t ≡ smaller_nodes pool name)
  unfolding after_smaller
  after_smaller-fits spec t none most h = absurd (cc)
  after_smaller-fits spec t (some name) (e, step, most) h =
      let (target, found, fits, label) =
        fit_nodes-fits spec name t (get_sku catalog name) (ground arith) in
      (name, ((e, step), (target, found, fits)), label)

  smaller_size-fits :
      (t : String) (o : Option (FamilySku F))
      → smaller_size pool peak catalog rules o ≡ ok (some t)
      → (spec : FamilySku F) × (o ≡ some spec)
        × ((name : String) × IsFittingStep catalog rules.min_vcpu peak rules.headroom spec name
            × (t ≡ smaller_nodes pool name))
  unfolding smaller_size
  smaller_size-fits t none h = absurd (cc)
  smaller_size-fits t (some spec) h = (
    spec,
    refl,
    after_smaller-fits spec t (next_smaller_in_family catalog spec rules.min_vcpu)
        (next_smaller-IsLargest catalog spec rules.min_vcpu) h,
  )

module _ {F : Type 0} ⦃fl : Float F⦄ where
  -- A change of one of the pools, and safe for it.
  abbrev pub IsChange : List Pool → (peak : F) → FamilySkuCatalog F → AksRules F → String → Type 0
  IsChange ps peak catalog rules t =
      (pool : Pool) × Among pool ps
      × (IsFewer pool peak catalog rules t ⊎ IsSmaller pool peak catalog rules t)

  -- Some node count up to `top` covers the peak in each pool.
  abbrev pub IsBounded : List Pool → (peak headroom : F) → (top : ℕ) → Type 0
  IsBounded ps peak headroom top =
      All (λ pool. fl.le (needed_size (pool_nodes pool) peak headroom) (fl.of_nat top) ≡ true) ps

  -- A target of the answer lists the changes.
  answer-target :
      (finding : ColdFinding F) (rules : AksRules F) (why : String) (peak : F)
      (changes : List String) (rec : Recommendation F) (t : String)
      → ok (aks_answer finding rules why peak changes) ≡ ok rec
      → rec.target_sku ≡ some t
      → t ≡ join "; " changes
  unfolding aks_answer
  answer-target finding rules why peak [] rec t h target = absurd (ground arith)
  answer-target finding rules why peak (c ∷ changes) rec t h target = ground arith

module _ {F : Type 0} ⦃fl : Float F⦄ (laws : IsFloat fl) where
  -- A change of one pool is safe, when some node count covers the peak.
  pub pool_change-IsSafe :
      (pool : Pool) (peak : F) (catalog : FamilySkuCatalog F) (rules : AksRules F) (top : ℕ)
      (t : String)
      → fl.le (needed_size (pool_nodes pool) peak rules.headroom) (fl.of_nat top) ≡ true
      → pool_change pool peak catalog rules ≡ ok (some t)
      → IsFewer pool peak catalog rules t ⊎ IsSmaller pool peak catalog rules t
  unfolding pool_change node_target
  pool_change-IsSafe pool peak catalog rules top t bound h =
      let needed = needed_size (pool_nodes pool) peak rules.headroom in
      let n = node_target rules (pool_nodes pool) peak in
      let (covers, least) = ceil_least laws needed rules.min_nodes top bound in
      elim (Bool-cases (ltb n (pool_nodes pool))) [
        | inl less ↦ inl (n, (omega arith, covers, least), ground arith, ground arith)
        | inr more ↦ inr (
          ground arith,
          smaller_size-fits pool peak catalog rules t (get_sku catalog pool.vm_size) (ground arith),
        )
      ]

  module _ (peak : F) (catalog : FamilySkuCatalog F) (rules : AksRules F) (top : ℕ) where
    more_pools :
        (pool : Pool) (ps : List Pool) (changes : List String)
        → All (IsChange ps peak catalog rules) changes
        → All (IsChange (pool ∷ ps) peak catalog rules) changes
    more_pools pool ps changes safe =
        All-weaken (IsChange ps peak catalog rules) (IsChange (pool ∷ ps) peak catalog rules)
          changes (λ t (p, m, s). (p, inr m, s)) safe

    cons-IsChange :
        (pool : Pool) (ps : List Pool) (o : Option String) (changes : List String)
        → fl.le (needed_size (pool_nodes pool) peak rules.headroom) (fl.of_nat top) ≡ true
        → pool_change pool peak catalog rules ≡ ok o
        → All (IsChange ps peak catalog rules) changes
        → All (IsChange (pool ∷ ps) peak catalog rules) (cons_change o changes)
    cons-IsChange pool ps none changes bound h safe = more_pools pool ps changes safe
    cons-IsChange pool ps (some t) changes bound h safe = (
      (pool, inl refl, pool_change-IsSafe pool peak catalog rules top t bound h),
      more_pools pool ps changes safe,
    )

    pool_changes-IsChange :
        (ps : List Pool) (changes : List String)
        → IsBounded ps peak rules.headroom top
        → pool_changes ps peak catalog rules ≡ ok changes
        → All (IsChange ps peak catalog rules) changes
    unfolding pool_changes
    pool_changes-IsChange [] changes bound h =
        let same : [] ≡ changes = ground arith in
        subst (All (IsChange [] peak catalog rules)) same tt
    pool_changes-IsChange (pool ∷ ps) changes (b, bound) h =
        let (o, first, rest) = >>=-eq-ok (pool_change pool peak catalog rules) _ h in
        let (cs, others, last) = >>=-eq-ok (pool_changes ps peak catalog rules) _ rest in
        let same : cons_change o cs ≡ changes = ground arith in
        subst (All (IsChange (pool ∷ ps) peak catalog rules)) same
          (cons-IsChange pool ps o cs b first (pool_changes-IsChange ps cs bound others))

  -- For a cluster whose node pools are known, when some node count covers the peak in each pool: the
  -- target is a list of changes of its pools. Each change either lowers the nodes of a pool to the
  -- least count from `min_nodes` on that covers the peak, which is below the current one; or keeps
  -- the count of a pool that is at `min_nodes`, on a size that is a step down in the family from its
  -- own and that the peak with headroom loads up to 100 %.
  pub size_aks-IsChange :
      (finding : ColdFinding F) (rules : AksRules F) (catalog : FamilySkuCatalog F)
      (cpu mem : Option (ColdObservation F)) (ps : List Pool) (top : ℕ) (rec : Recommendation F)
      (t : String)
      → prop finding.resource "pools" (pools []) ≡ pools ps
      → IsBounded ps (peak_of cpu mem finding.observed) rules.headroom top
      → size_aks finding rules catalog cpu mem ≡ ok rec
      → rec.target_sku ≡ some t
      → (changes : List String) × (t ≡ join "; " changes)
        × All (IsChange ps (peak_of cpu mem finding.observed) catalog rules) changes
  unfolding size_aks pools_of
  size_aks-IsChange finding rules catalog cpu mem ps top rec t known bound h target =
      let peak = peak_of cpu mem finding.observed in
      let (ps', read, rest) = >>=-eq-ok (pools_of (prop finding.resource "pools" (pools []))) _ h in
      let (changes, loop, last) = >>=-eq-ok (pool_changes ps' peak catalog rules) _ rest in
      let same : ok ps ≡ ok ps' = sym (ap pools_of known) ∙ read in
      (
        changes,
        answer-target finding rules _ peak changes rec t last target,
        pool_changes-IsChange peak catalog rules top ps changes bound (ground arith),
      )
