-- ===== src/Recommend/PlanTargets.antt =====
-- The targets of src/recommend/appserviceplan.py are safe, and its assertion holds.
use Prim.Native.Nat.{max}
use claude_azure_o11y.Prelude.{
  ℕ, ◌<◌, ◌≡◌, refl, sym, Bool, true, false, not, ◌&&◌, Option, none, some, String, [], ◌∷◌, arith,
  Bool-cases, ◌⊎◌, inl, inr, nat_eq, string_eq, ◌==◌, ltb, ok, Among, find, Option-cases, subst,
  find-eq-some, All, All-Among, Returns, if-Returns, ◌>>=◌, >>=-eq-ok, ◌≤◌,
}
use claude_azure_o11y.Prelude.Text.{lower}
use claude_azure_o11y.Prelude.Dict.{Dict}
use claude_azure_o11y.Float.{Float, IsFloat, gt}
use claude_azure_o11y.Models.{ColdFinding, Confidence, Recommendation}
use claude_azure_o11y.Config.Groups.{FamilySku, FamilySkuCatalog, get_sku, entry_for}
use claude_azure_o11y.Recommend.Ladder.{needed_size, next_smaller_in_family}
use claude_azure_o11y.Recommend.Ladder.Step.{IsLargest, next_smaller-IsLargest}
use claude_azure_o11y.Recommend.UnitTargets.{IsLeastCount, ceil_least}
use claude_azure_o11y.Recommend.Nodes.{load_on}
use claude_azure_o11y.Recommend.NodeTargets.{IsFittingStep}
use claude_azure_o11y.Recommend.Plans.{
  PlanRules, plan_target, instances_of, fit_plan, after_step, step_plan, scale_in, size_plan,
}

module _ {V : Type 0} where
  -- A name of the dictionary is found, whatever entry has it without case.
  entry_for-Among :
      (d : Dict String V) (name : String) (v : V)
      → Among (name, v) d
      → (e : String × V) × (entry_for name d ≡ some e)
  unfolding entry_for
  entry_for-Among [] name v m = absurd (m)
  entry_for-Among ((n, w) ∷ d) name v (inl same) =
      ((n, w), ground (arith, string_eq.same_iff (lower n) (lower name)))
  entry_for-Among ((n, w) ∷ d) name v (inr m) = elim (Bool-cases (lower n == lower name)) [
    | inl t ↦ ((n, w), ground arith)
    | inr f ↦ let (e, found) = entry_for-Among d name v m in (e, ground arith)
  ]

module _ {F : Type 0} where
  get_sku-Among :
      (catalog : FamilySkuCatalog F) (name : String) (spec : FamilySku F)
      → Among (name, spec) catalog
      → (target : FamilySku F) × (get_sku catalog name ≡ some target)
  unfolding get_sku
  get_sku-Among catalog name spec m =
      let ((n, target), found) = entry_for-Among catalog name spec m in (target, ground arith)

  -- What is found by name is an entry of the catalog.
  get_sku-eq-some :
      (catalog : FamilySkuCatalog F) (name : String) (target : FamilySku F)
      → get_sku catalog name ≡ some target
      → (n : String) × Among (n, target) catalog
  unfolding get_sku entry_for
  get_sku-eq-some catalog name target h =
      elim (Option-cases (find (λ e. lower e.0 == lower name) catalog)) [
        | inl missing ↦ absurd (ground arith)
        | inr ((n, spec), found) ↦
            let same : spec ≡ target = ground arith in
            (
              n,
              subst (λ s. Among (n, s) catalog) same
                  (find-eq-some (λ e. lower e.0 == lower name) catalog (n, spec) found).0,
            )
      ]

module _ {F : Type 0} ⦃fl : Float F⦄ (finding : ColdFinding F) (catalog : FamilySkuCatalog F)
    (rules : PlanRules F) (why : String) (confidence : Confidence) (peak : F) (sku_name : String)
    (instances : ℕ) (elastic : Bool) where
  -- One step down the family, at the same instance count.
  abbrev pub IsStepDown : String → Type 0
  IsStepDown t =
      (spec : FamilySku F) × (get_sku catalog sku_name ≡ some spec)
      × ((name : String) × IsFittingStep catalog rules.min_vcpu peak rules.headroom spec name
          × (t ≡ instances_of name instances))

  -- Fewer instances of a plan that does not scale by itself: the least count from `min_instances` on
  -- that covers the peak.
  abbrev pub IsScaleIn : String → Type 0
  IsScaleIn t =
      (elastic ≡ false)
      × ((n : ℕ) × IsLeastCount (needed_size instances peak rules.headroom) rules.min_instances n
          × (n < instances)
          × (t ≡ instances_of sku_name n))

  fit_plan-fits :
      (spec : FamilySku F) (name : String) (o : Option (FamilySku F)) (rec : Recommendation F)
      (t : String)
      → fit_plan finding catalog rules why confidence peak sku_name instances elastic spec name o
        ≡ ok rec
      → rec.target_sku ≡ some t
      → (target : FamilySku F) × (o ≡ some target)
        × (gt (load_on peak rules.headroom spec target) (fl.of_nat 100) ≡ false)
        × (t ≡ instances_of name instances)
  unfolding fit_plan
  fit_plan-fits spec name none rec t h target = absurd (cc)
  fit_plan-fits spec name (some sku) rec t h target = (sku, refl, ground arith, ground arith)

  after_step-fits :
      (spec : FamilySku F) (o : Option String) (rec : Recommendation F) (t : String)
      → IsLargest catalog spec rules.min_vcpu o
      → after_step finding catalog rules why confidence peak sku_name instances elastic spec o
        ≡ ok rec
      → rec.target_sku ≡ some t
      → (name : String) × IsFittingStep catalog rules.min_vcpu peak rules.headroom spec name
        × (t ≡ instances_of name instances)
  unfolding after_step
  after_step-fits spec none rec t most h target = absurd (ground arith)
  after_step-fits spec (some name) rec t (e, step, most) h target =
      let (sku, found, fits, label) =
        fit_plan-fits spec name (get_sku catalog name) rec t h target in
      (name, ((e, step), (sku, found, fits)), label)

  step_plan-fits :
      (o : Option (FamilySku F)) (rec : Recommendation F) (t : String)
      → step_plan finding catalog rules why confidence peak sku_name instances elastic o ≡ ok rec
      → rec.target_sku ≡ some t
      → (spec : FamilySku F) × (o ≡ some spec)
        × ((name : String) × IsFittingStep catalog rules.min_vcpu peak rules.headroom spec name
            × (t ≡ instances_of name instances))
  unfolding step_plan
  step_plan-fits none rec t h target = absurd (ground arith)
  step_plan-fits (some spec) rec t h target = (
    spec,
    refl,
    after_step-fits spec (next_smaller_in_family catalog spec rules.min_vcpu) rec t
        (next_smaller-IsLargest catalog spec rules.min_vcpu) h target,
  )

  -- The rule returns whatever the catalog, when its sizes have vCPUs.
  fit_plan-Returns :
      (spec : FamilySku F) (name : String) (target : FamilySku F)
      → 0 < target.vcpu
      → Returns (
          fit_plan finding catalog rules why confidence peak sku_name instances elastic spec name
            (some target))
  unfolding fit_plan
  fit_plan-Returns spec name target p =
      if-Returns (target.vcpu == 0) _ _ (λ z. absurd (ground arith))
        (λ z.
          if-Returns (gt (load_on peak rules.headroom spec target) (fl.of_nat 100)) _ _
            (λ t. (_, refl)) (λ f. (_, refl)))

  after_step-Returns :
      (spec : FamilySku F) (o : Option String)
      → All (λ e. 0 < e.1.vcpu) catalog
      → IsLargest catalog spec rules.min_vcpu o
      → Returns
          (after_step finding catalog rules why confidence peak sku_name instances elastic spec o)
  unfolding after_step
  after_step-Returns spec none positive most = (_, refl)
  after_step-Returns spec (some name) positive (e, (inside, step, low, high), most) =
      let (target, found) = get_sku-Among catalog name e inside in
      let (n, among) = get_sku-eq-some catalog name target found in
      let p : 0 < target.vcpu = All-Among (λ e. 0 < e.1.vcpu) catalog (n, target) positive among in
      subst
        (λ o. Returns (
          fit_plan finding catalog rules why confidence peak sku_name instances elastic spec name
            o))
        (sym found) (fit_plan-Returns spec name target p)

  step_plan-Returns :
      (o : Option (FamilySku F))
      → All (λ e. 0 < e.1.vcpu) catalog
      → Returns (step_plan finding catalog rules why confidence peak sku_name instances elastic o)
  unfolding step_plan
  step_plan-Returns none positive = (_, refl)
  step_plan-Returns (some spec) positive =
      after_step-Returns spec (next_smaller_in_family catalog spec rules.min_vcpu) positive
        (next_smaller-IsLargest catalog spec rules.min_vcpu)

module _ {F : Type 0} ⦃fl : Float F⦄ (rules : PlanRules F) (instances : ℕ) (peak : F) where
  -- A count that the rule computes is the ceiling of the need, or the floor.
  plan_target-eq-ok :
      (n : ℕ)
      → plan_target rules instances peak ≡ ok n
      → n ≡ max rules.min_instances (fl.ceil (needed_size instances peak rules.headroom))
  unfolding plan_target
  plan_target-eq-ok n h = ground arith

module _ {F : Type 0} ⦃fl : Float F⦄ (laws : IsFloat fl) where
  -- When some instance count covers the peak, a target for a plan is `delete`, and the plan has no
  -- apps; or the least instance count from `min_instances` on that covers the peak, which is below
  -- the current one, for a plan with apps that does not scale by itself; or the current count of a
  -- size that is a step down in the family and that the peak with headroom loads up to 100 %, for a
  -- plan with apps.
  pub size_plan-IsSafe :
      (finding : ColdFinding F) (catalog : FamilySkuCatalog F) (rules : PlanRules F) (why : String)
      (confidence : Confidence) (peak : F) (sku_name : String) (instances : ℕ) (elastic : Bool)
      (sites top : ℕ) (rec : Recommendation F) (t : String)
      → fl.le (needed_size instances peak rules.headroom) (fl.of_nat top) ≡ true
      → size_plan finding catalog rules why confidence peak sku_name instances elastic sites
        ≡ ok rec
      → rec.target_sku ≡ some t
      → ((sites ≡ 0) × (t ≡ "delete"))
        ⊎ ((0 < sites)
            × (IsScaleIn finding catalog rules why confidence peak sku_name instances elastic t
                ⊎ IsStepDown finding catalog rules why confidence peak sku_name instances elastic
                    t))
  unfolding size_plan scale_in
  size_plan-IsSafe finding catalog rules why confidence peak sku_name instances elastic sites top
        rec t bound h target =
      let (covers, least) =
        ceil_least laws (needed_size instances peak rules.headroom) rules.min_instances top bound in
      let stepped =
        step_plan-fits finding catalog rules why confidence peak sku_name instances elastic
          (get_sku catalog sku_name) rec t in
      elim (Bool-cases (sites == 0)) [
        | inl z ↦ inl (ground arith, ground arith)
        | inr apps ↦ inr (
          ground arith,
          elim (Bool-cases (not elastic && ltb rules.min_instances instances)) [
            | inl l ↦
                let scaled =
                  scale_in finding catalog rules why confidence peak sku_name instances elastic in
                let inside : (plan_target rules instances peak >>= scaled) ≡ ok rec =
                  ground arith in
                let (n, made, h') = >>=-eq-ok (plan_target rules instances peak) scaled inside in
                let count = plan_target-eq-ok rules instances peak n made in
                elim (Bool-cases (ltb n instances)) [
                  | inl fewer ↦ inl (
                    ground arith,
                    (
                      n,
                      (
                        omega arith,
                        subst
                            (λ k.
                              fl.le (needed_size instances peak rules.headroom) (fl.of_nat k)
                              ≡ true)
                            (sym count) covers,
                        subst
                            (λ k.
                              (m : ℕ)
                              → rules.min_instances ≤ m
                              → fl.le (needed_size instances peak rules.headroom) (fl.of_nat m)
                                ≡ true
                              → k ≤ m)
                            (sym count) least,
                      ),
                      ground arith,
                      ground arith,
                    ),
                  )
                  | inr more ↦ inr (stepped (ground arith) target)
                ]
            | inr m ↦ inr (stepped (ground arith) target)
          ],
        )
      ]

  -- When every size of the catalog has vCPUs and the need of the plan is between two counts, so that it
  -- is neither NaN nor an infinity, the rule returns a recommendation: its ceiling is taken, the
  -- smaller size that it asks for is always in the catalog, and no load is divided by 0.
  pub size_plan-Returns :
      (finding : ColdFinding F) (catalog : FamilySkuCatalog F) (rules : PlanRules F) (why : String)
      (confidence : Confidence) (peak : F) (sku_name : String) (instances : ℕ) (elastic : Bool)
      (sites low top : ℕ)
      → fl.le (fl.of_nat low) (needed_size instances peak rules.headroom) ≡ true
      → fl.le (needed_size instances peak rules.headroom) (fl.of_nat top) ≡ true
      → All (λ e. 0 < e.1.vcpu) catalog
      → Returns
          (size_plan finding catalog rules why confidence peak sku_name instances elastic sites)
  unfolding size_plan plan_target scale_in
  size_plan-Returns finding catalog rules why confidence peak sku_name instances elastic sites low
        top above below positive =
      let finite =
        laws.is_finite-of_le (needed_size instances peak rules.headroom) low top above below in
      let stepped =
        step_plan-Returns finding catalog rules why confidence peak sku_name instances elastic
          (get_sku catalog sku_name) positive in
      if-Returns (sites == 0) _ _ (λ z. (_, refl))
        (λ z.
          if-Returns (not elastic && ltb rules.min_instances instances) _ _
            (λ t. rw finite (
              if-Returns
                (ltb (max rules.min_instances (fl.ceil (needed_size instances peak rules.headroom)))
                  instances)
                _ _ (λ s. (_, refl)) (λ s. stepped)))
            (λ f. stepped))
