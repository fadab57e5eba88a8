-- ===== src/Recommend/Targets.antt =====
-- The targets of the family and the SQL rules are safe: they lie below the current size.
use claude_azure_o11y.Prelude.{
  ℕ, ◌≡◌, refl, ◌∙◌, subst, true, Option, none, some, String, List, arith, Among, Option-cases, inl,
  inr, nat_eq,
}
use claude_azure_o11y.Prelude.Text.{◌<>◌, show_nat}
use claude_azure_o11y.Float.{Float, IsFloat}
use claude_azure_o11y.Models.{
  ColdFinding, ColdObservation, Confidence, low, medium, Recommendation, observation,
}
use claude_azure_o11y.Config.Groups.{FamilySku, FamilySkuCatalog, get_sku}
use claude_azure_o11y.Recommend.Ladder.{
  next_smaller_in_family, step_down, downsize_in_family, needed_size, fit_down,
}
use claude_azure_o11y.Recommend.Ladder.Step.{IsStep, next_smaller-IsLargest, IsLargest}
use claude_azure_o11y.Recommend.Ladder.Fit.{Covers, IsLeast, fit_down-IsLeast}
use claude_azure_o11y.Recommend.Family.{recommend_vm, recommend_postgres}
use claude_azure_o11y.Recommend.Sql.{
  SqlRules, rename_vcores, recommend_vcore, pool_vcore, pool_edtu_target,
}

module _ {F : Type 0} ⦃fl : Float F⦄ where
  -- The target is a step down from the current size, which the catalog knows.
  abbrev pub IsDownsize : ColdFinding F → FamilySkuCatalog F → ℕ → String → Type 0
  IsDownsize finding catalog min_vcpu t =
      (current : FamilySku F) × (get_sku catalog finding.resource.sku ≡ some current)
      × (spec : FamilySku F) × IsStep catalog current min_vcpu (t, spec)

  step_down-target :
      (finding : ColdFinding F) (catalog : FamilySkuCatalog F) (current : FamilySku F)
      (min_vcpu : ℕ) (why : String) (c : Confidence)
      → ((step_down finding catalog current min_vcpu why c).target_sku
          ≡ next_smaller_in_family catalog current min_vcpu)
        × ((step_down finding catalog current min_vcpu why c).confidence ≡ c)
  unfolding step_down
  step_down-target finding catalog current min_vcpu why c = ground arith

  downsize_in_family-IsDownsize :
      (finding : ColdFinding F) (catalog : FamilySkuCatalog F) (file : String) (min_vcpu : ℕ)
      (why : String) (c : Confidence) (t : String)
      → (downsize_in_family finding catalog file min_vcpu why c).target_sku ≡ some t
      → IsDownsize finding catalog min_vcpu t
  unfolding downsize_in_family
  downsize_in_family-IsDownsize finding catalog file min_vcpu why c t h =
      elim (Option-cases (get_sku catalog finding.resource.sku)) [
        | inl e ↦ absurd (ground arith)
        | inr (current, e) ↦
            let target : next_smaller_in_family catalog current min_vcpu ≡ some t =
              ground (arith, (step_down-target finding catalog current min_vcpu why c).0) in
            let (spec, step, most) =
              subst (IsLargest catalog current min_vcpu) target
                (next_smaller-IsLargest catalog current min_vcpu) in
            (current, e, spec, step)
      ]

  downsize_unknown :
      (finding : ColdFinding F) (catalog : FamilySkuCatalog F) (file : String) (min_vcpu : ℕ)
      (why : String) (c : Confidence)
      → get_sku catalog finding.resource.sku ≡ none
      → ((downsize_in_family finding catalog file min_vcpu why c).confidence ≡ low)
        × ((downsize_in_family finding catalog file min_vcpu why c).target_sku ≡ none)
  unfolding downsize_in_family
  downsize_unknown finding catalog file min_vcpu why c h =
      (rw (h, downsize_in_family) refl, rw (h, downsize_in_family) refl)

  downsize_known :
      (finding : ColdFinding F) (catalog : FamilySkuCatalog F) (file : String) (min_vcpu : ℕ)
      (why : String) (c : Confidence) (current : FamilySku F)
      → get_sku catalog finding.resource.sku ≡ some current
      → (downsize_in_family finding catalog file min_vcpu why c).confidence ≡ c
  unfolding downsize_in_family
  downsize_known finding catalog file min_vcpu why c current h =
      rw (h, downsize_in_family) ((step_down-target finding catalog current min_vcpu why c).1)

  -- A target of the VM rule is a catalog entry of the same family as the resource's size, with fewer
  -- vCPUs and at least `min_vcpu`.
  pub recommend_vm-IsDownsize :
      (finding : ColdFinding F) (catalog : FamilySkuCatalog F) (min_vcpu : ℕ) (t : String)
      → (recommend_vm finding catalog min_vcpu).target_sku ≡ some t
      → IsDownsize finding catalog min_vcpu t
  unfolding recommend_vm
  recommend_vm-IsDownsize finding catalog min_vcpu t =
      downsize_in_family-IsDownsize finding catalog _ min_vcpu _ _ t

  -- A target of the PostgreSQL rule is a catalog entry of the same family as the resource's size, with
  -- fewer vCPUs and at least `min_vcpu`.
  pub recommend_postgres-IsDownsize :
      (finding : ColdFinding F) (catalog : FamilySkuCatalog F) (min_vcpu : ℕ) (t : String)
      → (recommend_postgres finding catalog min_vcpu).target_sku ≡ some t
      → IsDownsize finding catalog min_vcpu t
  unfolding recommend_postgres
  recommend_postgres-IsDownsize finding catalog min_vcpu t =
      downsize_in_family-IsDownsize finding catalog _ min_vcpu _ _ t

  -- The confidence that the VM rule may give, by the catalog's entry and the memory observation.
  abbrev pub IsConfident :
      Option (FamilySku F) → Option (ColdObservation F) → Recommendation F → Type 0
  IsConfident none memory rec = (rec.confidence ≡ low) × (rec.target_sku ≡ none)
  IsConfident (some current) none rec = rec.confidence ≡ low
  IsConfident (some current) (some mem) rec = rec.confidence ≡ medium

  -- The confidence of the VM rule is `low` when the size is not in the catalog or memory was not
  -- observed, and `medium` otherwise; of an unknown size there is no target.
  pub recommend_vm-IsConfident :
      (finding : ColdFinding F) (catalog : FamilySkuCatalog F) (min_vcpu : ℕ)
      → IsConfident
          (get_sku catalog finding.resource.sku)
          (observation finding "memory")
          (recommend_vm finding catalog min_vcpu)
  unfolding recommend_vm
  recommend_vm-IsConfident finding catalog min_vcpu =
      split (get_sku catalog finding.resource.sku) refl (observation finding "memory") refl
    where
      split :
          (known : Option (FamilySku F))
          → get_sku catalog finding.resource.sku ≡ known
          → (memory : Option (ColdObservation F)) → observation finding "memory" ≡ memory
          → IsConfident known memory (recommend_vm finding catalog min_vcpu)
      split none h memory e = downsize_unknown finding catalog _ min_vcpu _ _ h
      split (some current) h none e =
          downsize_known finding catalog _ min_vcpu _ _ current h ∙ rw e refl
      split (some current) h (some mem) e =
          downsize_known finding catalog _ min_vcpu _ _ current h ∙ rw e refl

module _ {F : Type 0} ⦃fl : Float F⦄ (finding : ColdFinding F) (rules : SqlRules F) where
  -- The need is a number, so not the NaN of an observation that is none.
  abbrev pub IsFinite : ℕ → Type 0
  IsFinite capacity =
      fl.le (needed_size capacity finding.observed rules.headroom)
        (needed_size capacity finding.observed rules.headroom)
      ≡ true

  -- The size that a vCore rule chose.
  abbrev pub IsFit : List ℕ → ℕ → ℕ → ℕ → Type 0
  IsFit ladder capacity floor n =
      Among n ladder
      × Covers (needed_size capacity finding.observed rules.headroom) floor capacity n

module _ {F : Type 0} ⦃fl : Float F⦄ (laws : IsFloat fl) (finding : ColdFinding F)
    (rules : SqlRules F) where
  fit_down-IsFit :
      (ladder : List ℕ) (capacity floor n : ℕ)
      → IsFinite finding rules capacity
      → fit_down ladder capacity finding.observed rules.headroom floor ≡ some n
      → IsFit finding rules ladder capacity floor n
  unfolding needed_size
  fit_down-IsFit ladder capacity floor n num h =
      let (m, c, least) =
        subst (IsLeast (needed_size capacity finding.observed rules.headroom) floor capacity ladder)
          h (fit_down-IsLeast laws ladder capacity finding.observed rules.headroom floor num).0 in
      (m, c)

  -- With a finite need, a target of the vCore database rule is the SKU name with its last part
  -- replaced by a size of the ladder that covers the need, keeps `min_vcores` and is below the
  -- current capacity.
  pub vcore-IsFit :
      (why sku_name : String) (ladder : List ℕ) (capacity : ℕ) (t : String)
      → IsFinite finding rules capacity
      → (recommend_vcore finding rules why sku_name ladder capacity).target_sku ≡ some t
      → (n : ℕ) × (t ≡ rename_vcores sku_name n)
        × IsFit finding rules ladder capacity rules.min_vcores n
  unfolding recommend_vcore
  vcore-IsFit why sku_name ladder capacity t num h =
      elim (Option-cases
        (fit_down ladder capacity finding.observed rules.headroom rules.min_vcores)) [
          | inl e ↦ absurd (ground arith)
          | inr (n, e) ↦ (n, ground arith, fit_down-IsFit ladder capacity rules.min_vcores n num e)
        ]

  -- With a finite need, a target of the vCore pool rule is the SKU name with a size of the ladder
  -- behind it that covers the need, keeps `min_vcores` and is below the current capacity.
  pub pool_vcore-IsFit :
      (why sku_name : String) (ladder : List ℕ) (capacity : ℕ) (t : String)
      → IsFinite finding rules capacity
      → (pool_vcore finding rules why sku_name ladder capacity).target_sku ≡ some t
      → (n : ℕ) × (t ≡ sku_name <> " " <> show_nat n)
        × IsFit finding rules ladder capacity rules.min_vcores n
  unfolding pool_vcore
  pool_vcore-IsFit why sku_name ladder capacity t num h =
      elim (Option-cases
        (fit_down ladder capacity finding.observed rules.headroom rules.min_vcores)) [
          | inl e ↦ absurd (ground arith)
          | inr (n, e) ↦ (n, ground arith, fit_down-IsFit ladder capacity rules.min_vcores n num e)
        ]

  -- With a finite need, a target of the eDTU pool rule is the SKU name with a size of the ladder
  -- behind it that covers the need and is below the current capacity.
  pub pool_edtu-IsFit :
      (why tier sku_name : String) (ladder : List ℕ) (capacity : ℕ) (t : String)
      → IsFinite finding rules capacity
      → (pool_edtu_target finding rules why tier sku_name ladder capacity).target_sku ≡ some t
      → (n : ℕ) × (t ≡ sku_name <> " " <> show_nat n) × IsFit finding rules ladder capacity 0 n
  unfolding pool_edtu_target
  pool_edtu-IsFit why tier sku_name ladder capacity t num h =
      elim (Option-cases (fit_down ladder capacity finding.observed rules.headroom 0)) [
        | inl e ↦ absurd (ground arith)
        | inr (n, e) ↦ (n, ground arith, fit_down-IsFit ladder capacity 0 n num e)
      ]
