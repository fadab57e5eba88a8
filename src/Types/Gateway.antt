-- ===== src/Types/Gateway.antt =====
-- A gateway that FinOps evaluates has a known capacity: src/resource_types/appgateway.py and the rule
-- of src/recommend/appgateway.py together.
use claude_azure_o11y.Prelude.{
  ℕ, zero, suc, ◌<◌, ◌*◌, ◌≡◌, refl, ◌∙◌, sym, ap, subst, Bool, true, false, none, some, String,
  arith, Bool-cases, inl, inr, nat_eq, string_eq, ◌==◌, ok, ◌>>=◌, >>=-eq-ok, if◌then◌else◌,
}
use claude_azure_o11y.Prelude.Dict
use claude_azure_o11y.Prelude.Dict.{Dict, lookup-insert}
use claude_azure_o11y.Float.{Float}
use claude_azure_o11y.Models.{Resource, Value, nat, flag, null}
use claude_azure_o11y.Models.Props.{prop, truth, int_prop, int_of, or_value}
use claude_azure_o11y.Recommend.Units.{AppGatewayRules}
use claude_azure_o11y.Types.Row.{Row, count_column}
use claude_azure_o11y.Types.Row.Base.{base_resource-props}
use claude_azure_o11y.Types.Capacity.{
  with_prop, attach_reserved, gateway_instances, appgateway_enrich, appgateway_finops_skip,
  parse_appgateway,
}

factor_left : (a b : ℕ) → 0 < a * b → 0 < a
factor_left zero b h = absurd (ground arith)
factor_left (suc a) b h = omega arith

factor_right : (a b : ℕ) → 0 < a * b → 0 < b
factor_right a zero h = absurd (ground arith)
factor_right a (suc b) h = omega arith

module _ {F : Type 0} where
  -- What `prop` reads behind an added property.
  pub with_prop-prop :
      (r : Resource F) (name : String) (v : Value F) (j : String) (default : Value F)
      → prop (with_prop r name v) j default ≡ (if name == j then v else prop r j default)
  unfolding prop with_prop Dict.update
  with_prop-prop r name v j default =
      ap (λ o. elim o [ none ↦ default | some w ↦ w ]) (lookup-insert name j v r.props)
      ∙ split (name == j)
    where
      split :
          (b : Bool)
          → elim (if b then some v else Dict.lookup j r.props) [ none ↦ default | some w ↦ w ]
            ≡ (if b then v else elim (Dict.lookup j r.props) [ none ↦ default | some w ↦ w ])
      split true = refl
      split false = refl

module _ {F : Type 0} ⦃fl : Float F⦄ where
  -- The properties of the gateway that are read behind `enrich`.
  abbrev pub IsKept : Resource F → AppGatewayRules F → Resource F → Type 0
  IsKept r rules r' =
      (n : ℕ) × (0 < n)
      × (0 < rules.cu_per_instance)
      × (gateway_instances r' ≡ ok n)
      × (int_prop r' "reserved_capacity_units" ≡ ok (n * rules.cu_per_instance))

  -- Without the property, FinOps skips the gateway.
  skipped :
      (r : Resource F)
      → prop r "reserved_capacity_units" null ≡ null
      → ¬ (appgateway_finops_skip r ≡ none)
  unfolding appgateway_finops_skip truth
  skipped r unset h = elim (Bool-cases (truth (prop r "v2" (flag false)))) [
    | inl t ↦
        let falsy : truth (prop r "reserved_capacity_units" null) ≡ false = rw unset refl in
        absurd (ground arith)
    | inr f ↦ absurd (ground arith)
  ]

  with_reserved-instances :
      (r : Resource F) (units : ℕ)
      → gateway_instances (with_prop r "reserved_capacity_units" (nat units)) ≡ gateway_instances r
  unfolding gateway_instances
  with_reserved-instances r units =
      let read = with_prop-prop r "reserved_capacity_units" (nat units) in
      rw (read "autoscale" null) (split (truth (prop r "autoscale" null)))
    where
      split :
          (b : Bool)
          → int_prop
              (with_prop r "reserved_capacity_units" (nat units))
              (if b then "min_capacity" else "capacity")
            ≡ int_prop r (if b then "min_capacity" else "capacity")
      split true =
          rw (with_prop-prop r "reserved_capacity_units" (nat units) "min_capacity" (nat 0)) refl
      split false =
          rw (with_prop-prop r "reserved_capacity_units" (nat units) "capacity" (nat 0)) refl

  with_reserved-units :
      (r : Resource F) (units : ℕ)
      → 0 < units
      → int_prop (with_prop r "reserved_capacity_units" (nat units)) "reserved_capacity_units"
        ≡ ok units
  unfolding or_value int_of truth
  with_reserved-units r units p =
      rw (with_prop-prop r "reserved_capacity_units" (nat units) "reserved_capacity_units" (nat 0))
        (ground arith)

  attached :
      (r r' : Resource F) (rules : AppGatewayRules F) (n : ℕ)
      → prop r "reserved_capacity_units" null ≡ null
      → gateway_instances r ≡ ok n
      → ok (attach_reserved r (n * rules.cu_per_instance)) ≡ ok r'
      → appgateway_finops_skip r' ≡ none
      → IsKept r rules r'
  unfolding attach_reserved
  attached r r' rules n unset count h kept = elim (Bool-cases (n * rules.cu_per_instance == 0)) [
    | inl z ↦
        let same : r ≡ r' = ground arith in
        absurd (skipped r unset (subst (λ s. appgateway_finops_skip s ≡ none) (sym same) kept))
    | inr nz ↦
        let positive : 0 < n * rules.cu_per_instance = ground arith in
        let same : with_prop r "reserved_capacity_units" (nat (n * rules.cu_per_instance)) ≡ r' =
          ground arith in
        subst (IsKept r rules) same (
          n,
          factor_left n rules.cu_per_instance positive,
          factor_right n rules.cu_per_instance positive,
          with_reserved-instances r (n * rules.cu_per_instance) ∙ count,
          with_reserved-units r (n * rules.cu_per_instance) positive,
        )
  ]

  enrich-IsKept :
      (r r' : Resource F) (rules : AppGatewayRules F)
      → prop r "reserved_capacity_units" null ≡ null
      → appgateway_enrich r rules ≡ ok r'
      → appgateway_finops_skip r' ≡ none
      → IsKept r rules r'
  unfolding appgateway_enrich
  enrich-IsKept r r' rules unset h kept = elim (Bool-cases (truth (prop r "v2" (flag false)))) [
    | inl v2 ↦
        let call : (gateway_instances r >>= λ n. ok (attach_reserved r (n * rules.cu_per_instance)))
            ≡ ok r' =
          ground arith in
        let (n, count, rest) = >>=-eq-ok (gateway_instances r) _ call in
        attached r r' rules n unset count rest kept
    | inr v1 ↦
        let same : r ≡ r' = ground arith in
        absurd (skipped r unset (subst (λ s. appgateway_finops_skip s ≡ none) (sym same) kept))
  ]

  parse-unset :
      (row : Row F) (r : Resource F)
      → parse_appgateway row ≡ ok r
      → prop r "reserved_capacity_units" null ≡ null
  unfolding parse_appgateway prop Dict.lookup
  parse-unset row r h =
      let (capacity, e1, h1) = >>=-eq-ok (count_column row "capacity") _ h in
      let (min_capacity, e2, h2) = >>=-eq-ok (count_column row "minCapacity") _ h1 in
      let (max_capacity, e3, h3) = >>=-eq-ok (count_column row "maxCapacity") _ h2 in
      rw (base_resource-props row _ _ _ _ r h3) refl

  -- A gateway that was parsed and enriched, and that FinOps does not skip, runs at least one instance
  -- and reserves as many capacity units as its instances have, more than 0.
  pub appgateway_finops_skip-IsKept :
      (row : Row F) (rules : AppGatewayRules F) (r r' : Resource F)
      → parse_appgateway row ≡ ok r
      → appgateway_enrich r rules ≡ ok r'
      → appgateway_finops_skip r' ≡ none
      → IsKept r rules r'
  appgateway_finops_skip-IsKept row rules r r' parsed enriched kept =
      enrich-IsKept r r' rules (parse-unset row r parsed) enriched kept
