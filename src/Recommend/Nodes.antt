-- ===== src/Recommend/Nodes.antt =====
-- src/recommend/aks.py: fewer nodes for each pool of a cluster, or a smaller node size.
use Prim.Native.Nat.{max}
use claude_azure_o11y.Prelude.{
  ℕ, not, Option, none, some, String, List, [], ◌∷◌, ◌++◌, Result, ok, err, ◌>>=◌, type_error,
  assertion_error, exception, zero_division, ◌==◌, nat_eq, string_eq, is_empty, ltb, if◌then◌else◌,
}
use claude_azure_o11y.Prelude.Text.{◌<>◌, show_nat, join, is_text}
use claude_azure_o11y.Prelude.Dict
use claude_azure_o11y.Float.{Float, gt}
use claude_azure_o11y.Models.{
  ColdFinding, ColdObservation, low, Recommendation, recommendation, observation, Pool, Value, text,
  texts, pools,
}
use claude_azure_o11y.Models.Props.{prop, truth}
use claude_azure_o11y.Config.Groups.{FamilySku, FamilySkuCatalog, get_sku}
use claude_azure_o11y.Recommend.Ladder.{needed_size, next_smaller_in_family}
use claude_azure_o11y.Recommend.Family.{over_days, is_below}
use claude_azure_o11y.Recommend.Units.{peak_of}

pub record AksRules (F : Type 0) : Type 0 where
  pub min_nodes : ℕ
  pub min_vcpu : ℕ
  pub headroom : F

abbrev verify : String
verify = " Cluster-level metric; verify per node pool."

-- The nodes that a pool keeps at least: the autoscaler minimum, or the fixed count.
unfoldable pub pool_nodes : Pool → ℕ
pool_nodes pool = if pool.autoscale then pool.min_count else pool.count

abbrev pub fewer_nodes : Pool → ℕ → String
fewer_nodes pool n =
    if pool.autoscale
    then pool.name <> ": min " <> show_nat n
    else pool.name <> ": " <> pool.vm_size <> " x" <> show_nat n

abbrev pub smaller_nodes : Pool → String → String
smaller_nodes pool size = pool.name <> ": " <> size <> " x" <> show_nat (pool_nodes pool)

abbrev pub cons_change : Option String → List String → List String
cons_change none changes = changes
cons_change (some change) changes = change ∷ changes

module _ {F : Type 0} ⦃fl : Float F⦄ where
  -- `peak * headroom * spec.vcpu / target.vcpu`
  unfoldable pub load_on : (peak headroom : F) → FamilySku F → FamilySku F → F
  load_on peak headroom spec target =
      fl.div (fl.mul (fl.mul peak headroom) (fl.of_nat spec.vcpu)) (fl.of_nat target.vcpu)

  -- `max(min_nodes, ceil(current * peak / 100 * headroom))`
  unfoldable pub node_target : AksRules F → (current : ℕ) → (peak : F) → ℕ
  node_target rules current peak =
      max rules.min_nodes (fl.ceil (needed_size current peak rules.headroom))

  module _ (pool : Pool) (peak : F) (catalog : FamilySkuCatalog F) (rules : AksRules F) where
    -- Behind the lookup of the smaller size.
    unfoldable pub fit_nodes : FamilySku F → String → Option (FamilySku F) → Result (Option String)
    unfolding load_on
    fit_nodes spec smaller none = ok none
    fit_nodes spec smaller (some target) =
        if target.vcpu == 0
        then err zero_division
        else if gt (load_on peak rules.headroom spec target) (fl.of_nat 100)
        then ok none
        else ok (some (smaller_nodes pool smaller))

    unfoldable pub after_smaller : FamilySku F → Option String → Result (Option String)
    unfolding fit_nodes
    after_smaller spec none = ok none
    after_smaller spec (some smaller) =
        if is_text smaller then fit_nodes spec smaller (get_sku catalog smaller) else ok none

    unfoldable pub smaller_size : Option (FamilySku F) → Result (Option String)
    unfolding after_smaller
    smaller_size none = ok none
    smaller_size (some spec) =
        after_smaller spec (next_smaller_in_family catalog spec rules.min_vcpu)

    -- `_pool_change`
    unfoldable pub pool_change : Result (Option String)
    unfolding pool_nodes node_target smaller_size
    pool_change =
        let current = pool_nodes pool in
        let n = node_target rules current peak in
        if current == 0
        then ok none
        else if ltb n current
        then ok (some (fewer_nodes pool n))
        else if not (current == rules.min_nodes)
        then ok none
        else smaller_size (get_sku catalog pool.vm_size)

  -- The changes of the pools that have one, in order.
  unfoldable pub pool_changes :
      List Pool → (peak : F) → FamilySkuCatalog F → AksRules F → Result (List String)
  unfolding pool_change
  pool_changes [] peak catalog rules = ok []
  pool_changes (pool ∷ ps) peak catalog rules = pool_change pool peak catalog rules >>= λ change.
      pool_changes ps peak catalog rules >>= λ changes. ok (cons_change change changes)

  -- `prop("pools", []) or []`, as the loop reads it.
  unfoldable pub pools_of : Value F → Result (List Pool)
  pools_of (pools ps) = ok ps
  pools_of (text s) =
      if is_text s
      then err (exception "AttributeError" "'str' object has no attribute 'get'")
      else ok []
  pools_of (texts ss) =
      if is_empty ss
      then ok []
      else err (exception "AttributeError" "'str' object has no attribute 'get'")
  pools_of v = if truth v then err (type_error "object is not iterable") else ok []

  unfoldable node_cpu : ColdFinding F → Option (ColdObservation F) → List String
  unfolding over_days
  node_cpu finding none = []
  node_cpu finding (some cpu) = over_days "node CPU" finding.lookback_days cpu ∷ []

  unfoldable node_memory : Option (ColdObservation F) → String
  unfolding is_below
  node_memory none = "Memory not evaluated (no node_memory_working_set_percentage data)."
  node_memory (some mem) = is_below "node working-set memory" mem

  unfoldable unneeded_part : Option F → List String
  unneeded_part none = []
  unneeded_part (some n) =
      if gt n (fl.of_nat 0)
      then ("Autoscaler reports " <> fl.show_g n <> " unneeded nodes.") ∷ []
      else []

  unfoldable aks_evidence :
      ColdFinding F → Option (ColdObservation F) → Option (ColdObservation F) → String
  unfolding node_cpu node_memory unneeded_part
  aks_evidence finding cpu mem = join " " (
      node_cpu finding cpu
      ++ ((node_memory mem ∷ []) ++ unneeded_part (Dict.lookup "unneeded_nodes" finding.inputs)))

  module _ (finding : ColdFinding F) (rules : AksRules F) where
    unfoldable pub aks_answer : String → (peak : F) → List String → Recommendation F
    aks_answer why peak [] = recommendation finding none low (
        why
        <> " No pool can shrink below min_nodes="
        <> show_nat rules.min_nodes
        <> " / min_vcpu="
        <> show_nat rules.min_vcpu
        <> "."
        <> verify)
    aks_answer why peak (change ∷ changes) =
        recommendation finding (some (join "; " (change ∷ changes))) low (
          why
          <> " Sized each pool to the cluster peak "
          <> fl.show_g peak
          <> "% with headroom "
          <> fl.show_g rules.headroom
          <> "."
          <> verify)

    -- The rule behind the check that a metric was observed.
    unfoldable pub size_aks :
        FamilySkuCatalog F
        → Option (ColdObservation F)
        → Option (ColdObservation F)
        → Result (Recommendation F)
    unfolding pools_of pool_changes aks_answer aks_evidence
    size_aks catalog cpu mem =
        let peak = peak_of cpu mem finding.observed in
        pools_of (prop finding.resource "pools" (pools [])) >>= λ ps.
        pool_changes ps peak catalog rules >>= λ changes.
        ok (aks_answer (aks_evidence finding cpu mem) peak changes)

    unfoldable after_observations :
        FamilySkuCatalog F
        → Option (ColdObservation F)
        → Option (ColdObservation F)
        → Result (Recommendation F)
    unfolding size_aks
    after_observations catalog none none =
        err (assertion_error "aks finding without a node_cpu or node_memory observation")
    after_observations catalog (some cpu) mem = size_aks catalog (some cpu) mem
    after_observations catalog none (some mem) = size_aks catalog none (some mem)

    unfoldable pub recommend_aks : FamilySkuCatalog F → Result (Recommendation F)
    unfolding after_observations
    recommend_aks catalog =
        after_observations catalog (observation finding "node_cpu")
          (observation finding "node_memory")
