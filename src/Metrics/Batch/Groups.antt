-- ===== src/Metrics/Batch/Groups.antt =====
-- The groups of metrics that `MetricsBatchClient.query` of src/metrics/batch.py asks for together.
use claude_azure_o11y.Prelude.{
  ℕ, ◌+◌, ◌≡◌, ◌↔◌, refl, ◌∙◌, sym, ap, subst, Bool, true, String, List, [], ◌∷◌, map, arith,
  Bool-cases, inl, inr, ◌==◌, Eq, string_eq, option_eq, pair_eq, any, count, Among, All,
  if◌then◌else◌, Among-filter, Among-filter_of, ltb, All-self, All-weaken,
}
use claude_azure_o11y.Prelude.Sort.{sort, count-sort, Among-sort}
use claude_azure_o11y.Models.{MetricRequest}
use claude_azure_o11y.Metrics.Batch.Query.{distinct, Key, key_of, group_for, key_before, group_keys}

zero_left : (n : ℕ) → 0 + n ≡ n
zero_left n = omega arith

module _ {A : Type 0} where
  any-count : (p : A → Bool) (xs : List A) → any p xs ≡ ltb 0 (count p xs)
  any-count p [] = ground arith
  any-count p (x ∷ xs) = let more = any-count p xs in ground arith

module _ {A : Type 0} ⦃e : Eq A⦄ where
  -- Each element of a list is once among the distinct ones.
  count-distinct :
      (xs : List A) (a : A)
      → count (λ j. a == j) (distinct xs) ≡ (if any (λ j. a == j) xs then 1 else 0)
  unfolding distinct
  count-distinct [] a = refl
  count-distinct (x ∷ xs) a = elim (Bool-cases (any (λ y. x == y) (distinct xs))) [
    | inl seen ↦ rw seen (elim (Bool-cases (a == x)) [
      | inl t ↦
          let once : count (λ j. x == j) (distinct xs) ≡ 1 =
            let counted = any-count (λ j. x == j) (distinct xs) in
            let all_seen = count-distinct xs x in ground arith in
          let same : x ≡ a = sym ((e.same_iff a x).0 t) in
          rw t (subst (λ z. count (λ j. z == j) (distinct xs) ≡ 1) same once)
      | inr f ↦ rw f (count-distinct xs a)
    ])
    | inr fresh ↦ rw fresh (elim (Bool-cases (a == x)) [
      | inl t ↦
          let none_left : count (λ j. x == j) (distinct xs) ≡ 0 =
            let counted = any-count (λ j. x == j) (distinct xs) in ground arith in
          let same : x ≡ a = sym ((e.same_iff a x).0 t) in
          let left : count (λ j. a == j) (distinct xs) ≡ 0 =
            subst (λ z. count (λ j. z == j) (distinct xs) ≡ 0) same none_left in
          rw t (ap (λ z. 1 + z) left)
      | inr f ↦ rw f (zero_left _ ∙ count-distinct xs a)
    ])
  ]

  Among-distinct : (xs : List A) (a : A) → Among a (distinct xs) → Among a xs
  unfolding distinct
  Among-distinct [] a m = m
  Among-distinct (x ∷ xs) a m = elim (Bool-cases (any (λ y. x == y) (distinct xs))) [
    | inl seen ↦ inr (
        Among-distinct xs a
          (subst (λ b. Among a (if b then distinct xs else x ∷ distinct xs)) seen m))
    | inr fresh ↦ elim (subst (λ b. Among a (if b then distinct xs else x ∷ distinct xs)) fresh m) [
      | inl same ↦ inl same
      | inr later ↦ inr (Among-distinct xs a later)
    ]
  ]

  any-Among : (xs : List A) (a : A) → Among a xs → any (λ j. a == j) xs ≡ true
  any-Among [] a m = absurd (m)
  any-Among (x ∷ xs) a (inl same) = let t = (e.same_iff a x).1 same in ground arith
  any-Among (x ∷ xs) a (inr m) = let more = any-Among xs a m in ground arith

Among-map : {A B : Type 0} (f : A → B) (xs : List A) (a : A) → Among a xs → Among (f a) (map f xs)
Among-map f [] a m = m
Among-map f (x ∷ xs) a (inl same) = inl (ap f same)
Among-map f (x ∷ xs) a (inr m) = inr (Among-map f xs a m)

map-Among :
    {A B : Type 0} (f : A → B) (xs : List A) (b : B)
    → Among b (map f xs)
    → (a : A) × Among a xs × (f a ≡ b)
map-Among f [] b m = absurd (m)
map-Among f (x ∷ xs) b (inl same) = (x, inl refl, sym same)
map-Among f (x ∷ xs) b (inr m) = let (a, m', e) = map-Among f xs b m in (a, inr m', e)

-- A metric's key is that of one group, and the group has the metric.
abbrev pub IsGroupedOnce : List Key → List MetricRequest → MetricRequest → Type 0
IsGroupedOnce keys metrics m =
    (count (λ k. key_of m == k) keys ≡ 1) × Among m (group_for (key_of m) metrics)

-- A group has a metric, and all its metrics have its key.
abbrev pub IsGroup : List MetricRequest → Key → Type 0
IsGroup metrics key =
    ((m : MetricRequest) × Among m (group_for key metrics))
    × All (λ m. key_of m ≡ key) (group_for key metrics)

key_iff : (j k : Key) → (j == k ≡ true) ↔ (j ≡ k)
key_iff j k = pair_eq.same_iff j k

group_for-uniform :
    (metrics : List MetricRequest) (key : Key) → All (λ m. key_of m ≡ key) (group_for key metrics)
group_for-uniform metrics key =
    All-weaken (λ m. Among m (group_for key metrics)) (λ m. key_of m ≡ key) (group_for key metrics)
      (λ m among. (key_iff (key_of m) key).0 (Among-filter (λ n. key_of n == key) metrics among).1)
      (All-self (group_for key metrics))

-- The groups of a query: each of its metrics is in the group of one key and of no other, and each
-- group has a metric and only metrics with one filter and one rollup, so that the filter of its first
-- metric is that of all.
pub group_keys-IsGroup :
    (repr : String → String) (metrics : List MetricRequest)
    → All (IsGroupedOnce (group_keys repr metrics) metrics) metrics
      × All (IsGroup metrics) (group_keys repr metrics)
unfolding group_keys
group_keys-IsGroup repr metrics = (
  All-weaken (λ m. Among m metrics) (IsGroupedOnce (group_keys repr metrics) metrics) metrics
      (λ m among. (grouped m among, own m among)) (All-self metrics),
  All-weaken (λ k. Among k (group_keys repr metrics)) (IsGroup metrics) (group_keys repr metrics)
      (λ k among. (member k among, group_for-uniform metrics k))
      (All-self (group_keys repr metrics)),
)
  where
    own : (m : MetricRequest) → Among m metrics → Among m (group_for (key_of m) metrics)
    own m among =
        Among-filter_of (λ n. key_of n == key_of m) metrics m among
          ((key_iff (key_of m) (key_of m)).1 refl)

    grouped :
        (m : MetricRequest)
        → Among m metrics
        → count (λ k. key_of m == k) (sort (key_before repr) (distinct (map key_of metrics))) ≡ 1
    grouped m among =
        let seen = any-Among (map key_of metrics) (key_of m) (Among-map key_of metrics m among) in
        count-sort (key_before repr) (λ k. key_of m == k) (distinct (map key_of metrics))
        ∙ (count-distinct (map key_of metrics) (key_of m) ∙ ap (λ b. if b then 1 else 0) seen)

    member :
        (k : Key)
        → Among k (sort (key_before repr) (distinct (map key_of metrics)))
        → (m : MetricRequest) × Among m (group_for k metrics)
    member k among =
        let (m, inside, same) = map-Among key_of metrics k (
          Among-distinct (map key_of metrics) k
            (Among-sort (key_before repr) k (distinct (map key_of metrics)) among)) in
        (m, Among-filter_of (λ n. key_of n == k) metrics m inside ((key_iff (key_of m) k).1 same))
