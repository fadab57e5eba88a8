-- ===== src/Evaluate/Percentile/Rank.antt =====
-- `percentile` is the nearest-rank percentile: proofs over src/evaluate/percentile.py.
use claude_azure_o11y.Prelude.{
  ℕ, zero, suc, ◌-◌, ◌≤◌, ◌<◌, ◌≡◌, refl, true, some, List, [], ◌∷◌, ok, arith, length, get_elem?,
  count, All, Among, Bool-cases, inl, inr, le→leb, ap, subst,
}
use claude_azure_o11y.Prelude.{get_elem?-lt, get_elem?-Among, All-Among}
use claude_azure_o11y.Prelude.Sort.{
  sort, insert_sorted, count-sort, length-sort, All-sort, All-insert_sorted, Among-sort,
}
use claude_azure_o11y.Float.{Float, IsFloat}
use claude_azure_o11y.Float.Order.{le_of_lt, le_of_not_lt}
use claude_azure_o11y.Evaluate.Percentile.{rank, item_lem, percentile}

module _ {F : Type 0} ⦃fl : Float F⦄ where
  open fl use {lt, le}

  -- Not NaN.
  abbrev pub IsNumber : F → Type 0
  IsNumber x = le x x ≡ true

  abbrev AtLeast : F → F → Type 0
  AtLeast x y = le x y ≡ true

  abbrev Ascending : List F → Type 0
  Ascending [] = Unit
  Ascending (x ∷ xs) = All (AtLeast x) xs × Ascending xs

module _ {F : Type 0} ⦃fl : Float F⦄ (laws : IsFloat fl) where
  open fl use {lt, le}
  open laws use {le_trans, lt-not_le}

  All-AtLeast_trans :
      (x y : F) (xs : List F) → le x y ≡ true → All (AtLeast y) xs → All (AtLeast x) xs
  All-AtLeast_trans x y [] h a = tt
  All-AtLeast_trans x y (z ∷ zs) h (a, bs) = (le_trans x y z h a, All-AtLeast_trans x y zs h bs)

  insert_sorted-Ascending :
      (x : F) (xs : List F)
      → IsNumber x
      → All IsNumber xs
      → Ascending xs
      → Ascending (insert_sorted lt x xs)
  unfolding insert_sorted
  insert_sorted-Ascending x [] n ns a = (tt, tt)
  insert_sorted-Ascending x (y ∷ ys) n (m, ns) (a, bs) = elim (Bool-cases (lt y x)) [
    | inl t ↦ rw t (
      All-insert_sorted lt (AtLeast y) x ys (le_of_lt laws y x t) a,
      insert_sorted-Ascending x ys n ns bs,
    )
    | inr f ↦
        let h : le x y ≡ true = le_of_not_lt laws y x m n f in
        rw f ((h, All-AtLeast_trans x y ys h a), (a, bs))
  ]

  sort-Ascending : (xs : List F) → All IsNumber xs → Ascending (sort lt xs)
  unfolding sort
  sort-Ascending [] ns = tt
  sort-Ascending (x ∷ xs) (n, ns) =
      insert_sorted-Ascending x (sort lt xs) n (All-sort lt IsNumber xs ns) (sort-Ascending xs ns)

  count-lt-zero :
      (x : F) (xs : List F)
      → IsNumber x
      → All IsNumber xs
      → All (AtLeast x) xs
      → count (λ v. lt v x) xs ≡ 0
  count-lt-zero x [] n ns a = refl
  count-lt-zero x (y ∷ ys) n (m, ns) (h, a) =
      ground (arith, lt-not_le y x m n, count-lt-zero x ys n ns a)

  head_counts :
      (y : F) (ys : List F)
      → IsNumber y
      → All IsNumber ys
      → All (AtLeast y) ys
      → (0 < count (λ v. le v y) (y ∷ ys)) × (count (λ v. lt v y) (y ∷ ys) ≤ 0)
  head_counts y ys n ns a =
      (ground (arith, n), ground (arith, lt-not_le y y n n, count-lt-zero y ys n ns a))

  -- In an ascending list the element at index `k` has at least `k + 1` elements up to it, itself
  -- among them, and at most `k` below it.
  Ascending-counts :
      (xs : List F) (k : ℕ) (x : F)
      → All IsNumber xs
      → Ascending xs
      → get_elem? xs k ≡ some x
      → (k < count (λ v. le v x) xs) × (count (λ v. lt v x) xs ≤ k)
  Ascending-counts [] k x ns a e = absurd (cc)
  Ascending-counts (y ∷ ys) zero x (n, ns) (a, bs) e =
      subst (λ z. (0 < count (λ v. le v z) (y ∷ ys)) × (count (λ v. lt v z) (y ∷ ys) ≤ 0))
        (ground arith) (head_counts y ys n ns a)
  Ascending-counts (y ∷ ys) (suc k) x (n, ns) (a, bs) e =
      let (up, down) = Ascending-counts ys k x ns bs e in
      let h : le y x ≡ true = All-Among (AtLeast y) ys x a (get_elem?-Among ys k x e) in
      (rw h (omega arith), ground arith)

  -- The rank lies between 1 and the number of values.
  rank_bounds : (p n : ℕ) → p ≤ 100 → 0 < n → (0 < rank fl p n) × (rank fl p n ≤ n)
  unfolding rank
  rank_bounds p n h pos =
      let small = laws.ceil-le (fl.mul (fl.div (fl.of_nat p) (fl.of_nat 100)) (fl.of_nat n)) n (
        laws.mul-le (fl.div (fl.of_nat p) (fl.of_nat 100)) n
          (laws.div-le_one p 100 h (omega arith))) in
      (omega arith, omega arith)

  -- For a percentage up to 100 and values that are not empty and hold no NaN, `percentile` returns a
  -- value: one of the values, such that at least `rank` of them are up to it and fewer than `rank`
  -- are below it, where `rank` is `max(1, ceil(p / 100 * n))` for the number `n` of values.
  pub percentile-nearest_rank :
      (first : F) (rest : List F) (p : ℕ)
      → p ≤ 100
      → All IsNumber (first ∷ rest)
      → let values = first ∷ rest in
        (x : F) × (percentile values p ≡ ok (some x))
        × Among x values
        × (rank fl p (length values) ≤ count (λ v. le v x) values)
        × (count (λ v. lt v x) values < rank fl p (length values))
  unfolding percentile
  percentile-nearest_rank first rest p h ns =
      let values = first ∷ rest in
      let sorted = sort lt values in
      let long : length sorted ≡ length values = length-sort lt values in
      let r = rank fl p (length sorted) in
      let (low, high) = rank_bounds p (length sorted) h (omega arith) in
      let (x, found, m) = get_elem?-lt sorted (r - 1) (omega arith) in
      let (up, down) =
        Ascending-counts sorted (r - 1) x (All-sort lt IsNumber values ns)
          (sort-Ascending values ns) found in
      let same : r ≡ rank fl p (length values) = ap (rank fl p) long in
      (
        x,
        rw (le→leb p 100 h) (rw (item_lem sorted (r - 1) x found) refl),
        Among-sort lt x values m,
        omega (arith, count-sort lt (λ v. le v x) values),
        omega (arith, count-sort lt (λ v. lt v x) values),
      )
