-- ===== src/Recommend/Ladder/Fit.antt =====
-- What `fit_up` and `fit_down` of src/recommend/ladder.py choose.
use claude_azure_o11y.Prelude.{
  ℕ, ◌≤◌, ◌<◌, ◌≡◌, refl, ◌↔◌, ◌⊎◌, All-self, Bool, true, false, Option, none, some, List, [], ◌∷◌,
  arith, filter, All, Among, Bool-cases, Option-cases, inl, inr, leb→le, le→leb, ltb, sym, ◌∙◌,
  subst, if◌then◌else◌, All-weaken, Among-filter, Among-filter_of, All-Among,
}
use claude_azure_o11y.Float.{Float, IsFloat}
use claude_azure_o11y.Float.Order.{max_float-le, le-max_float}
use claude_azure_o11y.Recommend.Ladder.{least_of, fits, fit_up, needed_size, fit_down}

least_of-cons : (x : ℕ) (xs : List ℕ) → (m : ℕ) × (least_of (x ∷ xs) ≡ some m)
unfolding least_of
least_of-cons x xs = elim (Option-cases (least_of xs)) [
  | inl h ↦ (x, rw h refl)
  | inr (k, h) ↦ (if ltb k x then k else x, rw h refl)
]

pub least_of-eq-none : (xs : List ℕ) → least_of xs ≡ none → xs ≡ []
least_of-eq-none [] e = refl
least_of-eq-none (x ∷ xs) e = let (m, h) = least_of-cons x xs in absurd (cc)

-- The least element of a list is one of its elements and is up to each.
pub least_of-eq-some :
    (xs : List ℕ) (m : ℕ) → least_of xs ≡ some m → Among m xs × All (λ x. m ≤ x) xs
unfolding least_of
least_of-eq-some [] m e = absurd (cc)
least_of-eq-some (x ∷ xs) m e = elim (Option-cases (least_of xs)) [
  | inl h ↦
      let same : m ≡ x = ground arith in (inl same, (omega arith, rw (least_of-eq-none xs h) tt))
  | inr (k, h) ↦
      let (among, below) = least_of-eq-some xs k h in
      elim (Bool-cases (ltb k x)) [
        | inl t ↦
            let same : m ≡ k = ground arith in
            (
              inr (subst (λ z. Among z xs) (sym same) among),
              (ground arith, subst (λ z. All (λ y. z ≤ y) xs) (sym same) below),
            )
        | inr f ↦
            let same : m ≡ x = ground arith in
            (
              inl same,
              (omega arith, All-weaken (λ z. k ≤ z) (λ z. m ≤ z) xs (λ z l. ground arith) below),
            )
      ]
]

module _ {F : Type 0} ⦃fl : Float F⦄ where
  -- A size that covers what is needed, keeps the floor and is below `below`.
  abbrev pub Covers : F → ℕ → ℕ → ℕ → Type 0
  Covers needed floor below s = (fl.le needed (fl.of_nat s) ≡ true) × (floor ≤ s) × (s < below)

  -- The answer for a ladder: the least of the sizes that cover, or that none of them does.
  abbrev pub IsLeast : F → ℕ → ℕ → List ℕ → Option ℕ → Type 0
  IsLeast needed floor below ladder (some t) =
      Among t ladder
      × Covers needed floor below t
      × All (λ s. ¬ Covers needed floor below s ⊎ (t ≤ s)) ladder
  IsLeast needed floor below ladder none = All (λ s. ¬ Covers needed floor below s) ladder

module _ {F : Type 0} ⦃fl : Float F⦄ (laws : IsFloat fl) where
  of_nat-le_self : (n : ℕ) → fl.le (fl.of_nat n) (fl.of_nat n) ≡ true
  of_nat-le_self n = laws.le-of_nat n n ∙ le→leb n n (omega arith)

  fits_iff :
      (needed : F) (floor below s : ℕ)
      → fl.le needed needed ≡ true
      → (fits needed floor below s ≡ true) ↔ Covers needed floor below s
  unfolding fits
  fits_iff needed floor below s n = (forth, back)
    where
      forth : fits needed floor below s ≡ true → Covers needed floor below s
      forth h =
          let (up, down) =
            max_float-le laws needed (fl.of_nat floor) (fl.of_nat s) n (of_nat-le_self floor)
              (ground arith) in
          (up, leb→le floor s (sym (laws.le-of_nat floor s) ∙ down), ground arith)

      back : Covers needed floor below s → fits needed floor below s ≡ true
      back (up, down, small) = ground (
        arith,
        le-max_float laws needed (fl.of_nat floor) (fl.of_nat s) up
            (laws.le-of_nat floor s ∙ le→leb floor s down),
      )

  -- What a returned size is, and what no size means.
  fit_up_cases :
      (ladder : List ℕ) (needed : F) (floor below : ℕ)
      → fl.le needed needed ≡ true
      → ((t : ℕ)
          → fit_up ladder needed floor below ≡ some t
          → Among t ladder
            × Covers needed floor below t
            × ((s : ℕ) → Among s ladder → Covers needed floor below s → t ≤ s))
        × (fit_up ladder needed floor below ≡ none
            → (s : ℕ) → Among s ladder
            → ¬ Covers needed floor below s)
  unfolding fit_up
  fit_up_cases ladder needed floor below n = (chosen, missing)
    where
      test : ℕ → Bool
      test = fits needed floor below

      chosen :
          (t : ℕ)
          → least_of (filter test ladder) ≡ some t
          → Among t ladder
            × Covers needed floor below t
            × ((s : ℕ) → Among s ladder → Covers needed floor below s → t ≤ s)
      chosen t e =
          let (m, below') = least_of-eq-some (filter test ladder) t e in
          let (m', passes) = Among-filter test ladder m in
          (
            m',
            (fits_iff needed floor below t n).0 passes,
            λ s ms c.
                All-Among (λ z. t ≤ z) (filter test ladder) s below'
                  (Among-filter_of test ladder s ms ((fits_iff needed floor below s n).1 c)),
          )

      missing :
          least_of (filter test ladder) ≡ none
          → (s : ℕ) → Among s ladder
          → ¬ Covers needed floor below s
      missing e s ms c =
          subst (λ xs. Among s xs) (least_of-eq-none (filter test ladder) e)
            (Among-filter_of test ladder s ms ((fits_iff needed floor below s n).1 c))

  -- `fit_up` returns the least size of the ladder that covers the need and the floor and stays below
  -- `below`, whatever the order of the ladder, or `None` when no size of the ladder does.
  pub fit_up-IsLeast :
      (ladder : List ℕ) (needed : F) (floor below : ℕ)
      → fl.le needed needed ≡ true
      → IsLeast needed floor below ladder (fit_up ladder needed floor below)
  fit_up-IsLeast ladder needed floor below n = split (fit_up ladder needed floor below) refl
    where
      split :
          (o : Option ℕ)
          → fit_up ladder needed floor below ≡ o
          → IsLeast needed floor below ladder o
      split (some t) e =
          let (m, c, least) = (fit_up_cases ladder needed floor below n).0 t e in
          (
            m,
            c,
            All-weaken (λ s. Among s ladder) (λ s. ¬ Covers needed floor below s ⊎ (t ≤ s)) ladder
                (λ s ms. elim (Bool-cases (fits needed floor below s)) [
                  | inl fit ↦ inr (least s ms ((fits_iff needed floor below s n).0 fit))
                  | inr unfit ↦ inl (λ c.
                      let fit = (fits_iff needed floor below s n).1 c in absurd (ground arith))
                ])
                (All-self ladder),
          )
      split none e =
          All-weaken (λ s. Among s ladder) (λ s. ¬ Covers needed floor below s) ladder
            ((fit_up_cases ladder needed floor below n).1 e) (All-self ladder)

  least-below :
      (needed : F) (floor current : ℕ) (ladder : List ℕ) (o : Option ℕ)
      → fl.le (fl.of_nat current) needed ≡ true
      → IsLeast needed floor current ladder o
      → o ≡ none
  least-below needed floor current ladder none full h = refl
  least-below needed floor current ladder (some t) full (m, (covers, low, high), least) =
      let over = laws.le_trans (fl.of_nat current) needed (fl.of_nat t) full covers in
      let clash : current ≤ t = leb→le current t (sym (laws.le-of_nat current t) ∙ over) in
      absurd (omega arith)

  -- With `current * observed / 100 * headroom` as the need, which is a number: a downsizing target is
  -- the least ladder size strictly below the current one, and at or above the floor, that is at or
  -- above the need; there is none when no such size is, and so none when the observed share with its
  -- headroom fills the current size.
  pub fit_down-IsLeast :
      (ladder : List ℕ) (current : ℕ) (observed headroom : F) (floor : ℕ)
      → let needed =
          fl.mul (fl.div (fl.mul (fl.of_nat current) observed) (fl.of_nat 100)) headroom in
        fl.le needed needed ≡ true
        → IsLeast needed floor current ladder (fit_down ladder current observed headroom floor)
          × ((fl.le (fl.of_nat current) needed ≡ false)
              ⊎ (fit_down ladder current observed headroom floor ≡ none))
  unfolding fit_down needed_size
  fit_down-IsLeast ladder current observed headroom floor n =
      let needed = fl.mul (fl.div (fl.mul (fl.of_nat current) observed) (fl.of_nat 100)) headroom in
      let least = fit_up-IsLeast ladder needed floor current n in
      (
        least,
        elim (Bool-cases (fl.le (fl.of_nat current) needed)) [
          | inl full ↦ inr (least-below needed floor current ladder _ full least)
          | inr room ↦ inl room
        ],
      )
