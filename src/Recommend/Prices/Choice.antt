-- ===== src/Recommend/Prices/Choice.antt =====
-- The price that `select_monthly_price` of src/recommend/pricing.py chooses.
use claude_azure_o11y.Prelude.{
  ℕ, ◌*◌, ◌≤◌, ◌≡◌, refl, ◌∙◌, sym, ap, subst, true, Option, none, some, String, List, [], ◌∷◌,
  arith, inl, inr, Result, ok, >>=-eq-ok, map_result, filter, Among, Among-filter, Among-filter_of,
  All-Among,
}
use claude_azure_o11y.Float.{Float}
use claude_azure_o11y.Models.{Decimal}
use claude_azure_o11y.Recommend.Ladder.{least_of}
use claude_azure_o11y.Recommend.Ladder.Fit.{least_of-eq-some, least_of-eq-none}
use claude_azure_o11y.Recommend.Prices.{PriceItem, is_wanted, unit_price, select_monthly_price}

module _ {A B : Type 0} where
  -- The results of a loop are those of its elements.
  map_result-Among :
      (f : A → Result B) (xs : List A) (ys : List B) (y : B)
      → map_result f xs ≡ ok ys
      → Among y ys
      → (x : A) × Among x xs × (f x ≡ ok y)
  unfolding map_result
  map_result-Among f [] ys y h m =
      let same : [] ≡ ys = ground arith in absurd (subst (Among y) (sym same) m)
  map_result-Among f (x ∷ xs) ys y h m =
      let (z, first, rest) = >>=-eq-ok (f x) _ h in
      let (zs, others, last) = >>=-eq-ok (map_result f xs) _ rest in
      let same : ys ≡ z ∷ zs = ground arith in
      elim (subst (Among y) same m) [
        | inl e ↦ (x, inl refl, first ∙ ap ok (sym e))
        | inr later ↦ let (x', m', e) = map_result-Among f xs zs y others later in (x', inr m', e)
      ]

  Among-map_result :
      (f : A → Result B) (xs : List A) (ys : List B) (x : A)
      → map_result f xs ≡ ok ys
      → Among x xs
      → (y : B) × Among y ys × (f x ≡ ok y)
  unfolding map_result
  Among-map_result f [] ys x h m = absurd (m)
  Among-map_result f (w ∷ xs) ys x h m =
      let (z, first, rest) = >>=-eq-ok (f w) _ h in
      let (zs, others, last) = >>=-eq-ok (map_result f xs) _ rest in
      let same : z ∷ zs ≡ ys = ground arith in
      elim m [
        | inl e ↦ (z, subst (Among z) same (inl refl), ap f e ∙ first)
        | inr later ↦
            let (y, m', e) = Among-map_result f xs zs x others later in
            (y, subst (Among y) same (inr m'), e)
      ]

module _ {F : Type 0} ⦃fl : Float F⦄ (parse_decimal : String → Option Decimal) where
  -- A wanted item with its hourly price.
  abbrev pub IsOffer : List (PriceItem F) → String → PriceItem F → Decimal → Type 0
  IsOffer items os_type item p =
      Among item items × (is_wanted os_type item ≡ true) × (unit_price parse_decimal item ≡ ok p)

  -- The answer for the items: 730 hours of the least offer, or nothing when there is no offer.
  abbrev pub IsCheapest : List (PriceItem F) → String → Option Decimal → Type 0
  IsCheapest items os_type (some month) =
      (item : PriceItem F) × ((p : Decimal) × IsOffer items os_type item p
        × (month ≡ p * 730)
        × ((other : PriceItem F) (q : Decimal) → IsOffer items os_type other q → p ≤ q))
  IsCheapest items os_type none =
      (other : PriceItem F) (q : Decimal) → ¬ IsOffer items os_type other q

  -- A returned price is 730 hours of the least hourly price among the items of the system that are
  -- neither spot nor low priority and are billed by consumption; nothing is returned only when there
  -- is no such item.
  pub select_monthly_price-IsCheapest :
      (items : List (PriceItem F)) (os_type : String) (price : Option Decimal)
      → select_monthly_price parse_decimal items os_type ≡ ok price
      → IsCheapest items os_type price
  unfolding select_monthly_price
  select_monthly_price-IsCheapest items os_type price h =
      let (prices, loop, last) =
        >>=-eq-ok (map_result (unit_price parse_decimal) (filter (is_wanted os_type) items)) _ h in
      let same : (elim (least_of prices) [ none ↦ none | some p ↦ some (p * 730) ]) ≡ price =
        ground arith in
      subst (IsCheapest items os_type) same (choose prices loop (least_of prices) refl)
    where
      offered :
          (prices : List Decimal)
          → map_result (unit_price parse_decimal) (filter (is_wanted os_type) items) ≡ ok prices
          → (other : PriceItem F) (q : Decimal) → IsOffer items os_type other q
          → Among q prices
      offered prices loop other q (m, wanted, e) =
          let (y, m', e') =
            Among-map_result (unit_price parse_decimal) (filter (is_wanted os_type) items) prices
              other loop (Among-filter_of (is_wanted os_type) items other m wanted) in
          let same : y ≡ q = ground arith in subst (λ z. Among z prices) same m'

      choose :
          (prices : List Decimal)
          → map_result (unit_price parse_decimal) (filter (is_wanted os_type) items) ≡ ok prices
          → (o : Option ℕ) → least_of prices ≡ o
          → IsCheapest items os_type (elim o [ none ↦ none | some p ↦ some (p * 730) ])
      choose prices loop none e = λ other q offer.
          subst (Among q) (least_of-eq-none prices e) (offered prices loop other q offer)
      choose prices loop (some p) e =
          let (among, least) = least_of-eq-some prices p e in
          let (item, m, priced) =
            map_result-Among (unit_price parse_decimal) (filter (is_wanted os_type) items) prices p
              loop among in
          let (inside, wanted) = Among-filter (is_wanted os_type) items m in
          (
            item,
            (
              p,
              (inside, wanted, priced),
              refl,
              λ other q offer.
                  All-Among (λ z. p ≤ z) prices q least (offered prices loop other q offer),
            ),
          )
