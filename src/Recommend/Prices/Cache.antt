-- ===== src/Recommend/Prices/Cache.antt =====
-- The cache of the price client of src/recommend/pricing.py over a run of lookups.
use claude_azure_o11y.Prelude.{
  ◌≡◌, ◌↔◌, refl, ◌∙◌, sym, ap, Bool, true, false, Option, none, some, String, List, [], ◌∷◌, arith,
  ◌==◌, string_eq, pair_eq, Result, ok, err, exception, permission_missing, if◌then◌else◌,
}
use claude_azure_o11y.Prelude.Dict
use claude_azure_o11y.Prelude.Dict.{Dict, lookup-insert}
use claude_azure_o11y.Float.{Float}
use claude_azure_o11y.Models.{Decimal}
use claude_azure_o11y.Recommend.Prices.{
  PriceClient, PriceCache, PriceKey, price_key, fetch_price, after_fetch, after_cached,
  monthly_price,
}

-- The arguments of a lookup.
pub record Lookup : Type 0 where
  pub region : String
  pub sku : String
  pub os_type : String

abbrev pub key_for : Lookup → PriceKey
key_for l = price_key l.region l.sku l.os_type

-- What an exception leaves: no price in the cache if it is caught.
abbrev handled :
    PriceKey → PriceCache → (name why : String) → Bool → Result (Option Decimal) × PriceCache
handled key cache name why caught =
    if caught then (ok none, Dict.insert key none cache) else (err (exception name why), cache)

key_iff : (j k : PriceKey) → (j == k ≡ true) ↔ (j ≡ k)
key_iff j k = pair_eq.same_iff j k

module _ {F W : Type 0} ⦃fl : Float F⦄ (client : PriceClient F W) where
  -- A lookup, and the cache and the world behind a sequence of lookups, each of which returned or
  -- raised.
  abbrev pub look_up : PriceCache × W → Lookup → Result (Option Decimal) × (PriceCache × W)
  look_up (cache, world) l = monthly_price client cache world l.region l.sku l.os_type

  abbrev pub lookups : PriceCache × W → List Lookup → PriceCache × W
  lookups st [] = st
  lookups st (l ∷ ls) = lookups (look_up st l).1 ls

  insert-same :
      (k : PriceKey) (p : Option Decimal) (d : PriceCache)
      → Dict.lookup k (Dict.insert k p d) ≡ some p
  insert-same k p d = lookup-insert k k p d ∙ split (k == k) ((key_iff k k).1 refl)
    where
      split : (b : Bool) → b ≡ true → (if b then some p else Dict.lookup k d) ≡ some p
      split true h = refl
      split false h = absurd (cc)

  after_fetch-lookup :
      (key : PriceKey) (cache : PriceCache) (fetched : Result (Option Decimal)) (p : Option Decimal)
      → (after_fetch client key cache fetched).0 ≡ ok p
      → Dict.lookup key (after_fetch client key cache fetched).1 ≡ some p
  unfolding after_fetch
  after_fetch-lookup key cache (ok price) p h = insert-same key price cache ∙ ground arith
  after_fetch-lookup key cache (err (permission_missing need detail)) p h = absurd (cc)
  after_fetch-lookup key cache (err (exception name why)) p h = split (client.is_caught name) h
    where
      split :
          (b : Bool)
          → (handled key cache name why b).0 ≡ ok p
          → Dict.lookup key (handled key cache name why b).1 ≡ some p
      split true h' = insert-same key none cache ∙ ground arith
      split false h' = absurd (cc)

  -- A key that is in the cache stays there, with its price, when another key is fetched.
  insert_other :
      (k j : PriceKey) (p v : Option Decimal) (d : PriceCache)
      → Dict.lookup k d ≡ some p
      → Dict.lookup j d ≡ none
      → Dict.lookup k (Dict.insert j v d) ≡ some p
  insert_other k j p v d held free = lookup-insert j k v d ∙ split (j == k) (key_iff j k).0
    where
      split : (b : Bool) → (b ≡ true → j ≡ k) → (if b then some v else Dict.lookup k d) ≡ some p
      split true f =
          let clash : some p ≡ none = sym held ∙ ap (λ i. Dict.lookup i d) (sym (f refl)) ∙ free in
          absurd (cc)
      split false f = held

  after_fetch-keeps :
      (k key : PriceKey) (cache : PriceCache) (fetched : Result (Option Decimal))
      (p : Option Decimal)
      → Dict.lookup k cache ≡ some p
      → Dict.lookup key cache ≡ none
      → Dict.lookup k (after_fetch client key cache fetched).1 ≡ some p
  unfolding after_fetch
  after_fetch-keeps k key cache (ok price) p held free = insert_other k key p price cache held free
  after_fetch-keeps k key cache (err (permission_missing need detail)) p held free = held
  after_fetch-keeps k key cache (err (exception name why)) p held free =
      split (client.is_caught name)
    where
      split : (b : Bool) → Dict.lookup k (handled key cache name why b).1 ≡ some p
      split true = insert_other k key p none cache held free
      split false = held

  after_cached-keeps :
      (k : PriceKey) (cache : PriceCache) (world : W) (l : Lookup) (o : Option (Option Decimal))
      (p : Option Decimal)
      → Dict.lookup k cache ≡ some p
      → Dict.lookup (key_for l) cache ≡ o
      → Dict.lookup k (after_cached client cache world l.region l.sku l.os_type o).1.0 ≡ some p
  unfolding after_cached
  after_cached-keeps k cache world l (some q) p held e = held
  after_cached-keeps k cache world l none p held e =
      after_fetch-keeps k (key_for l) cache (fetch_price client world l.region l.sku l.os_type).0 p
        held e

  after_cached-lookup :
      (cache : PriceCache) (world : W) (l : Lookup) (o : Option (Option Decimal))
      (p : Option Decimal)
      → Dict.lookup (key_for l) cache ≡ o
      → (after_cached client cache world l.region l.sku l.os_type o).0 ≡ ok p
      → Dict.lookup (key_for l) (after_cached client cache world l.region l.sku l.os_type o).1.0
        ≡ some p
  unfolding after_cached
  after_cached-lookup cache world l (some q) p e h = e ∙ ground arith
  after_cached-lookup cache world l none p e h =
      after_fetch-lookup (key_for l) cache (fetch_price client world l.region l.sku l.os_type).0 p h

  lookups-keeps :
      (ls : List Lookup) (k : PriceKey) (st : PriceCache × W) (p : Option Decimal)
      → Dict.lookup k st.0 ≡ some p
      → Dict.lookup k (lookups st ls).0 ≡ some p
  unfolding monthly_price
  lookups-keeps [] k st p held = held
  lookups-keeps (l ∷ ls) k st p held =
      lookups-keeps ls k (look_up st l).1 p
        (after_cached-keeps k st.0 st.1 l (Dict.lookup (key_for l) st.0) p held refl)

  -- Once a lookup has returned a price, or that there is none, every later lookup of the same region,
  -- SKU and system, in any case and behind any other lookups, returns the same, leaves the cache as
  -- it is, and leaves the world outside as it is, whatever a fetch would do to it.
  pub monthly_price-stays :
      (st : PriceCache × W) (l : Lookup) (p : Option Decimal) (between : List Lookup)
      (again : Lookup)
      → (look_up st l).0 ≡ ok p
      → key_for again ≡ key_for l
      → look_up (lookups (look_up st l).1 between) again ≡ (ok p, lookups (look_up st l).1 between)
  unfolding monthly_price after_cached
  monthly_price-stays st l p between again h same =
      let first = after_cached-lookup st.0 st.1 l (Dict.lookup (key_for l) st.0) p refl h in
      let held = lookups-keeps between (key_for l) (look_up st l).1 p first in
      rw (ap (λ k. Dict.lookup k (lookups (look_up st l).1 between).0) same ∙ held) refl
