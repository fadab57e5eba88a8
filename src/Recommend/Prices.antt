-- ===== src/Recommend/Prices.antt =====
-- src/recommend/pricing.py: the choice of a monthly price, and the client with its cache. The HTTP
-- call is a parameter.
pub mod Cache
pub mod Choice
use claude_azure_o11y.Prelude.{
  ℕ, ◌*◌, Bool, true, false, not, ◌&&◌, ◌||◌, Option, none, some, String, List, [], ◌∷◌, Result, ok,
  err, ◌>>=◌, map_result, Exception, exception, permission_missing, key_error, ◌==◌, string_eq,
  pair_eq, filter, ltb, if◌then◌else◌,
}
use claude_azure_o11y.Prelude.Text.{◌<>◌, lower, contains}
use claude_azure_o11y.Prelude.Dict
use claude_azure_o11y.Prelude.Dict.{Dict}
use claude_azure_o11y.Float.{Float}
use claude_azure_o11y.Models.{Decimal, Value, text}
use claude_azure_o11y.Models.Props.{str_of}
use claude_azure_o11y.Recommend.Ladder.{least_of}

-- An item of the answer, a JSON object of plain values.
abbrev pub PriceItem : Type 0 → Type 0
PriceItem F = Dict String (Value F)

-- `_EXCLUDED_SKU_WORDS`
unfoldable pub is_excluded_sku : String → Bool
is_excluded_sku sku_name = contains "spot" sku_name || contains "low priority" sku_name

module _ {F : Type 0} ⦃fl : Float F⦄ where
  -- `str(item.get(name, default))`
  unfoldable pub item_text : PriceItem F → (name default : String) → String
  item_text item name default = elim (Dict.lookup name item) [ none ↦ default | some v ↦ str_of v ]

  -- An item that the loop does not pass over.
  unfoldable pub is_wanted : (os_type : String) → PriceItem F → Bool
  unfolding item_text is_excluded_sku
  is_wanted os_type item =
      let is_windows = contains "windows" (lower (item_text item "productName" "")) in
      not (is_excluded_sku (lower (item_text item "skuName" "")))
      && ((if lower os_type == "windows" then is_windows else not is_windows)
          && (item_text item "type" "Consumption" == "Consumption"))

  module _ (parse_decimal : String → Option Decimal) where
    -- `Decimal(str(item["unitPrice"]))`
    unfoldable pub unit_price : PriceItem F → Result Decimal
    unit_price item = elim (Dict.lookup "unitPrice" item) [
      | none ↦ err (key_error "unitPrice")
      | some v ↦ elim (parse_decimal (str_of v)) [
        | none ↦ err (exception "InvalidOperation" "ConversionSyntax")
        | some price ↦ ok price
      ]
    ]

    unfoldable pub select_monthly_price :
        List (PriceItem F) → (os_type : String) → Result (Option Decimal)
    unfolding is_wanted unit_price
    select_monthly_price items os_type =
        map_result unit_price (filter (is_wanted os_type) items) >>= λ prices.
        ok (elim (least_of prices) [ none ↦ none | some p ↦ some (p * 730) ])

abbrev pub PriceKey : Type 0
PriceKey = String × (String × String)

abbrev pub PriceCache : Type 0
PriceCache = Dict PriceKey (Option Decimal)

abbrev pub price_key : (region sku os_type : String) → PriceKey
price_key region sku os_type = (lower region, (lower sku, lower os_type))

-- The filter of the request.
abbrev pub price_filter : (region sku : String) → String
price_filter region sku =
    "serviceName eq 'Virtual Machines' and armRegionName eq '" <> region <> "' and armSkuName eq '"
    <> sku <> "' and priceType eq 'Consumption'"

-- The client and its call: `fetch` is the GET with its filter and currency up to
-- `resp.json().get("Items", [])`, which moves the world outside of the program from one state of `W`
-- to the next, and `is_caught` tells the names of `httpx.HTTPError`, `ValueError` and `KeyError` and of
-- their subclasses.
pub record PriceClient (F W : Type 0) : Type 0 where
  pub fetch : (world : W) → (flt currency : String) → Result (List (PriceItem F)) × W
  pub currency : String
  pub parse_decimal : String → Option Decimal
  pub is_caught : String → Bool

module _ {F W : Type 0} ⦃fl : Float F⦄ (client : PriceClient F W) where
  -- The body of the `try`.
  unfoldable pub fetch_price :
      (world : W) → (region sku os_type : String) → Result (Option Decimal) × W
  unfolding select_monthly_price
  fetch_price world region sku os_type =
      let (items, next) = client.fetch world (price_filter region sku) client.currency in
      (items >>= λ found. select_monthly_price client.parse_decimal found os_type, next)

  -- The rest of the lookup, and the cache as it leaves it.
  unfoldable pub after_fetch :
      PriceKey → PriceCache → Result (Option Decimal) → Result (Option Decimal) × PriceCache
  after_fetch key cache (ok price) = (ok price, Dict.insert key price cache)
  after_fetch key cache (err (permission_missing need detail)) =
      (err (permission_missing need detail), cache)
  after_fetch key cache (err (exception name why)) =
      if client.is_caught name
      then (ok none, Dict.insert key none cache)
      else (err (exception name why), cache)

  -- What is behind the look into the cache: a hit returns in front of the GET.
  unfoldable pub after_cached :
      PriceCache
      → (world : W) → (region sku os_type : String) → Option (Option Decimal)
      → Result (Option Decimal) × (PriceCache × W)
  unfolding fetch_price after_fetch
  after_cached cache world region sku os_type (some price) = (ok price, (cache, world))
  after_cached cache world region sku os_type none =
      let (fetched, next) = fetch_price world region sku os_type in
      let (answer, cache') = after_fetch (price_key region sku os_type) cache fetched in
      (answer, (cache', next))

  unfoldable pub monthly_price :
      PriceCache
      → (world : W) → (region sku os_type : String) → Result (Option Decimal) × (PriceCache × W)
  unfolding after_cached
  monthly_price cache world region sku os_type =
      after_cached cache world region sku os_type (Dict.lookup (price_key region sku os_type) cache)
