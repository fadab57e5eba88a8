-- ===== src/Types/Row.antt =====
-- src/resource_types/registry.py: what the parsers share. A row is a JSON object: a cell is a plain
-- value, or a list or an object with its `str`. What lies deeper than a parser reads is a plain
-- value `other`.
pub mod Base
use claude_azure_o11y.Prelude.{
  ℕ, Bool, not, Option, none, some, String, List, [], ◌∷◌, Result, ok, err, ◌>>=◌, key_error,
  type_error, Exception, exception, is_empty, ◌==◌, string_eq, if◌then◌else◌,
}
use claude_azure_o11y.Prelude.Text.{lower, or_text}
use claude_azure_o11y.Prelude.Dict
use claude_azure_o11y.Prelude.Dict.{Dict}
use claude_azure_o11y.Float.{Float}
use claude_azure_o11y.Models.{Resource, Skip, Value, text, null}
use claude_azure_o11y.Models.Props.{prop, str_of, truth, int_of}

pub data Item (F : Type 0) : Type 0 where
  leaf : Value F → Item F
  entry : (shown : String) → Dict String (Value F) → Item F

pub data Cell (F : Type 0) : Type 0 where
  plain : Value F → Cell F
  array : (shown : String) → List (Item F) → Cell F
  object : (shown : String) → Dict String (Value F) → Cell F

abbrev pub Row : Type 0 → Type 0
Row F = Dict String (Cell F)

abbrev pub never_skip : {F : Type 0} → Resource F → Option Skip
never_skip r = none

abbrev pub no_enrichment : {F X : Type 0} → Resource F → X → Result (Resource F)
no_enrichment r rules = ok r

abbrev attribute_error : Exception
attribute_error = exception "AttributeError" "object has no attribute 'items'"

module _ {F : Type 0} where
  -- `row.get(name)`
  unfoldable pub cell : Row F → String → Cell F
  cell row name = elim (Dict.lookup name row) [ none ↦ plain null | some c ↦ c ]

module _ {F : Type 0} ⦃fl : Float F⦄ where
  -- `bool(c)`
  unfoldable pub cell_truth : Cell F → Bool
  cell_truth (plain v) = truth v
  cell_truth (array shown items) = not (is_empty items)
  cell_truth (object shown entries) = not (is_empty entries)

  -- `str(c)`
  unfoldable pub cell_str : Cell F → String
  cell_str (plain v) = str_of v
  cell_str (array shown items) = shown
  cell_str (object shown entries) = shown

  -- `int(c)`
  unfoldable pub cell_int : Cell F → Result ℕ
  cell_int (plain v) = int_of v
  cell_int (array shown items) = err (type_error "int() of a list")
  cell_int (object shown entries) = err (type_error "int() of a dict")

  -- `bool(row.get(name) or False)`
  unfoldable pub flag_column : Row F → String → Bool
  unfolding cell_truth
  flag_column row name = cell_truth (cell row name)

  -- `str(row.get(name) or "")`
  unfoldable pub text_column : Row F → String → String
  unfolding cell_str
  text_column row name = if flag_column row name then cell_str (cell row name) else ""

  -- `int(row.get(name) or 0)`
  unfoldable pub count_column : Row F → String → Result ℕ
  unfolding cell_int
  count_column row name = if flag_column row name then cell_int (cell row name) else ok 0

  -- `str(row[name])`
  unfoldable pub required : Row F → String → Result String
  unfolding cell_str
  required row name = elim (Dict.lookup name row) [
    | none ↦ err (key_error name)
    | some c ↦ ok (cell_str c)
  ]

  -- The entries of a tag object whose value is not null, as texts.
  unfoldable pub kept_tags : Dict String (Value F) → Dict String String
  kept_tags [] = []
  kept_tags ((k, null) ∷ tags) = kept_tags tags
  kept_tags ((k, v) ∷ tags) = (k, str_of v) ∷ kept_tags tags

  -- `(c or {}).items()`
  unfoldable pub tag_items : Cell F → Result (Dict String (Value F))
  tag_items (object shown entries) = ok entries
  tag_items (array shown items) = if is_empty items then ok [] else err attribute_error
  tag_items (plain v) = if truth v then err attribute_error else ok []

  unfoldable pub parse_tags : Row F → Result (Dict String String)
  unfolding cell kept_tags tag_items
  parse_tags row = tag_items (cell row "tags") >>= λ tags. ok (kept_tags tags)

  unfoldable pub base_resource :
      Row F → (kind arm_type sku : String) → Dict String (Value F) → Result (Resource F)
  unfolding required
  base_resource row kind arm_type sku props = required row "id" >>= λ id.
      required row "name" >>= λ name. required row "subscriptionId" >>= λ subscription_id.
      required row "resourceGroup" >>= λ resource_group. required row "location" >>= λ location.
      parse_tags row >>= λ tags. ok (record {
        kind = kind;
        id = id;
        name = name;
        arm_type = arm_type;
        subscription_id = subscription_id;
        resource_group = resource_group;
        location = location;
        sku = sku;
        tags = tags;
        props = props;
      })

  -- The check that `require_state` returns.
  unfoldable pub require_state : (name expected reason : String) → Resource F → Option Skip
  require_state name expected reason r =
      let state = str_of (prop r name (text "")) in
      if lower state == lower expected
      then none
      else some (record { resource_id = r.id; reason = reason; detail = or_text state "unknown" })
