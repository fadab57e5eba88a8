-- ===== src/Models/Props.antt =====
-- How the code reads `Resource.props`: `prop(name, default)`, `str(…)`, `bool(…)`, `int(… or 0)`.
use claude_azure_o11y.Prelude.{
  ℕ, Bool, true, false, not, Option, none, some, String, Result, ok, err, value_error, type_error,
  is_empty, map, ◌==◌, string_eq, nat_eq, if◌then◌else◌,
}
use claude_azure_o11y.Prelude.Text.{show_nat, is_text, join, ◌<>◌}
use claude_azure_o11y.Prelude.Dict
use claude_azure_o11y.Float.{Float}
use claude_azure_o11y.Models.{
  Resource, Value, Pool, text, nat, flag, num, null, texts, pools, other,
}

int_text : Option ℕ → Result ℕ
int_text none = err (value_error "invalid literal for int()")
int_text (some n) = ok n

module _ {F : Type 0} where
  -- `Resource.prop(name, default)`
  unfoldable pub prop : Resource F → String → Value F → Value F
  prop r name default = elim (Dict.lookup name r.props) [ none ↦ default | some v ↦ v ]

abbrev show_flag : Bool → String
show_flag true = "True"
show_flag false = "False"

-- `repr(pool)`
show_pool : (repr : String → String) → Pool → String
show_pool repr p =
    "{'name': "
    <> repr p.name
    <> ", 'vm_size': "
    <> repr p.vm_size
    <> ", 'count': "
    <> show_nat p.count
    <> ", 'mode': "
    <> repr p.mode
    <> ", 'autoscale': "
    <> show_flag p.autoscale
    <> ", 'min_count': "
    <> show_nat p.min_count
    <> ", 'max_count': "
    <> show_nat p.max_count
    <> "}"

module _ {F : Type 0} ⦃fl : Float F⦄ where
  -- `str(v)`
  unfoldable pub str_of : Value F → String
  unfolding show_pool
  str_of (text s) = s
  str_of (nat n) = show_nat n
  str_of (flag b) = show_flag b
  str_of (num x) = fl.show_float x
  str_of null = "None"
  str_of (texts ss) = "[" <> join ", " (map fl.repr ss) <> "]"
  str_of (pools ps) = "[" <> join ", " (map (show_pool fl.repr) ps) <> "]"
  str_of (other s b) = s

  -- `bool(v)`
  unfoldable pub truth : Value F → Bool
  truth (text s) = is_text s
  truth (nat n) = not (n == 0)
  truth (flag b) = b
  truth (num x) = not (fl.eq x (fl.of_nat 0))
  truth null = false
  truth (texts ss) = not (is_empty ss)
  truth (pools ps) = not (is_empty ps)
  truth (other s b) = b

  -- `v or d`
  unfoldable pub or_value : Value F → Value F → Value F
  unfolding truth
  or_value v d = if truth v then v else d

  -- `int(v)`
  unfoldable pub int_of : Value F → Result ℕ
  unfolding int_text
  int_of (text s) = int_text (fl.parse_int s)
  int_of (nat n) = ok n
  int_of (flag true) = ok 1
  int_of (flag false) = ok 0
  int_of (num x) = ok (fl.to_int x)
  int_of null = err (type_error "int() of None")
  int_of (texts ss) = err (type_error "int() of a list")
  int_of (pools ps) = err (type_error "int() of a list")
  int_of (other s b) = err (type_error "int() of an object")

  -- `float(v)`
  unfoldable pub float_of : Value F → Result F
  float_of (text s) = elim (fl.parse_float s) [
    | none ↦ err (value_error "could not convert string to float")
    | some x ↦ ok x
  ]
  float_of (nat n) = ok (fl.of_nat n)
  float_of (flag true) = ok (fl.of_nat 1)
  float_of (flag false) = ok (fl.of_nat 0)
  float_of (num x) = ok x
  float_of null = err (type_error "float() of None")
  float_of (texts ss) = err (type_error "float() of a list")
  float_of (pools ps) = err (type_error "float() of a list")
  float_of (other s b) = err (type_error "float() of an object")

  -- `int(r.prop(name, 0) or 0)`, and `str(r.prop(name, "") or "")`
  abbrev pub int_prop : Resource F → String → Result ℕ
  int_prop r name = int_of (or_value (prop r name (nat 0)) (nat 0))

  abbrev pub str_prop : Resource F → String → String
  str_prop r name = str_of (or_value (prop r name (text "")) (text ""))
