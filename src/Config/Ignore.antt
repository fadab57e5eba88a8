-- ===== src/Config/Ignore.antt =====
-- `IgnoreConfig` of src/config/models.py. `re.compile(p, re.IGNORECASE)` is a parameter: the match of
-- the pattern, or the exception that it raises, which is `re.error` or another.
use claude_azure_o11y.Prelude.{
  none, some, String, List, [], ◌∷◌, ◌++◌, Result, ok, err, ◌>>=◌, value_error, exception,
  permission_missing, map_result, string_eq, ◌==◌, if◌then◌else◌,
}
use claude_azure_o11y.Prelude.Text.{◌<>◌}
use claude_azure_o11y.Prelude.Dict
use claude_azure_o11y.Prelude.Dict.{Dict}
use claude_azure_o11y.Inventory.Filters.{Pattern}

pub record IgnoreConfig : Type 0 where
  pub resource_groups : List String
  pub per_mg : Dict String (List String)

module _ (repr : String → String) (compile : String → Result Pattern) where
  unfoldable after_compile : String → Result Pattern → Result (Unit {0})
  after_compile pattern (ok p) = ok tt
  after_compile pattern (err (permission_missing need detail)) =
      err (permission_missing need detail)
  after_compile pattern (err (exception name why)) =
      if name == "error"
      then err (value_error ("invalid regex " <> repr pattern <> ": " <> why))
      else err (exception name why)

  -- `_check_regex`
  unfoldable pub check_regex : String → Result (Unit {0})
  unfolding after_compile
  check_regex pattern = after_compile pattern (compile pattern)

  unfoldable check_all : List String → Result (Unit {0})
  unfolding check_regex
  check_all [] = ok tt
  check_all (p ∷ patterns) = check_regex p >>= λ done. check_all patterns

  unfoldable pub check_per_mg : Dict String (List String) → Result (Unit {0})
  unfolding check_all
  check_per_mg [] = ok tt
  check_per_mg ((mg, patterns) ∷ rest) = check_all patterns >>= λ done. check_per_mg rest

  -- The two field validators.
  unfoldable pub check_ignore : IgnoreConfig → Result IgnoreConfig
  unfolding check_per_mg check_all
  check_ignore c = check_all c.resource_groups >>= λ done. check_per_mg c.per_mg >>= λ done'. ok c

  -- `IgnoreConfig.patterns_for`
  unfoldable pub patterns_for : IgnoreConfig → String → Result (List Pattern)
  patterns_for c mg_id =
      map_result compile
        (c.resource_groups ++ elim (Dict.lookup mg_id c.per_mg) [ none ↦ [] | some own ↦ own ])
