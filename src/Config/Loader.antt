-- ===== src/Config/Loader.antt =====
-- `_load_catalogs` and `load_config` of src/config/loader.py. Reading a YAML file and validating a
-- model are parameters.
pub mod Catalogs
pub mod Content
use claude_azure_o11y.Prelude.{
  Bool, true, not, Option, none, some, String, List, [], ◌∷◌, Result, ok, err, ◌>>=◌, value_error,
  ◌==◌, string_eq, filter, any, if◌then◌else◌, is_empty, map,
}
use claude_azure_o11y.Prelude.Text.{◌<>◌, join, before}
use claude_azure_o11y.Prelude.Dict
use claude_azure_o11y.Prelude.Dict.{Dict}
use claude_azure_o11y.Prelude.Sort.{sort}
use claude_azure_o11y.Config.Merge.{Yaml, leaf, mapping, Entries, nil, deep_merge}

-- A type as the loader sees it: its kind, and the file and the model of its catalog. `M` names the
-- pydantic models.
pub record TypeEntry (M : Type 0) : Type 0 where
  pub kind : String
  pub catalog : Option (String × M)

-- What a file holds: it is missing, it is empty or falsy, it is a mapping, or another value.
pub data File (L : Type 0) : Type 0 where
  missing : File L
  falsy : File L
  parsed : Yaml L → File L

-- `_read_yaml`
unfoldable pub read_yaml : {L : Type 0} → String → File L → Result (Entries L)
read_yaml path missing = ok nil
read_yaml path falsy = ok nil
read_yaml path (parsed (mapping d)) = ok d
read_yaml path (parsed (leaf x)) = err (value_error (path <> ": top level must be a mapping"))

-- The catalogs by kind and by file, and the world outside, which a reading of a file may move on.
pub record CatalogState (X W : Type 0) : Type 0 where
  pub catalogs : Dict String X
  pub by_file : Dict String X
  pub world : W

-- The catalog of a kind, behind a reading of its file that left the world `next`.
unfoldable pub add_read :
    {X W : Type 0} → (kind file : String) → X → W → CatalogState X W → CatalogState X W
add_read kind file c next st = record {
  catalogs = Dict.insert kind c st.catalogs;
  by_file = Dict.insert file c st.by_file;
  world = next;
}

abbrev pub no_catalogs : {X W : Type 0} → W → CatalogState X W
no_catalogs world = record { catalogs = []; by_file = []; world = world }

-- `X` is the type of the validated models. `read` opens the file at a path under config/.
module _ {L M X W : Type 0} (read : W → String → File L × W)
    (validate : M → Entries L → Result X) where
  -- One type with a catalog, with what `by_file` has for its file.
  unfoldable pub take_catalog :
      (kind file : String) → M → CatalogState X W → Option X → Result (CatalogState X W)
  unfolding read_yaml add_read
  take_catalog kind file model st (some c) =
      ok (record st { catalogs = Dict.insert kind c st.catalogs })
  take_catalog kind file model st none =
      let (found, next) = read st.world file in
      read_yaml file found >>= λ raw. validate model raw >>= λ c. ok (add_read kind file c next st)

  unfoldable pub catalog_step :
      String → Option (String × M) → CatalogState X W → Result (CatalogState X W)
  unfolding take_catalog
  catalog_step kind none st = ok st
  catalog_step kind (some (file, model)) st =
      take_catalog kind file model st (Dict.lookup file st.by_file)

  unfoldable pub catalogs_from : List (TypeEntry M) → CatalogState X W → Result (CatalogState X W)
  unfolding catalog_step
  catalogs_from [] st = ok st
  catalogs_from (t ∷ types) st = catalog_step t.kind t.catalog st >>= catalogs_from types

  unfoldable pub load_catalogs : List (TypeEntry M) → W → Result (CatalogState X W)
  unfolding catalogs_from
  load_catalogs types world = catalogs_from types (no_catalogs world)

-- What `load_config` returns; `T` is the type of the validated thresholds.
pub record LoadedConfig (T X : Type 0) : Type 0 where
  pub thresholds : T
  pub ignore : X
  pub assignment_groups : X
  pub rules : Dict String X
  pub catalogs : Dict String X

-- The validators of the other models: `blocks` are the `recommend:` blocks by resource kind, and
-- `validate_rules` is that of the kind's rules model.
pub record Validators (L T X : Type 0) : Type 0 where
  pub thresholds : Entries L → Result T
  pub blocks : T → Dict String (Entries L)
  pub validate_rules : String → Entries L → Result X
  pub ignore : Entries L → Result X
  pub assignment_groups : Entries L → Result X
  pub repr : String → String

module _ {L M T X : Type 0} (files : String → File L) (validate : M → Entries L → Result X)
    (v : Validators L T X) (types : List (TypeEntry M)) where
  -- The configured kinds that no type has.
  unfoldable pub unknown_kinds : T → List String
  unknown_kinds t = filter (λ kind. not (any (λ e. e.kind == kind) types)) (Dict.keys (v.blocks t))

  abbrev shown : List String → String
  shown names = "[" <> join ", " (map v.repr (sort before names)) <> "]"

  unfoldable rules_from : Dict String (Entries L) → Result (Dict String X)
  rules_from [] = ok []
  rules_from ((kind, block) ∷ blocks) = v.validate_rules kind block >>= λ rules.
      rules_from blocks >>= λ rest. ok ((kind, rules) ∷ rest)

  -- Behind the check of the kinds.
  unfoldable load_rest : T → Result (LoadedConfig T X)
  unfolding rules_from load_catalogs read_yaml
  load_rest t = rules_from (v.blocks t) >>= λ rules.
      read_yaml "ignore.yaml" (files "ignore.yaml") >>= λ ignore_raw.
      v.ignore ignore_raw >>= λ ignore.
      read_yaml "assignment-groups.yaml" (files "assignment-groups.yaml") >>= λ groups_raw.
      v.assignment_groups groups_raw >>= λ groups.
      load_catalogs (λ (w : Unit {0}) path. (files path, w)) validate types tt >>= λ st.
      ok (record {
        thresholds = t;
        ignore = ignore;
        assignment_groups = groups;
        rules = rules;
        catalogs = st.catalogs;
      })

  unfoldable pub load_config : (mg_id : String) → Result (LoadedConfig T X)
  unfolding load_rest unknown_kinds before
  load_config mg_id =
      let own = "thresholds/" <> mg_id <> ".yaml" in
      read_yaml "thresholds/default.yaml" (files "thresholds/default.yaml") >>= λ base.
      read_yaml own (files own) >>= λ override. v.thresholds (deep_merge base override) >>= λ t.
      if is_empty (unknown_kinds t)
      then load_rest t
      else err (
          value_error (
            "thresholds: unknown resource types "
            <> shown (unknown_kinds t)
            <> "; known: "
            <> shown (map (λ e. e.kind) types)))
