-- ===== src/Config/Loader/Content.antt =====
-- The catalogs that `_load_catalogs` of src/config/loader.py returns are those of their files.
use claude_azure_o11y.Prelude.{
  ◌≡◌, refl, subst, Bool-cases, inl, inr, Option, none, some, String, List, [], ◌∷◌, arith, ◌==◌,
  string_eq, All, All-self, All-weaken, Among, Result, ok, >>=-eq-ok,
}
use claude_azure_o11y.Prelude.Dict
use claude_azure_o11y.Prelude.Dict.{Dict, lookup-insert}
use claude_azure_o11y.Config.Merge.{Entries}
use claude_azure_o11y.Config.Loader.{
  TypeEntry, File, read_yaml, CatalogState, take_catalog, catalog_step, catalogs_from,
  load_catalogs, no_catalogs,
}
use claude_azure_o11y.Config.Loader.Catalogs.{
  logged, NoRepeats, IsServed, IsRegistry, IsRead, from-IsRead, from-IsServed,
}

module _ {L M X : Type 0} (files : String → File L) (validate : M → Entries L → Result X) where
  -- A catalog is what the model that one of the types declares for the file makes of its content.
  abbrev pub IsOf : List (TypeEntry M) → String → X → Type 0
  IsOf types file c =
      (t : TypeEntry M) × (model : M) × (raw : Entries L) × Among t types
      × (t.catalog ≡ some (file, model))
      × (read_yaml file (files file) ≡ ok raw)
      × (validate model raw ≡ ok c)

  -- Every catalog that is kept for a file is of that file.
  abbrev IsKept : List (TypeEntry M) → CatalogState X (List String) → Type 0
  IsKept types st = (f : String) (c : X) → Dict.lookup f st.by_file ≡ some c → IsOf types f c

  take_catalog-IsKept :
      (types : List (TypeEntry M)) (t : TypeEntry M) (file : String) (model : M)
      (st st' : CatalogState X (List String)) (o : Option X)
      → Among t types
      → t.catalog ≡ some (file, model)
      → take_catalog (logged files) validate t.kind file model st o ≡ ok st'
      → IsKept types st
      → IsKept types st'
  unfolding take_catalog
  take_catalog-IsKept types t file model st st' (some c) among own h kept =
      let same : record st { catalogs = Dict.insert t.kind c st.catalogs } ≡ st' = ground arith in
      subst (IsKept types) same kept
  take_catalog-IsKept types t file model st st' none among own h kept =
      let (raw, e1, h1) = >>=-eq-ok (read_yaml file (files file)) _ h in
      let (c, e2, h2) = >>=-eq-ok (validate model raw) _ h1 in
      let same : record {
        catalogs = Dict.insert t.kind c st.catalogs;
        by_file = Dict.insert file c st.by_file;
        world = file ∷ st.world;
      }
          ≡ st' =
        ground arith in
      subst (IsKept types) same (λ f d found. elim (Bool-cases (file == f)) [
        | inl t' ↦
            let path : file ≡ f = (string_eq.same_iff file f).0 t' in
            let made : c ≡ d = ground (arith, lookup-insert file f c st.by_file) in
            subst (λ x. IsOf types x d) path
              (subst (IsOf types file) made (t, model, raw, among, own, e1, e2))
        | inr f' ↦ kept f d (ground (arith, lookup-insert file f c st.by_file))
      ])

  step-IsKept :
      (types : List (TypeEntry M)) (t : TypeEntry M) (o : Option (String × M))
      (st st' : CatalogState X (List String))
      → Among t types
      → t.catalog ≡ o
      → catalog_step (logged files) validate t.kind o st ≡ ok st'
      → IsKept types st
      → IsKept types st'
  unfolding catalog_step
  step-IsKept types t none st st' among own h kept =
      let same : st ≡ st' = ground arith in subst (IsKept types) same kept
  step-IsKept types t (some (file, model)) st st' among own h kept =
      take_catalog-IsKept types t file model st st' (Dict.lookup file st.by_file) among own h kept

  from-IsKept :
      (all_types types : List (TypeEntry M)) (st st' : CatalogState X (List String))
      → All (λ t. Among t all_types) types
      → catalogs_from (logged files) validate types st ≡ ok st'
      → IsKept all_types st
      → IsKept all_types st'
  unfolding catalogs_from
  from-IsKept all_types [] st st' among h kept =
      let same : st ≡ st' = ground arith in subst (IsKept all_types) same kept
  from-IsKept all_types (t ∷ types) st st' (here, among) h kept =
      let (next, e, rest) =
        >>=-eq-ok (catalog_step (logged files) validate t.kind t.catalog st) _ h in
      from-IsKept all_types types next st' among rest
        (step-IsKept all_types t t.catalog st next here refl e kept)

  -- A type with a catalog has one, which is the one that is kept for its file and is of that file.
  abbrev pub IsLoaded :
      List (TypeEntry M) → CatalogState X (List String) → Option (String × M) → String → Type 0
  IsLoaded types st none kind = Unit
  IsLoaded types st (some (file, model)) kind =
      (c : X) × (Dict.lookup kind st.catalogs ≡ some c)
      × (Dict.lookup file st.by_file ≡ some c)
      × IsOf types file c

  served-IsLoaded :
      (types : List (TypeEntry M)) (st : CatalogState X (List String)) (o : Option (String × M))
      (kind : String)
      → IsKept types st
      → IsServed st kind o
      → IsLoaded types st o kind
  served-IsLoaded types st none kind kept served = tt
  served-IsLoaded types st (some (file, model)) kind kept (c, held, from) =
      (c, held, from, kept file c from)

  -- When the catalogs of a registry are loaded from files and a log of the reads is kept, no file is
  -- read twice. Each type that declares a catalog has one; it is what a model that some type declares
  -- for that file makes of the file's content, and types which share a file share the catalog.
  pub load_catalogs-IsLoaded :
      (types : List (TypeEntry M)) (st : CatalogState X (List String))
      → IsRegistry types
      → load_catalogs (logged files) validate types [] ≡ ok st
      → NoRepeats st.world × All (λ t. IsLoaded types st t.catalog t.kind) types
  unfolding load_catalogs Dict.lookup
  load_catalogs-IsLoaded types st distinct h =
      let start : CatalogState X (List String) = no_catalogs [] in
      let read : IsRead st = from-IsRead files validate types start st h ((λ f e. refl), tt) in
      let kept : IsKept types st =
        from-IsKept types types start st (All-self types) h (λ f c e. absurd (cc)) in
      (
        read.1,
        All-weaken (λ t. IsServed st t.kind t.catalog) (λ t. IsLoaded types st t.catalog t.kind)
            types (λ t served. served-IsLoaded types st t.catalog t.kind kept served)
            (from-IsServed files validate types start st distinct h),
      )
