-- ===== src/Config/Loader/Catalogs.antt =====
-- The readings of `_load_catalogs` of src/config/loader.py, and which catalog each type gets.
use claude_azure_o11y.Prelude.{
  ◌≡◌, ◌≢◌, refl, ◌∙◌, sym, ap, subst, Bool, true, false, Option, none, some, String, List, [], ◌∷◌,
  arith, ◌==◌, string_eq, any, All, Result, ok, >>=-eq-ok, if◌then◌else◌,
}
use claude_azure_o11y.Prelude.Dict
use claude_azure_o11y.Prelude.Dict.{Dict, lookup-insert}
use claude_azure_o11y.Config.Merge.{Entries}
use claude_azure_o11y.Config.Loader.{
  TypeEntry, File, read_yaml, CatalogState, take_catalog, catalog_step, catalogs_from,
}

module _ {V : Type 0} where
  lookup-insert_same :
      (k : String) (v : V) (d : Dict String V) → Dict.lookup k (Dict.insert k v d) ≡ some v
  lookup-insert_same k v d =
      lookup-insert k k v d ∙ split (k == k) ((string_eq.same_iff k k).1 refl)
    where
      split : (b : Bool) → b ≡ true → (if b then some v else Dict.lookup k d) ≡ some v
      split true h = refl
      split false h = absurd (cc)

  lookup-insert_other :
      (k j : String) (v : V) (d : Dict String V)
      → k ≢ j
      → Dict.lookup j (Dict.insert k v d) ≡ Dict.lookup j d
  lookup-insert_other k j v d apart =
      lookup-insert k j v d ∙ split (k == j) (string_eq.same_iff k j).0
    where
      split :
          (b : Bool)
          → (b ≡ true → k ≡ j)
          → (if b then some v else Dict.lookup j d) ≡ Dict.lookup j d
      split true f = absurd (apart (f refl))
      split false f = refl

  -- A key that is not there is not one that is.
  lookup-apart :
      (k j : String) (v : V) (d : Dict String V)
      → Dict.lookup k d ≡ none
      → Dict.lookup j d ≡ some v
      → k ≢ j
  lookup-apart k j v d free held same =
      let clash : none ≡ some v = sym free ∙ (ap (λ i. Dict.lookup i d) same ∙ held) in absurd (cc)

-- Reading the files of a directory, with a log of the paths, the last one first.
abbrev pub logged : {L : Type 0} → (String → File L) → List String → String → File L × List String
logged files log path = (files path, path ∷ log)

-- No file twice.
abbrev pub NoRepeats : List String → Type 0
NoRepeats [] = Unit
NoRepeats (f ∷ fs) = (any (λ g. f == g) fs ≡ false) × NoRepeats fs

module _ {M X : Type 0} where
  -- A type has its catalog, which is the one that is kept for its file; a type without a catalog has
  -- none to have.
  abbrev pub IsServed : CatalogState X (List String) → String → Option (String × M) → Type 0
  IsServed st kind none = Unit
  IsServed st kind (some (file, model)) =
      (c : X) × (Dict.lookup kind st.catalogs ≡ some c) × (Dict.lookup file st.by_file ≡ some c)

module _ {M : Type 0} where
  -- The kinds of a list of types are all different.
  abbrev pub IsRegistry : List (TypeEntry M) → Type 0
  IsRegistry [] = Unit
  IsRegistry (t ∷ types) = All (λ u. t.kind ≢ u.kind) types × IsRegistry types

module _ {X : Type 0} where
  -- No file is read twice, and a file without a catalog has not been read.
  abbrev pub IsRead : CatalogState X (List String) → Type 0
  IsRead st =
      ((f : String) → Dict.lookup f st.by_file ≡ none → any (λ g. f == g) st.world ≡ false)
      × NoRepeats st.world

  lookup-insert-eq-none :
      (k j : String) (v : X) (d : Dict String X)
      → Dict.lookup j (Dict.insert k v d) ≡ none
      → (j == k ≡ false) × (Dict.lookup j d ≡ none)
  lookup-insert-eq-none k j v d h = split (k == j) refl (sym (lookup-insert k j v d) ∙ h)
    where
      split :
          (b : Bool)
          → k == j ≡ b
          → (if b then some v else Dict.lookup j d) ≡ none
          → (j == k ≡ false) × (Dict.lookup j d ≡ none)
      split true e h' = absurd (cc)
      split false e h' = (ground (arith, string_eq.same_iff k j, string_eq.same_iff j k), h')

module _ {L M X : Type 0} (files : String → File L) (validate : M → Entries L → Result X) where
  take_catalog-IsServed :
      (kind file : String) (model : M) (st st' : CatalogState X (List String)) (o : Option X)
      → Dict.lookup file st.by_file ≡ o
      → take_catalog (logged files) validate kind file model st o ≡ ok st'
      → IsServed st' kind (some (file, model))
  unfolding take_catalog
  take_catalog-IsServed kind file model st st' (some c) e h =
      let same : record st { catalogs = Dict.insert kind c st.catalogs } ≡ st' = ground arith in
      subst (λ s. IsServed s kind (some (file, model))) same
        (c, lookup-insert_same kind c st.catalogs, e)
  take_catalog-IsServed kind file model st st' none e h =
      let (raw, e1, h1) = >>=-eq-ok (read_yaml file (files file)) _ h in
      let (c, e2, h2) = >>=-eq-ok (validate model raw) _ h1 in
      let same : record {
        catalogs = Dict.insert kind c st.catalogs;
        by_file = Dict.insert file c st.by_file;
        world = file ∷ st.world;
      }
          ≡ st' =
        ground arith in
      subst (λ s. IsServed s kind (some (file, model))) same
        (c, lookup-insert_same kind c st.catalogs, lookup-insert_same file c st.by_file)

  take_catalog-keeps :
      (kind file : String) (model : M) (st st' : CatalogState X (List String)) (o : Option X)
      (j : String) (p : Option (String × M))
      → Dict.lookup file st.by_file ≡ o
      → kind ≢ j
      → take_catalog (logged files) validate kind file model st o ≡ ok st'
      → IsServed st j p
      → IsServed st' j p
  unfolding take_catalog
  take_catalog-keeps kind file model st st' o j none e apart h served = tt
  take_catalog-keeps kind file model st st' (some c) j (some (own, m)) e apart h (d, held, from) =
      let same : record st { catalogs = Dict.insert kind c st.catalogs } ≡ st' = ground arith in
      subst (λ s. IsServed s j (some (own, m))) same
        (d, lookup-insert_other kind j c st.catalogs apart ∙ held, from)
  take_catalog-keeps kind file model st st' none j (some (own, m)) e apart h (d, held, from) =
      let (raw, e1, h1) = >>=-eq-ok (read_yaml file (files file)) _ h in
      let (c, e2, h2) = >>=-eq-ok (validate model raw) _ h1 in
      let same : record {
        catalogs = Dict.insert kind c st.catalogs;
        by_file = Dict.insert file c st.by_file;
        world = file ∷ st.world;
      }
          ≡ st' =
        ground arith in
      subst (λ s. IsServed s j (some (own, m))) same
        (
          d,
          lookup-insert_other kind j c st.catalogs apart ∙ held,
          lookup-insert_other file own c st.by_file (lookup-apart file own d st.by_file e from)
              ∙ from,
        )

  take_catalog-IsRead :
      (kind file : String) (model : M) (st st' : CatalogState X (List String)) (o : Option X)
      → Dict.lookup file st.by_file ≡ o
      → take_catalog (logged files) validate kind file model st o ≡ ok st'
      → IsRead st
      → IsRead st'
  unfolding take_catalog
  take_catalog-IsRead kind file model st st' (some c) e h read =
      let same : record st { catalogs = Dict.insert kind c st.catalogs } ≡ st' = ground arith in
      subst IsRead same read
  take_catalog-IsRead kind file model st st' none e h (unread, once) =
      let (raw, e1, h1) = >>=-eq-ok (read_yaml file (files file)) _ h in
      let (c, e2, h2) = >>=-eq-ok (validate model raw) _ h1 in
      let same : record {
        catalogs = Dict.insert kind c st.catalogs;
        by_file = Dict.insert file c st.by_file;
        world = file ∷ st.world;
      }
          ≡ st' =
        ground arith in
      subst IsRead same (
        (λ f free.
            let (apart, free') = lookup-insert-eq-none file f c st.by_file free in
            let rest = unread f free' in ground arith),
        (unread file e, once),
      )

  step-IsRead :
      (kind : String) (o : Option (String × M)) (st st' : CatalogState X (List String))
      → catalog_step (logged files) validate kind o st ≡ ok st'
      → IsRead st
      → IsRead st'
  unfolding catalog_step
  step-IsRead kind none st st' h read = let same : st ≡ st' = ground arith in subst IsRead same read
  step-IsRead kind (some (file, model)) st st' h read =
      take_catalog-IsRead kind file model st st' (Dict.lookup file st.by_file) refl h read

  step-IsServed :
      (kind : String) (o : Option (String × M)) (st st' : CatalogState X (List String))
      → catalog_step (logged files) validate kind o st ≡ ok st'
      → IsServed st' kind o
  unfolding catalog_step
  step-IsServed kind none st st' h = tt
  step-IsServed kind (some (file, model)) st st' h =
      take_catalog-IsServed kind file model st st' (Dict.lookup file st.by_file) refl h

  step-keeps :
      (kind : String) (o : Option (String × M)) (st st' : CatalogState X (List String)) (j : String)
      (p : Option (String × M))
      → kind ≢ j
      → catalog_step (logged files) validate kind o st ≡ ok st'
      → IsServed st j p
      → IsServed st' j p
  unfolding catalog_step
  step-keeps kind none st st' j p apart h served =
      let same : st ≡ st' = ground arith in subst (λ s. IsServed s j p) same served
  step-keeps kind (some (file, model)) st st' j p apart h served =
      take_catalog-keeps kind file model st st' (Dict.lookup file st.by_file) j p refl apart h
        served

  pub from-IsRead :
      (types : List (TypeEntry M)) (st st' : CatalogState X (List String))
      → catalogs_from (logged files) validate types st ≡ ok st'
      → IsRead st
      → IsRead st'
  unfolding catalogs_from
  from-IsRead [] st st' h read = let same : st ≡ st' = ground arith in subst IsRead same read
  from-IsRead (t ∷ types) st st' h read =
      let (next, e, rest) =
        >>=-eq-ok (catalog_step (logged files) validate t.kind t.catalog st) _ h in
      from-IsRead types next st' rest (step-IsRead t.kind t.catalog st next e read)

  from-keeps :
      (types : List (TypeEntry M)) (st st' : CatalogState X (List String)) (j : String)
      (p : Option (String × M))
      → All (λ u. j ≢ u.kind) types
      → catalogs_from (logged files) validate types st ≡ ok st'
      → IsServed st j p
      → IsServed st' j p
  unfolding catalogs_from
  from-keeps [] st st' j p apart h served =
      let same : st ≡ st' = ground arith in subst (λ s. IsServed s j p) same served
  from-keeps (t ∷ types) st st' j p (other, apart) h served =
      let (next, e, rest) =
        >>=-eq-ok (catalog_step (logged files) validate t.kind t.catalog st) _ h in
      from-keeps types next st' j p apart rest
        (step-keeps t.kind t.catalog st next j p (λ same. other (sym same)) e served)

  pub from-IsServed :
      (types : List (TypeEntry M)) (st st' : CatalogState X (List String))
      → IsRegistry types
      → catalogs_from (logged files) validate types st ≡ ok st'
      → All (λ t. IsServed st' t.kind t.catalog) types
  unfolding catalogs_from
  from-IsServed [] st st' distinct h = tt
  from-IsServed (t ∷ types) st st' (apart, distinct) h =
      let (next, e, rest) =
        >>=-eq-ok (catalog_step (logged files) validate t.kind t.catalog st) _ h in
      (
        from-keeps types next st' t.kind t.catalog apart rest
            (step-IsServed t.kind t.catalog st next e),
        from-IsServed types next st' distinct rest,
      )
