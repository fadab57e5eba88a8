-- ===== src/Pipeline/Fetch/Total.antt =====
-- `_fetch_all` answers for every chunk, with its series or its error, and raises nothing.
use mathlib.Core.List.{flatten}
use claude_azure_o11y.Prelude.{
  Returns, bind-Returns, map_result-Returns, ℕ, ◌<◌, ◌≡◌, refl, sym, subst, ◌∙◌, some, Bool, true,
  false, String, List, [], ◌∷◌, ◌++◌, map, ap, arith, Result, ok, err, >>=-eq-ok, map_result,
  Exception, ◌==◌, string_eq, nat_eq, All, All-weaken, All-append, length, if◌then◌else◌,
}
use claude_azure_o11y.Prelude.Dict
use claude_azure_o11y.Prelude.Dict.{Dict, lookup-insert}
use claude_azure_o11y.Models.{Resource, MetricRequest, Series}
use claude_azure_o11y.Metrics.Batch.{chunk}
use claude_azure_o11y.Metrics.Batch.Chunks.{IsSlice, chunk-slices}
use claude_azure_o11y.Pipeline.{Clients, Query, MetricWindow}
use claude_azure_o11y.Pipeline.Fetch.{
  ChunkResult, fetched, failed, error_text, answer, index_by_id, resource_at, group_batches,
  all_batches, group_all, fetch_chunk, fetch_batch, fetch_all,
}

All-split : {A : Type 0} (P : A → Type 0) (xs ys : List A) → All P (xs ++ ys) → All P xs × All P ys
All-split P [] ys h = (tt, h)
All-split P (x ∷ xs) ys (h, hs) = let (l, r) = All-split P xs ys hs in ((h, l), r)

All-flatten :
    {A : Type 0} (P : A → Type 0) (xss : List (List A)) → All P (flatten xss) → All (All P) xss
unfolding flatten
All-flatten P [] h = tt
All-flatten P (xs ∷ xss) h = let (l, r) = All-split P xs (flatten xss) h in (l, All-flatten P xss r)

All-map_result-Returns :
    {A B : Type 0} (f : A → Result B) (xss : List (List A))
    → All (All (λ x. Returns (f x))) xss
    → All (λ xs. Returns (map_result f xs)) xss
All-map_result-Returns f [] h = tt
All-map_result-Returns f (xs ∷ xss) (h, hs) =
    (map_result-Returns f xs h, All-map_result-Returns f xss hs)

abbrev pub IsFilled : {A : Type 0} → List A → Type 0
IsFilled xs = 0 < length xs

map_result-IsFilled :
    {A B : Type 0} (f : A → Result B) (xs : List A) (ys : List B)
    → IsFilled xs
    → map_result f xs ≡ ok ys
    → IsFilled ys
unfolding map_result
map_result-IsFilled f [] ys p h = absurd (omega arith)
map_result-IsFilled f (x ∷ xs) [] p h =
    let (y, e, h') = >>=-eq-ok (f x) _ h in
    let (later, e', h'') = >>=-eq-ok (map_result f xs) _ h' in absurd (cc)
map_result-IsFilled f (x ∷ xs) (y ∷ ys) p h = omega arith

All-map_result-IsFilled :
    {A B : Type 0} (f : A → Result B) (xss : List (List A)) (yss : List (List B))
    → All IsFilled xss
    → map_result (map_result f) xss ≡ ok yss
    → All IsFilled yss
unfolding map_result
All-map_result-IsFilled f [] yss p h =
    let same : [] ≡ yss = ground arith in subst (All IsFilled) same tt
All-map_result-IsFilled f (xs ∷ xss) yss (p, ps) h =
    let (ys, e, h') = >>=-eq-ok (map_result f xs) _ h in
    let (later, e', h'') = >>=-eq-ok (map_result (map_result f) xss) _ h' in
    let same : ys ∷ later ≡ yss = ground arith in
    subst (All IsFilled) same
      (map_result-IsFilled f xs ys p e, All-map_result-IsFilled f xss later ps e')

module _ {F : Type 0} where
  abbrev IsKey : Dict String (Resource F) → String → Type 0
  IsKey d k = (r : Resource F) × (Dict.lookup k d ≡ some r)

  insert-IsKey :
      (r : Resource F) (d : Dict String (Resource F)) (k : String)
      → IsKey d k
      → IsKey (Dict.insert r.id r d) k
  insert-IsKey r d k (old, e) = split (r.id == k) (lookup-insert r.id k r d)
    where
      split :
          (b : Bool)
          → Dict.lookup k (Dict.insert r.id r d) ≡ (if b then some r else Dict.lookup k d)
          → IsKey (Dict.insert r.id r d) k
      split true h = (r, h)
      split false h = (old, h ∙ e)

  index_by_id-IsKey :
      (group : List (Resource F)) (d : Dict String (Resource F)) (k : String)
      → IsKey d k
      → IsKey (index_by_id group d) k
  unfolding index_by_id
  index_by_id-IsKey [] d k h = h
  index_by_id-IsKey (r ∷ rest) d k h =
      index_by_id-IsKey rest (Dict.insert r.id r d) k (insert-IsKey r d k h)

  ids-IsKey :
      (group : List (Resource F)) (d : Dict String (Resource F))
      → All (IsKey (index_by_id group d)) (map (λ r. r.id) group)
  unfolding index_by_id
  ids-IsKey [] d = tt
  ids-IsKey (r ∷ rest) d = (
    index_by_id-IsKey rest (Dict.insert r.id r d) r.id
        (r, ground (arith, lookup-insert r.id r.id r d, string_eq.same_iff r.id r.id)),
    ids-IsKey rest (Dict.insert r.id r d),
  )

  IsKey-Returns :
      (d : Dict String (Resource F)) (ids : List String)
      → All (IsKey d) ids
      → All (λ i. Returns (resource_at d i)) ids
  unfolding resource_at
  IsKey-Returns d [] h = tt
  IsKey-Returns d (i ∷ ids) ((r, e), hs) = ((r, rw (e, resource_at) refl), IsKey-Returns d ids hs)

  group_batches-Returns :
      (size : ℕ) (group : List (Resource F)) → 0 < size → Returns (group_batches size group)
  unfolding group_batches
  group_batches-Returns size group p =
      let ids = map (λ r. r.id) group in
      let (chunks, made, joined, slices) = chunk-slices ids size p in
      let known = IsKey-Returns (index_by_id group []) ids (ids-IsKey group []) in
      let at = resource_at (index_by_id group []) in
      bind-Returns (chunk ids size) (map_result (map_result at)) (chunks, made)
        (λ cs e.
          let same : chunks ≡ cs = cc in
          map_result-Returns (map_result at) cs (
            subst (λ c. All (λ xs. Returns (map_result at xs)) c) same
              (All-map_result-Returns at chunks (
                All-flatten (λ i. Returns (at i)) chunks
                  (subst (λ c. All (λ i. Returns (at i)) c) (sym joined) known)))))

  group_batches-IsFilled :
      (size : ℕ) (group : List (Resource F)) (batches : List (List (Resource F)))
      → 0 < size
      → group_batches size group ≡ ok batches
      → All IsFilled batches
  unfolding group_batches
  group_batches-IsFilled size group batches p h =
      let ids = map (λ r. r.id) group in
      let (chunks, made, joined, slices) = chunk-slices ids size p in
      let (cs, e, h') =
        >>=-eq-ok (chunk ids size) (map_result (map_result (resource_at (index_by_id group []))))
          h in
      let same : chunks ≡ cs = cc in
      All-map_result-IsFilled (resource_at (index_by_id group [])) cs batches
        (subst (All IsFilled) same
          (All-weaken (IsSlice size) IsFilled chunks (λ xs slice. slice.0) slices))
        h'

  -- The batches of all groups, and none of them is empty.
  all_batches-IsFilled :
      (size : ℕ) (groups : List (List (Resource F)))
      → 0 < size
      → (batches : List (List (Resource F))) × (all_batches size groups ≡ ok batches)
        × All IsFilled batches
  unfolding all_batches
  all_batches-IsFilled size [] p = ([], refl, tt)
  all_batches-IsFilled size (group ∷ groups) p =
      let (here, e) = group_batches-Returns size group p in
      let (later, e', filled) = all_batches-IsFilled size groups p in
      (
        here ++ later,
        rw (e, e') refl,
        All-append IsFilled here later (group_batches-IsFilled size group here p e) filled,
      )

module _ {F : Type 0} where
  -- The resources that a chunk is about.
  abbrev pub resources_of : ChunkResult F → List (Resource F)
  resources_of (fetched batch series) = batch
  resources_of (failed batch text) = batch

module _ {F : Type 0} (clients : Clients F) (namespace : String) (requests : List MetricRequest)
    (window : MetricWindow) where
  -- The call for a batch: the region and the subscription of its first resource, and all its ids.
  abbrev pub call_of : Resource F → List (Resource F) → Query
  call_of first rest = record {
    region = first.location;
    subscription_id = first.subscription_id;
    resource_ids = map (λ r. r.id) (first ∷ rest);
    namespace = namespace;
    metrics = requests;
    window = window;
  }

  -- A chunk has the series that its call returned, or the text of what its call raised.
  abbrev pub IsAnswered : ChunkResult F → Type 0
  IsAnswered (fetched [] series) = ⊥
  IsAnswered (fetched (first ∷ rest) series) = clients.query (call_of first rest) ≡ ok series
  IsAnswered (failed [] text) = ⊥
  IsAnswered (failed (first ∷ rest) text) =
      (x : Exception) × (clients.query (call_of first rest) ≡ err x) × (text ≡ error_text x)

  fetch_chunk-IsAnswered :
      (first : Resource F) (rest : List (Resource F))
      → IsAnswered (fetch_chunk clients namespace requests window first rest)
        × (resources_of (fetch_chunk clients namespace requests window first rest) ≡ first ∷ rest)
  unfolding fetch_chunk
  fetch_chunk-IsAnswered first rest = split (clients.query (call_of first rest)) refl
    where
      split :
          (result : Result (Dict String (Series F)))
          → clients.query (call_of first rest) ≡ result
          → IsAnswered (answer (first ∷ rest) result)
            × (resources_of (answer (first ∷ rest) result) ≡ first ∷ rest)
      split (ok series) e = (e, refl)
      split (err x) e = ((x, e, refl), refl)

  fetch_batches-IsAnswered :
      (batches : List (List (Resource F)))
      → All IsFilled batches
      → (results : List (ChunkResult F)) × (map_result
            (fetch_batch clients namespace requests window)
            batches
          ≡ ok results)
        × All IsAnswered results
        × (map resources_of results ≡ batches)
  unfolding map_result fetch_batch
  fetch_batches-IsAnswered [] filled = ([], refl, tt, refl)
  fetch_batches-IsAnswered ([] ∷ batches) (h, filled) = absurd (omega arith)
  fetch_batches-IsAnswered ((first ∷ rest) ∷ batches) (h, filled) =
      let (results, e, answered, same) = fetch_batches-IsAnswered batches filled in
      let (here, own) = fetch_chunk-IsAnswered first rest in
      (
        fetch_chunk clients namespace requests window first rest ∷ results,
        rw e refl,
        (here, answered),
        ap (λ bs. resources_of (fetch_chunk clients namespace requests window first rest) ∷ bs) same
            ∙ ap (λ b. b ∷ batches) own,
      )

  -- With a positive batch size and at least one slot, `_fetch_all` returns one result for each of
  -- the batches that it cuts, which are not empty. A result has the series that the metrics client
  -- returned for the region, the subscription and the ids of its batch; or, whatever the client
  -- raised there, `PermissionMissing` too, it is a failure with the text of that exception.
  pub fetch_all-IsAnswered :
      (slots size : ℕ) (resources : List (Resource F))
      → 0 < slots
      → 0 < size
      → (batches : List (List (Resource F))) × (all_batches size
            (Dict.values (group_all resources []))
          ≡ ok batches)
        × (results : List (ChunkResult F)) × (fetch_all clients slots size resources namespace
              requests window
            ≡ ok results)
        × All IsAnswered results
        × (map resources_of results ≡ batches)
  unfolding fetch_all
  fetch_all-IsAnswered slots size resources free p =
      let (batches, e, filled) =
        all_batches-IsFilled size (Dict.values (group_all resources [])) p in
      let (results, e', answered, same) = fetch_batches-IsAnswered batches filled in
      let open_gate : (slots == 0) ≡ false = ground arith in
      (batches, e, results, rw (e, open_gate) e', answered, same)
