-- ===== src/Server/Limits.antt =====
-- server.go: how much `handleQuery` returns, and that it returns no entry twice.
use mathlib.Core.List.{map-append}
use mnemonic.Prelude.{
  ℕ, suc, ◌+◌, ◌≤◌, ◌<◌, String, true, false, ◌&&◌, List, [], ◌∷◌, map, ◌≡◌, refl, ◌⊎◌, ◌==◌,
  eq_iff, arith, ltb, leb, nat_eq, length, take, contains, length-take, length-append,
  if◌then◌else◌, Bool-cases, inl, inr,
}
use mnemonic.Prelude.Maps.{Distinct}
use mnemonic.Prelude.Keyed.{Distinct-append, Distinct-take}
use mnemonic.Platform.{Platform}
use mnemonic.Store.Entry.{Entry, ok, Result-cases}
use mnemonic.Controller.Interface.{StoreApi}
use mnemonic.Server.Model.{QueryInput, QueryOutput}
use mnemonic.Server.Handlers.{
  normalize_categories, fill_from, fill_with_additional, result_of, output_of, Searcher,
  query_by_categories, semantic_results, query_uncategorized, select_entries, limit_of,
  handle_query,
}

abbrev pub ids_of : {F : Type 0} → List (Entry F) → List String
ids_of es = map (λ e. e.id) es

-- At most `k` entries, none twice.
pub record IsPage {F : Type 0} (k : ℕ) (es : List (Entry F)) : Type 0 where
  pub size : length es ≤ k
  pub distinct : Distinct (ids_of es)

List-cases :
    {F : Type 0} (es : List (Entry F))
    → (es ≡ []) ⊎ ((x : Entry F) × (xs : List (Entry F)) × (es ≡ x ∷ xs))
List-cases [] = inl refl
List-cases (x ∷ xs) = inr (x, xs, refl)

module _ {F : Type 0} where
  length-output_of : (es : List (Entry F)) → length (output_of es).entries ≡ length es
  unfolding output_of
  length-output_of [] = refl
  length-output_of (e ∷ es) = omega (arith, length-output_of es)

  ids-output_of : (es : List (Entry F)) → map (λ r. r.id) (output_of es).entries ≡ ids_of es
  unfolding output_of result_of
  ids-output_of [] = refl
  ids-output_of (e ∷ es) = rw (ids-output_of es) refl

  pub take-IsPage : (n : ℕ) (es : List (Entry F)) → Distinct (ids_of es) → IsPage n (take n es)
  take-IsPage n es d = record {
    size = omega (arith, length-take n es);
    distinct = Distinct-take (λ (e : Entry F). e.id) n es d;
  }

  fill_from-fresh :
      (id : String) (k n : ℕ) (seen : List String) (es : List (Entry F))
      → contains seen id ≡ true
      → contains (ids_of (fill_from k n seen es)) id ≡ false
  unfolding fill_from
  fill_from-fresh id k n seen [] h = refl
  fill_from-fresh id k n seen (e ∷ es) h = ground (
    arith,
    fill_from-fresh id k n seen es h,
    fill_from-fresh id k (suc n) (e.id ∷ seen) es,
    eq_iff e.id id,
  )

  Distinct-fill_from :
      (k n : ℕ) (seen : List String) (es : List (Entry F))
      → Distinct (ids_of (fill_from k n seen es))
  unfolding fill_from
  Distinct-fill_from k n seen [] = tt
  Distinct-fill_from k n seen (e ∷ es) = ground (
    arith,
    Distinct-fill_from k n seen es,
    Distinct-fill_from k (suc n) (e.id ∷ seen) es,
    fill_from-fresh e.id k (suc n) (e.id ∷ seen) es,
    eq_iff e.id e.id,
  )

  length-fill_from :
      (k n : ℕ) (seen : List String) (es : List (Entry F))
      → n < k
      → n + length (fill_from k n seen es) ≤ k
  unfolding fill_from
  length-fill_from k n seen [] h = omega arith
  length-fill_from k n seen (e ∷ es) h =
      ground (arith, length-fill_from k n seen es h, length-fill_from k (suc n) (e.id ∷ seen) es)

  fill_with_additional-IsPage :
      (k : ℕ) (existing additional : List (Entry F))
      → 0 < k
      → Distinct (ids_of existing)
      → IsPage k (fill_with_additional existing additional k)
  unfolding fill_with_additional
  fill_with_additional-IsPage k existing additional h d =
      elim (Bool-cases (ltb 0 k && leb k (length existing))) [
        | inl full ↦ rw full (take-IsPage k existing d)
        | inr room ↦
            let more = fill_from k (length existing) (ids_of existing) additional in
            rw room (record {
              size = omega (
                arith,
                length-append existing more,
                length-fill_from k (length existing) (ids_of existing) additional (ground arith),
              );
              distinct = rw (map-append (λ (e : Entry F). e.id) existing more) (
                  Distinct-append (ids_of existing) (ids_of more) d
                    (Distinct-fill_from k (length existing) (ids_of existing) additional)
                    (λ c m. fill_from-fresh c k (length existing) (ids_of existing) additional m));
            })
      ]

module _ {F : Type 0} ⦃p : Platform F⦄ (S : StoreApi F) (searcher : Searcher S) where
  -- What `handleQuery` relies on, in the states that the store can be in: the store and its search
  -- keep to their limit, and give no entry twice.
  pub record IsPaged (Good : S.State → Type 0) : Type 0 where
    pub searches :
        (s : S.State) (q : String) (k : ℕ) (scopes categories : List String)
        → Good s
        → 0 < k
        → IsPage k (semantic_results S searcher s q k scopes categories).0
          × Good (semantic_results S searcher s q k scopes categories).1
    pub queries :
        (s : S.State) (c q : String) (k : ℕ) (scopes : List String) (es : List (Entry F))
        → Good s
        → (S.query_by_category s c q k scopes).0 ≡ ok es
        → 0 < k
        → IsPage k es
    pub lists :
        (s : S.State) (scopes : List String) (es : List (Entry F))
        → Good s
        → (S.all_in s scopes).0 ≡ ok es
        → Distinct (ids_of es)

  module _ (Good : S.State → Type 0) (w : IsPaged Good) (s : S.State) (g : Good s) (now : ℕ)
      (input : QueryInput) where
    uncategorized-IsPage :
        (t : S.State) (k : ℕ) (es : List (Entry F))
        → Good t
        → 0 < k
        → (query_uncategorized S t input k).0 ≡ ok es
        → IsPage k es
    unfolding query_uncategorized
    uncategorized-IsPage t k es u h e = elim (Bool-cases (input.category == "")) [
      | inr given ↦ w.queries t input.category input.query k input.scopes es u (ground arith) h
      | inl missing ↦ elim (Result-cases (S.all_in t input.scopes).0) [
        | inl (x, failed) ↦ absurd (ground arith)
        | inr (all, found) ↦ elim (Bool-cases (ltb k (length all))) [
          | inl long ↦
              let cut : es ≡ take k all = ground arith in
              rw cut (take-IsPage k all (w.lists t input.scopes all u found))
          | inr short ↦
              let whole : es ≡ all = ground arith in
              rw whole
                (record { size = ground arith; distinct = w.lists t input.scopes all u found })
        ]
      ]
    ]

    selected-IsPage :
        (k : ℕ) (categories : List String) (es : List (Entry F))
        → 0 < k
        → (select_entries S now searcher s input k categories).0 ≡ ok es
        → IsPage k es
    unfolding select_entries
    selected-IsPage k (c ∷ cs) es h e =
        let (found, t) = semantic_results S searcher s input.query k input.scopes (c ∷ cs) in
        let more = (query_by_categories S now t input.query (c ∷ cs) k input.scopes).0 in
        elim (Result-cases more) [
          | inl (x, failed) ↦ absurd (ground arith)
          | inr (additional, done) ↦
              let filled : es ≡ fill_with_additional found additional k = ground arith in
              rw filled (
                fill_with_additional-IsPage k found additional h
                  (w.searches s input.query k input.scopes (c ∷ cs) g h).0.distinct)
        ]
    selected-IsPage k [] es h e =
        let (found, t) = semantic_results S searcher s input.query k input.scopes [] in
        elim (List-cases found) [
          | inl nothing ↦
              uncategorized-IsPage t k es (w.searches s input.query k input.scopes [] g h).1 h
                (ground arith)
          | inr (x, xs, some_found) ↦
              let same : es ≡ found = ground arith in
              rw same (w.searches s input.query k input.scopes [] g h).0
        ]

    -- Where the store and its search keep to a limit and give no entry twice, so does the answer to
    -- a query: at most `top_k` results, or five where the request gives no positive number, and
    -- none twice.
    pub handle_query_bounds :
        (out : QueryOutput)
        → (handle_query S now searcher s input).0 ≡ ok out
        → (length out.entries ≤ (if nat_eq input.top_k 0 then 5 else input.top_k))
          × Distinct (map (λ r. r.id) out.entries)
    unfolding handle_query limit_of
    handle_query_bounds out e =
        elim (Result-cases (normalize_categories input.category input.categories)) [
          | inl (x, refused) ↦ absurd (ground arith)
          | inr (cs, known) ↦
              let k : ℕ = if nat_eq input.top_k 0 then 5 else input.top_k in
              elim (Result-cases (select_entries S now searcher s input k cs).0) [
                | inl (x, failed) ↦ absurd (ground arith)
                | inr (es, selected) ↦
                    let page = selected-IsPage k cs es (ground arith) selected in
                    let same : out ≡ output_of es = ground arith in
                    rw (same, length-output_of es, ids-output_of es) (page.size, page.distinct)
              ]
        ]
