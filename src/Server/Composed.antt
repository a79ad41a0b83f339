-- ===== src/Server/Composed.antt =====
-- The server over a controller with its semantic search, on the SQLite store: how much a query
-- returns, and that it returns no entry twice.
use mathlib.Core.Path.{subst}
use mnemonic.Prelude.{
  ℕ, ◌≤◌, ◌<◌, suc, String, false, List, [], ◌∷◌, map, none, some, ◌≡◌, refl, sym, ◌==◌, eq_iff,
  arith, length, nat_eq, contains, if◌then◌else◌, Bool-cases, Option-cases, inl, inr,
}
use mnemonic.Prelude.Maps.{Distinct}
use mnemonic.Prelude.Sort.{sort}
use mnemonic.Prelude.Keyed.{Distinct-sort}
use mnemonic.Platform.{Platform}
use mnemonic.Store.Entry.{Entry, ok, Result-cases}
use mnemonic.Store.Allowed.{Mandatory}
use mnemonic.Lint.Analysis.{SimilarEntry}
use mnemonic.Controller.Interface.{StoreApi, IndexApi, Embedder, SearchResult}
use mnemonic.Controller.State.{MemoryController, all_in, query_by_category}
use mnemonic.Controller.Searches.{is_nearer, collect, candidates, semantic_search, search_size}
use mnemonic.Controller.Similarity.{length-collect}
use mnemonic.Controller.Api.{controller_api, controller_searcher}
use mnemonic.Sqlite.State.{Row}
use mnemonic.Sqlite.Rows.{entry_of, scan_entry, find_row, get_by_id}
use mnemonic.Sqlite.Queries.{get as get_row}
use mnemonic.Sqlite.Table.{IsKeyed}
use mnemonic.Sqlite.Api.{Session, sqlite_api}
use mnemonic.Sqlite.Paging.{sqlite_api-IsPaged}
use mnemonic.Server.Model.{QueryInput, QueryOutput}
use mnemonic.Server.Handlers.{semantic_results, handle_query}
use mnemonic.Server.Limits.{ids_of, IsPage, IsPaged, handle_query_bounds}

abbrev candidate_ids : {F : Type 0} → List (SimilarEntry F) → List String
candidate_ids cs = map (λ c. c.entry.id) cs

abbrev result_ids : {F : Type 0} → List (SearchResult F) → List String
result_ids rs = map (λ r. r.id) rs

module _ {F : Type 0} ⦃p : Platform F⦄ where
  contains-collect :
      (j : String) (k n : ℕ) (cs : List (SimilarEntry F))
      → contains (candidate_ids cs) j ≡ false
      → contains (ids_of (collect k n cs)) j ≡ false
  unfolding collect
  contains-collect j k n [] h = refl
  contains-collect j k n (c ∷ cs) h = ground (arith, contains-collect j k (suc n) cs)

  Distinct-collect :
      (k n : ℕ) (cs : List (SimilarEntry F))
      → Distinct (candidate_ids cs)
      → Distinct (ids_of (collect k n cs))
  unfolding collect
  Distinct-collect k n [] d = tt
  Distinct-collect k n (c ∷ cs) d =
      ground (arith, Distinct-collect k (suc n) cs, contains-collect c.entry.id k (suc n) cs)

  module _ (S : StoreApi F) (I : IndexApi F) (s : S.State)
      (keyed : (r : String) (e : Entry F) → S.get s r ≡ ok e → e.id ≡ r) where
    contains-candidates :
        (j : String) (scopes categories : List String) (rs : List (SearchResult F))
        → contains (result_ids rs) j ≡ false
        → contains (candidate_ids (candidates S I s scopes categories rs)) j ≡ false
    unfolding candidates
    contains-candidates j scopes categories [] h = refl
    contains-candidates j scopes categories (r ∷ rs) h = elim (Result-cases (S.get s r.id)) [
      | inl (x, e) ↦ ground (arith, contains-candidates j scopes categories rs)
      | inr (found, e) ↦
          ground (arith, contains-candidates j scopes categories rs, keyed r.id found e)
    ]

    Distinct-candidates :
        (scopes categories : List String) (rs : List (SearchResult F))
        → Distinct (result_ids rs)
        → Distinct (candidate_ids (candidates S I s scopes categories rs))
    unfolding candidates
    Distinct-candidates scopes categories [] d = tt
    Distinct-candidates scopes categories (r ∷ rs) d = elim (Result-cases (S.get s r.id)) [
      | inl (x, e) ↦ ground (arith, Distinct-candidates scopes categories rs)
      | inr (found, e) ↦
          let away = contains-candidates r.id scopes categories rs d.0 in
          let same : found.id ≡ r.id = keyed r.id found e in
          let off : contains (candidate_ids (candidates S I s scopes categories rs)) found.id
              ≡ false =
            rw same away in
          ground (arith, Distinct-candidates scopes categories rs, off)
    ]

  module _ (S : StoreApi F) (I : IndexApi F) (em : Embedder F) (now : ℕ) (Good : S.State → Type 0)
      (paged : IsPaged S none Good)
      (keyed : (s : S.State) (r : String) (e : Entry F) → Good s → S.get s r ≡ ok e → e.id ≡ r)
      (listed : (i : I.State) (v : List F) (k : ℕ) (rs : List (SearchResult F))
        → I.search i v k ≡ ok rs
        → Distinct (result_ids rs)) where
    abbrev IsGood : MemoryController S I → Type 0
    IsGood mc = Good mc.store

    semantic_search-IsPage :
        (mc : MemoryController S I) (q : String) (k : ℕ) (scopes categories : List String)
        (es : List (Entry F))
        → IsGood mc
        → 0 < k
        → (semantic_search S I em now mc q k scopes categories).0 ≡ ok es
        → IsPage k es
    unfolding semantic_search
    semantic_search-IsPage mc q k scopes categories es g pos h = elim (Bool-cases em.available) [
      | inr off ↦
          let e : es ≡ [] = ground arith in rw e (record { size = ground arith; distinct = tt })
      | inl on ↦ elim (Result-cases (em.embed_single q)) [
        | inl (x, e) ↦ absurd (ground arith)
        | inr (vec, e) ↦ elim (Result-cases (I.search mc.index vec (search_size k categories))) [
          | inl (x, f) ↦ absurd (ground arith)
          | inr (results, f) ↦
              let found = candidates S I mc.store scopes categories results in
              let ranked = sort (is_nearer now) found in
              let same : es ≡ collect k 0 ranked = ground arith in
              rw same (record {
                size = ground (arith, length-collect k 0 ranked);
                distinct = Distinct-collect k 0 ranked (
                    Distinct-sort (λ (c : SimilarEntry F). c.entry.id) (is_nearer now) found
                      (Distinct-candidates S I mc.store (λ r e. keyed mc.store r e g) scopes
                        categories results
                        (listed mc.index vec (search_size k categories) results f)));
              })
        ]
      ]
    ]

    searching-keeps :
        (mc : MemoryController S I) (q : String) (k : ℕ) (scopes categories : List String)
        → (semantic_search S I em now mc q k scopes categories).1.store ≡ mc.store
    unfolding semantic_search
    searching-keeps mc q k scopes categories = ground arith

    -- The controller meets what the server asks of a store with a semantic search.
    controller-IsPaged :
        IsPaged (controller_api S I em now) (some (controller_searcher S I em now)) IsGood
    unfolding semantic_results
    controller-IsPaged = record {
      searches = λ mc q k scopes categories g pos.
          let g' = subst Good (sym (searching-keeps mc q k scopes categories)) g in
          elim (Bool-cases (q == "")) [
            | inl blank ↦ rw blank (record { size = ground arith; distinct = tt }, g)
            | inr asked ↦
                elim (Result-cases (semantic_search S I em now mc q k scopes categories).0) [
                  | inl (x, f) ↦ rw (asked, f) (record { size = ground arith; distinct = tt }, g')
                  | inr (es, f) ↦
                      rw (asked, f) (semantic_search-IsPage mc q k scopes categories es g pos f, g')
                ]
          ];
      queries = λ mc c q k scopes es g h pos.
          paged.queries mc.store c q k scopes es g (unfold query_by_category in h) pos;
      lists = λ mc scopes es g h. paged.lists mc.store scopes es g (unfold all_in in h);
    }

module _ {F : Type 0} ⦃p : Platform F⦄ (m : Mandatory) where
  find_row_id :
      (id : String) (rows : List (Row F)) (r : Row F) → find_row id rows ≡ some r → r.id ≡ id
  find_row_id id [] r h = absurd (ground arith)
  find_row_id id (x ∷ xs) r h = ground (arith, find_row_id id xs r, eq_iff x.id id)

  get-id : (s : Session F) (r : String) (e : Entry F) → (sqlite_api m).get s r ≡ ok e → e.id ≡ r
  unfolding get_row get_by_id scan_entry entry_of
  get-id s r e h = elim (Option-cases (find_row r s.store.rows)) [
    | inl n ↦ absurd (ground arith)
    | inr (row, f) ↦ ground (arith, find_row_id r s.store.rows row f)
  ]

  -- A query to the server over a controller on the SQLite store, with the controller's semantic
  -- search, in a table without two rows of one ID and over an index whose searches give no ID
  -- twice, is answered by at most `top_k` results, or five where the request gives no positive
  -- number, and no entry twice.
  pub controller_query_bounds :
      (I : IndexApi F) (em : Embedder F) (now : ℕ) (mc : MemoryController (sqlite_api m) I)
      (input : QueryInput) (out : QueryOutput)
      → IsKeyed mc.store.store
      → ((i : I.State) (v : List F) (k : ℕ) (rs : List (SearchResult F))
          → I.search i v k ≡ ok rs
          → Distinct (map (λ r. r.id) rs))
      → (handle_query
          (controller_api (sqlite_api m) I em now)
          now
          (some (controller_searcher (sqlite_api m) I em now))
          mc
          input).0
        ≡ ok out
      → (length out.entries ≤ (if nat_eq input.top_k 0 then 5 else input.top_k))
        × Distinct (map (λ r. r.id) out.entries)
  controller_query_bounds I em now mc input out g listed h =
      let Good = λ (s : Session F). IsKeyed s.store in
      let paged =
        controller-IsPaged (sqlite_api m) I em now Good (sqlite_api-IsPaged m)
          (λ s r e k. get-id s r e) listed in
      handle_query_bounds (controller_api (sqlite_api m) I em now)
        (some (controller_searcher (sqlite_api m) I em now)) (λ mc'. IsKeyed mc'.store.store) paged
        mc g now input out h
