-- ===== src/Sqlite/Paging.antt =====
-- The server's queries over the SQLite store: the store keeps to its limit and gives no entry
-- twice.
use mnemonic.Prelude.{
  ℕ, ◌<◌, String, ◌&&◌, List, [], ◌∷◌, none, ◌≡◌, arith, length, filter, ltb, Bool-cases,
  Option-cases, inl, inr,
}
use mnemonic.Prelude.Maps.{Distinct}
use mnemonic.Prelude.Keyed.{Distinct-filter, Distinct-sort}
use mnemonic.Prelude.Text.{fields, to_lower}
use mnemonic.Platform.{Platform}
use mnemonic.Store.Entry.{Entry, ok, Result-cases}
use mnemonic.Store.Allowed.{Mandatory}
use mnemonic.Store.Ranking.{ranks_before, sort_by_weighted_score}
use mnemonic.Yaml.Queries.{top}
use mnemonic.Sqlite.State.{Row, Db, SqliteStore, select_entries}
use mnemonic.Sqlite.Rows.{entry_of, scan_entry, resolve_query_scopes, keyword_match}
use mnemonic.Sqlite.Queries.{
  is_selected, scan_rows, answer, sql_before, select, entries, sort_entries, all_in,
  query_by_category,
}
use mnemonic.Sqlite.Table.{row_ids, IsKeyed}
use mnemonic.Sqlite.Api.{sqlite_api}
use mnemonic.Server.Handlers.{semantic_results}
use mnemonic.Server.Limits.{ids_of, IsPage, IsPaged, take-IsPage}

module _ {F : Type 0} where
  ids_of-scan_rows :
      (db : Db F) (rows : List (Row F)) (es : List (Entry F))
      → scan_rows db rows ≡ ok es
      → ids_of es ≡ row_ids rows
  unfolding scan_rows scan_entry entry_of
  ids_of-scan_rows db [] es h = ground arith
  ids_of-scan_rows db (r ∷ rs) es h = elim (Result-cases (scan_rows db rs)) [
    | inl (x, failed) ↦ absurd (ground arith)
    | inr (rest, done) ↦ ground (arith, ids_of-scan_rows db rs rest done)
  ]

  answered :
      (db : Db F) (s : SqliteStore F) (hits es : List (Entry F))
      → (answer db s hits).0 ≡ ok es
      → es ≡ hits
  unfolding answer
  answered db s hits es h = ground arith

  top-IsPage : (k : ℕ) (es : List (Entry F)) → 0 < k → Distinct (ids_of es) → IsPage k (top k es)
  unfolding top
  top-IsPage k es h d = elim (Bool-cases (ltb 0 k && ltb k (length es))) [
    | inl long ↦ rw long (take-IsPage k es d)
    | inr short ↦ rw short (record { size = ground arith; distinct = d })
  ]

module _ {F : Type 0} ⦃p : Platform F⦄ (db : Db F) (s : SqliteStore F) (w : IsKeyed s) where
  select-Distinct :
      (scopes : List String) (category : String) → Distinct (row_ids (select db s scopes category))
  unfolding select
  select-Distinct scopes category =
      let id = λ (r : Row F). r.id in
      let kept = Distinct-filter id (is_selected category scopes) s.rows w in
      ground (
        arith,
        kept,
        Distinct-sort id (sql_before db s) (filter (is_selected category scopes) s.rows) kept,
      )

  entries-Distinct :
      (requested : List String) (category : String) (es : List (Entry F))
      → entries db s requested category ≡ ok es
      → Distinct (ids_of es)
  unfolding entries
  entries-Distinct requested category es k =
      elim (Result-cases (resolve_query_scopes s requested)) [
        | inl (x, refused) ↦ absurd (ground arith)
        | inr (resolved, done) ↦ elim (Option-cases (db.failure select_entries)) [
          | inr (x, failed) ↦ absurd (ground arith)
          | inl runs ↦
              rw (ids_of-scan_rows db (select db s resolved category) es (ground arith))
                (select-Distinct resolved category)
        ]
      ]

  sorted-Distinct :
      (es : List (Entry F)) → Distinct (ids_of es) → Distinct (ids_of (sort_entries db s es))
  unfolding sort_entries sort_by_weighted_score
  sorted-Distinct es d =
      ground (arith, Distinct-sort (λ (e : Entry F). e.id) (ranks_before db.now) es d)

  query_by_category-IsPage :
      (c q : String) (k : ℕ) (scopes : List String) (es : List (Entry F))
      → (query_by_category db s c q k scopes).0 ≡ ok es
      → 0 < k
      → IsPage k es
  unfolding query_by_category
  query_by_category-IsPage c q k scopes es h pos = elim (Result-cases (entries db s scopes c)) [
    | inl (x, failed) ↦ absurd (ground arith)
    | inr (all, found) ↦
        let kept =
          filter (λ (e : Entry F). keyword_match p.lower e (fields (to_lower p.lower q))) all in
        let page = top k (sort_entries db s kept) in
        let same : es ≡ page = answered db s page es (ground arith) in
        rw same (
          top-IsPage k (sort_entries db s kept) pos (
            sorted-Distinct kept (
              Distinct-filter (λ (e : Entry F). e.id) _ all (entries-Distinct scopes c all found))))
  ]

  all_in-Distinct :
      (scopes : List String) (es : List (Entry F))
      → (all_in db s scopes).0 ≡ ok es
      → Distinct (ids_of es)
  unfolding all_in
  all_in-Distinct scopes es h = elim (Result-cases (entries db s scopes "")) [
    | inl (x, failed) ↦ absurd (ground arith)
    | inr (all, found) ↦
        let sorted = sort_entries db s all in
        let same : es ≡ sorted = answered db s sorted es (ground arith) in
        rw same (sorted-Distinct all (entries-Distinct scopes "" all found))
  ]

module _ {F : Type 0} ⦃p : Platform F⦄ (m : Mandatory) where
  -- The SQLite store meets what the server asks of a store without a semantic search.
  pub sqlite_api-IsPaged : IsPaged {F = F} (sqlite_api m) none (λ r. IsKeyed r.store)
  unfolding semantic_results
  sqlite_api-IsPaged = record {
    searches = λ r q k scopes categories w pos. (record { size = omega arith; distinct = tt }, w);
    queries = λ r c q k scopes es w h pos.
        query_by_category-IsPage (r.calls 0) r.store w c q k scopes es h pos;
    lists = λ r scopes es w h. all_in-Distinct (r.calls 0) r.store w scopes es h;
  }
