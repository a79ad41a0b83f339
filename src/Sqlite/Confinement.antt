-- ===== src/Sqlite/Confinement.antt =====
-- sqlite.go: the scopes that the queries of a store with configured scopes stay in.
use mnemonic.Prelude.{
  ℕ, String, true, List, [], ◌∷◌, map, ◌≡◌, arith, contains, filter, All, All-filter, All-take,
  All-of_filter, Option-cases, inl, inr, All-map_imp,
}
use mnemonic.Prelude.Sort.{All-sort}
use mnemonic.Prelude.Text.{fields, to_lower}
use mnemonic.Platform.{Platform}
use mnemonic.Store.Entry.{Entry, Result, ok, err, Result-cases}
use mnemonic.Store.Ranking.{ranks_before, sort_by_weighted_score}
use mnemonic.Yaml.Queries.{top}
use mnemonic.Sqlite.State.{Row, Db, SqliteStore, select_entries}
use mnemonic.Sqlite.Rows.{entry_of, scan_entry, resolve_query_scopes, tags_match, keyword_match}
use mnemonic.Sqlite.Queries.{
  is_selected, scan_rows, answer, sql_before, select, entries, sort_entries, all_in,
  all_by_category, query, query_by_category,
}
use mnemonic.Sqlite.Resolving.{resolved_scopes}

-- The entries that a query returns, if it does, are in the scopes.
abbrev pub IsConfined :
    {F : Type 0} → List String → Result (List (Entry F)) × SqliteStore F → Type 0
IsConfined configured (err _, s) = Unit
IsConfined configured (ok hits, s) = All (λ e. contains configured e.scope ≡ true) hits

module _ {F : Type 0} (configured : List String) where
  abbrev Inside : Entry F → Type 0
  Inside e = contains configured e.scope ≡ true

  abbrev RowInside : Row F → Type 0
  RowInside r = contains configured r.scope ≡ true

  scan_rows-Inside :
      (db : Db F) (rows : List (Row F)) (es : List (Entry F))
      → scan_rows db rows ≡ ok es
      → All RowInside rows
      → All Inside es
  unfolding scan_rows scan_entry entry_of
  scan_rows-Inside db [] es h a = ground arith
  scan_rows-Inside db (r ∷ rs) es h a = elim (Result-cases (scan_rows db rs)) [
    | inl (x, failed) ↦ absurd (ground arith)
    | inr (rest, done) ↦ ground (arith, scan_rows-Inside db rs rest done a.1)
  ]

  answer-IsConfined :
      (db : Db F) (s : SqliteStore F) (hits : List (Entry F))
      → All Inside hits
      → IsConfined configured (answer db s hits)
  unfolding answer
  answer-IsConfined db s hits a = ground arith

  All-top : (k : ℕ) (es : List (Entry F)) → All Inside es → All Inside (top k es)
  unfolding top
  All-top k es a = ground (arith, All-take Inside k es a)

module _ {F : Type 0} ⦃p : Platform F⦄ (db : Db F) (s : SqliteStore F) (c : String)
    (cs : List String) (h : s.configured_scopes ≡ c ∷ cs) where
  select-Inside :
      (requested resolved : List String) (category : String)
      → resolve_query_scopes s requested ≡ ok resolved
      → All (RowInside (c ∷ cs)) (select db s resolved category)
  unfolding select is_selected
  select-Inside requested resolved category k =
      let matches = filter (is_selected category resolved) s.rows in
      let inside : All (RowInside (c ∷ cs)) matches =
        All-map_imp (λ r m. resolved_scopes s c cs requested resolved r.scope h k (ground arith))
          matches (All-of_filter (is_selected category resolved) s.rows) in
      ground (arith, All-sort (sql_before db s) (RowInside (c ∷ cs)) matches inside)

  entries-Inside :
      (requested : List String) (category : String) (es : List (Entry F))
      → entries db s requested category ≡ ok es
      → All (Inside (c ∷ cs)) es
  unfolding entries
  entries-Inside requested category es k = elim (Result-cases (resolve_query_scopes s requested)) [
    | inl (x, refused) ↦ absurd (ground arith)
    | inr (resolved, done) ↦ elim (Option-cases (db.failure select_entries)) [
      | inr (x, failed) ↦ absurd (ground arith)
      | inl runs ↦
          scan_rows-Inside (c ∷ cs) db (select db s resolved category) es (ground arith)
            (select-Inside requested resolved category done)
    ]
  ]

  sorted-Inside :
      (es : List (Entry F))
      → All (Inside (c ∷ cs)) es
      → All (Inside (c ∷ cs)) (sort_entries db s es)
  unfolding sort_entries sort_by_weighted_score
  sorted-Inside es a = ground (arith, All-sort (ranks_before db.now) (Inside (c ∷ cs)) es a)

  all_in-IsConfined : (requested : List String) → IsConfined (c ∷ cs) (all_in db s requested)
  unfolding all_in
  all_in-IsConfined requested = elim (Result-cases (entries db s requested "")) [
    | inl (x, failed) ↦ ground arith
    | inr (es, found) ↦
        let eqn : all_in db s requested ≡ answer db s (sort_entries db s es) = ground arith in
        rw eqn (
          answer-IsConfined (c ∷ cs) db s (sort_entries db s es)
            (sorted-Inside es (entries-Inside requested "" es found)))
  ]

  all_by_category-IsConfined :
      (category : String) (top_k : ℕ) (requested : List String)
      → IsConfined (c ∷ cs) (all_by_category db s category top_k requested)
  unfolding all_by_category
  all_by_category-IsConfined category top_k requested =
      elim (Result-cases (entries db s requested category)) [
        | inl (x, failed) ↦ ground arith
        | inr (es, found) ↦
            let eqn : all_by_category db s category top_k requested
                ≡ answer db s (top top_k (sort_entries db s es)) =
              ground arith in
            rw eqn (
              answer-IsConfined (c ∷ cs) db s (top top_k (sort_entries db s es)) (
                All-top (c ∷ cs) top_k (sort_entries db s es)
                  (sorted-Inside es (entries-Inside requested category es found))))
      ]

  query-IsConfined :
      (category : String) (tags : List String) → IsConfined (c ∷ cs) (query db s category tags)
  unfolding query
  query-IsConfined category tags = elim (Result-cases (entries db s [] category)) [
    | inl (x, failed) ↦ ground arith
    | inr (es, found) ↦
        let kept =
          filter (λ (e : Entry F). tags_match p.lower e.tags (map (to_lower p.lower) tags)) es in
        let eqn : query db s category tags ≡ answer db s (sort_entries db s kept) = ground arith in
        rw eqn (
          answer-IsConfined (c ∷ cs) db s (sort_entries db s kept) (
            sorted-Inside kept
              (All-filter (Inside (c ∷ cs)) _ es (entries-Inside [] category es found))))
  ]

  query_by_category-IsConfined :
      (category q : String) (top_k : ℕ) (requested : List String)
      → IsConfined (c ∷ cs) (query_by_category db s category q top_k requested)
  unfolding query_by_category
  query_by_category-IsConfined category q top_k requested =
      elim (Result-cases (entries db s requested category)) [
        | inl (x, failed) ↦ ground arith
        | inr (es, found) ↦
            let kept =
              filter (λ (e : Entry F). keyword_match p.lower e (fields (to_lower p.lower q))) es in
            let eqn : query_by_category db s category q top_k requested
                ≡ answer db s (top top_k (sort_entries db s kept)) =
              ground arith in
            rw eqn (
              answer-IsConfined (c ∷ cs) db s (top top_k (sort_entries db s kept)) (
                All-top (c ∷ cs) top_k (sort_entries db s kept) (
                  sorted-Inside kept (
                    All-filter (Inside (c ∷ cs)) _ es
                      (entries-Inside requested category es found)))))
      ]

  -- In a store with configured scopes, each entry that one of the four queries returns is in a
  -- configured scope, whichever scopes are asked for.
  pub queries-IsConfined :
      (requested tags : List String) (category q : String) (top_k : ℕ)
      → IsConfined (c ∷ cs) (all_in db s requested)
        × IsConfined (c ∷ cs) (all_by_category db s category top_k requested)
        × IsConfined (c ∷ cs) (query db s category tags)
        × IsConfined (c ∷ cs) (query_by_category db s category q top_k requested)
  queries-IsConfined requested tags category q top_k = (
    all_in-IsConfined requested,
    all_by_category-IsConfined category top_k requested,
    query-IsConfined category tags,
    query_by_category-IsConfined category q top_k requested,
  )
