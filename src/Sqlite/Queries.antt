-- ===== src/Sqlite/Queries.antt =====
-- sqlite.go: the methods that read entries, with the hits that they count.
use mnemonic.Prelude.{
  ℕ, ◌+◌, String, Bool, true, false, ◌&&◌, ◌||◌, List, [], ◌∷◌, map, none, some, ◌==◌, filter,
  contains, if◌then◌else◌,
}
use mnemonic.Prelude.Sort.{sort}
use mnemonic.Prelude.Text.{text_less, fields, to_lower}
use mnemonic.Platform.{Platform, float_less}
use mnemonic.Store.Entry.{Entry, HeadInfo, Result, ok, err, wrapped}
use mnemonic.Store.Allowed.{Mandatory, is_mandatory_category}
use mnemonic.Store.Ranking.{sort_by_weighted_score}
use mnemonic.Yaml.Queries.{count_heads, top}
use mnemonic.Sqlite.State.{
  Row, Db, SqliteStore, select_entries, iterate_rows, begin_transaction, commit_transaction,
  update_hits,
}
use mnemonic.Sqlite.Rows.{scan_entry, get_by_id, resolve_query_scopes, tags_match, keyword_match}

module _ {F : Type 0} where
  -- The WHERE clause.
  unfoldable pub is_selected : String → List String → Row F → Bool
  is_selected category scopes r =
      (category == "" || r.category == category)
      && elim scopes [ [] ↦ true | sc ∷ scs ↦ contains (sc ∷ scs) r.scope ]

  -- The loop over the rows.
  unfoldable pub scan_rows : Db F → List (Row F) → Result (List (Entry F))
  unfolding scan_entry
  scan_rows db [] = elim (db.failure iterate_rows) [
    | none ↦ ok []
    | some x ↦ err (wrapped "iterating entries" x)
  ]
  scan_rows db (r ∷ rs) = elim (scan_entry db r) [
    | err x ↦ err x
    | ok e ↦ elim (scan_rows db rs) [ err x ↦ err x | ok es ↦ ok (e ∷ es) ]
  ]

  -- The rows with an ID, after an UPDATE.
  unfoldable pub update_rows : String → (Row F → Row F) → List (Row F) → List (Row F)
  update_rows id f [] = []
  update_rows id f (r ∷ rs) = (if r.id == id then f r else r) ∷ update_rows id f rs

  unfoldable pub hit_row : ℕ → Row F → Row F
  hit_row now r = record r { hit_count = r.hit_count + 1; last_hit = now }

  -- The set `seen`, in the order in which it is visited.
  unfoldable pub seen_ids : List String → List (Entry F) → List String
  seen_ids seen [] = []
  seen_ids seen (e ∷ es) =
      if contains seen e.id then seen_ids seen es else e.id ∷ seen_ids (e.id ∷ seen) es

  -- The loop of `markHits`: the rows inside the transaction.
  unfoldable pub hit_all : Db F → List String → List (Row F) → Result (List (Row F))
  unfolding update_rows hit_row
  hit_all db [] rows = ok rows
  hit_all db (id ∷ ids) rows = elim (db.failure (update_hits id)) [
    | some x ↦ err (wrapped "updating hit count" x)
    | none ↦ hit_all db ids (update_rows id (hit_row db.now) rows)
  ]

  -- A transaction that is not committed is rolled back.
  unfoldable pub transact : Db F → List String → SqliteStore F → Result (Unit {0}) × SqliteStore F
  unfolding hit_all
  transact db ids s = elim (db.failure begin_transaction) [
    | some x ↦ (err (wrapped "starting hit count transaction" x), s)
    | none ↦ elim (hit_all db ids s.rows) [
      | err x ↦ (err x, s)
      | ok rows ↦ elim (db.failure commit_transaction) [
        | some x ↦ (err (wrapped "committing hit count transaction" x), s)
        | none ↦ (ok tt, record s { rows = rows })
      ]
    ]
  ]

  unfoldable pub mark_hits :
      Db F → List (Entry F) → SqliteStore F → Result (Unit {0}) × SqliteStore F
  unfolding transact seen_ids
  mark_hits db [] s = (ok tt, s)
  mark_hits db (e ∷ es) s =
      if s.auto_hit_counting then transact db (seen_ids [] (e ∷ es)) s else (ok tt, s)

  -- What a query does with its hits.
  unfoldable pub answer :
      Db F → SqliteStore F → List (Entry F) → Result (List (Entry F)) × SqliteStore F
  unfolding mark_hits
  answer db s hits =
      let (r, s') = mark_hits db hits s in (elim r [ err x ↦ err x | ok _ ↦ ok hits ], s')

module _ {F : Type 0} ⦃p : Platform F⦄ (db : Db F) (s : SqliteStore F) where
  -- The weight in the ORDER BY clause.
  unfoldable pub sql_weight : Row F → F
  sql_weight r =
      let ref : F = elim (db.julianday r.last_hit) [
        | some d ↦ d
        | none ↦ elim (db.julianday r.created) [ some d ↦ d | none ↦ db.julian_now ]
      ] in
      p.mul r.score (p.exp (p.mul (p.neg (p.literal 5 2)) (p.sub db.julian_now ref)))

  -- The ORDER BY clause, as "less than": the weights fall, then the IDs rise.
  unfoldable pub sql_before : Row F → Row F → Bool
  unfolding sql_weight float_less
  sql_before a b =
      if float_less (sql_weight b) (sql_weight a)
      then true
      else if float_less (sql_weight a) (sql_weight b)
      then false
      else text_less a.id b.id

  -- The SELECT statement.
  unfoldable pub select : List String → String → List (Row F)
  unfolding is_selected sql_before sort
  select scopes category =
      let rows = filter (is_selected category scopes) s.rows in
      if s.sql_weighted_sort then sort sql_before rows else rows

  unfoldable pub entries : List String → String → Result (List (Entry F))
  unfolding resolve_query_scopes select scan_rows
  entries scopes category = elim (resolve_query_scopes s scopes) [
    | err x ↦ err x
    | ok query_scopes ↦ elim (db.failure select_entries) [
      | some x ↦ err (wrapped "querying entries" x)
      | none ↦ scan_rows db (select query_scopes category)
    ]
  ]

  unfoldable pub sort_entries : List (Entry F) → List (Entry F)
  unfolding sort_by_weighted_score
  sort_entries es = if s.sql_weighted_sort then es else sort_by_weighted_score db.now es

  unfoldable pub list_heads : Mandatory → List String → Result (List HeadInfo)
  unfolding entries count_heads is_mandatory_category sort
  list_heads m scopes = elim (entries scopes "") [
    | err x ↦ err x
    | ok es ↦ ok (
        sort (λ i j. text_less i.name j.name)
          (map (λ c. record { name = c.0; count = c.1; mandatory = is_mandatory_category m c.0 })
            (count_heads [] es)))
  ]

  unfoldable pub all_in : List String → Result (List (Entry F)) × SqliteStore F
  unfolding entries sort_entries answer
  all_in scopes = elim (entries scopes "") [
    | err x ↦ (err x, s)
    | ok es ↦ answer db s (sort_entries es)
  ]

  unfoldable pub all_by_category :
      String → ℕ → List String → Result (List (Entry F)) × SqliteStore F
  unfolding entries sort_entries answer top
  all_by_category category top_k scopes = elim (entries scopes category) [
    | err x ↦ (err x, s)
    | ok es ↦ answer db s (top top_k (sort_entries es))
  ]

  unfoldable pub get : String → Result (Entry F)
  unfolding get_by_id
  get id = get_by_id db s id

  unfoldable pub query : String → List String → Result (List (Entry F)) × SqliteStore F
  unfolding entries sort_entries answer tags_match to_lower
  query category tags =
      let required = map (to_lower p.lower) tags in
      elim (entries [] category) [
        | err x ↦ (err x, s)
        | ok es ↦ answer db s (sort_entries (filter (λ e. tags_match p.lower e.tags required) es))
      ]

  unfoldable pub query_by_category :
      String → String → ℕ → List String → Result (List (Entry F)) × SqliteStore F
  unfolding entries sort_entries answer top keyword_match fields to_lower
  query_by_category category q top_k scopes =
      let terms = fields (to_lower p.lower q) in
      elim (entries scopes category) [
        | err x ↦ (err x, s)
        | ok es ↦
            answer db s (top top_k (sort_entries (filter (λ e. keyword_match p.lower e terms) es)))
      ]
