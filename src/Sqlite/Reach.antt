-- ===== src/Sqlite/Reach.antt =====
-- sqlite.go: the calls of the store in any order, each with whatever the database does.
use mnemonic.Prelude.{ℕ, String, Bool, List, Option, none, some, ◌≡◌, refl, arith, filter, inl, inr}
use mnemonic.Platform.{Platform, float_zero}
use mnemonic.Store.Entry.{Entry, Result-cases}
use mnemonic.Sqlite.State.{Row, Db, SqliteStore, close}
use mnemonic.Sqlite.Rows.{get_by_id}
use mnemonic.Sqlite.Queries.{
  answer, entries, all_in, all_by_category, query, query_by_category, sort_entries,
}
use mnemonic.Sqlite.Rows.{tags_match, keyword_match}
use mnemonic.Prelude.{map, []}
use mnemonic.Prelude.Text.{fields, to_lower}
use mnemonic.Yaml.Queries.{top}
use mnemonic.Sqlite.Changes.{
  row_of, insert_entry, with_id, fill, upsert_entry, upsert, delete, promote, score, scored_row,
}
use mnemonic.Sqlite.Table.{IsKeyed, Distinct-put_row, Distinct-delete, row_ids-update_rows}
use mnemonic.Sqlite.Hits.{row_ids-mark_hits}

module _ {F : Type 0} ⦃p : Platform F⦄ where
  -- One call: from a store to the store after it.
  pub data Step (s : SqliteStore F) : SqliteStore F → Type 0 where
    upserting : (db : Db F) (entry : Option (Entry F)) → Step s (upsert db s entry).2
    deleting : (db : Db F) (id : String) → Step s (delete db s id).1
    scoring : (db : Db F) (id : String) (delta : F) → Step s (score db s id delta).1
    promoting : (db : Db F) (id target : String) → Step s (promote db s id target).1
    listing : (db : Db F) (scopes : List String) → Step s (all_in db s scopes).1
    listing_category :
        (db : Db F) (category : String) (top_k : ℕ) (scopes : List String)
        → Step s (all_by_category db s category top_k scopes).1
    searching :
        (db : Db F) (category q : String) (top_k : ℕ) (scopes : List String)
        → Step s (query_by_category db s category q top_k scopes).1
    querying :
        (db : Db F) (category : String) (tags : List String) → Step s (query db s category tags).1
    closing : (db : Db F) → Step s (close db s).1

  -- Any number of calls.
  pub data Reach (s : SqliteStore F) : SqliteStore F → Type 0 where
    here : Reach s s
    call : {t u : SqliteStore F} → Reach s t → Step t u → Reach s u

  scored_id :
      (now : ℕ) (counting : Bool) (value : F) (r : Row F)
      → (scored_row now counting value r).id ≡ r.id
  unfolding scored_row
  scored_id now counting value r = ground arith

  module _ (db : Db F) (s : SqliteStore F) (w : IsKeyed s) where
    insert_entry-IsKeyed : (e : Entry F) → IsKeyed (insert_entry db s e).1
    unfolding insert_entry
    insert_entry-IsKeyed e = elim (Result-cases (db.encode_strings e.tags)) [
      | inl (x, failed) ↦ ground arith
      | inr (text, encoded) ↦ ground (arith, Distinct-put_row (row_of text e) s.rows w)
    ]

    upsert_entry-IsKeyed : (entry : Entry F) → IsKeyed (upsert_entry db s entry).2
    unfolding upsert_entry
    upsert_entry-IsKeyed entry = elim (Result-cases (with_id db entry)) [
      | inl (x, failed) ↦ ground arith
      | inr (e, numbered) ↦ ground (arith, insert_entry-IsKeyed (fill db.now e))
    ]

    upsert-IsKeyed : (entry : Option (Entry F)) → IsKeyed (upsert db s entry).2
    unfolding upsert
    upsert-IsKeyed none = w
    upsert-IsKeyed (some e) = upsert_entry-IsKeyed e

    delete-IsKeyed : (id : String) → IsKeyed (delete db s id).1
    unfolding delete
    delete-IsKeyed id = ground (arith, Distinct-delete id s.rows w)

    promote-IsKeyed : (id target : String) → IsKeyed (promote db s id target).1
    unfolding promote
    promote-IsKeyed id target =
        let f = λ (r : Row F). record r { scope = target } in
        ground (arith, row_ids-update_rows f (λ r. refl) id s.rows)

    score-IsKeyed : (id : String) (delta : F) → IsKeyed (score db s id delta).1
    unfolding score
    score-IsKeyed id delta = elim (Result-cases (get_by_id db s id)) [
      | inl (x, failed) ↦ ground arith
      | inr (e, found) ↦
          let value = p.max float_zero (p.add e.score delta) in
          let f = scored_row db.now s.auto_hit_counting value in
          ground
            (arith, row_ids-update_rows f (scored_id db.now s.auto_hit_counting value) id s.rows)
    ]

    answer-IsKeyed : (hits : List (Entry F)) → IsKeyed (answer db s hits).1
    unfolding answer
    answer-IsKeyed hits = rw (row_ids-mark_hits db hits s) w

    all_in-IsKeyed : (scopes : List String) → IsKeyed (all_in db s scopes).1
    unfolding all_in
    all_in-IsKeyed scopes = elim (Result-cases (entries db s scopes "")) [
      | inl (x, failed) ↦ ground arith
      | inr (es, found) ↦ ground (arith, answer-IsKeyed (sort_entries db s es))
    ]

    all_by_category-IsKeyed :
        (category : String) (k : ℕ) (scopes : List String)
        → IsKeyed (all_by_category db s category k scopes).1
    unfolding all_by_category
    all_by_category-IsKeyed category k scopes = elim (Result-cases (entries db s scopes category)) [
      | inl (x, failed) ↦ ground arith
      | inr (es, found) ↦ ground (arith, answer-IsKeyed (top k (sort_entries db s es)))
    ]

    query-IsKeyed : (category : String) (tags : List String) → IsKeyed (query db s category tags).1
    unfolding query
    query-IsKeyed category tags = elim (Result-cases (entries db s [] category)) [
      | inl (x, failed) ↦ ground arith
      | inr (es, found) ↦ ground (
        arith,
        answer-IsKeyed (
            sort_entries db s
              (filter (λ e. tags_match p.lower e.tags (map (to_lower p.lower) tags)) es)),
      )
    ]

    query_by_category-IsKeyed :
        (category q : String) (k : ℕ) (scopes : List String)
        → IsKeyed (query_by_category db s category q k scopes).1
    unfolding query_by_category
    query_by_category-IsKeyed category q k scopes =
        elim (Result-cases (entries db s scopes category)) [
          | inl (x, failed) ↦ ground arith
          | inr (es, found) ↦ ground (
            arith,
            answer-IsKeyed (
                top k (
                  sort_entries db s
                    (filter (λ e. keyword_match p.lower e (fields (to_lower p.lower q))) es))),
          )
        ]

  close-IsKeyed : (db : Db F) (s : SqliteStore F) → IsKeyed s → IsKeyed (close db s).1
  unfolding close
  close-IsKeyed db s w = ground arith

  Step-IsKeyed : {s t : SqliteStore F} → Step s t → IsKeyed s → IsKeyed t
  Step-IsKeyed {s} (upserting db entry) w = upsert-IsKeyed db s w entry
  Step-IsKeyed {s} (deleting db id) w = delete-IsKeyed db s w id
  Step-IsKeyed {s} (scoring db id delta) w = score-IsKeyed db s w id delta
  Step-IsKeyed {s} (promoting db id target) w = promote-IsKeyed db s w id target
  Step-IsKeyed {s} (listing db scopes) w = all_in-IsKeyed db s w scopes
  Step-IsKeyed {s} (listing_category db category k scopes) w =
      all_by_category-IsKeyed db s w category k scopes
  Step-IsKeyed {s} (searching db category q k scopes) w =
      query_by_category-IsKeyed db s w category q k scopes
  Step-IsKeyed {s} (querying db category tags) w = query-IsKeyed db s w category tags
  Step-IsKeyed {s} (closing db) w = close-IsKeyed db s w

  -- After any sequence of calls, whatever fails in them, a table that had no ID twice has none
  -- twice.
  pub Reach-IsKeyed : {s t : SqliteStore F} → Reach s t → IsKeyed s → IsKeyed t
  Reach-IsKeyed here w = w
  Reach-IsKeyed (call r st) w = Step-IsKeyed st (Reach-IsKeyed r w)
