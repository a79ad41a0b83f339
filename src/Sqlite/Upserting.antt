-- ===== src/Sqlite/Upserting.antt =====
-- sqlite.go: `Upsert`, read back by `Get`.
use mnemonic.Prelude.{
  String, false, List, none, some, ◌≡◌, ◌==◌, arith, if◌then◌else◌, Bool-cases, Option-cases, inl,
  inr,
}
use mnemonic.Platform.{Platform}
use mnemonic.Store.Entry.{Entry, ok, err, not_found, Result-cases}
use mnemonic.Store.Allowed.{is_allowed_category}
use mnemonic.Sqlite.State.{Row, Db, SqliteStore, select_by_id, insert_row}
use mnemonic.Sqlite.Rows.{sanitize_tags, read_tags, entry_of, scan_entry, find_row, get_by_id}
use mnemonic.Sqlite.Queries.{get}
use mnemonic.Sqlite.Changes.{row_of, put_row, insert_entry, with_id, fill, upsert_entry}
use mnemonic.Sqlite.Table.{find_row-put_row}

-- What a later call of `Get` relies on: its statement runs, the rows can be read, and JSON that
-- was encoded is decoded again.
pub record CanRead {F : Type 0} (writing reading : Db F) : Type 0 where
  pub runs : reading.failure select_by_id ≡ none
  pub scans : (r : Row F) → reading.scan_failure r ≡ none
  pub decodes :
      (tags : List String) (text : String)
      → writing.encode_strings tags ≡ ok text
      → ((text == "") ≡ false) × (reading.json_strings text ≡ some tags)

module _ {F : Type 0} ⦃p : Platform F⦄ (writing reading : Db F) (c : CanRead writing reading) where
  entry_of-row_of :
      (e : Entry F) (text : String)
      → writing.encode_strings e.tags ≡ ok text
      → entry_of reading (row_of text e) ≡ record e { tags = sanitize_tags reading e.tags }
  unfolding entry_of row_of read_tags
  entry_of-row_of e text h = ground (arith, c.decodes e.tags text h)

  pub get_row :
      (s : SqliteStore F) (id : String)
      → get reading s id
        ≡ elim (find_row id s.rows) [ none ↦ err (not_found id) | some r ↦ ok (entry_of reading r) ]
  unfolding get get_by_id scan_entry
  get_row s id = elim (Option-cases (find_row id s.rows)) [
    | inl n ↦ ground (arith, c.runs)
    | inr (r, f) ↦ ground (arith, c.runs, c.scans r)
  ]

  get_inserted :
      (s : SqliteStore F) (e : Entry F) (text id : String)
      → writing.encode_strings e.tags ≡ ok text
      → get reading (record s { rows = put_row (row_of text e) s.rows }) id ≡ (
          if e.id == id
          then ok (record e { tags = sanitize_tags reading e.tags })
          else get reading s id)
  unfolding row_of
  get_inserted s e text id encoded =
      let row = row_of text e in
      let s' = record s { rows = put_row row s.rows } in
      ground (
        arith,
        get_row s' id,
        get_row s id,
        find_row-put_row id row s.rows,
        entry_of-row_of e text encoded,
      )

  -- After an `Upsert` that reports success, `Get` gives the caller's entry under its ID, with the
  -- fields that `Upsert` has filled in and its tags sanitized, and what it gave before under every
  -- other ID.
  pub get-upsert :
      (s : SqliteStore F) (entry : Entry F) (id : String)
      → (upsert_entry writing s entry).0 ≡ ok tt
      → let filled = (upsert_entry writing s entry).1 in
        get reading (upsert_entry writing s entry).2 id ≡ (
          if filled.id == id
          then ok (record filled { tags = sanitize_tags reading filled.tags })
          else get reading s id)
  unfolding upsert_entry insert_entry
  get-upsert s entry id h = elim (Bool-cases (is_allowed_category entry.category)) [
    | inr refused ↦ absurd (ground arith)
    | inl allowed ↦ elim (Result-cases (with_id writing entry)) [
      | inl (x, unnumbered) ↦ absurd (ground arith)
      | inr (e, numbered) ↦ elim (Result-cases (writing.encode_strings (fill writing.now e).tags)) [
        | inl (x, unencoded) ↦ absurd (ground arith)
        | inr (text, encoded) ↦ elim (Option-cases (writing.failure insert_row)) [
          | inr (x, failed) ↦ absurd (ground arith)
          | inl runs ↦
              let filled = fill writing.now e in
              let done : upsert_entry writing s entry
                  ≡ (ok tt, filled, record s { rows = put_row (row_of text filled) s.rows }) =
                ground arith in
              rw done (get_inserted s filled text id encoded)
        ]
      ]
    ]
  ]
