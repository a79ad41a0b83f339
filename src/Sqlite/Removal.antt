-- ===== src/Sqlite/Removal.antt =====
-- sqlite.go: `Delete`, `Promote` and `Score`, read back by `Get`.
use mnemonic.Prelude.{
  ℕ, String, false, not, List, [], ◌∷◌, none, some, ◌≡◌, refl, ◌==◌, arith, filter, nat_eq,
  if◌then◌else◌, Option-cases, inl, inr,
}
use mnemonic.Platform.{Platform}
use mnemonic.Store.Entry.{ok, err, not_found}
use mnemonic.Sqlite.State.{Row, Db, SqliteStore, delete_row, update_scope}
use mnemonic.Sqlite.Rows.{entry_of, find_row}
use mnemonic.Sqlite.Queries.{update_rows, get}
use mnemonic.Sqlite.Changes.{count_rows, delete, promote}
use mnemonic.Sqlite.Table.{find_row-update_rows, find_row-delete}
use mnemonic.Sqlite.Upserting.{CanRead, get_row}

-- `RowsAffected` gives the number of the rows that were changed.
abbrev pub Counts : {F : Type 0} → Db F → Type 0
Counts db = (n : ℕ) → db.rows_affected n ≡ (n, none)

module _ {F : Type 0} ⦃p : Platform F⦄ (writing reading : Db F) (c : CanRead writing reading)
    (counts : Counts writing) (s : SqliteStore F) where
  none_counted :
      (id : String) (rows : List (Row F)) → find_row id rows ≡ none → count_rows id rows ≡ 0
  unfolding count_rows
  none_counted id [] h = refl
  none_counted id (r ∷ rs) h = ground (arith, none_counted id rs)

  some_counted :
      (id : String) (rows : List (Row F)) (r : Row F)
      → find_row id rows ≡ some r
      → nat_eq (count_rows id rows) 0 ≡ false
  unfolding count_rows
  some_counted id [] r h = cc
  some_counted id (x ∷ xs) r h = ground (arith, some_counted id xs r)

  -- A `Delete` whose statement runs reports success, also where the ID has no entry; `Get` then
  -- finds nothing under the ID, and under every other ID what it found before.
  pub get-delete :
      (id other : String)
      → writing.failure delete_row ≡ none
      → ((delete writing s id).0 ≡ ok tt)
        × (get reading (delete writing s id).1 other
            ≡ (if id == other then err (not_found other) else get reading s other))
  unfolding delete
  get-delete id other h =
      let s' = record s { rows = filter (λ r. not (r.id == id)) s.rows } in
      ground (
        arith,
        counts (count_rows id s.rows),
        get_row writing reading c s' other,
        get_row writing reading c s other,
        find_row-delete id other s.rows,
      )

  abbrev moved : String → Row F → Row F
  moved target r = record r { scope = target }

  entry_of-moved :
      (target : String) (r : Row F)
      → entry_of reading (moved target r) ≡ record (entry_of reading r) { scope = target }
  unfolding entry_of
  entry_of-moved target r = refl

  promoted :
      (id target : String)
      → writing.failure update_scope ≡ none
      → (promote writing s id target).0 ≡ elim (get reading s id) [ err x ↦ err x | ok _ ↦ ok tt ]
  unfolding promote
  promoted id target h = elim (Option-cases (find_row id s.rows)) [
    | inl n ↦ ground (
      arith,
      counts (count_rows id s.rows),
      get_row writing reading c s id,
      none_counted id s.rows n,
    )
    | inr (r, f) ↦ ground (
      arith,
      counts (count_rows id s.rows),
      get_row writing reading c s id,
      some_counted id s.rows r f,
    )
  ]

  after_promote :
      (id target other : String)
      → writing.failure update_scope ≡ none
      → get reading (promote writing s id target).1 other ≡ elim (get reading s other) [
        | err x ↦ err x
        | ok e ↦ ok (if id == other then (record e { scope = target }) else e)
      ]
  unfolding promote
  after_promote id target other h =
      let s' = record s { rows = update_rows id (moved target) s.rows } in
      let rows = find_row-update_rows (moved target) (λ r. refl) id other s.rows in
      elim (Option-cases (find_row other s.rows)) [
        | inl n ↦
            ground
              (arith, get_row writing reading c s other, get_row writing reading c s' other, rows)
        | inr (r, f) ↦ ground (
          arith,
          get_row writing reading c s other,
          get_row writing reading c s' other,
          rows,
          entry_of-moved target r,
        )
      ]

  -- A `Promote` whose statement runs reports an error exactly when the ID has no entry; `Get` then
  -- finds the entry in the target scope, with its other fields, and under every other ID what it
  -- found before.
  pub get-promote :
      (id target other : String)
      → writing.failure update_scope ≡ none
      → ((promote writing s id target).0 ≡ elim (get reading s id) [ err x ↦ err x | ok _ ↦ ok tt ])
        × (get reading (promote writing s id target).1 other ≡ elim (get reading s other) [
          | err x ↦ err x
          | ok e ↦ ok (if id == other then (record e { scope = target }) else e)
        ])
  get-promote id target other h = (promoted id target h, after_promote id target other h)
