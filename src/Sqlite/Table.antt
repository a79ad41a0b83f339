-- ===== src/Sqlite/Table.antt =====
-- sqlite.go: the statements of SQL on a table, by the row that an ID has after them.
use mnemonic.Prelude.{
  String, false, not, ◌||◌, List, [], ◌∷◌, map, none, some, ◌≡◌, refl, ◌==◌, eq_iff, arith, filter,
  contains, if◌then◌else◌,
}
use mnemonic.Prelude.Maps.{Distinct}
use mnemonic.Sqlite.State.{Row, SqliteStore}
use mnemonic.Sqlite.Rows.{find_row}
use mnemonic.Sqlite.Queries.{update_rows}
use mnemonic.Sqlite.Changes.{put_row}

abbrev pub row_ids : {F : Type 0} → List (Row F) → List String
row_ids rows = map (λ r. r.id) rows

-- The primary key: no ID has two rows.
abbrev pub IsKeyed : {F : Type 0} → SqliteStore F → Type 0
IsKeyed s = Distinct (row_ids s.rows)

module _ {F : Type 0} where
  pub find_row-put_row :
      (id : String) (r : Row F) (rows : List (Row F))
      → find_row id (put_row r rows) ≡ (if r.id == id then some r else find_row id rows)
  unfolding put_row
  find_row-put_row id r [] = refl
  find_row-put_row id r (x ∷ xs) =
      ground (arith, find_row-put_row id r xs, eq_iff x.id r.id, eq_iff x.id id, eq_iff r.id id)

  contains-put_row :
      (id : String) (r : Row F) (rows : List (Row F))
      → contains (row_ids (put_row r rows)) id ≡ ((r.id == id) || contains (row_ids rows) id)
  unfolding put_row
  contains-put_row id r [] = ground arith
  contains-put_row id r (x ∷ xs) =
      ground (arith, contains-put_row id r xs, eq_iff x.id r.id, eq_iff x.id id, eq_iff r.id id)

  pub Distinct-put_row :
      (r : Row F) (rows : List (Row F))
      → Distinct (row_ids rows)
      → Distinct (row_ids (put_row r rows))
  unfolding put_row
  Distinct-put_row r [] d = (refl, tt)
  Distinct-put_row r (x ∷ xs) d =
      ground (
        arith,
        Distinct-put_row r xs,
        contains-put_row x.id r xs,
        eq_iff x.id r.id,
        eq_iff r.id x.id,
      )

  module _ (f : Row F → Row F) (keep : (r : Row F) → (f r).id ≡ r.id) (id : String) where
    pub find_row-update_rows :
        (j : String) (rows : List (Row F))
        → find_row j (update_rows id f rows)
          ≡ elim (find_row j rows) [ none ↦ none | some r ↦ some (if id == j then f r else r) ]
    unfolding update_rows
    find_row-update_rows j [] = refl
    find_row-update_rows j (x ∷ xs) =
        ground
          (arith, find_row-update_rows j xs, keep x, eq_iff x.id id, eq_iff x.id j, eq_iff id j)

    pub row_ids-update_rows : (rows : List (Row F)) → row_ids (update_rows id f rows) ≡ row_ids rows
    unfolding update_rows
    row_ids-update_rows [] = refl
    row_ids-update_rows (x ∷ xs) = ground (arith, row_ids-update_rows xs, keep x)

  pub find_row-delete :
      (id j : String) (rows : List (Row F))
      → find_row j (filter (λ r. not (r.id == id)) rows)
        ≡ (if id == j then none else find_row j rows)
  find_row-delete id j [] = ground arith
  find_row-delete id j (x ∷ xs) =
      ground (arith, find_row-delete id j xs, eq_iff x.id id, eq_iff x.id j, eq_iff id j)

  contains-delete :
      (id j : String) (rows : List (Row F))
      → contains (row_ids rows) j ≡ false
      → contains (row_ids (filter (λ r. not (r.id == id)) rows)) j ≡ false
  contains-delete id j [] h = refl
  contains-delete id j (x ∷ xs) h = ground (arith, contains-delete id j xs)

  pub Distinct-delete :
      (id : String) (rows : List (Row F))
      → Distinct (row_ids rows)
      → Distinct (row_ids (filter (λ r. not (r.id == id)) rows))
  Distinct-delete id [] d = tt
  Distinct-delete id (x ∷ xs) d = ground (arith, Distinct-delete id xs, contains-delete id x.id xs)
