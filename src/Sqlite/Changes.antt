-- ===== src/Sqlite/Changes.antt =====
-- sqlite.go: the methods that change entries.
use mnemonic.Prelude.{
  ℕ, ◌+◌, String, Bool, List, [], ◌∷◌, Option, none, some, ◌==◌, nat_eq, filter, not, length,
  if◌then◌else◌,
}
use mnemonic.Platform.{Platform, float_zero}
use mnemonic.Store.Entry.{
  Entry, Result, ok, err, wrapped, scope_global, category_not_allowed, not_found, generating_id,
  entry_required,
}
use mnemonic.Store.Allowed.{is_allowed_category}
use mnemonic.Sqlite.State.{Row, Db, SqliteStore, insert_row, update_score, delete_row, update_scope}
use mnemonic.Sqlite.Rows.{get_by_id}
use mnemonic.Sqlite.Queries.{update_rows}

module _ {F : Type 0} where
  unfoldable pub generate_id : Db F → Result String
  generate_id db = elim db.random_id [ none ↦ err generating_id | some id ↦ ok id ]

  -- INSERT with ON CONFLICT(id) DO UPDATE, which sets all the other columns.
  unfoldable pub put_row : Row F → List (Row F) → List (Row F)
  put_row r [] = r ∷ []
  put_row r (x ∷ xs) = if x.id == r.id then r ∷ xs else x ∷ put_row r xs

  unfoldable pub row_of : String → Entry F → Row F
  row_of tags e = record {
    id = e.id;
    content = e.content;
    tags = tags;
    category = e.category;
    scope = e.scope;
    score = e.score;
    hit_count = e.hit_count;
    last_hit = e.last_hit;
    created = e.created;
    source = e.source;
  }

  -- `Upsert` once the entry is filled in.
  unfoldable pub insert_entry : Db F → SqliteStore F → Entry F → Result (Unit {0}) × SqliteStore F
  unfolding put_row row_of
  insert_entry db s e = elim (db.encode_strings e.tags) [
    | err x ↦ (err (wrapped "encoding tags for entry" x), s)
    | ok tags ↦ elim (db.failure insert_row) [
      | some x ↦ (err (wrapped "upserting entry" x), s)
      | none ↦ (ok tt, record s { rows = put_row (row_of tags e) s.rows })
    ]
  ]

  -- How many rows a statement about one ID changes.
  unfoldable pub count_rows : String → List (Row F) → ℕ
  count_rows id rows = length (filter (λ r. r.id == id) rows)

  unfoldable pub delete : Db F → SqliteStore F → String → Result (Unit {0}) × SqliteStore F
  unfolding count_rows
  delete db s id = elim (db.failure delete_row) [
    | some x ↦ (err (wrapped "deleting entry" x), s)
    | none ↦
        let s' = record s { rows = filter (λ r. not (r.id == id)) s.rows } in
        let (affected, error) = db.rows_affected (count_rows id s.rows) in
        (
          elim error [
            | none ↦ ok tt
            | some x ↦ if nat_eq affected 0 then err (wrapped "checking delete result" x) else ok tt
          ],
          s',
        )
  ]

  unfoldable pub promote :
      Db F → SqliteStore F → String → String → Result (Unit {0}) × SqliteStore F
  unfolding count_rows update_rows
  promote db s id target = elim (db.failure update_scope) [
    | some x ↦ (err (wrapped "promoting entry" x), s)
    | none ↦
        let s' = record s { rows = update_rows id (λ r. record r { scope = target }) s.rows } in
        let (affected, error) = db.rows_affected (count_rows id s.rows) in
        (
          elim error [
            | some x ↦ err (wrapped "checking promote result" x)
            | none ↦ if nat_eq affected 0 then err (not_found id) else ok tt
          ],
          s',
        )
  ]

module _ {F : Type 0} ⦃p : Platform F⦄ where
  -- The fields that `Upsert` fills in for its caller, once the entry has an ID.
  unfoldable pub fill : ℕ → Entry F → Entry F
  unfolding scope_global
  fill now e = record e {
    scope = if e.scope == "" then scope_global else e.scope;
    score = if p.eq e.score float_zero then p.literal 1 0 else e.score;
    created = if nat_eq e.created 0 then now else e.created;
  }

  unfoldable pub with_id : Db F → Entry F → Result (Entry F)
  unfolding generate_id
  with_id db e =
      if e.id == ""
      then elim (generate_id db) [ err x ↦ err x | ok id ↦ ok (record e { id = id }) ]
      else ok e

  -- The result, the caller's entry as `Upsert` leaves it, and the store.
  unfoldable pub upsert_entry :
      Db F → SqliteStore F → Entry F → Result (Unit {0}) × Entry F × SqliteStore F
  unfolding is_allowed_category with_id fill insert_entry
  upsert_entry db s entry =
      if is_allowed_category entry.category
      then elim (with_id db entry) [
        | err x ↦ (err x, entry, s)
        | ok e ↦
            let filled = fill db.now e in let (r, s') = insert_entry db s filled in (r, filled, s')
      ]
      else (err (category_not_allowed entry.category), entry, s)

  -- `none` is the nil pointer.
  unfoldable pub upsert :
      Db F → SqliteStore F → Option (Entry F) → Result (Unit {0}) × Option (Entry F) × SqliteStore F
  unfolding upsert_entry
  upsert db s none = (err entry_required, none, s)
  upsert db s (some entry) = let (r, e, s') = upsert_entry db s entry in (r, some e, s')

  unfoldable pub scored_row : ℕ → Bool → F → Row F → Row F
  scored_row now counting value r =
      if counting
      then (record r { score = value; hit_count = r.hit_count + 1; last_hit = now })
      else record r { score = value }

  unfoldable pub score : Db F → SqliteStore F → String → F → Result (Unit {0}) × SqliteStore F
  unfolding get_by_id update_rows scored_row
  score db s id delta = elim (get_by_id db s id) [
    | err x ↦ (err x, s)
    | ok e ↦
        let value = p.max float_zero (p.add e.score delta) in
        elim (db.failure update_score) [
          | some x ↦ (err (wrapped "scoring entry" x), s)
          | none ↦ (
            ok tt,
            record s { rows = update_rows id (scored_row db.now s.auto_hit_counting value) s.rows },
          )
        ]
  ]
