-- ===== src/Vectors/Index.antt =====
-- sqlitevec.go: the index, whose tables `vec_ids` and `vec_embeddings` are lists of rows. A
-- transaction that is not committed leaves both as they were.
use mnemonic.Prelude.{
  ℕ, String, true, false, List, [], ◌∷◌, ◌++◌, map, Option, none, some, not, ◌==◌, nat_eq, any,
  filter, if◌then◌else◌,
}
use mnemonic.Prelude.Sort.{sort}
use mnemonic.Platform.{Platform}
use mnemonic.Store.Entry.{Error, Result, ok, err, wrapped, external}
use mnemonic.Config.State.{ℤ}
use mnemonic.Controller.Interface.{SearchResult}
use mnemonic.Hnsw.Manager.{has_size}

pub record IdRow : Type 0 where
  pub rowid : ℕ
  pub id : String

-- `B` is the extension's own form of a vector.
pub record Embedding (B : Type 0) : Type 0 where
  pub rowid : ℕ
  pub embedding : B

-- The statements of the program; `read_rows` is the scanning, iterating and closing of rows.
pub data VecStatement : Type 0 where
  create_tables begin_change insert_id select_rowid update_embedding insert_embedding : VecStatement
  delete_embedding delete_id commit_change select_ids search_rows read_rows select_vector :
      VecStatement

-- What the database, its extension vec1 and the library of JSON do during one call.
pub record VecDb (F B : Type 0) : Type 0 where
  -- the error of a statement, `none` if it runs
  pub failure : VecStatement → Option Error
  pub close_failure : Option Error
  -- the rowid that SQLite gives to a new row
  pub new_rowid : List IdRow → ℕ
  -- `json.Marshal` of a vector, and `json.Unmarshal`
  pub encode_vector : List F → Result String
  pub decode_vector : String → Option (List F)
  pub vec1_from_json : String → Option B
  pub vec1_to_json : B → String
  pub vec1_cos_distance : B → B → F
  -- the rows that the table-valued query selects
  pub nearest : B → ℕ → List (Embedding B) → List (Embedding B)
  -- the tables that `driver.Open` finds
  pub open_tables : String → Result (List IdRow × List (Embedding B))

pub record VecIndex (B : Type 0) : Type 0 where
  pub ids : List IdRow
  pub embeddings : List (Embedding B)
  pub dimensions : ℤ

-- `SELECT rowid FROM vec_ids WHERE id = ?`
unfoldable pub find_rowid : String → List IdRow → Option ℕ
find_rowid id [] = none
find_rowid id (x ∷ xs) = if x.id == id then some x.rowid else find_rowid id xs

module _ {B : Type 0} where
  -- The row of `vec_embeddings` with a rowid.
  unfoldable pub find_embedding : ℕ → List (Embedding B) → Option B
  find_embedding n [] = none
  find_embedding n (x ∷ xs) = if nat_eq x.rowid n then some x.embedding else find_embedding n xs

  unfoldable pub replace_embedding : ℕ → B → List (Embedding B) → List (Embedding B)
  replace_embedding n b [] = []
  replace_embedding n b (x ∷ xs) =
      (if nat_eq x.rowid n then record { rowid = n; embedding = b } else x)
      ∷ replace_embedding n b xs

module _ {F B : Type 0} (db : VecDb F B) where
  unfoldable pub new_index : String → ℤ → Result (VecIndex B)
  new_index path dimensions = elim (db.open_tables path) [
    | err x ↦ err (wrapped "opening sqlite index database" x)
    | ok (ids, embeddings) ↦ elim (db.failure create_tables) [
      | none ↦ ok (record { ids = ids; embeddings = embeddings; dimensions = dimensions })
      | some x ↦ elim db.close_failure [
        | none ↦ err (wrapped "creating vec1 tables" x)
        | some y ↦ err (wrapped "closing sqlite index database after schema failure" y)
      ]
    ]
  ]

  unfoldable pub close : Result (Unit {0})
  close = elim db.close_failure [ none ↦ ok tt | some x ↦ err x ]

  -- `INSERT OR IGNORE INTO vec_ids(id)`
  unfoldable pub ensure_id : String → List IdRow → List IdRow
  unfolding find_rowid
  ensure_id id ids = elim (find_rowid id ids) [
    | some _ ↦ ids
    | none ↦ ids ++ (record { rowid = db.new_rowid ids; id = id }) ∷ []
  ]

  -- UPDATE, and INSERT where it has changed no row.
  unfoldable pub put_embedding : ℕ → String → List (Embedding B) → Result (List (Embedding B))
  unfolding replace_embedding
  put_embedding n json rows = elim (db.failure update_embedding) [
    | some x ↦ err (wrapped "updating embedding" x)
    | none ↦ elim (any (λ x. nat_eq x.rowid n) rows) [
      | true ↦ elim (db.vec1_from_json json) [
        | none ↦ err (external "updating embedding")
        | some b ↦ ok (replace_embedding n b rows)
      ]
      | false ↦ elim (db.failure insert_embedding) [
        | some x ↦ err (wrapped "inserting embedding" x)
        | none ↦ elim (db.vec1_from_json json) [
          | none ↦ err (external "inserting embedding")
          | some b ↦ ok (rows ++ (record { rowid = n; embedding = b }) ∷ [])
        ]
      ]
    ]
  ]

  -- The transaction of `InsertVector`.
  unfoldable pub put_vector : VecIndex B → String → String → Result (VecIndex B)
  unfolding ensure_id put_embedding
  put_vector idx id json = elim (db.failure begin_change) [
    | some x ↦ err (wrapped "begin tx" x)
    | none ↦ elim (db.failure insert_id) [
      | some x ↦ err (wrapped "inserting vec id mapping" x)
      | none ↦
          let ids = ensure_id id idx.ids in
          elim (db.failure select_rowid) [
            | some x ↦ err (wrapped "selecting rowid" x)
            | none ↦ elim (find_rowid id ids) [
              | none ↦ err (external "selecting rowid")
              | some n ↦ elim (put_embedding n json idx.embeddings) [
                | err x ↦ err x
                | ok rows ↦ elim (db.failure commit_change) [
                  | some x ↦ err (wrapped "commit insert vector" x)
                  | none ↦ ok (record idx { ids = ids; embeddings = rows })
                ]
              ]
            ]
          ]
    ]
  ]

  -- The index after a transaction: that of its success, or the one before it.
  unfoldable pub settle_change : VecIndex B → Result (VecIndex B) → Result (Unit {0}) × VecIndex B
  settle_change idx (err x) = (err x, idx)
  settle_change idx (ok idx') = (ok tt, idx')

  unfoldable pub insert_vector : VecIndex B → String → List F → Result (Unit {0}) × VecIndex B
  unfolding has_size put_vector settle_change
  insert_vector idx id v =
      if has_size idx.dimensions v
      then elim (db.encode_vector v) [
        | err x ↦ (err (wrapped "marshaling vector" x), idx)
        | ok json ↦ settle_change idx (put_vector idx id json)
      ]
      else (err (external "vector dimension mismatch"), idx)

  -- The transaction of `DeleteVector`.
  unfoldable pub drop_vector : VecIndex B → String → Result (VecIndex B)
  unfolding find_rowid
  drop_vector idx id = elim (db.failure begin_change) [
    | some x ↦ err (wrapped "begin tx" x)
    | none ↦ elim (db.failure select_rowid) [
      | some x ↦ err (wrapped "finding rowid for delete" x)
      | none ↦ elim (find_rowid id idx.ids) [
        | none ↦ err (external "node not found in index")
        | some n ↦ elim (db.failure delete_embedding) [
          | some x ↦ err (wrapped "deleting embedding" x)
          | none ↦ elim (db.failure delete_id) [
            | some x ↦ err (wrapped "deleting id mapping" x)
            | none ↦ elim (db.failure commit_change) [
              | some x ↦ err (wrapped "commit delete" x)
              | none ↦ ok (record idx {
                ids = filter (λ x. not (nat_eq x.rowid n)) idx.ids;
                embeddings = filter (λ x. not (nat_eq x.rowid n)) idx.embeddings;
              })
            ]
          ]
        ]
      ]
    ]
  ]

  unfoldable pub delete_vector : VecIndex B → String → Result (Unit {0}) × VecIndex B
  unfolding drop_vector settle_change
  delete_vector idx id = settle_change idx (drop_vector idx id)

  unfoldable pub list_ids : VecIndex B → Result (List String)
  list_ids idx = elim (db.failure select_ids) [
    | some x ↦ err (wrapped "listing vector ids" x)
    | none ↦ elim (db.failure read_rows) [
      | some x ↦ err (wrapped "reading vector ids" x)
      | none ↦ ok (map (λ x. x.id) idx.ids)
    ]
  ]

  -- No row, an error and a text that is no vector are all `none`.
  unfoldable pub lookup_vector : VecIndex B → String → Option (List F)
  unfolding find_rowid find_embedding
  lookup_vector idx id = elim (find_rowid id idx.ids) [
    | none ↦ none
    | some n ↦ elim (find_embedding n idx.embeddings) [
      | none ↦ none
      | some b ↦ elim (db.failure select_vector) [
        | some _ ↦ none
        | none ↦ db.decode_vector (db.vec1_to_json b)
      ]
    ]
  ]

  -- The JOIN of the selected rows with their IDs.
  unfoldable pub join_ids : List IdRow → B → List (Embedding B) → List (SearchResult F)
  join_ids ids target [] = []
  join_ids ids target (x ∷ xs) =
      map (λ (r : IdRow). record { id = r.id; distance = db.vec1_cos_distance x.embedding target })
        (filter (λ r. nat_eq r.rowid x.rowid) ids)
      ++ join_ids ids target xs

module _ {F B : Type 0} ⦃p : Platform F⦄ (db : VecDb F B) where
  unfoldable pub search : VecIndex B → List F → ℕ → Result (List (SearchResult F))
  unfolding has_size join_ids
  search idx target k =
      if has_size idx.dimensions target
      then if nat_eq k 0
        then err (external "k must be greater than 0")
        else elim (db.encode_vector target) [
          | err x ↦ err (wrapped "marshaling target vector" x)
          | ok json ↦ elim (db.failure search_rows) [
            | some x ↦ err (wrapped "searching index" x)
            | none ↦ elim (db.vec1_from_json json) [
              | none ↦ err (external "searching index")
              | some b ↦ elim (db.failure read_rows) [
                | some x ↦ err (wrapped "reading search results" x)
                | none ↦ ok (
                    map (λ (r : SearchResult F). record r { distance = p.round32 r.distance })
                      (sort (λ x y. p.lt x.distance y.distance)
                        (join_ids db idx.ids b (db.nearest b k idx.embeddings))))
              ]
            ]
          ]
        ]
      else err (external "target dimension mismatch")
