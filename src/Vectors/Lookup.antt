-- ===== src/Vectors/Lookup.antt =====
-- sqlitevec.go: the index as a finite map from IDs to vectors. `LookupVector` gives what
-- `InsertVector` was given, and nothing of what `DeleteVector` took out; a change that fails
-- changes nothing.
use mnemonic.Prelude.{
  ℕ, String, false, List, [], ◌∷◌, ◌++◌, Option, none, some, ◌≡◌, ◌≢◌, refl, ◌==◌, eq_iff, arith,
  any, nat_eq, Bool-cases, Option-cases, inl, inr, if◌then◌else◌,
}
use mnemonic.Prelude.Maps.{Distinct}
use mnemonic.Store.Entry.{ok}
use mnemonic.Vectors.Index.{
  IdRow, Embedding, VecStatement, VecDb, VecIndex, find_rowid, find_embedding, ensure_id,
  replace_embedding, put_embedding, put_vector, begin_change, insert_id, select_rowid,
  update_embedding, insert_embedding, commit_change,
}
use mnemonic.Vectors.Tables.{
  ids_of, find_rowid-append, rowid_present, Distinct-ids-append, find_embedding-replace,
  find_embedding-append,
}

-- No ID twice, and no two IDs with one rowid.
pub record IsIndexed {B : Type 0} (idx : VecIndex B) : Type 0 where
  pub distinct : Distinct (ids_of idx.ids)
  pub apart :
      (i j : String) (n : ℕ) → find_rowid i idx.ids ≡ some n → find_rowid j idx.ids ≡ some n → i ≡ j

-- The extension's form of the vector of an ID.
unfoldable pub stored : {B : Type 0} → VecIndex B → String → Option B
stored idx id = elim (find_rowid id idx.ids) [
  | none ↦ none
  | some n ↦ find_embedding n idx.embeddings
]

module _ {F B : Type 0} where
  -- What SQLite documents of the rowid of a new row, and vec1 of its forms: a vector that is read
  -- back is the one that was written.
  pub record VecLaws (db : VecDb F B) : Type 0 where
    pub new_rowid_fresh :
        (rows : List IdRow) → any (λ x. nat_eq x.rowid (db.new_rowid rows)) rows ≡ false
    pub decode-encode :
        (v : List F) (json : String) (b : B)
        → db.encode_vector v ≡ ok json
        → db.vec1_from_json json ≡ some b
        → db.decode_vector (db.vec1_to_json b) ≡ some v

-- No statement fails.
abbrev pub Runs : {F B : Type 0} → VecDb F B → Type 0
Runs db = (s : VecStatement) → db.failure s ≡ none

module _ {F B : Type 0} (db : VecDb F B) (laws : VecLaws db) where
  find_rowid-ensure_id :
      (id j : String) (ids : List IdRow)
      → find_rowid id ids ≡ none
      → find_rowid j (ensure_id db id ids)
        ≡ (if id == j then some (db.new_rowid ids) else find_rowid j ids)
  unfolding ensure_id
  find_rowid-ensure_id id j ids h =
      ground
        (arith, find_rowid-append j (record { rowid = db.new_rowid ids; id = id }) ids, eq_iff id j)

  new_rowid_apart : (j : String) (ids : List IdRow) → find_rowid j ids ≢ some (db.new_rowid ids)
  new_rowid_apart j ids h =
      absurd (ground (arith, rowid_present j (db.new_rowid ids) ids h, laws.new_rowid_fresh ids))

  ensure_id-IsIndexed :
      (id : String) (idx : VecIndex B) (rows : List (Embedding B))
      → IsIndexed idx
      → IsIndexed (record idx { ids = ensure_id db id idx.ids; embeddings = rows })
  unfolding ensure_id
  ensure_id-IsIndexed id idx rows w = elim (Option-cases (find_rowid id idx.ids)) [
    | inl f ↦ record {
      distinct =
          rw (f, ensure_id)
            (Distinct-ids-append (record { rowid = db.new_rowid idx.ids; id = id }) idx.ids
              w.distinct f);
      apart = λ i j n p q. ground (
        arith,
        find_rowid-ensure_id id i idx.ids f,
        find_rowid-ensure_id id j idx.ids f,
        w.apart i j n,
        eq_iff id i,
        eq_iff id j,
        new_rowid_apart i idx.ids,
        new_rowid_apart j idx.ids,
      );
    }
    | inr (n, f) ↦ record {
      distinct = rw (f, ensure_id) w.distinct;
      apart = rw (f, ensure_id) w.apart;
    }
  ]

  -- Where the statements run, a vector is put under the rowid,
  put_embedding-Runs :
      (n : ℕ) (json : String) (rows : List (Embedding B)) (b : B)
      → Runs db
      → db.vec1_from_json json ≡ some b
      → (after : List (Embedding B)) × (put_embedding db n json rows ≡ ok after)
        × ((m : ℕ)
            → find_embedding m after ≡ (if nat_eq n m then some b else find_embedding m rows))
  unfolding put_embedding
  put_embedding-Runs n json rows b runs f = elim (Bool-cases (any (λ x. nat_eq x.rowid n) rows)) [
    | inl present ↦ (
      replace_embedding n b rows,
      ground (arith, runs update_embedding),
      λ m. find_embedding-replace m n b rows present,
    )
    | inr missing ↦ (
      rows ++ (record { rowid = n; embedding = b }) ∷ [],
      ground (arith, runs update_embedding, runs insert_embedding),
      λ m. find_embedding-append m n b rows missing,
    )
  ]

  -- and the ID has a rowid.
  ensured :
      (id : String) (ids : List IdRow) → (n : ℕ) × (find_rowid id (ensure_id db id ids) ≡ some n)
  unfolding ensure_id
  ensured id ids = elim (Option-cases (find_rowid id ids)) [
    | inl f ↦ (db.new_rowid ids, ground (arith, find_rowid-ensure_id id id ids f, eq_iff id id))
    | inr (n, f) ↦ (n, ground (arith, f))
  ]

  ensured_other :
      (id j : String) (ids : List IdRow)
      → (id == j) ≡ false
      → find_rowid j (ensure_id db id ids) ≡ find_rowid j ids
  unfolding ensure_id
  ensured_other id j ids h = elim (Option-cases (find_rowid id ids)) [
    | inl f ↦ ground (arith, find_rowid-ensure_id id j ids f)
    | inr (n, f) ↦ ground (arith, f)
  ]

  pub put_vector-Runs :
      (idx : VecIndex B) (id json : String) (b : B)
      → IsIndexed idx
      → Runs db
      → db.vec1_from_json json ≡ some b
      → (after : VecIndex B) × (put_vector db idx id json ≡ ok after)
        × IsIndexed after
        × (after.dimensions ≡ idx.dimensions)
        × ((j : String) → stored after j ≡ (if id == j then some b else stored idx j))
  unfolding put_vector stored
  put_vector-Runs idx id json b w runs f =
      let (n, g) = ensured id idx.ids in
      let (rows, p, q) = put_embedding-Runs n json idx.embeddings b runs f in
      let w' = ensure_id-IsIndexed id idx rows w in
      (
        record idx { ids = ensure_id db id idx.ids; embeddings = rows },
        ground
            (arith, runs begin_change, runs insert_id, runs select_rowid, runs commit_change, p, g),
        w',
        refl,
        λ j. elim (Bool-cases (id == j)) [
          | inl same ↦
              let k : find_rowid j (ensure_id db id idx.ids) ≡ some n =
                ground (arith, eq_iff id j, g) in
              ground (arith, k, q n)
          | inr other ↦ elim (Option-cases (find_rowid j idx.ids)) [
            | inl e ↦ ground (arith, ensured_other id j idx.ids other)
            | inr (m, e) ↦
                let k : find_rowid j (ensure_id db id idx.ids) ≡ some m =
                  ground (arith, ensured_other id j idx.ids other) in
                ground (arith, k, q m, eq_iff id j, w'.apart id j n g)
          ]
        ],
      )
