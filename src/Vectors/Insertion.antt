-- ===== src/Vectors/Insertion.antt =====
-- sqlitevec.go: InsertVector and DeleteVector, by what LookupVector gives after them.
use mnemonic.Prelude.{
  ℕ, String, true, not, List, ◌⊎◌, none, some, ◌≡◌, refl, ◌==◌, eq_iff, arith, filter, nat_eq,
  Bool-cases, Option-cases, inl, inr, if◌then◌else◌,
}
use mnemonic.Store.Entry.{Result, ok, err, external, Result-cases}
use mnemonic.Config.State.{ℤ}
use mnemonic.Hnsw.Manager.{has_size}
use mnemonic.Vectors.Index.{
  VecDb, VecIndex, find_rowid, put_vector, settle_change, insert_vector, drop_vector, delete_vector,
  lookup_vector, select_vector, begin_change, select_rowid, delete_embedding, delete_id,
  commit_change,
}
use mnemonic.Vectors.Tables.{
  find_rowid-delete, find_rowid-deleted, Distinct-ids-delete, find_embedding-delete,
}
use mnemonic.Vectors.Lookup.{IsIndexed, VecLaws, Runs, stored, put_vector-Runs}

module _ {F B : Type 0} (db : VecDb F B) where
  -- A vector that the index can keep: it has the index's size, JSON has a text for it, and the
  -- extension reads that text.
  pub record IsStorable (dimensions : ℤ) (v : List F) : Type 0 where
    pub sized : has_size dimensions v ≡ true
    pub json : String
    pub form : B
    pub encoded : db.encode_vector v ≡ ok json
    pub converted : db.vec1_from_json json ≡ some form

  -- What is looked up, from the stored form.
  pub lookup-stored :
      (idx : VecIndex B) (j : String)
      → Runs db
      → lookup_vector db idx j
        ≡ (elim (stored idx j) [ none ↦ none | some b ↦ db.decode_vector (db.vec1_to_json b) ])
  unfolding lookup_vector stored
  lookup-stored idx j runs = elim (Option-cases (find_rowid j idx.ids)) [
    | inl f ↦ ground (arith, f)
    | inr (n, f) ↦ ground (arith, f, runs select_vector)
  ]

  module _ (laws : VecLaws db) where
    -- In a well-formed index of a database whose statements run, a vector that the index can keep
    -- is inserted, the index stays well-formed and keeps its size, and LookupVector gives the
    -- vector for its ID and for every other ID what it gave before.
    pub lookup-insert_vector :
        (idx : VecIndex B) (id : String) (v : List F)
        → IsIndexed idx
        → Runs db
        → IsStorable idx.dimensions v
        → let (r, after) = insert_vector db idx id v in
          (r ≡ ok tt)
          × IsIndexed after
          × (after.dimensions ≡ idx.dimensions)
          × ((j : String)
              → lookup_vector db after j ≡ (if id == j then some v else lookup_vector db idx j))
    unfolding insert_vector settle_change
    lookup-insert_vector idx id v w runs k =
        let (after, p, w', d, q) =
          put_vector-Runs db laws idx id k.json k.form w runs k.converted in
        rw (k.sized, k.encoded, p)
          (
            refl,
            w',
            d,
            λ j. ground (
              arith,
              lookup-stored after j runs,
              lookup-stored idx j runs,
              q j,
              laws.decode-encode v k.json k.form k.encoded k.converted,
            ),
          )

  dropped_rowid :
      (idx : VecIndex B) (id : String) (n : ℕ)
      → IsIndexed idx
      → find_rowid id idx.ids ≡ some n
      → (j : String)
      → find_rowid j (filter (λ x. not (nat_eq x.rowid n)) idx.ids)
        ≡ (if id == j then none else find_rowid j idx.ids)
  dropped_rowid idx id n w f j = elim (Bool-cases (id == j)) [
    | inl same ↦
        let p : find_rowid j idx.ids ≡ some n = ground (arith, eq_iff id j, f) in
        ground (arith, find_rowid-deleted j n idx.ids w.distinct p)
    | inr other ↦ ground (arith, find_rowid-delete j n idx.ids, w.apart id j n f, eq_iff id j)
  ]

  drop_vector-Runs :
      (idx : VecIndex B) (id : String) (n : ℕ)
      → IsIndexed idx
      → Runs db
      → find_rowid id idx.ids ≡ some n
      → (after : VecIndex B) × (drop_vector db idx id ≡ ok after)
        × IsIndexed after
        × (after.dimensions ≡ idx.dimensions)
        × ((j : String) → stored after j ≡ (if id == j then none else stored idx j))
  unfolding drop_vector stored
  drop_vector-Runs idx id n w runs f = (
    record idx {
      ids = filter (λ x. not (nat_eq x.rowid n)) idx.ids;
      embeddings = filter (λ x. not (nat_eq x.rowid n)) idx.embeddings;
    },
    ground (
      arith,
      runs begin_change,
      runs select_rowid,
      runs delete_embedding,
      runs delete_id,
      runs commit_change,
      f,
    ),
    record {
      distinct = Distinct-ids-delete n idx.ids w.distinct;
      apart = λ i j m p q.
          ground (arith, dropped_rowid idx id n w f i, dropped_rowid idx id n w f j, w.apart i j m);
    },
    refl,
    λ j. elim (Option-cases (find_rowid j idx.ids)) [
      | inl e ↦ ground (arith, dropped_rowid idx id n w f j)
      | inr (m, e) ↦ ground (
        arith,
        dropped_rowid idx id n w f j,
        find_embedding-delete m n idx.embeddings,
        w.apart id j n f,
        eq_iff id j,
      )
    ],
  )

  absent : (idx : VecIndex B) (id : String) → find_rowid id idx.ids ≡ none → stored idx id ≡ none
  unfolding stored
  absent idx id f = ground (arith, f)

  -- In a well-formed index of a database whose statements run, DeleteVector takes out the vector
  -- of its ID and no other, and is an error exactly when the index has no row for the ID; the index
  -- stays well-formed and keeps its size.
  pub lookup-delete_vector :
      (idx : VecIndex B) (id : String)
      → IsIndexed idx
      → Runs db
      → let (r, after) = delete_vector db idx id in
        (r ≡ (elim (find_rowid id idx.ids) [
          | none ↦ err (external "node not found in index")
          | some _ ↦ ok tt
        ]))
        × IsIndexed after
        × (after.dimensions ≡ idx.dimensions)
        × ((j : String)
            → lookup_vector db after j ≡ (if id == j then none else lookup_vector db idx j))
  unfolding delete_vector settle_change drop_vector
  lookup-delete_vector idx id w runs = elim (Option-cases (find_rowid id idx.ids)) [
    | inl f ↦
        let p : drop_vector db idx id ≡ err (external "node not found in index") =
          ground (arith, runs begin_change, runs select_rowid, f) in
        rw (p, f, settle_change)
          (
            refl,
            w,
            refl,
            λ j. ground (arith, lookup-stored idx j runs, eq_iff id j, f, absent idx id f),
          )
    | inr (n, f) ↦
        let (after, p, w', d, q) = drop_vector-Runs idx id n w runs f in
        rw (p, f, settle_change)
          (
            refl,
            w',
            d,
            λ j. ground (arith, lookup-stored after j runs, lookup-stored idx j runs, q j),
          )
  ]

  settle_change_lem :
      (idx : VecIndex B) (r : Result (VecIndex B))
      → ((settle_change db idx r).0 ≡ ok tt) ⊎ ((settle_change db idx r).1 ≡ idx)
  unfolding settle_change
  settle_change_lem idx (err x) = inr refl
  settle_change_lem idx (ok after) = inl refl

  -- An insertion or a deletion succeeds or leaves the index as it was, whichever statement of its
  -- transaction fails.
  pub changes_atomic :
      (idx : VecIndex B) (id : String) (v : List F)
      → (((insert_vector db idx id v).0 ≡ ok tt) ⊎ ((insert_vector db idx id v).1 ≡ idx))
        × (((delete_vector db idx id).0 ≡ ok tt) ⊎ ((delete_vector db idx id).1 ≡ idx))
  unfolding insert_vector delete_vector
  changes_atomic idx id v = (
    elim (Bool-cases (has_size idx.dimensions v)) [
      | inr h ↦ rw h (inr refl)
      | inl h ↦ elim (Result-cases (db.encode_vector v)) [
        | inl (x, e) ↦ rw (h, e) (inr refl)
        | inr (json, e) ↦ rw (h, e) (settle_change_lem idx (put_vector db idx id json))
      ]
    ],
    settle_change_lem idx (drop_vector db idx id),
  )
