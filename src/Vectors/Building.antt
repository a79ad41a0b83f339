-- ===== src/Vectors/Building.antt =====
-- index_sqlite.go: which IDs have a vector after BuildIndexes.
use mnemonic.Prelude.{
  String, Bool, true, false, not, ◌&&◌, ◌||◌, List, [], ◌∷◌, map, none, some, ◌≡◌, ◌∙◌, refl,
  eq_iff, arith, contains, length, nat_eq, All, Bool-cases, Option-cases, inl, inr, if◌then◌else◌,
}
use mnemonic.Config.State.{ℤ}
use mnemonic.Store.Entry.{Entry, ok}
use mnemonic.Vectors.Index.{
  VecDb, VecIndex, insert_vector, delete_vector, lookup_vector, list_ids, select_ids, read_rows,
}
use mnemonic.Vectors.Manager.{without_vector, prune, insert_all, embed_all, build_indexes}
use mnemonic.Vectors.Tables.{ids_of, find_rowid_absent}
use mnemonic.Vectors.Lookup.{IsIndexed, VecLaws, Runs, stored}
use mnemonic.Vectors.Insertion.{
  IsStorable, lookup-stored, lookup-insert_vector, lookup-delete_vector,
}

abbrev entry_ids : {F : Type 0} → List (Entry F) → List String
entry_ids es = map (λ e. e.id) es

length-contents : {F : Type 0} (es : List (Entry F)) → length (map (λ e. e.content) es) ≡ length es
length-contents [] = refl
length-contents (e ∷ es) = rw (length-contents es)

module _ {F B : Type 0} (db : VecDb F B) where
  -- Whether LookupVector finds a vector.
  abbrev pub has_vector : VecIndex B → String → Bool
  has_vector idx id = elim (lookup_vector db idx id) [ none ↦ false | some _ ↦ true ]

  -- The entries without a vector are some of the entries, and all that need one.
  without_vector-entries :
      (force : Bool) (idx : VecIndex B) (es : List (Entry F)) (j : String)
      → (contains (entry_ids (without_vector db force idx es)) j || has_vector idx j)
        ≡ (contains (entry_ids es) j || has_vector idx j)
  unfolding without_vector
  without_vector-entries force idx [] j = refl
  without_vector-entries force idx (e ∷ es) j = elim (Option-cases (lookup_vector db idx e.id)) [
    | inl f ↦
        rw (f, without_vector)
          (ground (arith, without_vector-entries force idx es j, eq_iff e.id j))
    | inr (v, f) ↦
        rw (f, without_vector)
          (ground (arith, without_vector-entries force idx es j, eq_iff e.id j))
  ]

  without_vector_some :
      (force : Bool) (idx : VecIndex B) (es : List (Entry F)) (j : String)
      → contains (entry_ids es) j ≡ false
      → contains (entry_ids (without_vector db force idx es)) j ≡ false
  unfolding without_vector
  without_vector_some force idx [] j h = refl
  without_vector_some force idx (e ∷ es) j h = elim (Option-cases (lookup_vector db idx e.id)) [
    | inl f ↦ rw (f, without_vector) (ground (arith, without_vector_some force idx es j))
    | inr (v, f) ↦ rw (f, without_vector) (ground (arith, without_vector_some force idx es j))
  ]

  listed :
      (idx : VecIndex B) (j : String)
      → Runs db
      → contains (ids_of idx.ids) j ≡ false
      → lookup_vector db idx j ≡ none
  unfolding stored
  listed idx j runs h = ground (arith, lookup-stored db idx j runs, find_rowid_absent j idx.ids h)

  -- The loop that prunes takes out the vectors of the listed IDs that are not active.
  prune_lem :
      (active ids : List String) (idx : VecIndex B)
      → IsIndexed idx
      → Runs db
      → IsIndexed (prune db active ids idx)
        × ((prune db active ids idx).dimensions ≡ idx.dimensions)
        × ((j : String)
            → lookup_vector db (prune db active ids idx) j ≡ (
                if contains ids j && not (contains active j) then none else lookup_vector db idx j))
  unfolding prune
  prune_lem active [] idx w runs = (w, refl, λ j. refl)
  prune_lem active (id ∷ ids) idx w runs = elim (Bool-cases (contains active id)) [
    | inl kept ↦
        let (w', d, q) = prune_lem active ids idx w runs in
        rw (kept, prune) (w', d, λ j. ground (arith, q j, eq_iff id j))
    | inr stale ↦
        let (r, v, c, k) = lookup-delete_vector db idx id w runs in
        let (w', d, q) = prune_lem active ids (delete_vector db idx id).1 v runs in
        rw (stale, prune) (w', ground (arith, c, d), λ j. ground (arith, q j, k j, eq_iff id j))
  ]

  module _ (laws : VecLaws db) where
    -- The loop that inserts gives a vector to each of its entries.
    insert_all_lem :
        (d : ℤ) (es : List (Entry F)) (vs : List (List F)) (idx : VecIndex B)
        → IsIndexed idx
        → Runs db
        → idx.dimensions ≡ d
        → length vs ≡ length es
        → All (IsStorable db d) vs
        → IsIndexed (insert_all db es vs idx)
          × ((j : String)
              → has_vector (insert_all db es vs idx) j
                ≡ (contains (entry_ids es) j || has_vector idx j))
    unfolding insert_all
    insert_all_lem d [] vs idx w runs s n k = (w, λ j. refl)
    insert_all_lem d (e ∷ es) [] idx w runs s n k = absurd (ground arith)
    insert_all_lem d (e ∷ es) (v ∷ vs) idx w runs s n k =
        let (r, u, c, q) = lookup-insert_vector db laws idx e.id v w runs (rw s k.0) in
        let (w', t) =
          insert_all_lem d es vs (insert_vector db idx e.id v).1 u runs (ground (arith, c))
            (ground arith) k.1 in
        (w', λ j. ground (arith, t j, q j))

    embed_all_lem :
        (d : ℤ) (es : List (Entry F)) (vectors : List String → List (List F)) (idx : VecIndex B)
        → IsIndexed idx
        → Runs db
        → idx.dimensions ≡ d
        → ((ts : List String) → length (vectors ts) ≡ length ts)
        → ((ts : List String) → All (IsStorable db d) (vectors ts))
        → let (r, after) = embed_all db idx es (λ ts. ok (vectors ts)) in
          (r ≡ ok tt)
          × IsIndexed after
          × ((j : String) → has_vector after j ≡ (contains (entry_ids es) j || has_vector idx j))
    unfolding embed_all
    embed_all_lem d [] vectors idx w runs s n k = (refl, w, λ j. refl)
    embed_all_lem d (e ∷ es) vectors idx w runs s n k =
        let ts = map (λ (x : Entry F). x.content) (e ∷ es) in
        let size : length (vectors ts) ≡ length (e ∷ es) = n ts ∙ length-contents (e ∷ es) in
        let same : nat_eq (length (vectors ts)) (length (e ∷ es)) ≡ true = ground (arith, size) in
        let (w', t) = insert_all_lem d (e ∷ es) (vectors ts) idx w runs s size (k ts) in
        rw same (refl, w', t)

    -- In a well-formed index of a database whose statements run, with an embedder that gives one
    -- vector for each text, each one that the index can keep, BuildIndexes succeeds, whether it is
    -- forced or not, the index stays well-formed, and then exactly the IDs of the entries have a
    -- vector.
    pub build_indexes_exact :
        (idx : VecIndex B) (entries : List (Entry F)) (force : Bool)
        (vectors : List String → List (List F))
        → IsIndexed idx
        → Runs db
        → ((ts : List String) → length (vectors ts) ≡ length ts)
        → ((ts : List String) → All (IsStorable db idx.dimensions) (vectors ts))
        → let (r, after) = build_indexes db idx entries force (λ ts. ok (vectors ts)) in
          (r ≡ ok tt)
          × IsIndexed after
          × ((j : String) → has_vector after j ≡ contains (entry_ids entries) j)
    unfolding build_indexes list_ids
    build_indexes_exact idx entries force vectors w runs n k =
        let active = entry_ids entries in
        let pruned = prune db active (ids_of idx.ids) idx in
        let (w', d, q) = prune_lem active (ids_of idx.ids) idx w runs in
        let (r, u, t) =
          embed_all_lem idx.dimensions (without_vector db force idx entries) vectors pruned w' runs
            d n k in
        rw (runs select_ids, runs read_rows, build_indexes)
          (
            r,
            u,
            λ j. ground (
              arith,
              t j,
              q j,
              listed idx j runs,
              without_vector-entries force idx entries j,
              without_vector_some force idx entries j,
            ),
          )
