-- ===== src/Vectors/Manager.antt =====
-- index_sqlite.go: the manager over the index. A log line is left out.
use mnemonic.Prelude.{
  String, Bool, List, [], ◌∷◌, map, none, some, contains, length, nat_eq, if◌then◌else◌,
}
use mnemonic.Store.Entry.{Entry, Result, ok, err, wrapped, external}
use mnemonic.Vectors.Index.{VecDb, VecIndex, insert_vector, delete_vector, lookup_vector, list_ids}

module _ {F B : Type 0} (db : VecDb F B) where
  unfoldable pub flush : VecIndex B → Result (Unit {0}) × VecIndex B
  flush idx = (ok tt, idx)

  unfoldable pub validate : VecIndex B → Result (Unit {0})
  validate idx = ok tt

  unfoldable pub index_entry : VecIndex B → Entry F → (String → Result (List F)) → VecIndex B
  unfolding insert_vector
  index_entry idx e embed = elim (embed e.content) [
    | err _ ↦ idx
    | ok v ↦ (insert_vector db idx e.id v).1
  ]

  unfoldable pub remove_from_index : VecIndex B → String → VecIndex B
  unfolding delete_vector
  remove_from_index idx id = (delete_vector db idx id).1

  -- The first loop of `BuildIndexes`.
  unfoldable pub without_vector : Bool → VecIndex B → List (Entry F) → List (Entry F)
  unfolding lookup_vector
  without_vector force idx [] = []
  without_vector force idx (e ∷ es) =
      let rest = without_vector force idx es in
      if force
      then e ∷ rest
      else elim (lookup_vector db idx e.id) [ none ↦ e ∷ rest | some _ ↦ rest ]

  unfoldable pub prune : List String → List String → VecIndex B → VecIndex B
  unfolding delete_vector
  prune active [] idx = idx
  prune active (id ∷ ids) idx =
      prune active ids (if contains active id then idx else (delete_vector db idx id).1)

  unfoldable pub insert_all : List (Entry F) → List (List F) → VecIndex B → VecIndex B
  unfolding insert_vector
  insert_all [] vs idx = idx
  insert_all (e ∷ es) [] idx = idx
  insert_all (e ∷ es) (v ∷ vs) idx = insert_all es vs (insert_vector db idx e.id v).1

  -- `BuildIndexes` from the texts of the entries to embed on.
  unfoldable pub embed_all :
      VecIndex B
      → List (Entry F)
      → (List String → Result (List (List F)))
      → Result (Unit {0}) × VecIndex B
  unfolding insert_all
  embed_all idx [] embed = (ok tt, idx)
  embed_all idx (e ∷ es) embed = elim (embed (map (λ (x : Entry F). x.content) (e ∷ es))) [
    | err x ↦ (err (wrapped "batch embedding" x), idx)
    | ok vectors ↦
        if nat_eq (length vectors) (length (e ∷ es))
        then (ok tt, insert_all (e ∷ es) vectors idx)
        else (err (external "batch embedding returned too many or too few vectors"), idx)
  ]

  unfoldable pub build_indexes :
      VecIndex B
      → List (Entry F)
      → Bool
      → (List String → Result (List (List F)))
      → Result (Unit {0}) × VecIndex B
  unfolding without_vector prune embed_all list_ids
  build_indexes idx entries force embed = elim (list_ids db idx) [
    | err x ↦ (err x, idx)
    | ok ids ↦
        embed_all (prune (map (λ (e : Entry F). e.id) entries) ids idx)
          (without_vector force idx entries) embed
  ]
