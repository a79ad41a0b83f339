-- ===== src/Controller/Searches.antt =====
-- controller.go: `SemanticSearch` and `FindSimilar`.
use mnemonic.Prelude.{
  ℕ, suc, ◌*◌, String, Bool, true, ◌&&◌, ◌||◌, List, [], ◌∷◌, some, none, ◌==◌, if◌then◌else◌,
  nat_eq, leb, contains,
}
use mnemonic.Prelude.Sort.{sort}
use mnemonic.Prelude.Text.{text_less}
use mnemonic.Platform.{Platform, float_less}
use mnemonic.Store.Entry.{Entry, Result, ok, err, wrapped, embedder_not_available}
use mnemonic.Store.Ranking.{weighted_score}
use mnemonic.Lint.Analysis.{SimilarEntry}
use mnemonic.Controller.Interface.{StoreApi, IndexApi, Embedder, SearchResult}
use mnemonic.Controller.State.{MemoryController}

-- How many neighbours are asked for. A `k` that is not positive is 0 here.
unfoldable pub search_size : ℕ → List String → ℕ
search_size k categories =
    if nat_eq k 0 then 10 else elim categories [ [] ↦ k * 2 | c ∷ cs ↦ k * 4 ]

-- An empty list of names lets every name through.
unfoldable pub admits : List String → String → Bool
admits [] name = true
admits (n ∷ ns) name = contains (n ∷ ns) name

module _ {F : Type 0} ⦃p : Platform F⦄ where
  -- `semanticCandidate` is an entry with a distance, as `SimilarEntry` is. The comparison of the
  -- sort, as "less than".
  unfoldable pub is_nearer : ℕ → SimilarEntry F → SimilarEntry F → Bool
  unfolding weighted_score float_less
  is_nearer now a b =
      if p.lt (p.literal 1 10) (p.abs (p.round32 (p.sub a.distance b.distance)))
      then float_less a.distance b.distance
      else (let aw = weighted_score now a.entry in
          let bw = weighted_score now b.entry in
          if p.lt (p.literal 1 10) (p.abs (p.sub aw bw))
          then float_less bw aw
          else text_less a.entry.id b.entry.id)

  -- The last loop; `n` entries are in the result already.
  unfoldable pub collect : ℕ → ℕ → List (SimilarEntry F) → List (Entry F)
  collect k n [] = []
  collect k n (c ∷ cs) = c.entry ∷ (if leb k (suc n) then [] else collect k (suc n) cs)

  module _ (S : StoreApi F) (I : IndexApi F) where
    -- The loop over the neighbours: the candidates, and the index without the IDs that the store
    -- no longer has.
    unfoldable pub candidates :
        S.State → List String → List String → List (SearchResult F) → List (SimilarEntry F)
    unfolding admits
    candidates s scopes categories [] = []
    candidates s scopes categories (r ∷ rs) =
        let rest = candidates s scopes categories rs in
        elim (S.get s r.id) [
          | err _ ↦ rest
          | ok e ↦
              if admits scopes e.scope && admits categories e.category
              then (record { entry = e; distance = r.distance }) ∷ rest
              else rest
        ]

    unfoldable pub remove_stale : S.State → I.State → List (SearchResult F) → I.State
    remove_stale s i [] = i
    remove_stale s i (r ∷ rs) = elim (S.get s r.id) [
      | err _ ↦ remove_stale s (I.remove_from_index i r.id) rs
      | ok _ ↦ remove_stale s i rs
    ]

    module _ (em : Embedder F) where
      unfoldable pub semantic_search :
          ℕ
          → MemoryController S I
          → String
          → ℕ
          → List String
          → List String
          → Result (List (Entry F)) × MemoryController S I
      unfolding search_size is_nearer collect candidates remove_stale sort
      semantic_search now mc q k scopes categories =
          if em.available
          then elim (em.embed_single q) [
            | err x ↦ (err (wrapped "embedding query" x), mc)
            | ok vec ↦ elim (I.search mc.index vec (search_size k categories)) [
              | err x ↦ (err (wrapped "index search" x), mc)
              | ok results ↦ (
                ok (
                    collect k 0
                      (sort (is_nearer now) (candidates mc.store scopes categories results))),
                record mc { index = remove_stale mc.store mc.index results },
              )
            ]
          ]
          else (ok [], mc)

      -- The vector of the entry: the one in the index, or a new embedding.
      unfoldable pub vector_of : MemoryController S I → String → Result (List F)
      vector_of mc id = elim (I.lookup_vector mc.index id) [
        | some vec ↦ ok vec
        | none ↦ elim (S.get mc.store id) [
          | err x ↦ err (wrapped "getting entry for similarity check" x)
          | ok e ↦ elim (em.embed_single e.content) [
            | err x ↦ err (wrapped "embedding entry for similarity check" x)
            | ok vec ↦ ok vec
          ]
        ]
      ]

      unfoldable pub similar_of :
          S.State → String → F → List (SearchResult F) → List (SimilarEntry F)
      similar_of s id target [] = []
      similar_of s id target (r ∷ rs) =
          let rest = similar_of s id target rs in
          if r.id == id || p.lt target r.distance then rest else elim (S.get s r.id) [
            | err _ ↦ rest
            | ok e ↦ (record { entry = e; distance = r.distance }) ∷ rest
          ]

      unfoldable pub find_similar :
          MemoryController S I → F → String → Result (List (SimilarEntry F))
      unfolding vector_of similar_of
      find_similar mc threshold id =
          if em.available
          then elim (vector_of mc id) [
            | err x ↦ err x
            | ok vec ↦ elim (I.search mc.index vec 10) [
              | err x ↦ err (wrapped "index search" x)
              | ok results ↦
                  ok (similar_of mc.store id (p.round32 (p.sub (p.literal 1 0) threshold)) results)
            ]
          ]
          else err embedder_not_available
