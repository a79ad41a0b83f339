-- ===== src/Controller/Changes.antt =====
-- controller.go: the calls that change entries.
use mnemonic.Prelude.{
  ℕ, ◌+◌, String, Bool, not, ◌||◌, List, [], ◌∷◌, ◌++◌, ◌==◌, if◌then◌else◌, ltb, contains,
}
use mnemonic.Platform.{Platform}
use mnemonic.Store.Entry.{Entry, Result, ok, err, scope_global, wrapped, embedder_not_available}
use mnemonic.Controller.Interface.{StoreApi, IndexApi, Embedder, SearchResult}
use mnemonic.Controller.State.{MemoryController}

unfoldable pub normalized_scope : String → String
unfolding scope_global
normalized_scope scope = if scope == "" then scope_global else scope

-- The loop of `Merge` over the tags of the second entry; `tags` are those of the first so far.
unfoldable pub merge_tags : List String → List String → List String
merge_tags tags [] = tags
merge_tags tags (t ∷ ts) =
    if contains tags t then merge_tags tags ts else merge_tags (tags ++ t ∷ []) ts

module _ {F : Type 0} ⦃p : Platform F⦄ where
  -- The entry that takes the place of one that it duplicates.
  unfoldable pub reuse : ℕ → Entry F → Entry F → Entry F
  reuse now existing entry = record entry {
    id = existing.id;
    score = p.add existing.score (p.literal 1 1);
    hit_count = existing.hit_count;
    last_hit = now;
    created = existing.created;
    source = existing.source;
    tags = elim entry.tags [ [] ↦ existing.tags | t ∷ ts ↦ t ∷ ts ];
  }

  unfoldable pub merge_entries : Entry F → Entry F → Entry F
  unfolding merge_tags
  merge_entries keep del = record keep {
    tags = merge_tags keep.tags del.tags;
    score = p.max keep.score del.score;
    hit_count = keep.hit_count + del.hit_count;
    last_hit = if ltb keep.last_hit del.last_hit then del.last_hit else keep.last_hit;
  }

  module _ (S : StoreApi F) (I : IndexApi F) where
    module _ (em : Embedder F) where
      -- The index after an entry is saved.
      unfoldable pub index_saved : I.State → Entry F → I.State
      index_saved i e = if em.available then I.index_entry i e em.embed_single else i

      unfoldable pub do_upsert :
          MemoryController S I → Entry F → Result (Unit {0}) × Entry F × MemoryController S I
      unfolding index_saved
      do_upsert mc entry =
          let (r, e, s) = S.upsert mc.store entry in
          elim r [
            | err x ↦ (err x, e, record mc { store = s })
            | ok _ ↦ (ok tt, e, record { store = s; index = index_saved mc.index e })
          ]

      unfoldable pub save :
          MemoryController S I → Entry F → Result (Unit {0}) × Entry F × MemoryController S I
      unfolding do_upsert
      save mc entry = do_upsert mc entry

      -- The loop over the neighbours of the entry.
      unfoldable pub dedupe : ℕ → S.State → Entry F → List (SearchResult F) → Entry F
      unfolding normalized_scope reuse
      dedupe now s entry [] = entry
      dedupe now s entry (r ∷ rs) =
          let rest = dedupe now s entry rs in
          if p.lt r.distance (p.round32 (p.literal 5 2))
          then elim (S.get s r.id) [
            | err _ ↦ rest
            | ok existing ↦
                if not (existing.category == entry.category)
                  || not (normalized_scope existing.scope == normalized_scope entry.scope)
                then rest
                else reuse now existing entry
          ]
          else rest

      unfoldable pub upsert :
          ℕ → MemoryController S I → Entry F → Result (Unit {0}) × Entry F × MemoryController S I
      unfolding do_upsert dedupe
      upsert now mc entry =
          if em.available
          then elim (em.embed_single entry.content) [
            | err _ ↦ do_upsert mc entry
            | ok vec ↦ elim (I.search mc.index vec 3) [
              | err _ ↦ do_upsert mc entry
              | ok results ↦ do_upsert mc (dedupe now mc.store entry results)
            ]
          ]
          else do_upsert mc entry

      unfoldable pub delete :
          MemoryController S I → String → Result (Unit {0}) × MemoryController S I
      delete mc id =
          let (r, s) = S.delete mc.store id in
          elim r [
            | err x ↦ (err x, record mc { store = s })
            | ok _ ↦ (
              ok tt,
              record {
                store = s;
                index = if em.available then I.remove_from_index mc.index id else mc.index;
              },
            )
          ]

      -- `Merge` from the save of the merged entry on.
      unfoldable pub merge_into :
          MemoryController S I → Entry F → String → Result (Unit {0}) × MemoryController S I
      unfolding index_saved
      merge_into mc merged delete_id =
          let (r, e, s) = S.upsert mc.store merged in
          elim r [
            | err x ↦ (err (wrapped "updating kept entry after merge" x), record mc { store = s })
            | ok _ ↦
                let (r', s') = S.delete s delete_id in
                let mc' : MemoryController S I = record {
                  store = s';
                  index = index_saved mc.index e;
                } in
                elim r' [
                  | err x ↦ (err (wrapped "deleting other entry after merge" x), mc')
                  | ok _ ↦ (ok tt, mc')
                ]
          ]

      unfoldable pub merge :
          MemoryController S I → String → String → Result (Unit {0}) × MemoryController S I
      unfolding merge_entries merge_into
      merge mc keep_id delete_id = elim (S.get mc.store keep_id) [
        | err x ↦ (err (wrapped "getting first entry" x), mc)
        | ok keep ↦ elim (S.get mc.store delete_id) [
          | err x ↦ (err (wrapped "getting second entry" x), mc)
          | ok del ↦ merge_into mc (merge_entries keep del) delete_id
        ]
      ]

      unfoldable pub build_indexes :
          MemoryController S I → Bool → Result (Unit {0}) × MemoryController S I
      build_indexes mc force =
          if em.available
          then (let (r, s) = S.all_in mc.store [] in
              elim r [
                | err x ↦ (err x, record mc { store = s })
                | ok entries ↦
                    let (r', i) = I.build_indexes mc.index entries force em.embed in
                    (r', record { store = s; index = i })
              ])
          else (err embedder_not_available, mc)
