-- ===== src/Vectors/Saving.antt =====
-- The controller's `Save` and `Delete` over the SQLite store and the SQLite index.
use mnemonic.Prelude.{
  String, true, List, none, some, ◌≡◌, refl, ◌==◌, arith, inl, inr, if◌then◌else◌,
}
use mnemonic.Platform.{Platform}
use mnemonic.Store.Entry.{Entry, ok, err, not_found, Result-cases}
use mnemonic.Store.Allowed.{Mandatory}
use mnemonic.Controller.Interface.{Embedder}
use mnemonic.Controller.State.{MemoryController}
use mnemonic.Controller.Changes.{index_saved, do_upsert, save, delete}
use mnemonic.Sqlite.State.{Db, delete_row}
use mnemonic.Sqlite.Rows.{sanitize_tags}
use mnemonic.Sqlite.Queries.{get}
use mnemonic.Sqlite.Upserting.{CanRead, get-upsert}
use mnemonic.Sqlite.Removal.{Counts, get-delete}
use mnemonic.Sqlite.Api.{sqlite_api}
use mnemonic.Sqlite.Changes.{upsert_entry}
use mnemonic.Vectors.Index.{VecDb, lookup_vector}
use mnemonic.Vectors.Manager.{index_entry, remove_from_index}
use mnemonic.Vectors.Lookup.{IsIndexed, VecLaws, Runs}
use mnemonic.Vectors.Insertion.{IsStorable, lookup-insert_vector, lookup-delete_vector}
use mnemonic.Vectors.Api.{vec_api}

module _ {F B : Type 0} ⦃p : Platform F⦄ (m : Mandatory) (vectors : VecDb F B) where
  module _ (em : Embedder F) (mc : MemoryController (sqlite_api m) (vec_api vectors))
      (reading : Db F) (c : CanRead (mc.store.calls 0) reading) where
    -- When Save over the SQLite store and index reports success, with an embedder that is available
    -- and answers a vector that the index can keep, in a well-formed index whose statements run,
    -- then Get finds the entry, with its tags sanitized, under the ID that it has been given, and
    -- under every other ID what it found before; LookupVector finds the vector of its content
    -- there, and elsewhere what it found before; and the index stays well-formed.
    pub lookup-save :
        (laws : VecLaws vectors) (entry : Entry F) (v : List F)
        → em.available ≡ true
        → IsIndexed mc.index
        → Runs vectors
        → (save (sqlite_api m) (vec_api vectors) em mc entry).0 ≡ ok tt
        → em.embed_single (save (sqlite_api m) (vec_api vectors) em mc entry).1.content ≡ ok v
        → IsStorable vectors mc.index.dimensions v
        → (id : String)
        → let (r, e, mc') = save (sqlite_api m) (vec_api vectors) em mc entry in
          (get reading mc'.store.store id ≡ (
            if e.id == id
            then ok (record e { tags = sanitize_tags reading e.tags })
            else get reading mc.store.store id))
          × (lookup_vector vectors mc'.index id
              ≡ (if e.id == id then some v else lookup_vector vectors mc.index id))
          × IsIndexed mc'.index
    unfolding save do_upsert index_saved index_entry
    lookup-save laws entry v a w runs h f k id =
        elim (Result-cases (upsert_entry (mc.store.calls 0) mc.store.store entry).0) [
          | inl (x, g) ↦ absurd (ground arith)
          | inr (done, g) ↦
              let e = (upsert_entry (mc.store.calls 0) mc.store.store entry).1 in
              let u : em.embed_single e.content ≡ ok v = ground (arith, g) in
              let (r, w', d, q) = lookup-insert_vector vectors laws mc.index e.id v w runs k in
              rw (g, do_upsert, a, index_saved, u, index_entry)
                (
                  get-upsert (mc.store.calls 0) reading c mc.store.store entry id (ground arith),
                  q id,
                  w',
                )
        ]

    -- Delete over the SQLite store and index, whose statements run, with an embedder that is
    -- available, succeeds; then neither Get nor LookupVector finds anything under the ID, both find
    -- under every other ID what they found before, and the index stays well-formed.
    pub lookup-delete :
        (id : String)
        → em.available ≡ true
        → IsIndexed mc.index
        → Runs vectors
        → Counts (mc.store.calls 0)
        → (mc.store.calls 0).failure delete_row ≡ none
        → (other : String)
        → let (r, mc') = delete (sqlite_api m) (vec_api vectors) em mc id in
          (r ≡ ok tt)
          × (get reading mc'.store.store other
              ≡ (if id == other then err (not_found other) else get reading mc.store.store other))
          × (lookup_vector vectors mc'.index other
              ≡ (if id == other then none else lookup_vector vectors mc.index other))
          × IsIndexed mc'.index
    unfolding delete remove_from_index
    lookup-delete id a w runs n h other =
        let (g, found) = get-delete (mc.store.calls 0) reading c n mc.store.store id other h in
        let (r, w', d, q) = lookup-delete_vector vectors mc.index id w runs in
        rw (g, delete, a) (refl, found, q other, w')
