-- ===== src/Hnsw/Coverage.antt =====
-- The metadata and the graph: each ID of the metadata has a vector, and after a build the metadata
-- has no ID without an entry.
use mnemonic.Prelude.{
  ℕ, String, true, not, ◌&&◌, List, none, some, ◌≡◌, ◌≢◌, ◌==◌, arith, contains, if◌then◌else◌, inl,
  inr,
}
use mnemonic.Prelude.Maps.{
  Map, lookup, remove, keys, contains-keys, contains-keys-insert, lookup-remove,
}
use mnemonic.Store.Entry.{Entry, Result, Result-cases}
use mnemonic.Hnsw.Manager.{
  GraphApi, HnswOs, HnswManager, insert_vector, delete_vector, index_entry, remove_from_index,
}

-- What the library documents: `Add` adds a node or replaces the one of its key, and `Delete`
-- removes the node of a key; neither touches another key.
pub record GraphLaws {F : Type 0} (G : GraphApi F) : Type 0 where
  pub lookup-add :
      (id j : String) (v : List F) (g : G.Graph)
      → G.lookup_node (G.add id v g) j ≡ (if id == j then some v else G.lookup_node g j)
  pub lookup-delete :
      (id j : String) (g : G.Graph)
      → G.lookup_node (G.delete id g).1 j ≡ (if id == j then none else G.lookup_node g j)

module _ {F : Type 0} (G : GraphApi F) (laws : GraphLaws G) where
  -- Each ID of the metadata has a vector.
  pub record IsCovered (m : HnswManager G) : Type 0 where
    pub covered : (id : String) → contains (keys m.meta) id ≡ true → G.lookup_node m.graph id ≢ none

  pub contains-keys-remove :
      (id j : String) (m : Map ℕ)
      → contains (keys (remove id m)) j ≡ (not (id == j) && contains (keys m) j)
  unfolding lookup
  contains-keys-remove id j m =
      ground (arith, contains-keys j (remove id m), contains-keys j m, lookup-remove id j m)

  -- Indexing an entry keeps that, whatever the embedder answers,
  pub index_entry-IsCovered :
      (os : HnswOs) (m : HnswManager G) (e : Entry F) (embed : String → Result (List F))
      → IsCovered m
      → IsCovered (index_entry G os m e embed)
  unfolding index_entry insert_vector
  index_entry-IsCovered os m e embed w = elim (Result-cases (embed e.content)) [
    | inl (x, f) ↦ rw (f, index_entry) w
    | inr (v, f) ↦ record {
      covered = λ id. ground (
        arith,
        w.covered id,
        laws.lookup-add e.id id v m.graph,
        contains-keys-insert e.id id os.now m.meta,
      );
    }
  ]

  -- and so does removing one.
  pub remove_from_index-IsCovered :
      (m : HnswManager G) (id : String) → IsCovered m → IsCovered (remove_from_index G m id)
  unfolding remove_from_index delete_vector
  remove_from_index-IsCovered m id w = record {
    covered = λ j.
        ground
          (arith, w.covered j, laws.lookup-delete id j m.graph, contains-keys-remove id j m.meta);
  }
