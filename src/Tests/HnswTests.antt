-- ===== src/Tests/HnswTests.antt =====
-- The theorems on the index manager, with a graph that is a map.
use mnemonic.Prelude.{
  ℕ, String, true, false, List, [], ◌∷◌, map, none, ◌≡◌, contains, arith, eq_iff,
}
use mnemonic.Prelude.Maps.{Map, lookup, insert, remove, keys, lookup-insert, lookup-remove}
use mnemonic.Store.Entry.{Entry, Result, ok}
use mnemonic.Config.State.{pos}
use mnemonic.Hnsw.Manager.{GraphApi, HnswOs, absent, HnswManager, build_indexes}
use mnemonic.Hnsw.Coverage.{GraphLaws, IsCovered}
use mnemonic.Hnsw.Building.{build_indexes-IsExact}
use mnemonic.Tests.Sample.{first, second}

abbrev pub graph : GraphApi ℕ
graph = record {
  Graph = Map (List ℕ);
  empty = [];
  add = insert;
  delete = λ id g. (contains (keys g) id, remove id g);
  lookup_node = λ g id. lookup id g;
  search_with_distance = λ g v k. [];
}

graph-GraphLaws : GraphLaws graph
graph-GraphLaws = record {
  lookup-add = λ id j v g. lookup-insert id j v g;
  lookup-delete = λ id j g. lookup-remove id j g;
}

-- An index with a vector whose entry is gone.
abbrev pub manager : HnswManager graph
manager = record {
  graph = ("gone", 1 ∷ []) ∷ [];
  dimensions = pos 1;
  meta = ("gone", 5) ∷ [];
  dirty = true;
  index_file = absent;
  meta_file = none;
}

manager-IsCovered : IsCovered graph graph-GraphLaws manager
unfolding lookup
manager-IsCovered = record { covered = λ id h. ground (arith, eq_iff "gone" id) }

abbrev pub os : HnswOs
os = record { now = 100; create = true; export_graph = true; save = true }

abbrev full : HnswOs
full = record { now = 100; create = false; export_graph = true; save = true }

abbrev embed : List String → Result (List (List ℕ))
embed texts = ok ((1 ∷ []) ∷ (2 ∷ []) ∷ [])

build_indexes-IsExact_example :
    IsCovered graph graph-GraphLaws
      (build_indexes graph os manager (first ∷ second ∷ []) false embed).1
    × ((id : String)
        → contains
            (keys (build_indexes graph os manager (first ∷ second ∷ []) false embed).1.meta)
            id
          ≡ true
        → contains (map (λ (e : Entry ℕ). e.id) (first ∷ second ∷ [])) id ≡ true)
build_indexes-IsExact_example =
    build_indexes-IsExact graph graph-GraphLaws os manager (first ∷ second ∷ []) false embed
      manager-IsCovered
