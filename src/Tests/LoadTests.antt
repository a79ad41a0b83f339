-- ===== src/Tests/LoadTests.antt =====
-- Loading what a flush has written, with a graph that is a map.
use mnemonic.Prelude.{String, false, [], none, ◌≡◌, refl}
use mnemonic.Config.State.{pos}
use mnemonic.Store.Entry.{ok, err, external}
use mnemonic.Hnsw.Manager.{flush, lookup_vector}
use mnemonic.Hnsw.Loading.{GraphReader, LoadOs, IsLoadable, load, restarted, load-flush}
use mnemonic.Tests.Sample.{sample}
use mnemonic.Tests.HnswTests.{graph, manager, os}

abbrev reader : GraphReader graph
reader = record {
  import_graph = λ g. (ok tt, g);
  import_truncated = (err (external "unexpected EOF"), []);
  dims = λ g. 1;
  connections = λ g. pos 16;
  level_factor = λ g. 25;
  panics = λ g v. false;
}

abbrev files : LoadOs
files = record { read_metadata = none; open_index = none }

manager-IsLoadable : IsLoadable graph reader 1 (pos 16) 25 manager.graph
manager-IsLoadable = record {
  reads = refl;
  nodes = λ id. refl;
  sized = refl;
  connected = refl;
  leveled = refl;
  calm = λ v. refl;
}

load-flush_example :
    let (r, loaded) =
      load graph reader files (pos 16) 25 (restarted graph reader (flush graph os manager).1) in
    (r ≡ ok tt)
    × (loaded.meta ≡ manager.meta)
    × ((id : String) → lookup_vector graph loaded id ≡ lookup_vector graph manager id)
unfolding flush
load-flush_example =
    load-flush graph reader os files 1 (pos 16) 25 manager refl refl refl refl refl
      manager-IsLoadable
