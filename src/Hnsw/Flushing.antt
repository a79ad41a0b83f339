-- ===== src/Hnsw/Flushing.antt =====
-- A flush that fails is not done again.
use mnemonic.Prelude.{true, false, ◌≡◌, arith, some}
use mnemonic.Store.Entry.{Error, ok, err}
use mnemonic.Hnsw.Manager.{GraphApi, HnswOs, HnswManager, exported, flush}

module _ {F : Type 0} (G : GraphApi F) where
  -- After a flush that could not write, the next one reports success and writes nothing, even where
  -- the disk works again, as long as nothing has changed in between.
  pub flush_after_failure :
      (os os' : HnswOs) (m : HnswManager G) (x : Error)
      → (flush G os m).0 ≡ err x
      → flush G os' (flush G os m).1 ≡ (ok tt, (flush G os m).1)
  unfolding flush
  flush_after_failure os os' m x h = ground arith

  -- A flush of a changed index without an error writes the graph and the metadata of one moment.
  pub flush_writes :
      (os : HnswOs) (m : HnswManager G)
      → m.dirty ≡ true
      → (flush G os m).0 ≡ ok tt
      → ((flush G os m).1.index_file ≡ exported m.graph)
        × ((flush G os m).1.meta_file ≡ some m.meta)
        × ((flush G os m).1.dirty ≡ false)
  unfolding flush
  flush_writes os m d h = ground arith
