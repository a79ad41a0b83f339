-- ===== src/Controller/Api.antt =====
-- A controller as the store that a daemon or a server has, with the answers of its embedder, and
-- its clock, during one call.
use mnemonic.Prelude.{ℕ, String, List}
use mnemonic.Platform.{Platform}
use mnemonic.Store.Entry.{Entry, Result}
use mnemonic.Controller.Interface.{StoreApi, IndexApi, Embedder}
use mnemonic.Controller.State.{
  MemoryController, list_heads, get, all_in, all_by_category, query, query_by_category, score,
  promote,
}
use mnemonic.Controller.Changes.{upsert, save, delete}
use mnemonic.Controller.Searches.{semantic_search}

module _ {F : Type 0} ⦃p : Platform F⦄ (S : StoreApi F) (I : IndexApi F) (em : Embedder F)
    (now : ℕ) where
  abbrev pub controller_api : StoreApi F
  controller_api = record {
    State = MemoryController S I;
    list_heads = list_heads S I;
    get = get S I;
    all_in = all_in S I;
    all_by_category = all_by_category S I;
    query = query S I;
    query_by_category = query_by_category S I;
    upsert = upsert S I em now;
    score = score S I;
    delete = delete S I em;
    promote = promote S I;
  }

  -- Its method `Save`, and its semantic search.
  abbrev pub controller_saver :
      MemoryController S I → Entry F → Result (Unit {0}) × MemoryController S I
  controller_saver mc e = let (r, e', mc') = save S I em mc e in (r, mc')

  abbrev pub controller_searcher :
      MemoryController S I
      → String
      → ℕ
      → List String
      → List String
      → Result (List (Entry F)) × MemoryController S I
  controller_searcher = semantic_search S I em now
