-- ===== src/Controller/State.antt =====
-- controller.go: the controller's state, and the calls that its store answers alone.
use mnemonic.Prelude.{ℕ, String, List}
use mnemonic.Store.Entry.{Entry, HeadInfo, Result}
use mnemonic.Controller.Interface.{StoreApi, IndexApi}

pub record MemoryController {F : Type 0} (S : StoreApi F) (I : IndexApi F) : Type 0 where
  pub store : S.State
  pub index : I.State

module _ {F : Type 0} (S : StoreApi F) (I : IndexApi F) where
  unfoldable pub list_heads : MemoryController S I → List String → Result (List HeadInfo)
  list_heads mc scopes = S.list_heads mc.store scopes

  unfoldable pub get : MemoryController S I → String → Result (Entry F)
  get mc id = S.get mc.store id

  unfoldable pub all_in :
      MemoryController S I → List String → Result (List (Entry F)) × MemoryController S I
  all_in mc scopes = let (r, s) = S.all_in mc.store scopes in (r, record mc { store = s })

  unfoldable pub all_by_category :
      MemoryController S I
      → String
      → ℕ
      → List String
      → Result (List (Entry F)) × MemoryController S I
  all_by_category mc category top_k scopes =
      let (r, s) = S.all_by_category mc.store category top_k scopes in (r, record mc { store = s })

  unfoldable pub query :
      MemoryController S I → String → List String → Result (List (Entry F)) × MemoryController S I
  query mc category tags =
      let (r, s) = S.query mc.store category tags in (r, record mc { store = s })

  unfoldable pub query_by_category :
      MemoryController S I
      → String
      → String
      → ℕ
      → List String
      → Result (List (Entry F)) × MemoryController S I
  query_by_category mc category q top_k scopes =
      let (r, s) = S.query_by_category mc.store category q top_k scopes in
      (r, record mc { store = s })

  unfoldable pub score :
      MemoryController S I → String → F → Result (Unit {0}) × MemoryController S I
  score mc id delta = let (r, s) = S.score mc.store id delta in (r, record mc { store = s })

  unfoldable pub promote :
      MemoryController S I → String → String → Result (Unit {0}) × MemoryController S I
  promote mc id target = let (r, s) = S.promote mc.store id target in (r, record mc { store = s })
