-- ===== src/Snapshot/Noop.antt =====
-- noop_store.go: no entries, and every change is accepted and forgotten. `Get` gives neither an
-- entry nor an error.
use mnemonic.Prelude.{ℕ, String, List, [], Option, none}
use mnemonic.Store.Entry.{Entry, HeadInfo, Result, ok}

pub data NoopStore : Type 0 where
  noop : NoopStore

module _ {F : Type 0} where
  unfoldable pub get : NoopStore → String → Result (Option (Entry F))
  get s id = ok none

  unfoldable pub all_in : NoopStore → List String → Result (List (Entry F))
  all_in s scopes = ok []

  unfoldable pub query : NoopStore → String → List String → Result (List (Entry F))
  query s category tags = ok []

  unfoldable pub all_by_category : NoopStore → String → ℕ → List String → Result (List (Entry F))
  all_by_category s category top_k scopes = ok []

  unfoldable pub query_by_category :
      NoopStore → String → String → ℕ → List String → Result (List (Entry F))
  query_by_category s category q top_k scopes = ok []

  unfoldable pub upsert : NoopStore → Entry F → Result (Unit {0}) × NoopStore
  upsert s e = (ok tt, s)

  unfoldable pub score : NoopStore → String → F → Result (Unit {0}) × NoopStore
  score s id delta = (ok tt, s)

unfoldable pub list_heads : NoopStore → List String → Result (List HeadInfo)
list_heads s scopes = ok []

unfoldable pub delete : NoopStore → String → Result (Unit {0}) × NoopStore
delete s id = (ok tt, s)

unfoldable pub promote : NoopStore → String → String → Result (Unit {0}) × NoopStore
promote s id target = (ok tt, s)
