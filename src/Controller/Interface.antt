-- ===== src/Controller/Interface.antt =====
-- What the controller asks of a store (internal/store/store.go), of an index manager
-- (internal/controller/index_manager.go) and of an embedder (internal/embed/embedding.go).
use mnemonic.Prelude.{ℕ, String, Bool, List, Option}
use mnemonic.Store.Entry.{Entry, HeadInfo, Result}

-- `Upsert` gives the entry as it leaves it for the caller.
pub record StoreApi (F : Type 0) : Type 1 where
  pub State : Type 0
  pub list_heads : State → List String → Result (List HeadInfo)
  pub get : State → String → Result (Entry F)
  pub all_in : State → List String → Result (List (Entry F)) × State
  pub all_by_category : State → String → ℕ → List String → Result (List (Entry F)) × State
  pub query : State → String → List String → Result (List (Entry F)) × State
  pub query_by_category :
      State → String → String → ℕ → List String → Result (List (Entry F)) × State
  pub upsert : State → Entry F → Result (Unit {0}) × Entry F × State
  pub score : State → String → F → Result (Unit {0}) × State
  pub delete : State → String → Result (Unit {0}) × State
  pub promote : State → String → String → Result (Unit {0}) × State

-- A vector's ID and its distance, a `float32`.
pub record SearchResult (F : Type 0) : Type 0 where
  pub id : String
  pub distance : F

-- What an embedder answers during one call of the controller.
pub record Embedder (F : Type 0) : Type 0 where
  pub available : Bool
  pub embed_single : String → Result (List F)
  pub embed : List String → Result (List (List F))

pub record IndexApi (F : Type 0) : Type 1 where
  pub State : Type 0
  pub search : State → List F → ℕ → Result (List (SearchResult F))
  pub lookup_vector : State → String → Option (List F)
  pub index_entry : State → Entry F → (String → Result (List F)) → State
  pub remove_from_index : State → String → State
  pub build_indexes :
      State
      → List (Entry F)
      → Bool
      → (List String → Result (List (List F)))
      → Result (Unit {0}) × State
