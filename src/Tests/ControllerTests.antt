-- ===== src/Tests/ControllerTests.antt =====
-- The theorems on the controller, with a snapshot for its store.
use mnemonic.Prelude.{
  ℕ, ◌≤◌, String, Bool-cases, true, false, List, [], ◌∷◌, some, ◌≡◌, ◌⊎◌, any, inl, inr, refl, ◌==◌,
  eq_iff, arith, All, length, max, filter, not, contains,
}
use mnemonic.Prelude.Maps.{Distinct, lookup}
use mnemonic.Store.Entry.{Entry, ok}
use mnemonic.Store.Ranking.{weighted_score}
use mnemonic.Store.Allowed.{Mandatory}
use mnemonic.Snapshot.State.{get}
use mnemonic.Snapshot.Api.{snapshot_api}
use mnemonic.Lint.Analysis.{Action, analyze, analyze_from}
use mnemonic.Lint.Laws.{lefts, rights}
use mnemonic.Controller.Interface.{StoreApi, IndexApi, Embedder, SearchResult}
use mnemonic.Controller.State.{MemoryController}
use mnemonic.Controller.Changes.{upsert, do_upsert}
use mnemonic.Controller.Searches.{semantic_search, find_similar}
use mnemonic.Controller.Deduplication.{chosen, upsert_chosen}
use mnemonic.Controller.Similarity.{IsFound, semantic_search_lem, advice_consistent}
use mnemonic.Tests.Sample.{sample, first, second, tenths}

abbrev pub rules : Mandatory
rules = record { categories = "avoidance" ∷ "security" ∷ []; extended = false }

abbrev pub stores : StoreApi ℕ
stores = snapshot_api rules 100

-- An index whose every search finds all that it has, in the order of the distances.
abbrev pub indexes : IndexApi ℕ
indexes = record {
  State = List (SearchResult ℕ);
  search = λ i vec k. ok i;
  lookup_vector = λ i id. some (1 ∷ []);
  index_entry = λ i e f. record { id = e.id; distance = 0 } ∷ i;
  remove_from_index = λ i id. filter (λ r. not (r.id == id)) i;
  build_indexes = λ i es force f. (ok tt, i);
}

abbrev pub embedder : Embedder ℕ
embedder = record { available = true; embed_single = λ text. ok (1 ∷ []); embed = λ texts. ok [] }

abbrev neighbours : List (SearchResult ℕ)
neighbours = record { id = "a"; distance = 0 } ∷ record { id = "b"; distance = tenths 1 } ∷ []

abbrev pub controller : MemoryController stores indexes
controller = record { store = ("a", first) ∷ ("b", second) ∷ []; index = neighbours }

upsert_chosen_example :
    upsert stores indexes embedder 100 controller second
    ≡ do_upsert stores indexes embedder controller
        (chosen stores indexes embedder 100 controller second)
upsert_chosen_example = upsert_chosen stores indexes embedder 100 controller second

-- A neighbour of another category, and one that the store does not have.
abbrev other : Entry ℕ
other = record first { id = "c"; category = "domain" }

abbrev wide : List (SearchResult ℕ)
wide = record { id = "c"; distance = 0 } ∷ record { id = "x"; distance = 0 } ∷ neighbours

abbrev wide_controller : MemoryController stores indexes
wide_controller = record { store = ("a", first) ∷ ("b", second) ∷ ("c", other) ∷ []; index = wide }

semantic_search_lem_example :
    All
      (IsFound stores indexes embedder wide_controller.store ("global" ∷ []) ("syntax" ∷ []) wide)
      (first ∷ second ∷ [])
    × (length (first ∷ second ∷ []) ≤ max 3 1)
    × ((length (first ∷ second ∷ []) ≡ max 3 1)
        ⊎ ((e : Entry ℕ)
            → IsFound stores indexes embedder wide_controller.store
                ("global" ∷ [])
                ("syntax" ∷ [])
                wide
                e
            → any (λ x. x.id == e.id) (first ∷ second ∷ []) ≡ true))
unfolding semantic_search weighted_score get
semantic_search_lem_example =
    semantic_search_lem stores indexes embedder 100 wide_controller "errors" 3 ("global" ∷ [])
      ("syntax" ∷ []) (1 ∷ []) wide (first ∷ second ∷ []) refl refl refl refl

-- Each entry of the store has the ID that it is found under.
keyed : (r : String) (e : Entry ℕ) → stores.get controller.store r ≡ ok e → e.id ≡ r
unfolding get lookup
keyed r e h = elim (Bool-cases ("a" == r)) [
  | inl a ↦
      let p : "a" ≡ r = ground (arith, eq_iff "a" r) in let q : e ≡ first = ground arith in rw q p
  | inr n ↦ elim (Bool-cases ("b" == r)) [
    | inl b ↦
        let p : "b" ≡ r = ground (arith, eq_iff "b" r) in
        let q : e ≡ second = ground arith in rw q p
    | inr m ↦ absurd (ground arith)
  ]
]

abbrev advised : List (Action ℕ)
unfolding analyze_from find_similar
advised =
    analyze_from (find_similar stores indexes embedder controller (tenths 9)) []
      (first ∷ second ∷ [])

advice_consistent_example :
    Distinct (rights advised)
    × ((id : String) → contains (lefts advised) id ≡ true → contains (rights advised) id ≡ false)
unfolding analyze analyze_from find_similar
advice_consistent_example =
    advice_consistent stores indexes embedder controller (tenths 9) (first ∷ second ∷ []) advised
      keyed refl
