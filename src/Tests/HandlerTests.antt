-- ===== src/Tests/HandlerTests.antt =====
-- The handlers of the server at concrete inputs, over the SQLite store.
use mnemonic.Prelude.{ℕ, ◌≤◌, arith, List, [], ◌∷◌, map, ◌≡◌, refl, none, length}
use mnemonic.Prelude.Maps.{Distinct}
use mnemonic.Store.Entry.{Entry, ok, err, category_not_allowed}
use mnemonic.Store.Allowed.{mandatory}
use mnemonic.Controller.Interface.{IndexApi, SearchResult}
use mnemonic.Controller.State.{MemoryController, query_by_category as asked}
use mnemonic.Controller.Searches.{semantic_search}
use mnemonic.Server.Model.{QueryInput, QueryOutput, AddInput, AddOutput}
use mnemonic.Server.Handlers.{normalize_categories, handle_query, handle_add}
use mnemonic.Server.Composed.{controller_query_bounds}
use mnemonic.Sqlite.Rows.{sanitize_tags}
use mnemonic.Sqlite.Queries.{get, query_by_category}
use mnemonic.Sqlite.Changes.{upsert_entry}
use mnemonic.Sqlite.Api.{Session, sqlite_api}
use mnemonic.Sqlite.Adding.{get-handle_add}
use mnemonic.Tests.Sample.{sample, tenths}
use mnemonic.Tests.ControllerTests.{embedder}
use mnemonic.Tests.SqliteTests.{db, store, can_read}

abbrev session : Session ℕ
session = record { store = store; calls = λ n. db }

abbrev request : QueryInput
request = record {
  query = "errors";
  category = " syntax ";
  categories = "" ∷ "domain" ∷ [];
  top_k = 1;
  scopes = [];
}

abbrev answer : QueryOutput
answer = record {
  entries =
      (record {
        id = "b";
        content = "use wrapped errors";
        category = "syntax";
        tags = "go" ∷ [];
        scope = "team";
        source = "test";
      })
      ∷ [];
}

abbrev addition : AddInput
addition = record {
  content = "name the context";
  category = "syntax";
  tags = "go" ∷ [];
  scope = "";
  source = "";
}

abbrev added : AddOutput
added = record { status = "added"; id = "c0ffee"; scope = "project"; category = "syntax" }

categories_run :
    normalize_categories " syntax " ("" ∷ "domain" ∷ "syntax" ∷ []) ≡ ok ("syntax" ∷ "domain" ∷ [])
unfolding normalize_categories
categories_run = refl

categories_refused :
    normalize_categories "" ("syntax" ∷ "style" ∷ []) ≡ err (category_not_allowed "style")
unfolding normalize_categories
categories_refused = refl

-- An index that always finds the two entries of the store and one that is gone.
abbrev found : List (SearchResult ℕ)
found =
    record { id = "b"; distance = 0 }
    ∷ record { id = "gone"; distance = tenths 1 }
    ∷ record { id = "a"; distance = tenths 2 }
    ∷ []

abbrev index : IndexApi ℕ
index = record {
  State = ℕ;
  search = λ i vec k. ok found;
  lookup_vector = λ i id. none;
  index_entry = λ i e f. i;
  remove_from_index = λ i id. i;
  build_indexes = λ i es force f. (ok tt, i);
}

found-Distinct :
    (i : ℕ) (v : List ℕ) (k : ℕ) (rs : List (SearchResult ℕ))
    → index.search i v k ≡ ok rs
    → Distinct (map (λ r. r.id) rs)
found-Distinct i v k rs h =
    let same : rs ≡ found = ground arith in rw same (refl, (refl, (refl, tt)))

abbrev controller : MemoryController (sqlite_api mandatory) index
controller = record { store = session; index = 0 }

controller_query_bounds_example :
    (length answer.entries ≤ 1) × Distinct (map (λ r. r.id) answer.entries)
unfolding handle_query semantic_search query_by_category asked get
controller_query_bounds_example =
    controller_query_bounds mandatory index embedder 9 controller request answer (refl, (refl, tt))
      found-Distinct refl

get-handle_add_example :
    (e : Entry ℕ) × (get db
        (handle_add (sqlite_api mandatory) "2025-04-12" session addition).1.store
        "c0ffee"
      ≡ ok e)
    × (e.content ≡ "name the context")
    × (e.category ≡ "syntax")
    × (e.tags ≡ sanitize_tags db ("go" ∷ []))
    × (e.scope ≡ "project")
    × (added.scope ≡ "project")
unfolding handle_add upsert_entry
get-handle_add_example =
    get-handle_add mandatory db session can_read "2025-04-12" addition added refl
