-- ===== src/Tests/SqliteTests.antt =====
-- The SQLite store at concrete inputs.
use mnemonic.Prelude.{
  ℕ, String, true, false, List, [], ◌∷◌, ◌==◌, eq_iff, ◌≡◌, refl, sym, Bool-cases, inl, inr, none,
  some, arith, if◌then◌else◌,
}
use mnemonic.Store.Entry.{ok, err, external}
use mnemonic.Sqlite.State.{Row, Db, SqliteStore, new, with_configured_scopes}
use mnemonic.Sqlite.Rows.{sanitize_tags}
use mnemonic.Sqlite.Queries.{all_in, all_by_category, query, query_by_category, mark_hits, get}
use mnemonic.Sqlite.Changes.{upsert_entry, delete, promote}
use mnemonic.Sqlite.Table.{IsKeyed}
use mnemonic.Sqlite.Upserting.{CanRead, get-upsert}
use mnemonic.Sqlite.Hits.{IsAtomic, mark_hits-IsAtomic}
use mnemonic.Sqlite.Confinement.{IsConfined, queries-IsConfined}
use mnemonic.Sqlite.Reach.{deleting, promoting, here, call, Reach-IsKeyed}
use mnemonic.Tests.Sample.{sample, tenths, first, second}

abbrev pub row : String → String → Row ℕ
row id scope = record {
  id = id;
  content = "use wrapped errors";
  tags = "[\"go\"]";
  category = "syntax";
  scope = scope;
  score = tenths 10;
  hit_count = 0;
  last_hit = 0;
  created = 5;
  source = "test";
}

-- Everything succeeds; the only tags are one tag "go".
abbrev pub db : Db ℕ
db = record {
  now = 9;
  random_id = some "c0ffee";
  failure = λ statement. none;
  scan_failure = λ r. none;
  rows_affected = λ n. (n, none);
  encode_strings = λ tags. elim tags [
    | [] ↦ err (external "unexpected")
    | t ∷ ts ↦ elim ts [
      | [] ↦ if t == "go" then ok "[\"go\"]" else err (external "unexpected")
      | u ∷ us ↦ err (external "unexpected")
    ]
  ];
  json_strings = λ text. some ("go" ∷ []);
  julianday = λ time. some time;
  julian_now = 9;
  mkdir_all = λ path. true;
  directory = λ path. path;
  open_database = λ dsn. ok (row "a" "global" ∷ row "b" "team" ∷ []);
  close_failure = none;
}

abbrev pub store : SqliteStore ℕ
store = record {
  rows = row "a" "global" ∷ row "b" "team" ∷ [];
  closed = false;
  auto_hit_counting = true;
  sql_weighted_sort = false;
  configured_scopes = "team" ∷ "project" ∷ [];
}

new_runs :
    new db "/tmp/mnemonic.db" (with_configured_scopes ("team" ∷ "project" ∷ []) ∷ [])
    ≡ ok (record store { sql_weighted_sort = true })
unfolding new with_configured_scopes
new_runs = refl

encodes_back :
    (tags : List String) (text : String)
    → db.encode_strings tags ≡ ok text
    → ((text == "") ≡ false) × (db.json_strings text ≡ some tags)
encodes_back [] text h = cc
encodes_back (t ∷ []) text h = elim (Bool-cases (t == "go")) [
  | inl same ↦
      let column : text ≡ "[\"go\"]" = ground arith in
      let tag : "go" ≡ t = sym ((eq_iff t "go").0 same) in rw (column, tag) (refl, refl)
  | inr other ↦ absurd (ground arith)
]
encodes_back (t ∷ u ∷ us) text h = cc

pub can_read : CanRead db db
can_read = record { runs = refl; scans = λ r. refl; decodes = encodes_back }

get-upsert_example :
    get db (upsert_entry db store second).2 "b"
    ≡ ok (record second { tags = sanitize_tags db ("go" ∷ []) })
unfolding upsert_entry
get-upsert_example = get-upsert db db can_read store second "b" refl

mark_hits-IsAtomic_example :
    IsAtomic db (first ∷ first ∷ []) store (mark_hits db (first ∷ first ∷ []) store)
mark_hits-IsAtomic_example = mark_hits-IsAtomic db (first ∷ first ∷ []) store

queries-IsConfined_example :
    IsConfined ("team" ∷ "project" ∷ []) (all_in db store [])
    × IsConfined ("team" ∷ "project" ∷ []) (all_by_category db store "syntax" 1 [])
    × IsConfined ("team" ∷ "project" ∷ []) (query db store "syntax" ("go" ∷ []))
    × IsConfined ("team" ∷ "project" ∷ []) (query_by_category db store "syntax" "errors" 1 [])
queries-IsConfined_example =
    queries-IsConfined db store "team" ("project" ∷ []) refl [] ("go" ∷ []) "syntax" "errors" 1

Reach-IsKeyed_example : IsKeyed (promote db (delete db store "a").1 "b" "project").1
Reach-IsKeyed_example =
    Reach-IsKeyed (call (call here (deleting db "a")) (promoting db "b" "project"))
      (refl, (refl, tt))
