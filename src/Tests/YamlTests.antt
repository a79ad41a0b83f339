-- ===== src/Tests/YamlTests.antt =====
-- The theorems on the changes of the YAML store at a concrete store.
use mathlib.Core.Option
use mnemonic.Prelude.{ℕ, String, false, ◌&&◌, none, some, ◌≡◌, refl, ◌==◌, eq_iff, arith}
use mnemonic.Prelude.Maps.{lookup}
use mnemonic.Store.Entry.{Entry, ok, err, not_found, write_failed}
use mnemonic.Store.Allowed.{is_allowed_category}
use mnemonic.Yaml.State.{Os, files_of, refused}
use mnemonic.Yaml.Changes.{
  Place, with_id, fill, upsert, delete, score, promote, locate_outside, rewrite,
}
use mnemonic.Yaml.Queries.{get}
use mnemonic.Yaml.Files.{file_at}
use mnemonic.Yaml.View.{view, IsWf, entry_in}
use mnemonic.Yaml.Reads.{get-view}
use mnemonic.Yaml.Upserting.{view-upsert, upsert_duplicates}
use mnemonic.Yaml.Removal.{view-delete}
use mnemonic.Yaml.Scoring.{view-score, raised}
use mnemonic.Yaml.Promotion.{view-promote, promote_rollback}
use mnemonic.Yaml.Reach.{here, call, scoring, deleting, Reach-IsWf}
use mnemonic.Tests.Sample.{sample, entry, tenths, store, os, syntax_file, first}

pub store-IsWf : IsWf store
unfolding lookup files_of
store-IsWf = record {
  distinct = ground arith;
  once = λ sc c. ground (arith, eq_iff "b" "a");
  one_file = λ id sc c sc' c' e e' h k.
      ground
        (arith, eq_iff "global" sc, eq_iff "global" sc', eq_iff "syntax" c, eq_iff "syntax" c');
  covered = λ sc h. ground (arith, eq_iff "global" sc, eq_iff "project" sc);
}

get-view_example :
    get store "b" ≡ elim (view store "b") [ none ↦ err (not_found "b") | some e ↦ ok e ]
get-view_example = get-view "b" store store-IsWf

Reach-IsWf_example : IsWf (delete os (score os store "a" (tenths 5)).1 "b").1
Reach-IsWf_example =
    Reach-IsWf (call (call here (scoring os "a" (tenths 5))) (deleting os "b")) store-IsWf

view-delete_example : view (delete os store "a").1 "a" ≡ none
view-delete_example = view-delete os store "a" store-IsWf "a"

view-score_example :
    view (score os store "b" (tenths 5)).1 "b"
    ≡ Option.map (raised os store "b" (tenths 5)) (view store "b")
view-score_example = view-score os store "b" (tenths 5) store-IsWf "b"

-- A new entry.
abbrev third : Entry ℕ
third = entry "c" "syntax" 0

third_apart :
    (sc c : String) → ("global" == sc && "syntax" == c) ≡ false → entry_in store sc c "c" ≡ none
unfolding files_of lookup
third_apart sc c other = ground (arith, eq_iff "global" sc, eq_iff "syntax" c)

view-upsert_example : view (upsert os store third).2 "c" ≡ some (fill 100 third)
unfolding fill is_allowed_category with_id
view-upsert_example = view-upsert os store third third refl refl refl store-IsWf third_apart "c"

-- The first entry's ID with another category.
abbrev recategorized : Entry ℕ
recategorized = entry "a" "domain" 0

upsert_duplicates_example :
    (entry_in (upsert os store recategorized).2 "global" "syntax" "a" ≡ some first)
    × (entry_in (upsert os store recategorized).2 "global" "domain" "a"
        ≡ some (fill 100 recategorized))
    × (¬ IsWf (upsert os store recategorized).2)
unfolding fill is_allowed_category with_id lookup files_of
upsert_duplicates_example =
    upsert_duplicates os store recategorized recategorized refl refl refl "global" "syntax" first
      refl refl

-- A category that is not allowed.
abbrev misfiled : Entry ℕ
misfiled = entry "a" "recipes" 0

abbrev place : Place ℕ
place = record {
  scope = "global";
  category = "syntax";
  index = 0;
  entry = first;
  file = syntax_file;
}

view-promote_example :
    view (promote os store "a" "project").1 "a" ≡ some (record first { scope = "project" })
unfolding locate_outside rewrite
view-promote_example = view-promote os store "a" "project" store-IsWf refl place refl refl "a"

-- A disk that cannot be written.
abbrev full : Os ℕ
full = record os { write_file = λ path text. refused }

promote_rollback_example :
    ((promote full store "a" "project").0 ≡ err (write_failed "g/syntax.yaml"))
    × ((sc c : String) → file_at (promote full store "a" "project").1 sc c ≡ file_at store sc c)
unfolding locate_outside rewrite
promote_rollback_example =
    promote_rollback full store "a" "project" store-IsWf refl place refl
      (write_failed "g/syntax.yaml") refl
