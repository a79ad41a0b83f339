-- ===== src/Tests/QueryTests.antt =====
-- The theorems on queries at a concrete store.
use mathlib.Core.Option
use mnemonic.Prelude.{[], ◌∷◌, ◌++◌, ◌≡◌, refl, inl, inr, String}
use mnemonic.Prelude.Sort.{IsSorted}
use mnemonic.Store.Ranking.{weighted_score}
use mnemonic.Yaml.Queries.{mark_hits, query_by_category, category_candidates}
use mnemonic.Prelude.Text.{fields}
use mnemonic.Yaml.State.{scopes_for_query}
use mnemonic.Yaml.Tags.{keyword_match}
use mnemonic.Yaml.View.{view}
use mnemonic.Yaml.Hits.{view-mark_hits, hit_once}
use mnemonic.Yaml.Front.{IsFront, dropped}
use mnemonic.Yaml.Results.{keyword_matches, outweighs, query_by_category_lem}
use mnemonic.Tests.Sample.{sample, store, os, first}
use mnemonic.Tests.RankingTests.{separated}
use mnemonic.Tests.YamlTests.{store-IsWf}

query_by_category_lem_example :
    let (hits, s') = query_by_category os store "syntax" "errors" 1 [] in
    let matches = keyword_matches os store "syntax" "errors" [] in
    IsFront 1 matches hits (dropped 100 1 matches)
    × IsSorted (outweighs os store) (hits ++ dropped 100 1 matches)
    × ((id : String) → view s' id ≡ Option.map (hit_once 100 hits store) (view store id))
unfolding weighted_score category_candidates scopes_for_query keyword_match fields
query_by_category_lem_example =
    query_by_category_lem os store "syntax" "errors" 1 [] separated (inl refl, (inr refl, tt))
      store-IsWf refl

view-mark_hits_example :
    view (mark_hits 100 (first ∷ []) store) "a"
    ≡ Option.map (hit_once 100 (first ∷ []) store) (view store "a")
view-mark_hits_example = view-mark_hits 100 (first ∷ []) store store-IsWf refl "a"
