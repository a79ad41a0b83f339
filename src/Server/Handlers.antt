-- ===== src/Server/Handlers.antt =====
-- server.go: the handlers of the four tools, over a store and, where the store can do it, its
-- semantic search.
use Prim.Native.String.{◌++◌ as ◌⊹◌}
use mnemonic.Prelude.{
  ℕ, suc, String, true, false, ◌&&◌, List, [], ◌∷◌, ◌++◌, map, Option, none, some, ◌==◌, nat_eq,
  ltb, leb, length, take, contains, if◌then◌else◌,
}
use mnemonic.Prelude.Text.{trim_space}
use mnemonic.Platform.{Platform}
use mnemonic.Store.Entry.{Entry, Result, ok, err, category_not_allowed}
use mnemonic.Store.Allowed.{is_allowed_category}
use mnemonic.Store.Ranking.{sort_by_weighted_score}
use mnemonic.Yaml.Queries.{top}
use mnemonic.Controller.Interface.{StoreApi}
use mnemonic.Server.Model.{
  QueryInput, QueryResult, QueryOutput, AddInput, AddOutput, ReinforceInput, ReinforceOutput,
  ListHeadsOutput,
}

-- The loop of `normalizeCategories`; `seen` is the set of those kept.
unfoldable pub normalize_from : List String → List String → Result (List String)
unfolding trim_space is_allowed_category
normalize_from seen [] = ok []
normalize_from seen (v ∷ vs) =
    let c = trim_space v in
    elim (c == "") [
      | true ↦ normalize_from seen vs
      | false ↦ elim (is_allowed_category c) [
        | false ↦ err (category_not_allowed c)
        | true ↦ elim (contains seen c) [
          | true ↦ normalize_from seen vs
          | false ↦ elim (normalize_from (c ∷ seen) vs) [ err x ↦ err x | ok cs ↦ ok (c ∷ cs) ]
        ]
      ]
    ]

unfoldable pub normalize_categories : String → List String → Result (List String)
unfolding normalize_from
normalize_categories category categories =
    normalize_from [] ((if category == "" then [] else category ∷ []) ++ categories)

unfoldable pub limit_of : QueryInput → ℕ
limit_of input = if nat_eq input.top_k 0 then 5 else input.top_k

module _ {F : Type 0} where
  -- The entries whose IDs are not in the set, each ID once.
  unfoldable pub unseen : List String → List (Entry F) → List (Entry F)
  unseen seen [] = []
  unseen seen (e ∷ es) = elim (contains seen e.id) [
    | true ↦ unseen seen es
    | false ↦ e ∷ unseen (e.id ∷ seen) es
  ]

  -- The loop of `fillWithAdditional`; `n` entries are merged already.
  unfoldable pub fill_from : ℕ → ℕ → List String → List (Entry F) → List (Entry F)
  fill_from top_k n seen [] = []
  fill_from top_k n seen (e ∷ es) = elim (contains seen e.id) [
    | true ↦ fill_from top_k n seen es
    | false ↦ e ∷ elim (ltb 0 top_k && leb top_k (suc n)) [
      | true ↦ []
      | false ↦ fill_from top_k (suc n) (e.id ∷ seen) es
    ]
  ]

  unfoldable pub fill_with_additional : List (Entry F) → List (Entry F) → ℕ → List (Entry F)
  unfolding fill_from
  fill_with_additional existing additional top_k =
      if ltb 0 top_k && leb top_k (length existing)
      then take top_k existing
      else existing ++ fill_from top_k (length existing) (map (λ e. e.id) existing) additional

  unfoldable pub result_of : Entry F → QueryResult
  result_of e = record {
    id = e.id;
    content = e.content;
    category = e.category;
    tags = e.tags;
    scope = e.scope;
    source = e.source;
  }

  unfoldable pub output_of : List (Entry F) → QueryOutput
  unfolding result_of
  output_of es = record { entries = map result_of es }

module _ {F : Type 0} ⦃p : Platform F⦄ where
  -- `today` is the date of the clock.
  unfoldable pub entry_of : String → AddInput → Entry F
  entry_of today input = record {
    id = "";
    content = input.content;
    tags = input.tags;
    category = input.category;
    scope = if input.scope == "" then "project" else input.scope;
    score = p.literal 1 0;
    hit_count = 0;
    last_hit = 0;
    created = 0;
    source = if input.source == "" then "agent:" ⊹ today else input.source;
  }

module _ {F : Type 0} ⦃p : Platform F⦄ (S : StoreApi F) where
  -- `controller.SemanticSearcher`, where the store is one.
  abbrev pub Searcher : Type 0
  Searcher =
      Option (S.State → String → ℕ → List String → List String → Result (List (Entry F)) × S.State)

  -- The query of one category.
  unfoldable pub query_one :
      S.State → String → String → ℕ → List String → Result (List (Entry F)) × S.State
  query_one s q category top_k scopes =
      if q == ""
      then S.all_by_category s category top_k scopes
      else S.query_by_category s category q top_k scopes

  -- The loop over the categories.
  unfoldable pub merge_from :
      S.State
      → String
      → ℕ
      → List String
      → List String
      → List String
      → Result (List (Entry F)) × S.State
  unfolding query_one unseen
  merge_from s q top_k scopes seen [] = (ok [], s)
  merge_from s q top_k scopes seen (c ∷ cs) =
      let (r, s') = query_one s q c top_k scopes in
      elim r [
        | err x ↦ (err x, s')
        | ok es ↦
            let (rest, s'') = merge_from s' q top_k scopes (map (λ e. e.id) es ++ seen) cs in
            (elim rest [ err x ↦ err x | ok more ↦ ok (unseen seen es ++ more) ], s'')
      ]

  unfoldable pub query_by_categories :
      ℕ → S.State → String → List String → ℕ → List String → Result (List (Entry F)) × S.State
  unfolding merge_from sort_by_weighted_score top
  query_by_categories now s q categories top_k scopes =
      let (r, s') = merge_from s q top_k scopes [] categories in
      (elim r [ err x ↦ err x | ok es ↦ ok (top top_k (sort_by_weighted_score now es)) ], s')

  -- The semantic search, whose error counts as no result.
  unfoldable pub semantic_results :
      Searcher → S.State → String → ℕ → List String → List String → List (Entry F) × S.State
  semantic_results searcher s q top_k scopes categories = elim searcher [
    | none ↦ ([], s)
    | some search ↦
        if q == ""
        then ([], s)
        else (let (r, s') = search s q top_k scopes categories in
            (elim r [ err _ ↦ [] | ok es ↦ es ], s'))
  ]

  -- The query without a category that is left, when the search has found nothing.
  unfoldable pub query_uncategorized : S.State → QueryInput → ℕ → Result (List (Entry F)) × S.State
  query_uncategorized s input top_k =
      if input.category == ""
      then (let (r, s') = S.all_in s input.scopes in
          (
            elim r [
              | err x ↦ err x
              | ok es ↦ ok (if ltb top_k (length es) then take top_k es else es)
            ],
            s',
          ))
      else S.query_by_category s input.category input.query top_k input.scopes

  unfoldable pub select_entries :
      ℕ → Searcher → S.State → QueryInput → ℕ → List String → Result (List (Entry F)) × S.State
  unfolding query_by_categories fill_with_additional semantic_results query_uncategorized
  select_entries now searcher s input top_k categories =
      let (found, s') = semantic_results searcher s input.query top_k input.scopes categories in
      elim categories [
        | c ∷ cs ↦
            let (r, s'') = query_by_categories now s' input.query (c ∷ cs) top_k input.scopes in
            (elim r [ err x ↦ err x | ok es ↦ ok (fill_with_additional found es top_k) ], s'')
        | [] ↦ elim found [ [] ↦ query_uncategorized s' input top_k | e ∷ es ↦ (ok (e ∷ es), s') ]
      ]

  unfoldable pub handle_query : ℕ → Searcher → S.State → QueryInput → Result QueryOutput × S.State
  unfolding limit_of normalize_categories select_entries output_of
  handle_query now searcher s input = elim (normalize_categories input.category input.categories) [
    | err x ↦ (err x, s)
    | ok categories ↦
        let (r, s') = select_entries now searcher s input (limit_of input) categories in
        (elim r [ err x ↦ err x | ok es ↦ ok (output_of es) ], s')
  ]

  unfoldable pub handle_add : String → S.State → AddInput → Result AddOutput × S.State
  unfolding entry_of
  handle_add today s input =
      let (r, e, s') = S.upsert s (entry_of {F = F} today input) in
      (
        elim r [
          | err x ↦ err x
          | ok _ ↦ ok (record {
            status = "added";
            id = e.id;
            scope = if input.scope == "" then "project" else input.scope;
            category = input.category;
          })
        ],
        s',
      )

  unfoldable pub handle_reinforce :
      S.State → ReinforceInput F → Result (ReinforceOutput F) × S.State
  handle_reinforce s input =
      let (r, s') = S.score s input.id input.delta in
      (
        elim r [
          | err x ↦ err x
          | ok _ ↦ ok (record { status = "updated"; id = input.id; delta = input.delta })
        ],
        s',
      )

  unfoldable pub handle_list_heads : S.State → Result ListHeadsOutput
  handle_list_heads s = elim (S.list_heads s []) [
    | err x ↦ err x
    | ok heads ↦ ok (record { heads = heads })
  ]
