-- ===== src/Yaml/Queries.antt =====
-- yaml.go: the methods that read the store, with the hits that they count.
use mnemonic.Prelude.{
  ℕ, suc, ◌+◌, String, Bool, true, ◌&&◌, ◌||◌, List, [], ◌∷◌, ◌++◌, map, none, some, ◌==◌, ltb,
  length, take, filter, find?, any, contains, if◌then◌else◌,
}
use mnemonic.Prelude.Maps.{Map, lookup, insert}
use mnemonic.Prelude.Sort.{sort}
use mnemonic.Prelude.Text.{text_less, fields, to_lower}
use mnemonic.Platform.{Platform}
use mnemonic.Store.Entry.{Entry, HeadInfo, Result, ok, err, not_found}
use mnemonic.Store.Allowed.{Mandatory, is_mandatory_category}
use mnemonic.Store.Ranking.{sort_by_weighted_score}
use mnemonic.Yaml.State.{File, Files, Os, YamlStore, files_of, all_entries, scopes_for_query}
use mnemonic.Yaml.Tags.{tags_match, keyword_match}

-- `counts[name]++`
unfoldable pub count_head : String → Map ℕ → Map ℕ
count_head name [] = (name, 1) ∷ []
count_head name ((n, c) ∷ counts) =
    if n == name then (n, suc c) ∷ counts else (n, c) ∷ count_head name counts

unfoldable pub count_heads : {F : Type 0} → Map ℕ → List (Entry F) → Map ℕ
unfolding count_head
count_heads counts [] = counts
count_heads counts (e ∷ es) = count_heads (count_head e.category counts) es

head_info : Mandatory → String × ℕ → HeadInfo
unfolding is_mandatory_category
head_info m (name, count) = record {
  name = name;
  count = count;
  mandatory = is_mandatory_category m name;
}

module _ {F : Type 0} where
  unfoldable pub list_heads : Mandatory → YamlStore F → List String → List HeadInfo
  unfolding count_heads head_info all_entries scopes_for_query sort
  list_heads m s scopes =
      sort (λ i j. text_less i.name j.name)
        (map (head_info m) (count_heads [] (all_entries s (scopes_for_query s scopes))))

  unfoldable pub get : YamlStore F → String → Result (Entry F)
  unfolding all_entries scopes_for_query
  get s id = elim (find? (λ e. e.id == id) (all_entries s (scopes_for_query s []))) [
    | none ↦ err (not_found id)
    | some e ↦ ok e
  ]

  -- One entry, one file, the files of a scope and the scopes under `markHits`.
  unfoldable pub mark_entry : ℕ → List String → Entry F → Entry F
  mark_entry now ids e =
      if contains ids e.id then record e { hit_count = e.hit_count + 1; last_hit = now } else e

  unfoldable pub mark_file : ℕ → List String → File F → File F
  unfolding mark_entry
  mark_file now ids f = record f { entries = map (mark_entry now ids) f.entries }

  unfoldable pub mark_files : ℕ → List String → Files F → Files F
  unfolding mark_file
  mark_files now ids [] = []
  mark_files now ids ((category, f) ∷ files) =
      (category, mark_file now ids f) ∷ mark_files now ids files

  unfoldable pub mark_scopes : ℕ → List String → Map (Files F) → Map (Files F)
  unfolding mark_files
  mark_scopes now ids [] = []
  mark_scopes now ids ((scope, files) ∷ scopes) =
      (scope, mark_files now ids files) ∷ mark_scopes now ids scopes

  -- The flags of a scope for each file with an entry that was hit.
  unfoldable pub flag_files : List String → Files F → Map Bool → Map Bool
  unfolding insert
  flag_files ids [] flags = flags
  flag_files ids ((category, f) ∷ files) flags =
      flag_files ids files
        (if any (λ e. contains ids e.id) f.entries then insert category true flags else flags)

  -- `New` makes both maps of each scope, so that the lookup finds the flags.
  unfoldable pub flag_scopes : List String → Map (Files F) → Map (Map Bool) → Map (Map Bool)
  unfolding flag_files lookup insert
  flag_scopes ids [] dirty = dirty
  flag_scopes ids ((scope, files) ∷ scopes) dirty =
      flag_scopes ids scopes (elim (lookup scope dirty) [
        | none ↦ dirty
        | some flags ↦ insert scope (flag_files ids files flags) dirty
      ])

  unfoldable pub mark_hits : ℕ → List (Entry F) → YamlStore F → YamlStore F
  unfolding mark_scopes flag_scopes
  mark_hits now [] s = s
  mark_hits now (e ∷ es) s =
      let ids = map (λ (x : Entry F). x.id) (e ∷ es) in
      if s.auto_hit_counting
      then (record s {
        contents = mark_scopes now ids s.contents;
        dirty = flag_scopes ids s.contents s.dirty;
      })
      else s

  -- `candidates[:topK]` where `topK > 0`. A limit that is not positive is 0 here.
  unfoldable pub top : ℕ → List (Entry F) → List (Entry F)
  top top_k es = if ltb 0 top_k && ltb top_k (length es) then take top_k es else es

  -- The entries of one category's file in each scope.
  unfoldable pub category_candidates : YamlStore F → String → List String → List (Entry F)
  unfolding files_of lookup
  category_candidates s category [] = []
  category_candidates s category (sc ∷ scs) =
      elim (lookup category (files_of s sc)) [ none ↦ [] | some f ↦ f.entries ]
      ++ category_candidates s category scs

module _ {F : Type 0} ⦃p : Platform F⦄ (os : Os F) (s : YamlStore F) where
  -- What each of the four queries does with the entries that it has selected.
  unfoldable pub finish : ℕ → List (Entry F) → List (Entry F) × YamlStore F
  unfolding sort_by_weighted_score top mark_hits
  finish top_k candidates =
      let hits = top top_k (sort_by_weighted_score os.now candidates) in
      (hits, mark_hits os.now hits s)

  unfoldable pub all_in : List String → List (Entry F) × YamlStore F
  unfolding finish all_entries scopes_for_query
  all_in scopes = finish 0 (all_entries s (scopes_for_query s scopes))

  unfoldable pub all_by_category : String → ℕ → List String → List (Entry F) × YamlStore F
  unfolding finish category_candidates scopes_for_query
  all_by_category category top_k scopes =
      finish top_k (category_candidates s category (scopes_for_query s scopes))

  unfoldable pub query_by_category :
      String → String → ℕ → List String → List (Entry F) × YamlStore F
  unfolding finish category_candidates scopes_for_query keyword_match fields to_lower
  query_by_category category query top_k scopes =
      let terms = fields (to_lower p.lower query) in
      finish top_k (
        filter (λ e. keyword_match p.lower e terms)
          (category_candidates s category (scopes_for_query s scopes)))

  unfoldable pub query : String → List String → List (Entry F) × YamlStore F
  unfolding finish all_entries scopes_for_query tags_match to_lower
  query category tags =
      let lower = map (to_lower p.lower) tags in
      finish 0 (
        filter (λ e. (category == "" || e.category == category) && tags_match p.lower e.tags lower)
          (all_entries s (scopes_for_query s [])))
