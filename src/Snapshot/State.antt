-- ===== src/Snapshot/State.antt =====
-- snapshot_store.go: the entries by ID in memory. A method that cannot fail gives its value, the
-- others an error or `ok`.
use Prim.Native.Char.{Char}
use mnemonic.Prelude.{
  ℕ, String, Bool, true, ◌&&◌, ◌||◌, List, [], ◌∷◌, map, Option, none, some, ◌==◌, if◌then◌else◌,
  filter, any, all, contains,
}
use mnemonic.Prelude.Maps.{Map, lookup, insert, remove}
use mnemonic.Prelude.Sort.{sort}
use mnemonic.Prelude.Text.{text_less, contains_text, fields, to_lower}
use mnemonic.Platform.{Platform, float_zero}
use mnemonic.Store.Entry.{Entry, HeadInfo, Result, ok, err, not_found, entry_required}
use mnemonic.Store.Allowed.{Mandatory, is_mandatory_category}
use mnemonic.Store.Ranking.{sort_by_weighted_score}
use mnemonic.Yaml.Queries.{count_heads, top}

-- The field `entries`; the order stands for that of a `range` over the map.
abbrev pub SnapshotStore : Type 0 → Type 0
SnapshotStore F = Map (Entry F)

module _ {F : Type 0} where
  unfoldable pub insert_all : List (Entry F) → SnapshotStore F → SnapshotStore F
  unfolding insert
  insert_all [] s = s
  insert_all (e ∷ es) s = insert_all es (insert e.id e s)

  unfoldable pub new_snapshot_store : List (Entry F) → SnapshotStore F
  unfolding insert_all
  new_snapshot_store entries = insert_all entries []

  values : SnapshotStore F → List (Entry F)
  values s = map (λ e. e.1) s

  unfoldable pub entries_for_scopes : SnapshotStore F → List String → List (Entry F)
  unfolding values
  entries_for_scopes s [] = values s
  entries_for_scopes s (r ∷ rs) = filter (λ e. contains (r ∷ rs) e.scope) (values s)

  unfoldable pub list_heads : Mandatory → SnapshotStore F → List String → List HeadInfo
  unfolding count_heads entries_for_scopes is_mandatory_category sort
  list_heads m s scopes =
      sort (λ i j. text_less i.name j.name)
        (map
          (λ (c : String × ℕ). record {
            name = c.0;
            count = c.1;
            mandatory = is_mandatory_category m c.0;
          })
          (count_heads [] (entries_for_scopes s scopes)))

  unfoldable pub get : SnapshotStore F → String → Result (Entry F)
  unfolding lookup
  get s id = elim (lookup id s) [ none ↦ err (not_found id) | some e ↦ ok e ]

  -- A nil entry is an error.
  unfoldable pub upsert : SnapshotStore F → Option (Entry F) → Result (Unit {0}) × SnapshotStore F
  unfolding insert
  upsert s none = (err entry_required, s)
  upsert s (some e) = (ok tt, insert e.id e s)

  unfoldable pub delete : SnapshotStore F → String → Result (Unit {0}) × SnapshotStore F
  unfolding remove
  delete s id = (ok tt, remove id s)

  unfoldable pub promote : SnapshotStore F → String → String → Result (Unit {0}) × SnapshotStore F
  unfolding lookup insert
  promote s id target = elim (lookup id s) [
    | none ↦ (err (not_found id), s)
    | some e ↦ (ok tt, insert id (record e { scope = target }) s)
  ]

module _ (lower : Char → Char) where
  unfoldable pub has_all_tags : List String → List String → Bool
  unfolding to_lower
  has_all_tags entry_tags [] = true
  has_all_tags entry_tags (r ∷ rs) =
      let set = map (to_lower lower) entry_tags in
      all (λ t. contains set (to_lower lower t)) (r ∷ rs)

  unfoldable pub keyword_match_snapshot : {F : Type 0} → Entry F → List String → Bool
  unfolding to_lower
  keyword_match_snapshot e [] = true
  keyword_match_snapshot e (t ∷ ts) =
      any (contains_text (to_lower lower e.content)) (t ∷ ts)
      || any (λ tag. any (contains_text (to_lower lower tag)) (t ∷ ts)) e.tags

module _ {F : Type 0} ⦃p : Platform F⦄ where
  -- The entry after `Score`.
  unfoldable pub score_entry : ℕ → F → Entry F → Entry F
  score_entry now delta e =
      let raised = p.add e.score delta in
      record e { score = if p.lt raised float_zero then float_zero else raised; last_hit = now }

  unfoldable pub score : ℕ → SnapshotStore F → String → F → Result (Unit {0}) × SnapshotStore F
  unfolding lookup insert score_entry
  score now s id delta = elim (lookup id s) [
    | none ↦ (err (not_found id), s)
    | some e ↦ (ok tt, insert id (score_entry now delta e) s)
  ]

  module _ (now : ℕ) (s : SnapshotStore F) where
    unfoldable pub all_in : List String → List (Entry F)
    unfolding sort_by_weighted_score entries_for_scopes
    all_in scopes = sort_by_weighted_score now (entries_for_scopes s scopes)

    unfoldable pub all_by_category : String → ℕ → List String → List (Entry F)
    unfolding sort_by_weighted_score entries_for_scopes top
    all_by_category category top_k scopes = top top_k (
        sort_by_weighted_score now
          (filter (λ e. e.category == category) (entries_for_scopes s scopes)))

    unfoldable pub query : String → List String → List (Entry F)
    unfolding sort_by_weighted_score values has_all_tags
    query category tags = sort_by_weighted_score now (
        filter (λ e. (category == "" || e.category == category) && has_all_tags p.lower e.tags tags)
          (values s))

    unfoldable pub query_by_category : String → String → ℕ → List String → List (Entry F)
    unfolding sort_by_weighted_score entries_for_scopes keyword_match_snapshot top fields to_lower
    query_by_category category q top_k scopes =
        let terms = fields (to_lower p.lower q) in
        top top_k (
          sort_by_weighted_score now (
            filter (λ e. e.category == category && keyword_match_snapshot p.lower e terms)
              (entries_for_scopes s scopes)))
