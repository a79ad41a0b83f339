-- ===== src/Snapshot/Laws.antt =====
-- The snapshot as a map from IDs to entries, and that it answers as the YAML store does.
use Prim.Native.Char.{Char}
use mathlib.Core.Option
use mnemonic.Prelude.{
  ℕ, String, true, false, ◌&&◌, List, [], ◌∷◌, map, none, some, ◌≡◌, refl, ◌==◌, eq_iff, arith,
  if◌then◌else◌, filter, all, contains, Option-cases, inl, inr, sym, Bool, All, All-of_filter, All,
  All-of_filter,
}
use mnemonic.Prelude.Maps.{lookup, insert, lookup-insert, lookup-remove, Distinct}
use mnemonic.Prelude.Text.{to_lower, fields}
use mnemonic.Platform.{Platform}
use mnemonic.Store.Entry.{Entry, ok, err, not_found}
use mnemonic.Yaml.Tags.{tags_match, keyword_match}
use mnemonic.Yaml.Front.{IsFront, dropped, front-IsFront, All-front}
use mnemonic.Yaml.View.{ids, find_id}
use mnemonic.Snapshot.State.{
  SnapshotStore, insert_all, new_snapshot_store, get, upsert, delete, score, score_entry, promote,
  has_all_tags, keyword_match_snapshot, query_by_category, entries_for_scopes,
}

module _ {F : Type 0} where
  lookup-insert_all :
      (j : String) (es : List (Entry F)) (s : SnapshotStore F)
      → Distinct (ids es)
      → lookup j (insert_all es s) ≡ elim (find_id j es) [ none ↦ lookup j s | some e ↦ some e ]
  unfolding insert_all
  lookup-insert_all j [] s d = refl
  lookup-insert_all j (e ∷ es) s d = ground (
    arith,
    lookup-insert_all j es (insert e.id e s),
    lookup-insert e.id j e s,
    find_id_absent j es,
    eq_iff e.id j,
  )
    where
      find_id_absent :
          (j : String) (es : List (Entry F)) → contains (ids es) j ≡ false → find_id j es ≡ none
      find_id_absent j [] h = refl
      find_id_absent j (x ∷ xs) h = ground (arith, find_id_absent j xs)

  -- The snapshot of entries whose IDs differ has exactly these entries.
  pub get-new_snapshot_store :
      (entries : List (Entry F)) (id : String)
      → Distinct (ids entries)
      → get (new_snapshot_store entries) id
        ≡ elim (find_id id entries) [ none ↦ err (not_found id) | some e ↦ ok e ]
  unfolding get new_snapshot_store lookup
  get-new_snapshot_store entries id d = ground (arith, lookup-insert_all id entries [] d)

module _ {F : Type 0} ⦃p : Platform F⦄ where
  abbrev pub rescoped : String → Entry F → Entry F
  rescoped target e = record e { scope = target }

  pub score_lem :
      (now : ℕ) (s : SnapshotStore F) (id j : String) (delta : F)
      → lookup j (score now s id delta).1
        ≡ (if id == j then Option.map (score_entry now delta) (lookup j s) else lookup j s)
  unfolding score
  score_lem now s id j delta = elim (Option-cases (lookup id s)) [
    | inl n ↦ ground (arith, eq_iff id j)
    | inr (e, h) ↦ ground (arith, lookup-insert id j (score_entry now delta e) s, eq_iff id j)
  ]

  pub promote_lem :
      (s : SnapshotStore F) (id target j : String)
      → lookup j (promote s id target).1
        ≡ (if id == j then Option.map (rescoped target) (lookup j s) else lookup j s)
  unfolding promote
  promote_lem s id target j = elim (Option-cases (lookup id s)) [
    | inl n ↦ ground (arith, eq_iff id j)
    | inr (e, h) ↦ ground (arith, lookup-insert id j (rescoped target e) s, eq_iff id j)
  ]

  -- What the four changes of a snapshot do to what is found under any ID: `Upsert` puts the entry
  -- under its own, `Delete` takes the ID away, `Score` and `Promote` change the entry of their ID,
  -- if there is one.
  pub changes_lem :
      (now : ℕ) (s : SnapshotStore F) (e : Entry F) (id target j : String) (delta : F)
      → (lookup j (upsert s (some e)).1 ≡ (if e.id == j then some e else lookup j s))
        × (lookup j (delete s id).1 ≡ (if id == j then none else lookup j s))
        × (lookup j (score now s id delta).1
            ≡ (if id == j then Option.map (score_entry now delta) (lookup j s) else lookup j s))
        × (lookup j (promote s id target).1
            ≡ (if id == j then Option.map (rescoped target) (lookup j s) else lookup j s))
  unfolding upsert delete
  changes_lem now s e id target j delta = (
    lookup-insert e.id j e s,
    lookup-remove id j s,
    score_lem now s id j delta,
    promote_lem s id target j,
  )

module _ (lower : Char → Char) where
  all-map :
      (q : String → Bool) (g : String → String) (ts : List String)
      → all q (map g ts) ≡ all (λ t. q (g t)) ts
  all-map q g [] = refl
  all-map q g (t ∷ ts) = rw (all-map q g ts)

  keyword_match-same :
      {F : Type 0} (e : Entry F) (terms : List String)
      → keyword_match_snapshot lower e terms ≡ keyword_match lower e terms
  unfolding keyword_match_snapshot keyword_match
  keyword_match-same e [] = refl
  keyword_match-same e (t ∷ ts) = refl

  has_all_tags-same :
      (entry_tags tags : List String)
      → has_all_tags lower entry_tags tags ≡ tags_match lower entry_tags (map (to_lower lower) tags)
  unfolding has_all_tags tags_match
  has_all_tags-same entry_tags [] = refl
  has_all_tags-same entry_tags (t ∷ ts) =
      sym (all-map (contains (map (to_lower lower) entry_tags)) (to_lower lower) (t ∷ ts))

  -- Both stores match keywords alike, and tags too, once the required ones are in lower case, as
  -- the YAML store asks for.
  pub matches_lem :
      {F : Type 0} (e : Entry F) (terms tags : List String)
      → (keyword_match_snapshot lower e terms ≡ keyword_match lower e terms)
        × (has_all_tags lower e.tags tags ≡ tags_match lower e.tags (map (to_lower lower) tags))
  matches_lem e terms tags = (keyword_match-same e terms, has_all_tags-same e.tags tags)

module _ {F : Type 0} ⦃p : Platform F⦄ (now : ℕ) (s : SnapshotStore F) where
  -- The entries that `QueryByCategory` selects.
  abbrev pub selected : String → String → List String → List (Entry F)
  selected category q scopes =
      filter
        (λ e.
          e.category == category && keyword_match_snapshot p.lower e (fields (to_lower p.lower q)))
        (entries_for_scopes s scopes)

  -- `QueryByCategory` returns the front of the entries of the scopes that have the category and
  -- match the keywords, and each of them has.
  pub query_by_category-IsFront :
      (category q : String) (top_k : ℕ) (scopes : List String)
      → IsFront top_k
          (selected category q scopes)
          (query_by_category now s category q top_k scopes)
          (dropped now top_k (selected category q scopes))
        × All
            (λ e.
              (e.category == category
                && keyword_match_snapshot p.lower e (fields (to_lower p.lower q)))
              ≡ true)
            (query_by_category now s category q top_k scopes)
  unfolding query_by_category
  query_by_category-IsFront category q top_k scopes =
      let is_selected = λ (e : Entry F).
        e.category == category && keyword_match_snapshot p.lower e (fields (to_lower p.lower q)) in
      (
        front-IsFront now top_k (selected category q scopes),
        All-front now top_k (selected category q scopes) (λ e. is_selected e ≡ true)
            (All-of_filter is_selected (entries_for_scopes s scopes)),
      )
