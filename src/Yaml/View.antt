-- ===== src/Yaml/View.antt =====
-- The store as a finite map from IDs to entries: what a well-formed store shows, whichever order
-- the maps are visited in.
use mathlib.Core.Path.{ap₂}
use mnemonic.Prelude.{
  ℕ, zero, suc, String, true, false, ◌&&◌, ◌⊎◌, List, [], ◌∷◌, map, Option, none, some, ◌≡◌, refl,
  sym, ap, ◌∙◌, ◌==◌, eq_iff, arith, Option-cases, inl, inr, find?, contains,
}
use mnemonic.Prelude.Maps.{keys, Distinct}
use mnemonic.Store.Entry.{Entry}
use mnemonic.Yaml.State.{File, YamlStore, index_of, get_elem?}
use mnemonic.Yaml.Changes.{Place, locate}
use mnemonic.Yaml.Files.{file_at, IsDistinct, IsPlace, Lacks, locate-IsPlace, locate-none}

abbrev pub entries_of : {F : Type 0} → Option (File F) → List (Entry F)
entries_of none = []
entries_of (some f) = f.entries

abbrev pub ids : {F : Type 0} → List (Entry F) → List String
ids es = map (λ e. e.id) es

abbrev pub find_id : {F : Type 0} → String → List (Entry F) → Option (Entry F)
find_id id es = find? (λ e. e.id == id) es

-- The entry with an ID in the file of a scope and a category.
abbrev pub entry_in : {F : Type 0} → YamlStore F → String → String → String → Option (Entry F)
entry_in s scope category id = find_id id (entries_of (file_at s scope category))

-- The entry with an ID anywhere in the store.
unfoldable pub view : {F : Type 0} → YamlStore F → String → Option (Entry F)
view s id = elim (locate id s.contents) [ none ↦ none | some place ↦ some place.entry ]

-- Each map has a key once, an ID stands in one file and once in it, and each scope with files has
-- a directory.
pub record IsWf {F : Type 0} (s : YamlStore F) : Type 0 where
  pub distinct : IsDistinct s.contents
  pub once : (scope category : String) → Distinct (ids (entries_of (file_at s scope category)))
  pub one_file :
      (id scope category scope' category' : String) (e e' : Entry F)
      → entry_in s scope category id ≡ some e
      → entry_in s scope' category' id ≡ some e'
      → (scope ≡ scope') × (category ≡ category')
  pub covered :
      (scope : String)
      → contains (keys s.contents) scope ≡ true
      → contains (keys s.dirs) scope ≡ true

module _ {F : Type 0} (id : String) where
  find_id-of_index :
      (es : List (Entry F)) (i : ℕ) (e : Entry F)
      → index_of id es ≡ some i
      → get_elem? es i ≡ some e
      → find_id id es ≡ some e
  unfolding index_of get_elem?
  find_id-of_index [] i e h k = cc
  find_id-of_index (x ∷ xs) zero e h k = ground arith
  find_id-of_index (x ∷ xs) (suc i) e h k = ground (arith, find_id-of_index xs i e)

  find_id-none : (es : List (Entry F)) → index_of id es ≡ none → find_id id es ≡ none
  unfolding index_of
  find_id-none [] h = refl
  find_id-none (x ∷ xs) h = ground (arith, find_id-none xs)

  -- The entry of a place is the one that a search of its file finds.
  pub place_entry :
      (place : Place F) → IsPlace id place → find_id id place.file.entries ≡ some place.entry
  place_entry place at = find_id-of_index place.file.entries place.index place.entry at.0 at.1

  lacking : (f : Option (File F)) → Lacks id f → find_id id (entries_of f) ≡ none
  lacking none h = refl
  lacking (some f) h = find_id-none f.entries h

  module _ (s : YamlStore F) where
    -- What the view shows stands in a file.
    pub entry_in_of_view :
        (e : Entry F)
        → view s id ≡ some e
        → IsDistinct s.contents
        → (scope : String) × (category : String) × (entry_in s scope category id ≡ some e)
    unfolding view
    entry_in_of_view e h d = elim (Option-cases (locate id s.contents)) [
      | inl n ↦ absurd (ground arith)
      | inr (place, found) ↦
          let (at, here) = locate-IsPlace id s place found d in
          (
            place.scope,
            place.category,
            rw here (find_id-of_index place.file.entries place.index e at.0 (ground arith)),
          )
    ]

    entry_in-none :
        (scope category : String)
        → locate id s.contents ≡ none
        → entry_in s scope category id ≡ none
    entry_in-none scope category h =
        lacking (file_at s scope category) (locate-none id s scope category h)

    pub entry_in_of_view-none :
        (scope category : String) → view s id ≡ none → entry_in s scope category id ≡ none
    unfolding view
    entry_in_of_view-none scope category h = entry_in-none scope category (ground arith)

    pub view_of_locate-none : locate id s.contents ≡ none → view s id ≡ none
    unfolding view
    view_of_locate-none h = ground arith

    pub view_of_locate :
        (place : Place F) → locate id s.contents ≡ some place → view s id ≡ some place.entry
    unfolding view
    view_of_locate place h = ground arith

    -- An ID has one entry, wherever it is read.
    pub same_entry :
        (scope category scope' category' : String) (e e' : Entry F)
        → IsWf s
        → entry_in s scope category id ≡ some e
        → entry_in s scope' category' id ≡ some e'
        → e ≡ e'
    same_entry scope category scope' category' e e' w h k =
        let (p, q) = w.one_file id scope category scope' category' e e' h k in
        cc (sym h ∙ ap₂ (λ a b. entry_in s a b id) p q ∙ k)

    -- In a well-formed store a file's entry is what the view shows.
    pub view_of_entry_in :
        (scope category : String) (e : Entry F)
        → IsWf s
        → entry_in s scope category id ≡ some e
        → view s id ≡ some e
    unfolding view
    view_of_entry_in scope category e w h = elim (Option-cases (locate id s.contents)) [
      | inl n ↦ absurd (ground (arith, entry_in-none scope category n))
      | inr (place, found) ↦
          let (at, here) = locate-IsPlace id s place found w.distinct in
          let there : entry_in s place.scope place.category id ≡ some place.entry =
            rw here (find_id-of_index place.file.entries place.index place.entry at.0 at.1) in
          rw (found, view)
            (ap some
              (sym (same_entry scope category place.scope place.category e place.entry w h there)))
    ]

    pub entry_in-cases :
        (scope category : String)
        → IsWf s
        → (entry_in s scope category id ≡ none) ⊎ (view s id ≡ entry_in s scope category id)
    entry_in-cases scope category w = elim (Option-cases (entry_in s scope category id)) [
      | inl n ↦ inl n
      | inr (e, h) ↦ inr (view_of_entry_in scope category e w h ∙ sym h)
    ]

    pub only_here :
        (scope category sc c : String) (e : Entry F)
        → IsWf s
        → entry_in s scope category id ≡ some e
        → (scope == sc && category == c) ≡ false
        → entry_in s sc c id ≡ none
    only_here scope category sc c e w h other = elim (Option-cases (entry_in s sc c id)) [
      | inl n ↦ n
      | inr (e', k) ↦ absurd (
          ground
            (arith, w.one_file id scope category sc c e e' h k, eq_iff scope sc, eq_iff category c))
    ]

    -- What stands in no file is not shown.
    pub view-none :
        ((scope category : String) → entry_in s scope category id ≡ none)
        → IsDistinct s.contents
        → view s id ≡ none
    view-none h d = elim (Option-cases (view s id)) [
      | inl n ↦ n
      | inr (e, found) ↦
          let (sc, c, here) = entry_in_of_view e found d in absurd (ground (arith, h sc c))
    ]
