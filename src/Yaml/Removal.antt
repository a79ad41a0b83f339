-- ===== src/Yaml/Removal.antt =====
-- `Delete`: the entry with the ID is gone from the store, and nothing else.
use mnemonic.Prelude.{
  String, List, none, some, ◌≡◌, ◌==◌, eq_iff, arith, if◌then◌else◌, Option-cases, inl, inr,
}
use mnemonic.Store.Entry.{Entry, ok, err, not_found}
use mnemonic.Yaml.State.{Os, YamlStore, remove_at, set_file}
use mnemonic.Yaml.Changes.{Place, locate, rewrite, delete}
use mnemonic.Yaml.Editing.{Edit, after-IsWf, view-after}
use mnemonic.Yaml.Files.{IsSaved, locate-IsPlace, persist-IsSaved}
use mnemonic.Yaml.Lists.{find_id-remove_at, Distinct-remove_at}
use mnemonic.Yaml.Rewriting.{stored}
use mnemonic.Yaml.View.{view, IsWf, entry_in, place_entry, view_of_locate-none}

module _ {F : Type 0} (os : Os F) (s : YamlStore F) (id : String) (w : IsWf s) where
  module _ (place : Place F) (found : locate id s.contents ≡ some place) where
    abbrev left : List (Entry F)
    left = remove_at place.index place.file.entries

    deletion : Edit s place.scope place.category id place.file left none
    deletion =
        let (at, here) = locate-IsPlace id s place found w.distinct in
        let once = rw here at (w.once place.scope place.category) in
        record {
          valid = w;
          here = here;
          entry = place.entry;
          found = place_entry id place at;
          once = Distinct-remove_at id place.file.entries place.index once;
          edited = λ j. find_id-remove_at id j place.file.entries place.index at.0 once;
        }

  -- `Delete` keeps the invariant, whether or not the file is saved.
  pub delete-IsWf : IsWf (delete os s id).1
  unfolding delete rewrite stored
  delete-IsWf = elim (Option-cases (locate id s.contents)) [
    | inl n ↦ rw (n, delete) w
    | inr (place, found) ↦
        rw (found, delete)
          (after-IsWf os s place.scope place.category id place.file (left place found) none
            (deletion place found))
  ]

  -- After `Delete` on a well-formed store the ID shows nothing and every other ID shows what it
  -- showed, whether or not the file is saved.
  pub view-delete : (j : String) → view (delete os s id).1 j ≡ (if id == j then none else view s j)
  unfolding delete rewrite stored
  view-delete j = elim (Option-cases (locate id s.contents)) [
    | inl n ↦ rw (n, delete) (ground (arith, view_of_locate-none id s n, eq_iff id j))
    | inr (place, found) ↦
        rw (found, delete)
          (view-after os s place.scope place.category id place.file (left place found) none
            (deletion place found) j)
  ]

  -- Exactly an ID that shows nothing is reported as not found, and then nothing changes.
  pub delete_missing : view s id ≡ none → delete os s id ≡ (err (not_found id), s)
  unfolding delete view
  delete_missing h = ground arith

  -- When `Delete` on a well-formed store reports no error, the file that held the entry is on disk
  -- as it is in memory.
  pub delete-IsSaved :
      (delete os s id).0 ≡ ok tt
      → (scope : String) × (category : String) × (e : Entry F) × (entry_in s scope category id
          ≡ some e)
        × IsSaved os (delete os s id).1 scope category
  unfolding delete rewrite
  delete-IsSaved h = elim (Option-cases (locate id s.contents)) [
    | inl n ↦ absurd (ground arith)
    | inr (place, found) ↦
        let (at, here) = locate-IsPlace id s place found w.distinct in
        (
          place.scope,
          place.category,
          place.entry,
          rw here (place_entry id place at),
          rw (found, delete)
              (persist-IsSaved os
                (set_file s place.scope place.category
                  (record place.file { entries = left place found }))
                place.scope place.category (rw (found, delete) at h)),
        )
  ]
