-- ===== src/Yaml/Promotion.antt =====
-- `Promote`: an entry moves to another scope, in the same category, or nothing changes.
use mnemonic.Prelude.{
  String, true, false, ◌&&◌, List, [], ◌∷◌, ◌++◌, none, some, ◌≡◌, ap, ◌∙◌, ◌==◌, eq_iff, arith,
  if◌then◌else◌, Bool-cases, inl, inr, contains, find?-append,
}
use mnemonic.Prelude.Maps.{lookup, keys, contains-keys, Distinct}
use mnemonic.Store.Entry.{Entry, Error, ok, err, not_found, target_scope_not_configured}
use mnemonic.Yaml.State.{File, Os, YamlStore, remove_at, set_file, insert_at}
use mnemonic.Yaml.Changes.{Place, locate_outside, rewrite, promote, promote_to, promote_after}
use mnemonic.Yaml.Editing.{Edit, after, after-IsWf, view-after}
use mnemonic.Yaml.Files.{file_at, file_at-set_file, locate_outside-IsPlace}
use mnemonic.Yaml.Lists.{
  find_id-remove_at, Distinct-remove_at, find_id-eq_id, Distinct-append, insert_at-remove_at,
}
use mnemonic.Yaml.Rewriting.{
  stored, file_at-stored, stored-Rewrites, stored-IsDistinct, stored-covered, stored-known,
  set_file-IsDistinct, set_file-covered, file_at-known,
}
use mnemonic.Yaml.Single.{IsWf-rewritten, IsWf-same, view-rewritten, Rewrites}
use mnemonic.Yaml.View.{
  view, IsWf, ids, find_id, entries_of, entry_in, place_entry, entry_in-cases, only_here,
  entry_in_of_view-none,
}

module _ {F : Type 0} (os : Os F) (s : YamlStore F) (id target : String) where
  -- A target that is not configured is an error, and nothing changes.
  pub promote_unconfigured :
      lookup target s.contents ≡ none
      → promote os s id target ≡ (err (target_scope_not_configured target), s)
  unfolding promote
  promote_unconfigured h = ground arith

  -- An ID that stands in no other scope than the target is an error, and nothing changes.
  pub promote_missing :
      contains (keys s.contents) target ≡ true
      → locate_outside id target s.contents ≡ none
      → promote os s id target ≡ (err (not_found id), s)
  unfolding promote
  promote_missing known h = ground (arith, contains-keys target s.contents)

  module _ (w : IsWf s) (known : contains (keys s.contents) target ≡ true) (place : Place F)
      (found : locate_outside id target s.contents ≡ some place) where
    abbrev left : List (Entry F)
    left = remove_at place.index place.file.entries

    removal : Edit s place.scope place.category id place.file left none
    removal =
        let (at, here, _) = locate_outside-IsPlace id s target place found w.distinct in
        let once = rw here at (w.once place.scope place.category) in
        record {
          valid = w;
          here = here;
          entry = place.entry;
          found = place_entry id place at;
          once = Distinct-remove_at id place.file.entries place.index once;
          edited = λ j. find_id-remove_at id j place.file.entries place.index at.0 once;
        }

    -- The store once the entry is out of its file.
    abbrev without : YamlStore F
    without = after os s place.scope place.category id place.file left none removal

    without-IsWf : IsWf without
    without-IsWf = after-IsWf os s place.scope place.category id place.file left none removal

    view-without : (j : String) → view without j ≡ (if id == j then none else view s j)
    view-without = view-after os s place.scope place.category id place.file left none removal

    restored : File F
    restored = record place.file { entries = insert_at place.index place.entry left }

    restored-eq : restored ≡ place.file
    unfolding restored
    restored-eq =
        let (at, _, _) = locate_outside-IsPlace id s target place found w.distinct in
        ap (λ es. record place.file { entries = es })
          (insert_at-remove_at id place.file.entries place.index place.entry at.1)

    rolled_back-eq :
        (x : Error)
        → (rewrite os s place left).0 ≡ err x
        → ((promote os s id target).0 ≡ err x)
          × ((promote os s id target).1 ≡ set_file without place.scope place.category restored)
    unfolding promote promote_after rewrite stored restored
    rolled_back-eq x h = (
      ground (arith, contains-keys target s.contents),
      ground (arith, contains-keys target s.contents),
    )

    -- When, in a well-formed store that has the target, the removal cannot be saved, the error is
    -- returned and every file is in memory as it was before.
    pub promote_rollback :
        (x : Error)
        → (rewrite os s place left).0 ≡ err x
        → ((promote os s id target).0 ≡ err x)
          × ((sc c : String) → file_at (promote os s id target).1 sc c ≡ file_at s sc c)
    promote_rollback x h =
        let (failed, same) = rolled_back-eq x h in
        let (_, here, _) = locate_outside-IsPlace id s target place found w.distinct in
        (
          failed,
          λ sc c.
              rw (same, restored-eq)
                (file_at-set_file without place.scope place.category place.file sc c
                  ∙ ground (
                    arith,
                    file_at-stored os s place.scope place.category
                        (record place.file { entries = left }) sc c,
                    here,
                    eq_iff place.scope sc,
                    eq_iff place.category c,
                  )),
        )

    pub rolled_back-IsWf :
        (x : Error) → (rewrite os s place left).0 ≡ err x → IsWf (promote os s id target).1
    rolled_back-IsWf x h =
        let (_, same) = rolled_back-eq x h in
        let (_, here, _) = locate_outside-IsPlace id s target place found w.distinct in
        IsWf-same s (promote os s id target).1 (promote_rollback x h).1 w
          (rw same (
            set_file-IsDistinct os without place.scope place.category restored
              without-IsWf.distinct))
          (rw same (
            unfold set_file in
            set_file-covered os without place.scope place.category restored
              (stored-known os s place.scope place.category (record place.file { entries = left })
                place.scope (file_at-known s place.scope place.category place.file here))
              without-IsWf.covered))

    -- The entry as it is moved.
    abbrev pub moved : Entry F
    moved = record place.entry { scope = target }

    abbrev rest : List (Entry F)
    rest = entries_of (file_at without target place.category)

    new_file : File F
    new_file = elim (file_at without target place.category) [
      | none ↦ record { version = 1; entries = [] ++ moved ∷ [] }
      | some f ↦ record f { entries = f.entries ++ moved ∷ [] }
    ]

    entries-new_file : new_file.entries ≡ rest ++ moved ∷ []
    unfolding new_file
    entries-new_file = ground arith

    promoted-eq :
        (rewrite os s place left).0 ≡ ok tt
        → (promote os s id target).1 ≡ stored os without target place.category new_file
    unfolding promote promote_after promote_to rewrite stored new_file
    promoted-eq h = ground (arith, contains-keys target s.contents)

    find_id-new :
        (j : String)
        → find_id j (rest ++ moved ∷ []) ≡ (if id == j then some moved else find_id j rest)
    find_id-new j =
        let (at, here, _) = locate_outside-IsPlace id s target place found w.distinct in
        ground (
          arith,
          find?-append (λ (e : Entry F). e.id == j) rest (moved ∷ []),
          find_id-eq_id id place.file.entries place.entry (place_entry id place at),
          entry_in_of_view-none j without target place.category,
          view-without j,
          eq_iff id j,
        )

    module _ (removed : (rewrite os s place left).0 ≡ ok tt) where
      abbrev pub promoted : YamlStore F
      promoted = (promote os s id target).1

      promoted-Rewrites : Rewrites without target place.category (rest ++ moved ∷ []) promoted
      promoted-Rewrites sc c = rw (promoted-eq removed) (
          stored-Rewrites os without target place.category new_file sc c
          ∙ ap
              (λ es.
                if target == sc && place.category == c
                then es
                else entries_of (file_at without sc c))
              entries-new_file)

      moved_apart :
          (j sc c : String) (e : Entry F)
          → find_id j (rest ++ moved ∷ []) ≡ some e
          → (target == sc && place.category == c) ≡ false
          → entry_in without sc c j ≡ none
      moved_apart j sc c e h other = elim (Bool-cases (id == j)) [
        | inl same ↦ entry_in_of_view-none j without sc c (view-without j ∙ rw same)
        | inr ne ↦
            only_here j without target place.category sc c e without-IsWf
              (ground (arith, find_id-new j)) other
      ]

      once_moved : Distinct (ids (rest ++ moved ∷ []))
      once_moved =
          let (at, here, _) = locate_outside-IsPlace id s target place found w.distinct in
          Distinct-append rest moved (without-IsWf.once target place.category) (
            entry_in_of_view-none place.entry.id without target place.category (
              ground (
                arith,
                view-without place.entry.id,
                find_id-eq_id id place.file.entries place.entry (place_entry id place at),
                eq_iff id place.entry.id,
              )))

      -- A promotion whose removal is saved keeps the invariant, whether or not the second file is
      -- saved.
      pub promote-IsWf : IsWf promoted
      promote-IsWf =
          IsWf-rewritten without promoted target place.category (rest ++ moved ∷ [])
            promoted-Rewrites without-IsWf once_moved moved_apart
            (rw (promoted-eq removed)
              (stored-IsDistinct os without target place.category new_file without-IsWf.distinct))
            (rw (promoted-eq removed) (
              stored-covered os without target place.category new_file
                (stored-known os s place.scope place.category (record place.file { entries = left })
                  target known)
                without-IsWf.covered))

      -- In a well-formed store that has the target, after a promotion whose removal is saved, the
      -- ID shows the same entry with the target for its scope, and every other ID what it showed,
      -- whether or not the second file is saved.
      pub view-promote : (j : String) → view promoted j ≡ (if id == j then some moved else view s j)
      view-promote j =
          rw
            (view-rewritten without promoted target place.category (rest ++ moved ∷ [])
              promoted-Rewrites j without-IsWf promote-IsWf)
            (ground (
              arith,
              find_id-new j,
              view-without j,
              entry_in-cases j without target place.category without-IsWf,
            ))
