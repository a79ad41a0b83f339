-- ===== src/Yaml/Changes.antt =====
-- yaml.go: the methods that change entries. Each gives its error, or `ok`, and the store after it.
use mnemonic.Prelude.{
  ℕ, ◌+◌, String, Bool, List, [], ◌∷◌, ◌++◌, Option, none, some, ◌==◌, nat_eq, if◌then◌else◌,
}
use mnemonic.Prelude.Maps.{Map, lookup}
use mnemonic.Platform.{Platform, float_zero}
use mnemonic.Store.Entry.{
  Entry, Result, ok, err, scope_global, category_not_allowed, scope_not_configured,
  target_scope_not_configured, not_found, generating_id,
}
use mnemonic.Store.Allowed.{is_allowed_category}
use mnemonic.Yaml.State.{
  File, Files, Os, YamlStore, files_of, set_file, persist, index_of, remove_at, insert_at,
  modify_at, get_elem?,
}

-- Where an entry stands: its scope, its category, its index in the file, and the file.
pub record Place (F : Type 0) : Type 0 where
  pub scope : String
  pub category : String
  pub index : ℕ
  pub entry : Entry F
  pub file : File F

module _ {F : Type 0} where
  -- The loop over one file, over the files of a scope, and over the scopes.
  unfoldable pub locate_in_file : String → String → String → File F → Option (Place F)
  unfolding index_of get_elem?
  locate_in_file id scope category f = elim (index_of id f.entries) [
    | none ↦ none
    | some i ↦ elim (get_elem? f.entries i) [
      | none ↦ none
      | some e ↦
          some (record { scope = scope; category = category; index = i; entry = e; file = f })
    ]
  ]

  unfoldable pub locate_in_files : String → String → Files F → Option (Place F)
  unfolding locate_in_file
  locate_in_files id scope [] = none
  locate_in_files id scope ((category, f) ∷ files) = elim (locate_in_file id scope category f) [
    | none ↦ locate_in_files id scope files
    | some place ↦ some place
  ]

  unfoldable pub locate : String → Map (Files F) → Option (Place F)
  unfolding locate_in_files
  locate id [] = none
  locate id ((scope, files) ∷ scopes) = elim (locate_in_files id scope files) [
    | none ↦ locate id scopes
    | some place ↦ some place
  ]

  -- The same loop, with the target scope skipped.
  unfoldable pub locate_outside : String → String → Map (Files F) → Option (Place F)
  unfolding locate_in_files
  locate_outside id target [] = none
  locate_outside id target ((scope, files) ∷ scopes) =
      if scope == target
      then locate_outside id target scopes
      else elim (locate_in_files id scope files) [
        | none ↦ locate_outside id target scopes
        | some place ↦ some place
      ]

  -- `f.Entries = …` in the file of a place, then `persist`
  unfoldable pub rewrite :
      Os F → YamlStore F → Place F → List (Entry F) → Result (Unit {0}) × YamlStore F
  unfolding set_file persist
  rewrite os s place es =
      persist os (set_file s place.scope place.category (record place.file { entries = es }))
        place.scope place.category

  unfoldable pub delete : Os F → YamlStore F → String → Result (Unit {0}) × YamlStore F
  unfolding locate rewrite remove_at
  delete os s id = elim (locate id s.contents) [
    | none ↦ (err (not_found id), s)
    | some place ↦ rewrite os s place (remove_at place.index place.file.entries)
  ]

  -- The second half of `Promote`, once the removal is on disk.
  unfoldable pub promote_to :
      Os F → YamlStore F → Place F → String → Result (Unit {0}) × YamlStore F
  unfolding set_file persist files_of lookup
  promote_to os s place target =
      let e = record place.entry { scope = target } in
      let f : File F = elim (lookup place.category (files_of s target)) [
        | none ↦ record { version = 1; entries = [] }
        | some f ↦ f
      ] in
      persist os (set_file s target place.category (record f { entries = f.entries ++ e ∷ [] }))
        target place.category

  -- After the removal is saved or not.
  unfoldable pub promote_after :
      Os F → Place F → String → Result (Unit {0}) × YamlStore F → Result (Unit {0}) × YamlStore F
  unfolding promote_to set_file remove_at insert_at
  promote_after os place target (ok _, s) = promote_to os s place target
  promote_after os place target (err x, s) = (
    err x,
    set_file s place.scope place.category (record place.file {
      entries = insert_at place.index place.entry (remove_at place.index place.file.entries);
    }),
  )

  unfoldable pub promote : Os F → YamlStore F → String → String → Result (Unit {0}) × YamlStore F
  unfolding locate_outside rewrite remove_at promote_after lookup
  promote os s id target = elim (lookup target s.contents) [
    | none ↦ (err (target_scope_not_configured target), s)
    | some _ ↦ elim (locate_outside id target s.contents) [
      | none ↦ (err (not_found id), s)
      | some place ↦
          promote_after os place target
            (rewrite os s place (remove_at place.index place.file.entries))
    ]
  ]

module _ {F : Type 0} ⦃p : Platform F⦄ where
  -- The entry after `Score`.
  unfoldable pub score_entry : ℕ → Bool → F → Entry F → Entry F
  score_entry now counting delta e =
      let scored = record e { score = p.max float_zero (p.add e.score delta) } in
      if counting then (record scored { hit_count = e.hit_count + 1; last_hit = now }) else scored

  unfoldable pub score : Os F → YamlStore F → String → F → Result (Unit {0}) × YamlStore F
  unfolding score_entry locate rewrite modify_at
  score os s id delta = elim (locate id s.contents) [
    | none ↦ (err (not_found id), s)
    | some place ↦
        rewrite os s place
          (modify_at place.index (score_entry os.now s.auto_hit_counting delta) place.file.entries)
  ]

  -- The fields that `Upsert` fills in for its caller, once the entry has an ID.
  unfoldable pub fill : ℕ → Entry F → Entry F
  fill now e = record e {
    score = if p.eq e.score float_zero then p.literal 1 0 else e.score;
    created = if nat_eq e.created 0 then now else e.created;
  }

  -- The entry replaces the first one of its ID in the file, or is added at the end.
  unfoldable pub put_entry : Entry F → List (Entry F) → List (Entry F)
  put_entry e [] = e ∷ []
  put_entry e (x ∷ xs) = if x.id == e.id then e ∷ xs else x ∷ put_entry e xs

  unfoldable pub with_id : Os F → Entry F → Option (Entry F)
  with_id os e =
      if e.id == ""
      then elim os.random_id [ none ↦ none | some id ↦ some (record e { id = id }) ]
      else some e

  -- `Upsert` from the lookup of the category's file on.
  unfoldable pub store_entry :
      Os F → YamlStore F → String → Entry F → Result (Unit {0}) × YamlStore F
  unfolding files_of set_file persist put_entry lookup
  store_entry os s scope e =
      let f : File F = elim (lookup e.category (files_of s scope)) [
        | none ↦ record { version = 1; entries = [] }
        | some f ↦ f
      ] in
      persist os (set_file s scope e.category (record f { entries = put_entry e f.entries })) scope
        e.category

  -- The result, the caller's entry as `Upsert` leaves it, and the store.
  unfoldable pub upsert : Os F → YamlStore F → Entry F → Result (Unit {0}) × Entry F × YamlStore F
  unfolding is_allowed_category with_id fill store_entry lookup scope_global
  upsert os s entry =
      let scope = if entry.scope == "" then scope_global else entry.scope in
      if is_allowed_category entry.category
      then elim (lookup scope s.contents) [
        | none ↦ (err (scope_not_configured scope), entry, s)
        | some _ ↦ elim (with_id os entry) [
          | none ↦ (err generating_id, entry, s)
          | some e ↦
              let filled = fill os.now e in
              let (r, s') = store_entry os s scope filled in (r, filled, s')
        ]
      ]
      else (err (category_not_allowed entry.category), entry, s)
