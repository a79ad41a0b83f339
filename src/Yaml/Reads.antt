-- ===== src/Yaml/Reads.antt =====
-- `Get`: it finds what the view of a well-formed store shows.
use mnemonic.Prelude.{
  String, true, false, List, [], ◌∷◌, none, some, ◌≡◌, ◌∙◌, ◌==◌, eq_iff, arith, Option-cases,
  Bool-cases, inl, inr, contains, find?-append,
}
use mnemonic.Prelude.Maps.{lookup, keys, contains-keys}
use mnemonic.Prelude.Sort.{sort, any-sort}
use mnemonic.Prelude.Text.{text_less}
use mnemonic.Store.Entry.{Entry, ok, err, not_found}
use mnemonic.Yaml.State.{
  Files, YamlStore, files_of, category_entries, all_entries, scopes_for_query,
}
use mnemonic.Yaml.Queries.{get}
use mnemonic.Yaml.Files.{file_at}
use mnemonic.Yaml.View.{entries_of, find_id, entry_in, view, IsWf, view-none, view_of_entry_in}

module _ {F : Type 0} (id : String) where
  module _ (s : YamlStore F) where
    find_id-category_entries :
        (scope : String) (cats : List String) (e : Entry F)
        → find_id id (category_entries (files_of s scope) cats) ≡ some e
        → (category : String) × (entry_in s scope category id ≡ some e)
    unfolding category_entries
    find_id-category_entries scope [] e h = cc
    find_id-category_entries scope (cat ∷ cats) e h =
        let first = entries_of (file_at s scope cat) in
        let rest = category_entries (files_of s scope) cats in
        elim (Option-cases (find_id id first)) [
          | inl n ↦
              find_id-category_entries scope cats e
                (ground (arith, find?-append (λ (x : Entry F). x.id == id) first rest))
          | inr (x, f) ↦
              (cat, ground (arith, find?-append (λ (x : Entry F). x.id == id) first rest))
        ]

    find_id-all_entries :
        (scopes : List String) (e : Entry F)
        → find_id id (all_entries s scopes) ≡ some e
        → (scope : String) × (category : String) × (entry_in s scope category id ≡ some e)
    unfolding all_entries
    find_id-all_entries [] e h = cc
    find_id-all_entries (sc ∷ scs) e h =
        let first = category_entries (files_of s sc) (sort text_less (keys (files_of s sc))) in
        let rest = all_entries s scs in
        elim (Option-cases (find_id id first)) [
          | inl n ↦
              find_id-all_entries scs e
                (ground (arith, find?-append (λ (x : Entry F). x.id == id) first rest))
          | inr (x, f) ↦
              let (c, here) =
                find_id-category_entries sc (sort text_less (keys (files_of s sc))) e
                  (ground (arith, find?-append (λ (x : Entry F). x.id == id) first rest)) in
              (sc, c, here)
        ]

  -- The search through the categories of a scope misses only what is in none of them.
  category_entries-none :
      (files : Files F) (cats : List String) (category : String)
      → find_id id (category_entries files cats) ≡ none
      → contains cats category ≡ true
      → find_id id (entries_of (lookup category files)) ≡ none
  unfolding category_entries
  category_entries-none files [] category h k = cc
  category_entries-none files (cat ∷ cats) category h k = ground (
    arith,
    find?-append (λ (x : Entry F). x.id == id) (entries_of (lookup cat files))
        (category_entries files cats),
    category_entries-none files cats category,
    eq_iff cat category,
  )

  scope_entries-none :
      (files : Files F) (category : String)
      → find_id id (category_entries files (sort text_less (keys files))) ≡ none
      → find_id id (entries_of (lookup category files)) ≡ none
  scope_entries-none files category h = ground (
    arith,
    category_entries-none files (sort text_less (keys files)) category h,
    any-sort text_less (λ (x : String). x == category) (keys files),
    contains-keys category files,
  )

  module _ (s : YamlStore F) where
    all_entries-none :
        (scopes : List String) (scope category : String)
        → find_id id (all_entries s scopes) ≡ none
        → contains scopes scope ≡ true
        → entry_in s scope category id ≡ none
    unfolding all_entries
    all_entries-none [] scope category h k = cc
    all_entries-none (sc ∷ scs) scope category h k = ground (
      arith,
      find?-append (λ (x : Entry F). x.id == id)
          (category_entries (files_of s sc) (sort text_less (keys (files_of s sc))))
          (all_entries s scs),
      all_entries-none scs scope category,
      scope_entries-none (files_of s sc) category,
      eq_iff sc scope,
    )

    uncovered :
        (scope category : String)
        → IsWf s
        → contains (keys s.dirs) scope ≡ false
        → entry_in s scope category id ≡ none
    unfolding files_of lookup
    uncovered scope category w h = ground (arith, w.covered scope, contains-keys scope s.contents)

    -- In a well-formed store `Get` returns the entry with the ID, wherever it stands, and an error
    -- exactly when there is none.
    pub get-view :
        IsWf s → get s id ≡ elim (view s id) [ none ↦ err (not_found id) | some e ↦ ok e ]
    unfolding get scopes_for_query
    get-view w = elim (Option-cases (find_id id (all_entries s (sort text_less (keys s.dirs))))) [
      | inl n ↦
          rw (n, get)
            (rw (
              view-none id s
                (λ scope category. elim (Bool-cases (contains (keys s.dirs) scope)) [
                  | inl k ↦
                      all_entries-none (sort text_less (keys s.dirs)) scope category n
                        (any-sort text_less (λ (x : String). x == scope) (keys s.dirs) ∙ k)
                  | inr k ↦ uncovered scope category w k
                ])
                w.distinct))
      | inr (e, f) ↦
          let (sc, c, here) = find_id-all_entries s (sort text_less (keys s.dirs)) e f in
          rw (f, get) (rw (view_of_entry_in id s sc c e w here))
    ]
