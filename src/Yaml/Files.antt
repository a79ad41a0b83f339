-- ===== src/Yaml/Files.antt =====
-- What the methods do to single files, in memory and on disk: the laws of `set_file`, `persist`
-- and `locate` that the theorems about the methods rest on.
use mathlib.Core.Option.{get_or}
use mnemonic.Prelude.{
  ℕ, zero, suc, String, false, ◌&&◌, List, [], ◌∷◌, Option, none, some, ◌≡◌, refl, ◌==◌, eq_iff,
  eq_refl, arith, if◌then◌else◌, Option-cases, inl, inr, All,
}
use mnemonic.Prelude.Maps.{Map, lookup, insert, lookup-insert, keys, Distinct, contains-keys}
use mnemonic.Store.Entry.{Entry, ok}
use mnemonic.Yaml.State.{
  File, Files, Os, YamlStore, files_of, set_file, path_of, write, persist, index_of, get_elem?,
}
use mnemonic.Yaml.Changes.{Place, locate_in_file, locate_in_files, locate, locate_outside}

-- The file of a scope and a category, in memory.
abbrev pub file_at : {F : Type 0} → YamlStore F → String → String → Option (File F)
file_at s scope category = lookup category (files_of s scope)

-- The same in a map of scopes.
abbrev pub file_in : {F : Type 0} → Map (Files F) → String → String → Option (File F)
file_in contents scope category = lookup category (get_or (lookup scope contents) [])

-- The maps of Go have each key once.
abbrev pub IsDistinct : {V : Type 0} → Map (Map V) → Type 0
IsDistinct m = Distinct (keys m) × All (λ e. Distinct (keys e.1)) m

-- What stands on disk for a scope and a category is the text of what is in memory.
abbrev pub IsSaved : {F : Type 0} → Os F → YamlStore F → String → String → Type 0
IsSaved os s scope category =
    (text : String) × (os.marshal (file_at s scope category) ≡ some text)
    × (lookup (path_of os s scope category) s.disk ≡ some text)

module _ {F : Type 0} where
  pub file_at-set_file :
      (s : YamlStore F) (scope category : String) (f : File F) (sc c : String)
      → file_at (set_file s scope category f) sc c
        ≡ (if scope == sc && category == c then some f else file_at s sc c)
  unfolding files_of set_file
  file_at-set_file s scope category f sc c = ground (
    arith,
    lookup-insert scope sc (insert category f (files_of s scope)) s.contents,
    lookup-insert category c f (files_of s scope),
    eq_iff scope sc,
  )

  module _ (os : Os F) (s : YamlStore F) (scope category : String) where
    -- Saving a file changes the disk and nothing else.
    pub persist-memory :
        let s' = (persist os s scope category).1 in
        (s'.contents ≡ s.contents)
        × (s'.dirs ≡ s.dirs)
        × (s'.dirty ≡ s.dirty)
        × (s'.auto_hit_counting ≡ s.auto_hit_counting)
        × (s'.closed ≡ s.closed)
    unfolding persist write
    persist-memory = ground arith

    -- A save that returns no error has written the text of the file.
    pub persist-IsSaved :
        (persist os s scope category).0 ≡ ok tt
        → IsSaved os (persist os s scope category).1 scope category
    unfolding persist write path_of files_of
    persist-IsSaved h =
        let text = get_or (os.marshal (file_at s scope category)) "" in
        let path = path_of os s scope category in
        (text, ground arith, ground (arith, lookup-insert path path text s.disk, eq_refl path))

module _ {F : Type 0} (id : String) where
  -- What `locate` returns is the place of the first entry with the ID in its file.
  abbrev pub IsPlace : Place F → Type 0
  IsPlace place =
      (index_of id place.file.entries ≡ some place.index)
      × (get_elem? place.file.entries place.index ≡ some place.entry)

  -- No entry of the file has the ID.
  abbrev pub Lacks : Option (File F) → Type 0
  Lacks none = Unit
  Lacks (some f) = index_of id f.entries ≡ none

  locate_in_file-IsPlace :
      (scope category : String) (f : File F) (place : Place F)
      → locate_in_file id scope category f ≡ some place
      → IsPlace place × (place.file ≡ f) × (place.scope ≡ scope) × (place.category ≡ category)
  unfolding locate_in_file
  locate_in_file-IsPlace scope category f place h = ground arith

  get_elem?-index_of :
      (es : List (Entry F)) (i : ℕ)
      → index_of id es ≡ some i
      → (e : Entry F) × (get_elem? es i ≡ some e) × (e.id ≡ id)
  unfolding index_of get_elem?
  get_elem?-index_of [] i h = cc
  get_elem?-index_of (x ∷ xs) zero h = (x, refl, ground (arith, eq_iff x.id id))
  get_elem?-index_of (x ∷ xs) (suc i) h = get_elem?-index_of xs i (ground arith)

  locate_in_file-none :
      (scope category : String) (f : File F)
      → locate_in_file id scope category f ≡ none
      → index_of id f.entries ≡ none
  unfolding locate_in_file
  locate_in_file-none scope category f h = elim (Option-cases (index_of id f.entries)) [
    | inl e ↦ e
    | inr (i, e) ↦ let (x, g, _) = get_elem?-index_of f.entries i e in absurd (ground arith)
  ]

  locate_in_files-IsPlace :
      (scope : String) (files : Files F) (place : Place F)
      → locate_in_files id scope files ≡ some place
      → Distinct (keys files)
      → IsPlace place × (lookup place.category files ≡ some place.file) × (place.scope ≡ scope)
  unfolding locate_in_files lookup
  locate_in_files-IsPlace scope [] place h d = cc
  locate_in_files-IsPlace scope ((category, f) ∷ files) place h d = ground (
    arith,
    locate_in_file-IsPlace scope category f place,
    locate_in_files-IsPlace scope files place,
    contains-keys category files,
    eq_iff category place.category,
    eq_refl category,
  )

  locate_in_files-none :
      (scope : String) (files : Files F) (c : String)
      → locate_in_files id scope files ≡ none
      → Lacks (lookup c files)
  unfolding locate_in_files lookup
  locate_in_files-none scope [] c h = tt
  locate_in_files-none scope ((category, f) ∷ files) c h =
      ground (arith, locate_in_file-none scope category f, locate_in_files-none scope files c)

  locate-IsPlace_in :
      (contents : Map (Files F)) (place : Place F)
      → locate id contents ≡ some place
      → IsDistinct contents
      → IsPlace place × (file_in contents place.scope place.category ≡ some place.file)
  unfolding locate lookup
  locate-IsPlace_in [] place h d = cc
  locate-IsPlace_in ((scope, files) ∷ contents) place h d = ground (
    arith,
    locate_in_files-IsPlace scope files place,
    locate-IsPlace_in contents place,
    contains-keys scope contents,
    eq_iff scope place.scope,
    eq_refl scope,
  )

  locate-none_in :
      (contents : Map (Files F)) (scope category : String)
      → locate id contents ≡ none
      → Lacks (file_in contents scope category)
  unfolding locate lookup
  locate-none_in [] sc c h = tt
  locate-none_in ((scope, files) ∷ contents) sc c h =
      ground (arith, locate_in_files-none scope files c, locate-none_in contents sc c)

  locate_outside-IsPlace_in :
      (target : String) (contents : Map (Files F)) (place : Place F)
      → locate_outside id target contents ≡ some place
      → IsDistinct contents
      → IsPlace place
        × (file_in contents place.scope place.category ≡ some place.file)
        × ((place.scope == target) ≡ false)
  unfolding locate_outside lookup
  locate_outside-IsPlace_in target [] place h d = cc
  locate_outside-IsPlace_in target ((scope, files) ∷ contents) place h d = ground (
    arith,
    locate_in_files-IsPlace scope files place,
    locate_outside-IsPlace_in target contents place,
    contains-keys scope contents,
    eq_iff scope place.scope,
    eq_refl scope,
  )

  module _ (s : YamlStore F) where
    -- In a store with distinct keys, `locate` finds the place that the maps lead to.
    pub locate-IsPlace :
        (place : Place F)
        → locate id s.contents ≡ some place
        → IsDistinct s.contents
        → IsPlace place × (file_at s place.scope place.category ≡ some place.file)
    unfolding files_of
    locate-IsPlace place = locate-IsPlace_in s.contents place

    pub locate-none :
        (scope category : String) → locate id s.contents ≡ none → Lacks (file_at s scope category)
    unfolding files_of
    locate-none = locate-none_in s.contents

    pub locate_outside-IsPlace :
        (target : String) (place : Place F)
        → locate_outside id target s.contents ≡ some place
        → IsDistinct s.contents
        → IsPlace place
          × (file_at s place.scope place.category ≡ some place.file)
          × ((place.scope == target) ≡ false)
    unfolding files_of
    locate_outside-IsPlace target place = locate_outside-IsPlace_in target s.contents place
