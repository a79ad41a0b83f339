-- ===== src/Yaml/Saving.antt =====
-- A save of one file: what was saved before still is, as the files lie at paths of their own.
use mathlib.Core.Option.{get_or}
use mathlib.Core.Path.{subst₂}
use mnemonic.Prelude.{
  String, Bool, true, false, ◌&&◌, ◌⊎◌, [], Option, ◌≡◌, refl, ◌∙◌, ◌==◌, eq_iff, arith,
  Option-cases, Bool-cases, inl, inr, contains,
}
use mnemonic.Prelude.Maps.{lookup, lookup-insert, keys}
use mnemonic.Store.Entry.{ok}
use mnemonic.Yaml.State.{
  Os, Write, written, refused, damaged, YamlStore, files_of, path_of, expand_home, write, persist,
}
use mnemonic.Yaml.Files.{file_at, IsSaved, persist-memory, persist-IsSaved}

-- The flag of a file.
abbrev pub flag_at : {F : Type 0} → YamlStore F → String → String → Option Bool
flag_at s scope category = lookup category (get_or (lookup scope s.dirty) [])

-- The files of the configured scopes lie at paths of their own.
pub record HasPaths {F : Type 0} (os : Os F) (s : YamlStore F) : Type 0 where
  pub apart :
      (sc c sc' c' : String)
      → contains (keys s.dirs) sc ≡ true
      → contains (keys s.dirs) sc' ≡ true
      → path_of os s sc c ≡ path_of os s sc' c'
      → (sc ≡ sc') × (c ≡ c')

Write-cases : (o : Write) → (o ≡ written) ⊎ (o ≡ refused) ⊎ ((part : String) × (o ≡ damaged part))
Write-cases written = inl refl
Write-cases refused = inr (inl refl)
Write-cases (damaged part) = inr (inr (part, refl))

pub path_of-dirs :
    {F : Type 0} (os : Os F) (s t : YamlStore F) (sc c : String)
    → s.dirs ≡ t.dirs
    → path_of os s sc c ≡ path_of os t sc c
unfolding path_of
path_of-dirs os s t sc c e = rw e

module _ {F : Type 0} (os : Os F) (s : YamlStore F) where
  write-elsewhere :
      (path text q : String)
      → (path == q) ≡ false
      → lookup q (write os path text s).1.disk ≡ lookup q s.disk
  unfolding write
  write-elsewhere path text q ne = elim (Write-cases (os.write_file path text)) [
    | inl w ↦ ground (arith, lookup-insert path q text s.disk)
    | inr (inl r) ↦ ground arith
    | inr (inr (part, d)) ↦ ground (arith, lookup-insert path q part s.disk)
  ]

  -- A save leaves the store alone, or writes at the path of the file.
  persist-cases :
      (scope category : String)
      → ((persist os s scope category).1 ≡ s)
        ⊎ ((text : String) × ((persist os s scope category).1
              ≡ (write os (path_of os s scope category) text s).1))
  unfolding persist
  persist-cases scope category =
      elim (Bool-cases (os.mkdir_all (expand_home os (get_or (lookup scope s.dirs) "")))) [
        | inr f ↦ inl (rw f)
        | inl t ↦ elim (Option-cases (os.marshal (file_at s scope category))) [
          | inl n ↦ inl (rw (t, n))
          | inr (text, m) ↦ inr (text, rw (t, m))
        ]
      ]

  module _ (paths : HasPaths os s) (scope category : String)
      (known : contains (keys s.dirs) scope ≡ true) where
    -- A save of one file leaves the text of another alone.
    pub disk_elsewhere :
        (sc c : String)
        → contains (keys s.dirs) sc ≡ true
        → (scope == sc && category == c) ≡ false
        → lookup (path_of os s sc c) (persist os s scope category).1.disk
          ≡ lookup (path_of os s sc c) s.disk
    disk_elsewhere sc c k other =
        let ne : (path_of os s scope category == path_of os s sc c) ≡ false = ground (
          arith,
          paths.apart scope category sc c known k,
          eq_iff (path_of os s scope category) (path_of os s sc c),
          eq_iff scope sc,
          eq_iff category c,
        ) in
        elim (persist-cases scope category) [
          | inl same ↦ rw same
          | inr (text, w) ↦
              rw w (write-elsewhere (path_of os s scope category) text (path_of os s sc c) ne)
        ]

    abbrev after : YamlStore F
    after = (persist os s scope category).1

    path_of-after : (sc c : String) → path_of os after sc c ≡ path_of os s sc c
    path_of-after sc c = path_of-dirs os after s sc c (persist-memory os s scope category).1

    file_at-after : (sc c : String) → file_at after sc c ≡ file_at s sc c
    unfolding files_of
    file_at-after sc c = rw (persist-memory os s scope category).0

    flag_at-after : (sc c : String) → flag_at after sc c ≡ flag_at s sc c
    flag_at-after sc c = rw (persist-memory os s scope category).2

    -- After a save without an error, what was saved still is, and the file is too.
    pub persist-keeps :
        (sc c : String)
        → (persist os s scope category).0 ≡ ok tt
        → contains (keys s.dirs) sc ≡ true
        → IsSaved os s sc c ⊎ ((scope == sc && category == c) ≡ true)
        → IsSaved os after sc c
    persist-keeps sc c h k before = elim (Bool-cases (scope == sc && category == c)) [
      | inl same ↦
          let p : scope ≡ sc = ground (arith, eq_iff scope sc) in
          let q : category ≡ c = ground (arith, eq_iff category c) in
          subst₂ (λ a b. IsSaved os after a b) p q (persist-IsSaved os s scope category h)
      | inr other ↦ elim before [
        | inl (text, m, d) ↦ (
          text,
          rw (file_at-after sc c) m,
          rw (path_of-after sc c) (disk_elsewhere sc c k other ∙ d),
        )
        | inr same ↦ absurd (ground arith)
      ]
    ]
