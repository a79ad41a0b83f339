-- ===== src/Yaml/Editing.antt =====
-- A method that changes or removes the entry of one ID: what `Score` and `Delete` have in common.
use mnemonic.Prelude.{
  String, false, ◌&&◌, List, Option, none, some, ◌≡◌, ap, ◌==◌, eq_iff, arith, if◌then◌else◌,
  Option-cases, inl, inr,
}
use mnemonic.Prelude.Maps.{Distinct}
use mnemonic.Store.Entry.{Entry}
use mnemonic.Yaml.State.{File, Os, YamlStore}
use mnemonic.Yaml.Files.{file_at}
use mnemonic.Yaml.Rewriting.{
  stored, stored-Rewrites, stored-IsDistinct, stored-covered, file_at-known,
}
use mnemonic.Yaml.Single.{IsWf-rewritten, view-rewritten}
use mnemonic.Yaml.View.{view, IsWf, ids, find_id, entries_of, entry_in, entry_in-cases, only_here}

-- The entry of an ID in a file becomes `r`; `es` are the file's entries after that.
pub record Edit {F : Type 0} (s : YamlStore F) (scope category id : String) (f : File F)
    (es : List (Entry F)) (r : Option (Entry F)) : Type 0 where
  pub valid : IsWf s
  pub here : file_at s scope category ≡ some f
  pub entry : Entry F
  pub found : find_id id f.entries ≡ some entry
  pub once : Distinct (ids es)
  pub edited : (j : String) → find_id j es ≡ (if id == j then r else find_id j f.entries)

module _ {F : Type 0} (os : Os F) (s : YamlStore F) (scope category id : String) (f : File F)
    (es : List (Entry F)) (r : Option (Entry F)) (d : Edit s scope category id f es r) where
  abbrev pub after : YamlStore F
  after = stored os s scope category (record f { entries = es })

  before : (j : String) → entry_in s scope category j ≡ find_id j f.entries
  before j = ap (λ g. find_id j (entries_of g)) d.here

  apart :
      (j sc c : String) (e : Entry F)
      → find_id j es ≡ some e
      → (scope == sc && category == c) ≡ false
      → entry_in s sc c j ≡ none
  apart j sc c e h other = elim (Option-cases (entry_in s scope category j)) [
    | inr (x, k) ↦ only_here j s scope category sc c x d.valid k other
    | inl n ↦ absurd (ground (arith, d.edited j, d.found, before j, eq_iff id j))
  ]

  pub after-IsWf : IsWf after
  after-IsWf =
      IsWf-rewritten s after scope category es
        (stored-Rewrites os s scope category (record f { entries = es })) d.valid d.once apart
        (stored-IsDistinct os s scope category (record f { entries = es }) d.valid.distinct)
        (stored-covered os s scope category (record f { entries = es })
          (file_at-known s scope category f d.here) d.valid.covered)

  pub view-after : (j : String) → view after j ≡ (if id == j then r else view s j)
  view-after j =
      rw
        (view-rewritten s after scope category es
          (stored-Rewrites os s scope category (record f { entries = es })) j d.valid after-IsWf)
        (ground (
          arith,
          d.edited j,
          d.found,
          before j,
          eq_iff id j,
          entry_in-cases j s scope category d.valid,
        ))
