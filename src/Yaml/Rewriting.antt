-- ===== src/Yaml/Rewriting.antt =====
-- Storing a file in memory and saving it, as `Upsert`, `Score`, `Delete` and `Promote` do: whether
-- or not the save succeeds, the memory holds the file, every other file is as it was, and the maps
-- keep what the invariant asks of them.
use mnemonic.Prelude.{
  String, true, ◌&&◌, some, ◌≡◌, ap, ◌==◌, eq_iff, arith, if◌then◌else◌, Option-cases, inl, inr,
  contains,
}
use mnemonic.Prelude.Maps.{
  Map, lookup, insert, keys, Distinct, Distinct-insert, All-insert, All-lookup,
  contains-keys-insert, contains-keys,
}
use mnemonic.Yaml.State.{File, Files, Os, YamlStore, files_of, set_file, persist}
use mnemonic.Yaml.Files.{file_at, file_at-set_file, IsDistinct, persist-memory}
use mnemonic.Yaml.Single.{Rewrites}

module _ {F : Type 0} (os : Os F) (s : YamlStore F) (scope category : String) (f : File F) where
  -- The store after the file is set and saved.
  unfoldable pub stored : YamlStore F
  stored = (persist os (set_file s scope category f) scope category).1

  pub file_at-stored :
      (sc c : String)
      → file_at stored sc c ≡ (if scope == sc && category == c then some f else file_at s sc c)
  unfolding stored files_of
  file_at-stored sc c =
      rw (persist-memory os (set_file s scope category f) scope category).0
        (unfold files_of in file_at-set_file s scope category f sc c)

  pub stored-Rewrites : Rewrites s scope category f.entries stored
  stored-Rewrites sc c = rw (file_at-stored sc c) (ground arith)

  files_of-Distinct : IsDistinct s.contents → Distinct (keys (files_of s scope))
  unfolding files_of
  files_of-Distinct d = elim (Option-cases (lookup scope s.contents)) [
    | inl n ↦ rw (n, files_of) tt
    | inr (files, h) ↦
        rw (h, files_of) (All-lookup (λ fs. Distinct (keys fs)) scope files s.contents h d.1)
  ]

  pub set_file-IsDistinct :
      IsDistinct s.contents → IsDistinct (set_file s scope category f).contents
  unfolding set_file
  set_file-IsDistinct d = (
    Distinct-insert scope (insert category f (files_of s scope)) s.contents d.0,
    All-insert (λ e. Distinct (keys e.1)) scope (insert category f (files_of s scope)) s.contents
        (Distinct-insert category f (files_of s scope) (files_of-Distinct d)) d.1,
  )

  pub stored-IsDistinct : IsDistinct s.contents → IsDistinct stored.contents
  unfolding stored
  stored-IsDistinct d =
      rw (persist-memory os (set_file s scope category f) scope category).0 (set_file-IsDistinct d)

  pub set_file-covered :
      contains (keys s.contents) scope ≡ true
      → ((sc : String) → contains (keys s.contents) sc ≡ true → contains (keys s.dirs) sc ≡ true)
      → (sc : String) → contains (keys (set_file s scope category f).contents) sc ≡ true
      → contains (keys s.dirs) sc ≡ true
  unfolding set_file
  set_file-covered known covered sc h = ground (
    arith,
    contains-keys-insert scope sc (insert category f (files_of s scope)) s.contents,
    covered sc,
    eq_iff scope sc,
  )

  -- No scope is lost.
  pub stored-known :
      (sc : String)
      → contains (keys s.contents) sc ≡ true
      → contains (keys stored.contents) sc ≡ true
  unfolding stored set_file
  stored-known sc h = ground (
    arith,
    ap (λ (m : Map (Files F)). contains (keys m) sc)
        (persist-memory os (set_file s scope category f) scope category).0,
    contains-keys-insert scope sc (insert category f (files_of s scope)) s.contents,
  )

  pub stored-covered :
      contains (keys s.contents) scope ≡ true
      → ((sc : String) → contains (keys s.contents) sc ≡ true → contains (keys s.dirs) sc ≡ true)
      → (sc : String) → contains (keys stored.contents) sc ≡ true
      → contains (keys stored.dirs) sc ≡ true
  unfolding stored
  stored-covered known covered sc =
      let (same, dirs, _, _, _) = persist-memory os (set_file s scope category f) scope category in
      rw (same, dirs) (unfold set_file in set_file-covered known covered sc)

-- A scope that shows a file is among the keys.
pub file_at-known :
    {F : Type 0} (s : YamlStore F) (scope category : String) (f : File F)
    → file_at s scope category ≡ some f
    → contains (keys s.contents) scope ≡ true
unfolding files_of lookup
file_at-known s scope category f h = ground (arith, contains-keys scope s.contents)
