-- ===== src/Yaml/Load.antt =====
-- yaml.go: `New`, `loadScope` and `readCategoryFile`.
use Prim.Native.String.{len, slice}
use mnemonic.Prelude.{
  ◌-◌, String, Bool, true, false, ◌||◌, not, List, [], ◌∷◌, none, some, ◌==◌, if◌then◌else◌,
}
use mnemonic.Prelude.Maps.{Map, lookup, insert}
use mnemonic.Store.Entry.{Result, ok, err, mkdir_failed, read_failed, unmarshal_failed}
use mnemonic.Yaml.State.{File, Files, Os, YamlStore, expand_home}
use mnemonic.Yaml.Tags.{sanitize_file_tags}

-- `strings.HasSuffix` and `strings.TrimSuffix`
unfoldable pub has_suffix : String → String → Bool
has_suffix s t = slice s (len s - len t) (len s) == t

unfoldable pub trim_suffix : String → String → String
unfolding has_suffix
trim_suffix s t = if has_suffix s t then slice s 0 (len s - len t) else s

module _ {F : Type 0} (os : Os F) (disk : Map String) where
  unfoldable pub read_category_file : String → Result (File F)
  unfolding lookup sanitize_file_tags
  read_category_file path = elim (lookup path disk) [
    | none ↦ err (read_failed path)
    | some text ↦ elim (os.unmarshal text) [
      | none ↦ err unmarshal_failed
      | some f ↦ ok (sanitize_file_tags os f)
    ]
  ]

  -- The loop over the names in the directory.
  unfoldable pub load_files : String → List (String × Bool) → Files F → Result (Files F)
  unfolding read_category_file has_suffix trim_suffix insert
  load_files dir [] files = ok files
  load_files dir ((name, is_dir) ∷ names) files = elim (is_dir || not (has_suffix name ".yaml")) [
    | true ↦ load_files dir names files
    | false ↦ elim (read_category_file (os.join dir name)) [
      | err e ↦ err e
      | ok f ↦ load_files dir names (insert (trim_suffix name ".yaml") f files)
    ]
  ]

  unfoldable pub load_scope : String → Result (Files F)
  unfolding load_files expand_home
  load_scope dir =
      let d = expand_home os dir in
      if os.mkdir_all d
      then elim (os.read_dir d) [ none ↦ err (read_failed d) | some names ↦ load_files d names [] ]
      else err (mkdir_failed d)

  unfoldable pub load_scopes : Map String → YamlStore F → Result (YamlStore F)
  unfolding load_scope insert
  load_scopes [] s = ok s
  load_scopes ((scope, dir) ∷ rest) s = elim (load_scope dir) [
    | err e ↦ err e
    | ok files ↦
        load_scopes rest
          (record s { contents = insert scope files s.contents; dirty = insert scope [] s.dirty })
  ]

  -- `New`, with the options applied; hits are counted unless an option turns that off.
  unfoldable pub new : Map String → Bool → Result (YamlStore F)
  unfolding load_scopes
  new scope_dirs auto_hit_counting = load_scopes scope_dirs (record {
    dirs = scope_dirs;
    contents = [];
    dirty = [];
    auto_hit_counting = auto_hit_counting;
    closed = false;
    disk = disk;
  })
