-- ===== src/Tests/DiskTests.antt =====
-- The theorems on the disk, with a file that is still to be saved.
use Prim.Native.String.{◌++◌ as ◌⊹◌}
use mnemonic.Prelude.{ℕ, true, false, [], ◌∷◌}
use mnemonic.Yaml.State.{YamlStore}
use mnemonic.Tests.Sample.{syntax_file}

-- One scope, whose file is not on disk yet and flagged.
abbrev unsaved : YamlStore ℕ
unsaved = record {
  dirs = ("global", "g/") ∷ [];
  contents = ("global", ("syntax", syntax_file) ∷ []) ∷ [];
  dirty = ("global", ("syntax", true) ∷ []) ∷ [];
  auto_hit_counting = true;
  closed = false;
  disk = [];
}
