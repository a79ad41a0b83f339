-- ===== src/Snapshot/Following.antt =====
-- The snapshot beside the YAML store: what the same calls do to both.
use mathlib.Core.Option
use mnemonic.Prelude.{String, ◌≡◌}
use mnemonic.Prelude.Maps.{lookup}
use mnemonic.Platform.{Platform}
use mnemonic.Store.Entry.{Entry}
use mnemonic.Yaml.State.{YamlStore}
use mnemonic.Yaml.Changes
use mnemonic.Yaml.View.{view}
use mnemonic.Snapshot.State.{SnapshotStore}

module _ {F : Type 0} where
  -- An entry but for its number of hits.
  abbrev pub without_hits : Entry F → Entry F
  without_hits e = record e { hit_count = 0 }

  -- The snapshot has under every ID what the store shows, but for the number of hits.
  abbrev pub Shows : YamlStore F → SnapshotStore F → Type 0
  Shows t u =
      (j : String) → Option.map without_hits (lookup j u) ≡ Option.map without_hits (view t j)
