-- ===== src/Tests/SnapshotTests.antt =====
-- The theorems on the snapshot at concrete entries.
use mathlib.Core.Option
use mnemonic.Prelude.{ℕ, [], ◌∷◌}
use mnemonic.Yaml.Changes
use mnemonic.Snapshot.State.{SnapshotStore}
use mnemonic.Tests.Sample.{sample, first, second}

abbrev snapshot : SnapshotStore ℕ
snapshot = ("a", first) ∷ ("b", second) ∷ []
