-- ===== src/Yaml/Flush.antt =====
-- yaml.go: `flush`, `Close` and the loop that flushes every thirty seconds.
use mnemonic.Prelude.{String, true, List, [], ◌∷◌, ◌++◌, none, some, if◌then◌else◌}
use mnemonic.Prelude.Maps.{Map, lookup, insert, remove, keys}
use mnemonic.Store.Entry.{Result, ok, err}
use mnemonic.Yaml.State.{Os, YamlStore, persist}

unfoldable pub pair_with : String → List String → List (String × String)
pair_with scope [] = []
pair_with scope (c ∷ cs) = (scope, c) ∷ pair_with scope cs

-- The pairs of a scope and a category that have a flag.
unfoldable pub flagged : {B : Type 0} → Map (Map B) → List (String × String)
unfolding pair_with
flagged [] = []
flagged ((scope, flags) ∷ dirty) = pair_with scope (keys flags) ++ flagged dirty

module _ {F : Type 0} where
  -- `delete(files, category)` on the flags of a scope
  unfoldable pub clear_flag : YamlStore F → String → String → YamlStore F
  unfolding lookup insert remove
  clear_flag s scope category = elim (lookup scope s.dirty) [
    | none ↦ s
    | some flags ↦ record s { dirty = insert scope (remove category flags) s.dirty }
  ]

  -- The two loops of `flush`; the first failure ends both.
  unfoldable pub flush_pairs :
      Os F → List (String × String) → YamlStore F → Result (Unit {0}) × YamlStore F
  unfolding persist clear_flag
  flush_pairs os [] s = (ok tt, s)
  flush_pairs os ((scope, category) ∷ pairs) s =
      let (r, s') = persist os s scope category in
      elim r [ ok _ ↦ flush_pairs os pairs (clear_flag s' scope category) | err e ↦ (err e, s') ]

  unfoldable pub flush : Os F → YamlStore F → Result (Unit {0}) × YamlStore F
  unfolding flush_pairs flagged
  flush os s = flush_pairs os (flagged s.dirty) s

  unfoldable pub close : Os F → YamlStore F → Result (Unit {0}) × YamlStore F
  unfolding flush
  close os s = if s.closed then (ok tt, s) else flush os (record s { closed = true })
