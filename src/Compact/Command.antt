-- ===== src/Compact/Command.antt =====
-- cmd/mnemonic/compact.go: the command that compacts the entries of a backend.
use Prim.Native.Char.{Char}
use mnemonic.Prelude.{
  ℕ, suc, String, Bool, true, false, not, ◌&&◌, ◌||◌, List, [], ◌∷◌, Option, none, some, ◌==◌,
  nat_eq, contains, if◌then◌else◌,
}
use mnemonic.Prelude.Text.{trim_space, to_lower}
use mnemonic.Store.Entry.{Entry, Error, Result, ok, err, wrapped, external}
use mnemonic.Compact.Modes.{CavemanMode, is_off}

unfoldable pub should_confirm_caveman_mode : Bool → CavemanMode → Bool
unfolding is_off
should_confirm_caveman_mode yes_flag mode = not (is_off mode) && not yes_flag

-- What comes in while `confirmCavemanMode` waits.
pub data Answer : Type 0 where
  timed_out : Answer
  unreadable : Error → Answer
  line : String → Answer

unfoldable pub confirm_caveman_mode : (Char → Char) → Answer → Result (Unit {0})
unfolding trim_space to_lower
confirm_caveman_mode lower timed_out = err (external "timed out waiting for caveman confirmation")
confirm_caveman_mode lower (unreadable x) = err (wrapped "reading caveman confirmation" x)
confirm_caveman_mode lower (line text) =
    let answer = to_lower lower (trim_space text) in
    if answer == "y" || answer == "yes" then ok tt else err (external "caveman compaction aborted")

-- `compactProgress` with the other counters of `Run`.
pub record Progress : Type 0 where
  pub updated : ℕ
  pub failed : ℕ
  pub processed : ℕ
  pub first_error : Option Error

unfoldable pub no_progress : Progress
no_progress = record { updated = 0; failed = 0; processed = 0; first_error = none }

-- An entry has failed: the first error is kept.
unfoldable pub fail_at : ℕ → Error → Progress → Progress
fail_at i x g = record {
  updated = g.updated;
  failed = suc g.failed;
  processed = suc i;
  first_error = elim g.first_error [ none ↦ some x | some y ↦ some y ];
}

-- The calls of `entryStoreBackend` that the command makes.
pub record CompactBackend (F : Type 0) : Type 1 where
  pub State : Type 0
  pub all_in : State → List String → Result (List (Entry F)) × State
  pub save : State → Entry F → Result (Unit {0}) × State
  pub build_indexes : State → Result (Unit {0}) × State

-- An empty list of IDs lets every entry through.
unfoldable pub is_wanted : {F : Type 0} → List String → Entry F → Bool
is_wanted ids e = elim ids [ [] ↦ true | i ∷ is ↦ contains (i ∷ is) e.id ]

module _ {F : Type 0} (B : CompactBackend F) (is_daemon : Bool) (ids : List String)
    (compact : String → Result String) where
  -- The loop over the entries, from the index `i` on. A failure ends it on a daemon.
  unfoldable pub compact_from : ℕ → Progress → B.State → List (Entry F) → Progress × B.State
  unfolding is_wanted fail_at
  compact_from i g s [] = (g, s)
  compact_from i g s (e ∷ es) = elim (is_wanted ids e) [
    | false ↦ compact_from (suc i) g s es
    | true ↦ elim (compact e.content) [
      | err x ↦
          let g' = fail_at i (wrapped "compact failed" x) g in
          elim is_daemon [ true ↦ (g', s) | false ↦ compact_from (suc i) g' s es ]
      | ok text ↦ elim (text == e.content) [
        | true ↦ compact_from (suc i) (record g { processed = suc i }) s es
        | false ↦
            let (r, s') = B.save s (record e { content = text }) in
            elim r [
              | err x ↦
                  let g' = fail_at i (wrapped "save failed" x) g in
                  elim is_daemon [ true ↦ (g', s') | false ↦ compact_from (suc i) g' s' es ]
              | ok _ ↦
                  compact_from (suc i) (record g { updated = suc g.updated; processed = suc i }) s'
                    es
            ]
      ]
    ]
  ]

  -- The end of `Run`.
  unfoldable pub conclude : Progress × B.State → Result (Unit {0}) × B.State
  conclude (g, s) =
      let done : Result (Unit {0}) × B.State = elim is_daemon [
        | true ↦ (ok tt, s)
        | false ↦ B.build_indexes s
      ] in
      elim g.first_error [
        | none ↦ done
        | some x ↦ elim is_daemon [
          | true ↦ (err (wrapped "daemon backend unavailable during compaction" x), s)
          | false ↦ elim (nat_eq g.updated 0) [
            | true ↦ (err (wrapped "compaction failed" x), s)
            | false ↦ done
          ]
        ]
      ]

  -- `Run` from the retrieval of the entries on.
  unfoldable pub run : List String → B.State → Result (Unit {0}) × B.State
  unfolding compact_from conclude no_progress
  run scopes s =
      let (r, s') = B.all_in s scopes in
      elim r [
        | err x ↦ (err (wrapped "retrieving entries" x), s')
        | ok es ↦ conclude (compact_from 0 no_progress s' es)
      ]
