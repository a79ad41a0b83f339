-- ===== src/Tests/ReviewTests.antt =====
-- The screen of the linter at concrete keys.
use mnemonic.Prelude.{
  ℕ, ◌≤◌, ◌<◌, String, Bool, true, false, List, [], ◌∷◌, some, ◌≡◌, refl, length, arith,
}
use mnemonic.Store.Entry.{ok, err, not_found}
use mnemonic.Lint.Analysis.{Action, merge_action}
use mnemonic.Lint.Review.{ReviewBackend, LintModel, new_lint_model, run}
use mnemonic.Lint.Finishing.{run_finishes}
use mnemonic.Tests.Sample.{first, second}

-- A backend that keeps the IDs it has deleted and merges nothing.
abbrev backend : ReviewBackend
backend = record {
  State = List String;
  merge = λ s keep gone. (err (not_found gone), s);
  delete = λ s id. (ok tt, id ∷ s);
}

abbrev proposal : Action ℕ
proposal = record { type = merge_action; left = first; right = second; similarity = 1 }

abbrev start : LintModel ℕ backend
start = new_lint_model ℕ backend (proposal ∷ proposal ∷ []) []

decided :
    run ℕ backend ("?" ∷ "d" ∷ "x" ∷ "f" ∷ []) start
    ≡ some (
      record start { index = 2; backend = "b" ∷ "a" ∷ []; show_full_help = true; finished = true },
      true,
    )
unfolding run new_lint_model
decided = refl

run_finishes_example :
    (o : LintModel ℕ backend × Bool) × (run ℕ backend ("d" ∷ "k" ∷ []) start ≡ some o)
    × (2 ≤ 2 → o.1 ≡ true)
    × (o.1 ≡ false → o.0.index < length o.0.actions)
run_finishes_example =
    run_finishes ℕ backend (proposal ∷ proposal ∷ []) [] ("d" ∷ "k" ∷ []) (omega arith)
