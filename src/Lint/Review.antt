-- ===== src/Lint/Review.antt =====
-- cmd/mnemonic/lint.go: the screen on which the actions of the linter are decided one by one.
use mnemonic.Prelude.{
  ℕ, suc, String, Bool, true, false, not, List, [], ◌∷◌, Option, none, some, leb, length, contains,
  if◌then◌else◌,
}
use mnemonic.Store.Entry.{Error, Result, ok, err}
use mnemonic.Lint.Analysis.{Action}
use mnemonic.Yaml.State.{get_elem?}

-- `lintKeys`: the keys of each binding.
pub record LintKeyMap : Type 0 where
  pub merge_a : List String
  pub merge_b : List String
  pub keep_both : List String
  pub delete_a : List String
  pub delete_b : List String
  pub help : List String
  pub quit : List String

unfoldable pub lint_keys : LintKeyMap
lint_keys = record {
  merge_a = "m" ∷ "right" ∷ [];
  merge_b = "n" ∷ "left" ∷ [];
  keep_both = "k" ∷ [];
  delete_a = "d" ∷ [];
  delete_b = "f" ∷ [];
  help = "?" ∷ [];
  quit = "q" ∷ "esc" ∷ "ctrl+c" ∷ [];
}

-- The two calls of `entryStoreBackend` that the screen makes.
pub record ReviewBackend : Type 1 where
  pub State : Type 0
  pub merge : State → String → String → Result (Unit {0}) × State
  pub delete : State → String → Result (Unit {0}) × State

module _ (F : Type 0) (B : ReviewBackend) where
  pub record LintModel : Type 0 where
    pub actions : List (Action F)
    pub index : ℕ
    pub backend : B.State
    pub show_full_help : Bool
    pub error : Option Error
    pub finished : Bool

  unfoldable pub new_lint_model : List (Action F) → B.State → LintModel
  new_lint_model actions backend = record {
    actions = actions;
    index = 0;
    backend = backend;
    show_full_help = false;
    error = none;
    finished = false;
  }

  -- The end of `Update`: the model, and whether it quits.
  unfoldable pub settle : LintModel → LintModel × Bool
  settle m =
      if leb (length m.actions) m.index then (record m { finished = true }, true) else (m, false)

  -- One of the four decisions that call the backend. `none` is the panic of an index out of range.
  unfoldable pub decide :
      (Action F → B.State → Result (Unit {0}) × B.State) → LintModel → Option (LintModel × Bool)
  unfolding settle get_elem?
  decide call m = elim (get_elem? m.actions m.index) [
    | none ↦ none
    | some action ↦
        let (r, b) = call action m.backend in
        some (elim r [
          | err x ↦ (record m { backend = b; error = some x }, true)
          | ok _ ↦ settle (record m { backend = b; index = suc m.index })
        ])
  ]

  unfoldable pub update : LintModel → String → Option (LintModel × Bool)
  unfolding decide settle lint_keys
  update m key =
      if contains lint_keys.quit key
      then some (m, true)
      else if contains lint_keys.help key
      then some (settle (record m { show_full_help = not m.show_full_help }))
      else if contains lint_keys.keep_both key
      then some (settle (record m { index = suc m.index }))
      else if contains lint_keys.merge_a key
      then decide (λ a b. B.merge b a.right.id a.left.id) m
      else if contains lint_keys.merge_b key
      then decide (λ a b. B.merge b a.left.id a.right.id) m
      else if contains lint_keys.delete_b key
      then decide (λ a b. B.delete b a.right.id) m
      else if contains lint_keys.delete_a key
      then decide (λ a b. B.delete b a.left.id) m
      else some (settle m)

  -- The program: keys come one after another until it quits.
  unfoldable pub run : List String → LintModel → Option (LintModel × Bool)
  unfolding update
  run [] m = some (m, false)
  run (key ∷ keys) m = elim (update m key) [
    | none ↦ none
    | some (m', quits) ↦ elim quits [ true ↦ some (m', true) | false ↦ run keys m' ]
  ]
