-- ===== src/Lint/Finishing.antt =====
-- cmd/mnemonic/lint.go: the screen never looks past its actions, and comes to an end.
use mnemonic.Prelude.{
  ℕ, zero, suc, ◌+◌, ◌≤◌, ◌<◌, String, Bool, true, false, not, List, [], ◌∷◌, none, some, ◌≡◌, refl,
  ◌==◌, eq_iff, arith, leb, length, filter, contains, if◌then◌else◌, Bool-cases, inl, inr,
}
use mnemonic.Store.Entry.{Result, Result-cases}
use mnemonic.Lint.Analysis.{Action}
use mnemonic.Yaml.State.{get_elem?}
use mnemonic.Lint.Review.{ReviewBackend, LintModel, new_lint_model, settle, decide, update, run}

-- A key that decides an action.
abbrev pub is_decision : String → Bool
is_decision key = contains ("k" ∷ "m" ∷ "right" ∷ "n" ∷ "left" ∷ "d" ∷ "f" ∷ []) key

abbrev pub is_quit : String → Bool
is_quit key = contains ("q" ∷ "esc" ∷ "ctrl+c" ∷ []) key

-- How many actions a key decides.
abbrev pub decisions : String → ℕ
decisions key = if is_decision key then 1 else 0

help_decides : (key : String) → ("?" == key) ≡ true → decisions key ≡ 0
help_decides key h = let same : "?" ≡ key = (eq_iff "?" key).0 h in rw (← same) refl

get_elem_open :
    {A : Type 0} (xs : List A) (i : ℕ) → i < length xs → (x : A) × (get_elem? xs i ≡ some x)
unfolding get_elem?
get_elem_open [] i h = absurd (omega arith)
get_elem_open (x ∷ xs) zero h = (x, refl)
get_elem_open (x ∷ xs) (suc i) h = get_elem_open xs i (omega arith)

get_elem_past : {A : Type 0} (xs : List A) (i : ℕ) → length xs ≤ i → get_elem? xs i ≡ none
unfolding get_elem?
get_elem_past [] i h = refl
get_elem_past (x ∷ xs) zero h = absurd (omega arith)
get_elem_past (x ∷ xs) (suc i) h = get_elem_past xs i (omega arith)

module _ (F : Type 0) (B : ReviewBackend) where
  -- There is an action to decide.
  abbrev pub IsOpen : LintModel F B → Type 0
  IsOpen m = m.index < length m.actions

  -- Where an update does not quit the screen is open, with the same actions, so many further.
  abbrev Advances : LintModel F B → ℕ → LintModel F B × Bool → Type 0
  Advances m n (m', true) = Unit
  Advances m n (m', false) = IsOpen m' × (m'.index ≡ m.index + n) × (m'.actions ≡ m.actions)

  advanced :
      (m : LintModel F B) (n : ℕ) (o : LintModel F B × Bool)
      → Advances m n o
      → o.1 ≡ false
      → IsOpen o.0 × (o.0.index ≡ m.index + n) × (o.0.actions ≡ m.actions)
  advanced m n (m', true) a e = cc
  advanced m n (m', false) a e = a

  settle-Advances :
      (m n : LintModel F B) (k : ℕ)
      → n.index ≡ m.index + k
      → n.actions ≡ m.actions
      → Advances m k (settle F B n)
  unfolding settle
  settle-Advances m n k i a = elim (Bool-cases (leb (length n.actions) n.index)) [
    | inl past ↦
        let eqn : settle F B n ≡ (record n { finished = true }, true) = ground arith in rw eqn tt
    | inr more ↦ let eqn : settle F B n ≡ (n, false) = ground arith in rw eqn (ground arith, i, a)
  ]

  decide-Advances :
      (call : Action F → B.State → Result (Unit {0}) × B.State) (m : LintModel F B)
      → IsOpen m
      → (o : LintModel F B × Bool) × (decide F B call m ≡ some o) × Advances m 1 o
  unfolding decide
  decide-Advances call m h =
      let (action, at) = get_elem_open m.actions m.index h in
      let (r, b) = call action m.backend in
      elim (Result-cases r) [
        | inl (x, failed) ↦ ((record m { backend = b; error = some x }, true), ground arith, tt)
        | inr (u, done) ↦
            let m' = record m { backend = b; index = suc m.index } in
            (settle F B m', ground arith, settle-Advances m m' 1 (omega arith) refl)
      ]

  -- An update with the outcome of one of its branches.
  moves :
      (m : LintModel F B) (key : String) (o : LintModel F B × Bool) (n : ℕ)
      → decisions key ≡ n
      → Advances m n o
      → Advances m (decisions key) o
  moves m key o n e a = rw e a

  -- The keys that call the backend, and all those that do nothing.
  decision-Advances :
      (m : LintModel F B) (key : String)
      → IsOpen m
      → is_quit key ≡ false
      → ("?" == key) ≡ false
      → ("k" == key) ≡ false
      → (o : LintModel F B × Bool) × (update F B m key ≡ some o)
        × Advances m (decisions key) o
        × (is_quit key ≡ true → o.1 ≡ true)
  unfolding update
  decision-Advances m key h stay no_help no_keep =
      let by =
        λ (call : Action F → B.State → Result (Unit {0}) × B.State). decide-Advances call m h in
      elim (Bool-cases (contains ("m" ∷ "right" ∷ []) key)) [
        | inl k ↦
            let (o, e, a) = by (λ x b. B.merge b x.right.id x.left.id) in
            (o, ground arith, moves m key o 1 (ground arith) a, λ q. absurd (ground arith))
        | inr k1 ↦ elim (Bool-cases (contains ("n" ∷ "left" ∷ []) key)) [
          | inl k ↦
              let (o, e, a) = by (λ x b. B.merge b x.left.id x.right.id) in
              (o, ground arith, moves m key o 1 (ground arith) a, λ q. absurd (ground arith))
          | inr k2 ↦ elim (Bool-cases ("f" == key)) [
            | inl k ↦
                let (o, e, a) = by (λ x b. B.delete b x.right.id) in
                (o, ground arith, moves m key o 1 (ground arith) a, λ q. absurd (ground arith))
            | inr k3 ↦ elim (Bool-cases ("d" == key)) [
              | inl k ↦
                  let (o, e, a) = by (λ x b. B.delete b x.left.id) in
                  (o, ground arith, moves m key o 1 (ground arith) a, λ q. absurd (ground arith))
              | inr k4 ↦ (
                settle F B m,
                ground arith,
                moves m key (settle F B m) 0 (ground arith)
                    (settle-Advances m m 0 (omega arith) refl),
                λ q. absurd (ground arith),
              )
            ]
          ]
        ]
      ]

  -- An update of an open screen does not panic. It quits at a key to quit, and otherwise goes on by
  -- as many actions as the key decides.
  update-Advances :
      (m : LintModel F B) (key : String)
      → IsOpen m
      → (o : LintModel F B × Bool) × (update F B m key ≡ some o)
        × Advances m (decisions key) o
        × (is_quit key ≡ true → o.1 ≡ true)
  unfolding update
  update-Advances m key h = elim (Bool-cases (is_quit key)) [
    | inl q ↦ ((m, true), ground arith, tt, λ _. refl)
    | inr stay ↦ elim (Bool-cases ("?" == key)) [
      | inl k ↦
          let m' = record m { show_full_help = not m.show_full_help } in
          (
            settle F B m',
            ground arith,
            moves m key (settle F B m') 0 (help_decides key k)
                (settle-Advances m m' 0 (omega arith) refl),
            λ q. absurd (ground arith),
          )
      | inr no_help ↦ elim (Bool-cases ("k" == key)) [
        | inl k ↦
            let m' = record m { index = suc m.index } in
            (
              settle F B m',
              ground arith,
              moves m key (settle F B m') 1 (ground arith)
                  (settle-Advances m m' 1 (omega arith) refl),
              λ q. absurd (ground arith),
            )
        | inr no_keep ↦ decision-Advances m key h stay no_help no_keep
      ]
    ]
  ]

  run-Advances :
      (keys : List String) (m : LintModel F B)
      → IsOpen m
      → (o : LintModel F B × Bool) × (run F B keys m ≡ some o)
        × (length m.actions ≤ m.index + length (filter is_decision keys) → o.1 ≡ true)
        × (o.1 ≡ false → IsOpen o.0)
  unfolding run
  run-Advances [] m h = ((m, false), refl, λ e. absurd (omega arith), λ _. h)
  run-Advances (key ∷ keys) m h =
      let ((m', quits), e, a, q) = update-Advances m key h in
      elim (Bool-cases quits) [
        | inl k ↦ ((m', true), ground arith, λ _. refl, λ f. absurd (ground arith))
        | inr k ↦
            let goes = advanced m (decisions key) (m', quits) a k in
            let (o, e', ends, stays) = run-Advances keys m' goes.0 in
            (o, ground arith, λ enough. ends (ground arith), stays)
      ]

  -- From a first screen with an action, any keys can be pressed: the screen never looks for an
  -- action that is not there, and it has quit once as many keys that decide have been pressed as
  -- there are actions, whatever the backend answers.
  pub run_finishes :
      (actions : List (Action F)) (b : B.State) (keys : List String)
      → 0 < length actions
      → (o : LintModel F B × Bool) × (run F B keys (new_lint_model F B actions b) ≡ some o)
        × (length actions ≤ length (filter is_decision keys) → o.1 ≡ true)
        × (o.1 ≡ false → o.0.index < length o.0.actions)
  unfolding new_lint_model
  run_finishes actions b keys h =
      let (o, e, ends, stays) = run-Advances keys (new_lint_model F B actions b) h in
      (o, e, λ enough. ends (omega arith), stays)

  -- Once the last action is decided the screen asks to quit, but a further key that calls the
  -- backend, if it comes before the program stops, looks past the actions and panics.
  pub late_key_panics :
      (m : LintModel F B)
      → length m.actions ≤ m.index
      → (update F B m "m" ≡ none) × (update F B m "d" ≡ none)
  unfolding update decide
  late_key_panics m h =
      let past = get_elem_past m.actions m.index h in (ground (arith, past), ground (arith, past))
