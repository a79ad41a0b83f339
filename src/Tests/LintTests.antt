-- ===== src/Tests/LintTests.antt =====
-- The theorem on the linter's advice at concrete entries.
use mnemonic.Prelude.{
  ℕ, Bool-cases, inl, inr, refl, String, true, false, List, [], ◌∷◌, ◌≡◌, ◌==◌, eq_iff, arith,
  if◌then◌else◌, contains,
}
use mnemonic.Prelude.Maps.{Distinct}
use mnemonic.Store.Entry.{Result, ok, err, not_found}
use mnemonic.Lint.Analysis.{SimilarEntry, Action, analyze, analyze_from}
use mnemonic.Lint.Laws.{lefts, rights}
use mnemonic.Lint.Consistency.{SkipsSelf, analyze_consistent}
use mnemonic.Tests.Sample.{sample, first, second}

-- Each of two entries is similar to the other.
abbrev search : String → Result (List (SimilarEntry ℕ))
search id =
    if id == "a"
    then ok (record { entry = second; distance = 0 } ∷ [])
    else if id == "b"
    then ok (record { entry = first; distance = 0 } ∷ [])
    else err (not_found id)

search-SkipsSelf : SkipsSelf search
search-SkipsSelf id ss h = elim (Bool-cases (id == "a")) [
  | inl a ↦
      let p : id ≡ "a" = ground (arith, eq_iff id "a") in
      let q : ss ≡ record { entry = second; distance = 0 } ∷ [] = ground arith in
      rw (p, q) (refl, tt)
  | inr n ↦ elim (Bool-cases (id == "b")) [
    | inl b ↦
        let p : id ≡ "b" = ground (arith, eq_iff id "b") in
        let q : ss ≡ record { entry = first; distance = 0 } ∷ [] = ground arith in
        rw (p, q) (refl, tt)
    | inr m ↦ absurd (ground arith)
  ]
]

abbrev actions : List (Action ℕ)
unfolding analyze_from
actions = analyze_from search [] (first ∷ second ∷ [])

analyze_consistent_example :
    Distinct (rights actions)
    × ((id : String) → contains (lefts actions) id ≡ true → contains (rights actions) id ≡ false)
unfolding analyze analyze_from
analyze_consistent_example =
    analyze_consistent search (first ∷ second ∷ []) actions search-SkipsSelf refl
