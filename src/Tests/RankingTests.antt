-- ===== src/Tests/RankingTests.antt =====
-- The theorems on the ranking at concrete entries.
use mathlib.Core.List.{Perm}
use mnemonic.Prelude.{ℕ, [], ◌∷◌, ◌≡◌, ◌⊎◌, inl, inr, refl, arith, filter}
use mnemonic.Prelude.Sort.{IsSorted, tied}
use mnemonic.Platform.{float_less}
use mnemonic.Store.Ranking.{weighted_score, ranks_before, sort_by_weighted_score}
use mnemonic.Store.RankingLaws.{IsSeparated, sort_by_weighted_score_lem}
use mnemonic.Tests.Sample.{sample, tenths, first, second}

-- The weights of the two entries.
abbrev pub IsOneOf : ℕ → Type 0
IsOneOf x = (x ≡ tenths 20) ⊎ (x ≡ tenths 10)

pub separated : IsSeparated IsOneOf
unfolding float_less
separated = record {
  tie_self = λ x h. ground arith;
  tie_same = λ x y h k e. ground arith;
  asymm = λ x y h k e. ground arith;
  trans = λ x y z h k l e f. ground arith;
  connex = λ x y h k e f. ground arith;
}

sort_by_weighted_score_lem_example :
    Perm (sort_by_weighted_score 100 (second ∷ first ∷ [])) (second ∷ first ∷ [])
    × IsSorted (ranks_before 100) (sort_by_weighted_score 100 (second ∷ first ∷ []))
    × (filter (tied (ranks_before 100) first) (sort_by_weighted_score 100 (second ∷ first ∷ []))
        ≡ filter (tied (ranks_before 100) first) (second ∷ first ∷ []))
unfolding weighted_score
sort_by_weighted_score_lem_example =
    sort_by_weighted_score_lem separated 100 (second ∷ first ∷ []) first (inr refl, (inl refl, tt))
      (inl refl)
