-- ===== src/Store/Ranking.antt =====
-- internal/store/ranking.go: the weight of an entry at a time, and the order of results.
use mnemonic.Prelude.{ℕ, Bool, List, if◌then◌else◌, nat_eq}
use mnemonic.Prelude.Text.{text_less}
use mnemonic.Prelude.Sort.{sort}
use mnemonic.Platform.{Platform, float_less}
use mnemonic.Store.Entry.{Entry}

module _ {F : Type 0} ⦃p : Platform F⦄ (now : ℕ) where
  -- Entries never hit are aged from their creation.
  unfoldable pub weighted_score : Entry F → F
  weighted_score entry =
      let ref = if nat_eq entry.last_hit 0 then entry.created else entry.last_hit in
      let days = p.div (p.hours now ref) (p.literal 24 0) in
      p.mul entry.score (p.exp (p.mul (p.neg (p.literal 5 2)) days))

  -- The comparison of `SortByWeightedScore`, as "less than". Weights closer than 1e-10 are tied,
  -- and ties go by ID.
  unfoldable pub ranks_before : Entry F → Entry F → Bool
  unfolding weighted_score float_less
  ranks_before a b =
      let sa = weighted_score a in
      let sb = weighted_score b in
      if p.lt (p.abs (p.sub sa sb)) (p.literal 1 10) then text_less a.id b.id else float_less sb sa

  -- The clock does not move while one call sorts.
  unfoldable pub sort_by_weighted_score : List (Entry F) → List (Entry F)
  unfolding ranks_before sort
  sort_by_weighted_score entries = sort ranks_before entries
