-- ===== src/Yaml/Front.antt =====
-- internal/store/ranking.go with a limit: the front of the ranked matches, which every query
-- returns.
use mathlib.Core.List.{Perm, append-nil}
use mnemonic.Prelude.{
  ℕ, ◌&&◌, List, [], ◌++◌, ◌≡◌, min, arith, ltb, nat_eq, length, drop, length-take,
  take-append-drop, All, All-append_left, if◌then◌else◌, Bool-cases, inl, inr,
}
use mnemonic.Prelude.Sort.{IsSorted, sort-IsSorted, sort-perm, All-sort, length-sort}
use mnemonic.Platform.{Platform}
use mnemonic.Store.Entry.{Entry}
use mnemonic.Store.Ranking.{weighted_score, ranks_before, sort_by_weighted_score}
use mnemonic.Store.RankingLaws.{IsSeparated, Weighs, ranks_before-IsWeakOn}
use mnemonic.Yaml.Queries.{top}

-- `hits` is the front of a list of all the matches: with a limit, as long as the limit and the
-- matches allow, and without one, all of it.
pub record IsFront {F : Type 0} (top_k : ℕ) (matches hits dropped : List (Entry F)) : Type 0 where
  pub complete : Perm (hits ++ dropped) matches
  pub size : length hits ≡ (if nat_eq top_k 0 then length matches else min top_k (length matches))

module _ {F : Type 0} ⦃p : Platform F⦄ (now top_k : ℕ) (matches : List (Entry F)) where
  -- The matches that a query does not return.
  unfoldable pub dropped : List (Entry F)
  dropped =
      let sorted = sort_by_weighted_score now matches in
      if ltb 0 top_k && ltb top_k (length sorted) then drop top_k sorted else []

  -- and those that it returns
  abbrev pub front : List (Entry F)
  front = top top_k (sort_by_weighted_score now matches)

  front-append-dropped : front ++ dropped ≡ sort_by_weighted_score now matches
  unfolding dropped top
  front-append-dropped =
      let sorted = sort_by_weighted_score now matches in
      elim (Bool-cases (ltb 0 top_k && ltb top_k (length sorted))) [
        | inl cut ↦ rw cut (take-append-drop top_k sorted)
        | inr all_kept ↦ rw all_kept (append-nil sorted)
      ]

  length-sorted : length (sort_by_weighted_score now matches) ≡ length matches
  unfolding sort_by_weighted_score
  length-sorted = length-sort (ranks_before now) matches

  pub front-IsFront : IsFront top_k matches front dropped
  unfolding dropped top
  front-IsFront = record {
    complete =
        rw front-append-dropped
          (unfold sort_by_weighted_score in sort-perm (ranks_before now) matches);
    size = ground (arith, length-sorted, length-take top_k (sort_by_weighted_score now matches));
  }

  -- Where the weights of the matches are told apart, no entry of the whole list ranks before one
  -- in front of it: what is returned is the best.
  pub front_ranked :
      {W : F → Type 0}
      → IsSeparated W
      → All (λ e. W (weighted_score now e)) matches
      → IsSorted (ranks_before now) (front ++ dropped)
  unfolding sort_by_weighted_score
  front_ranked {W} sep h =
      rw front-append-dropped (
        sort-IsSorted (ranks_before now) (Weighs sep now) (ranks_before-IsWeakOn sep now) matches h)

  -- Each entry that a query returns is one of its matches.
  pub All-front : (P : Entry F → Type 0) → All P matches → All P front
  unfolding sort_by_weighted_score
  All-front P h =
      All-append_left P front dropped
        (rw front-append-dropped (All-sort (ranks_before now) P matches h))
