-- ===== src/Yaml/Results.antt =====
-- What the queries return: the best of the entries that match, and no others.
use mathlib.Core.List.{Perm}
use mathlib.Core.Option
use mnemonic.Prelude.{
  ℕ, String, Bool, true, false, not, ◌&&◌, ◌||◌, List, [], ◌∷◌, ◌++◌, map, ◌≡◌, refl, ◌==◌, arith,
  All, filter,
}
use mnemonic.Prelude.Sort.{IsSorted, sort-perm}
use mnemonic.Prelude.Text.{fields, to_lower}
use mnemonic.Platform.{Platform, float_less}
use mnemonic.Store.Entry.{Entry}
use mnemonic.Store.Ranking.{weighted_score, ranks_before, sort_by_weighted_score}
use mnemonic.Store.RankingLaws.{IsSeparated}
use mnemonic.Yaml.State.{Os, YamlStore, all_entries, scopes_for_query}
use mnemonic.Yaml.Tags.{keyword_match, tags_match}
use mnemonic.Yaml.Queries.{top, mark_hits, finish, category_candidates, query_by_category, query}
use mnemonic.Yaml.View.{view, IsWf}
use mnemonic.Yaml.Hits.{view-mark_hits, hit_once}
use mnemonic.Yaml.Front.{IsFront, dropped, front-IsFront, front_ranked}

module _ {F : Type 0} ⦃p : Platform F⦄ (os : Os F) (s : YamlStore F) where
  -- The entries that `QueryByCategory` matches.
  abbrev pub keyword_matches : String → String → List String → List (Entry F)
  keyword_matches category q scopes =
      filter (λ e. keyword_match p.lower e (fields (to_lower p.lower q)))
        (category_candidates s category (scopes_for_query s scopes))

  -- Where the weights of the entries that a query has selected are told apart, what it returns is
  -- in order, and no entry that it leaves out ranks before one that it returns.
  pub finish_ranked :
      {W : F → Type 0} (top_k : ℕ) (matches : List (Entry F))
      → IsSeparated W
      → All (λ e. W (weighted_score os.now e)) matches
      → IsSorted
          (ranks_before os.now)
          ((finish os s top_k matches).0 ++ dropped os.now top_k matches)
  unfolding finish
  finish_ranked top_k matches sep h = front_ranked os.now top_k matches sep h

  -- One entry has a greater weight than the other, and their weights are not as good as one.
  abbrev pub outweighs : Entry F → Entry F → Bool
  outweighs a b =
      not
        (p.lt (p.abs (p.sub (weighted_score os.now a) (weighted_score os.now b))) (p.literal 1 10))
      && float_less (weighted_score os.now b) (weighted_score os.now a)

  outweighs-ranks_before : (a b : Entry F) → ranks_before os.now a b ≡ false → outweighs a b ≡ false
  unfolding ranks_before
  outweighs-ranks_before a b h = ground arith

  not_outweighed :
      (x : Entry F) (es : List (Entry F))
      → All (λ y. ranks_before os.now y x ≡ false) es
      → All (λ y. outweighs y x ≡ false) es
  not_outweighed x [] a = tt
  not_outweighed x (e ∷ es) (h, a) = (outweighs-ranks_before e x h, not_outweighed x es a)

  sort_by_weighted_score-IsSorted :
      (es : List (Entry F)) → IsSorted (ranks_before os.now) es → IsSorted outweighs es
  sort_by_weighted_score-IsSorted [] o = tt
  sort_by_weighted_score-IsSorted (e ∷ es) (a, o) =
      (not_outweighed e es a, sort_by_weighted_score-IsSorted es o)

  -- `QueryByCategory` on a well-formed store that counts hits, where the weights of the entries
  -- that match are told apart: it returns as many of the entries of the category's files, in the
  -- scopes, that match a term of the query as the limit allows; none of them is outweighed by one
  -- that it returns later or not at all; and after it the store shows each returned entry with one
  -- hit more and the time of the query as its last hit, and every other entry as before.
  pub query_by_category_lem :
      {W : F → Type 0} (category q : String) (top_k : ℕ) (scopes : List String)
      → IsSeparated W
      → All (λ e. W (weighted_score os.now e)) (keyword_matches category q scopes)
      → IsWf s
      → s.auto_hit_counting ≡ true
      → let (hits, s') = query_by_category os s category q top_k scopes in
        let left = dropped os.now top_k (keyword_matches category q scopes) in
        IsFront top_k (keyword_matches category q scopes) hits left
        × IsSorted outweighs (hits ++ left)
        × ((id : String) → view s' id ≡ Option.map (hit_once os.now hits s) (view s id))
  unfolding query_by_category finish
  query_by_category_lem category q top_k scopes sep told w on =
      let matches = keyword_matches category q scopes in
      let hits = (query_by_category os s category q top_k scopes).0 in
      (
        front-IsFront os.now top_k matches,
        sort_by_weighted_score-IsSorted (hits ++ dropped os.now top_k matches)
            (front_ranked os.now top_k matches sep told),
        view-mark_hits os.now hits s w on,
      )

  -- `Query` returns all the entries of the category, if one is given, that have all the tags, and
  -- counts a hit on each of them.
  pub query_lem :
      (category : String) (tags : List String)
      → let (hits, s') = query os s category tags in
        Perm hits (
          filter
            (λ e.
              (category == "" || e.category == category)
              && tags_match p.lower e.tags (map (to_lower p.lower) tags))
            (all_entries s (scopes_for_query s [])))
        × (s' ≡ mark_hits os.now hits s)
  unfolding query finish top sort_by_weighted_score
  query_lem category tags = (
    sort-perm (ranks_before os.now) (
        filter
          (λ e.
            (category == "" || e.category == category)
            && tags_match p.lower e.tags (map (to_lower p.lower) tags))
          (all_entries s (scopes_for_query s []))),
    refl,
  )
