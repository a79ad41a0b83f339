-- ===== src/Lint/Analysis.antt =====
-- lint.go: the linter over what its controller returns.
use mnemonic.Prelude.{
  String, Bool, not, ◌&&◌, ◌||◌, List, [], ◌∷◌, ◌++◌, if◌then◌else◌, any, contains,
}
use mnemonic.Platform.{Platform}
use mnemonic.Store.Entry.{Entry, Result, ok, err}

-- `controller.SimilarEntry`, with the distance in `float32`
pub record SimilarEntry (F : Type 0) : Type 0 where
  pub entry : Entry F
  pub distance : F

pub data ActionType : Type 0 where
  merge_action delete_action : ActionType

pub record Action (F : Type 0) : Type 0 where
  pub type : ActionType
  pub left : Entry F
  pub right : Entry F
  pub similarity : F

unfoldable pub has_unique_tags : {F : Type 0} → Entry F → Entry F → Bool
has_unique_tags first second = any (λ t. not (contains second.tags t)) first.tags

module _ {F : Type 0} ⦃p : Platform F⦄ where
  -- The action for one similar entry. `>=` is false on a NaN.
  unfoldable pub action_for : Entry F → SimilarEntry F → Action F
  unfolding has_unique_tags
  action_for current similar =
      let similarity = p.round32 (p.sub (p.literal 1 0) similar.distance) in
      let near = p.lt (p.literal 98 2) similarity || p.eq (p.literal 98 2) similarity in
      record {
        type =
            if near && not (has_unique_tags similar.entry current)
            then delete_action
            else merge_action;
        left = current;
        right = similar.entry;
        similarity = similarity;
      }

  -- The inner loop: the actions that it appends, and the IDs that are seen after it.
  unfoldable pub similar_actions : Entry F → List String → List (SimilarEntry F) → List (Action F)
  unfolding action_for
  similar_actions current seen [] = []
  similar_actions current seen (s ∷ ss) =
      if contains seen s.entry.id
      then similar_actions current seen ss
      else action_for current s ∷ similar_actions current (s.entry.id ∷ seen) ss

  unfoldable pub seen_after : List String → List (SimilarEntry F) → List String
  seen_after seen [] = seen
  seen_after seen (s ∷ ss) =
      if contains seen s.entry.id then seen_after seen ss else seen_after (s.entry.id ∷ seen) ss

  module _ (find_similar : String → Result (List (SimilarEntry F))) where
    -- The outer loop. An entry whose search fails is passed over, and not seen.
    unfoldable pub analyze_from : List String → List (Entry F) → List (Action F)
    unfolding similar_actions seen_after
    analyze_from seen [] = []
    analyze_from seen (e ∷ es) =
        if contains seen e.id then analyze_from seen es else elim (find_similar e.id) [
          | err _ ↦ analyze_from seen es
          | ok ss ↦ similar_actions e seen ss ++ analyze_from (e.id ∷ seen_after seen ss) es
        ]

    -- `Analyze`, from what `All` and, for the threshold, `FindSimilar` return.
    unfoldable pub analyze : Result (List (Entry F)) → Result (List (Action F))
    unfolding analyze_from
    analyze (err x) = err x
    analyze (ok entries) = ok (analyze_from [] entries)
