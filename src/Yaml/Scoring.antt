-- ===== src/Yaml/Scoring.antt =====
-- `Score`: the entry with the ID is rescored, and nothing else.
use mathlib.Core.Option
use mnemonic.Prelude.{
  ◌+◌, Option, refl, String, List, none, some, ◌≡◌, ◌∙◌, ◌==◌, eq_iff, arith, if◌then◌else◌,
  Option-cases, inl, inr,
}
use mnemonic.Platform.{Platform, float_zero}
use mnemonic.Store.Entry.{Entry, err, not_found}
use mnemonic.Yaml.State.{Os, YamlStore, modify_at}
use mnemonic.Yaml.Changes.{Place, locate, rewrite, score, score_entry}
use mnemonic.Yaml.Editing.{Edit, after-IsWf, view-after}
use mnemonic.Yaml.Files.{locate-IsPlace}
use mnemonic.Yaml.Lists.{find_id-modify_at, ids-modify_at}
use mnemonic.Yaml.Rewriting.{stored}
use mnemonic.Yaml.View.{view, IsWf, place_entry, view_of_locate, view_of_locate-none}

module _ {F : Type 0} ⦃p : Platform F⦄ (os : Os F) (s : YamlStore F) (id : String) (delta : F) where
  -- What the method makes of the entry, in the model and in words: the score is raised and kept at
  -- zero or more, and a hit is counted where hits are counted.
  abbrev pub rescored : Entry F → Entry F
  rescored = score_entry os.now s.auto_hit_counting delta

  abbrev pub raised : Entry F → Entry F
  raised e = record e {
    score = p.max float_zero (p.add e.score delta);
    hit_count = if s.auto_hit_counting then e.hit_count + 1 else e.hit_count;
    last_hit = if s.auto_hit_counting then os.now else e.last_hit;
  }

  rescored-raised : (e : Entry F) → rescored e ≡ raised e
  unfolding score_entry
  rescored-raised e = ground arith

  map-rescored : (o : Option (Entry F)) → Option.map rescored o ≡ Option.map raised o
  map-rescored none = refl
  map-rescored (some e) = rw (rescored-raised e)

  id-rescored : (e : Entry F) → (rescored e).id ≡ e.id
  unfolding score_entry
  id-rescored e = ground arith

  -- `Score` on an ID that shows nothing is an error, and changes nothing.
  pub score_missing : view s id ≡ none → score os s id delta ≡ (err (not_found id), s)
  unfolding score view
  score_missing h = ground arith

  module _ (w : IsWf s) where
    module _ (place : Place F) (found : locate id s.contents ≡ some place) where
      abbrev changed : List (Entry F)
      changed = modify_at place.index rescored place.file.entries

      scoring :
          Edit s place.scope place.category id place.file changed (some (rescored place.entry))
      scoring =
          let (at, here) = locate-IsPlace id s place found w.distinct in
          let once = rw here at (w.once place.scope place.category) in
          record {
            valid = w;
            here = here;
            entry = place.entry;
            found = place_entry id place at;
            once = rw (ids-modify_at id rescored place.file.entries place.index id-rescored) once;
            edited = λ j.
                find_id-modify_at id rescored j place.file.entries place.index place.entry
                  id-rescored at.0 at.1;
          }

    -- `Score` keeps the invariant, whether or not the file is saved.
    pub score-IsWf : IsWf (score os s id delta).1
    unfolding score rewrite stored
    score-IsWf = elim (Option-cases (locate id s.contents)) [
      | inl n ↦ rw (n, score) w
      | inr (place, found) ↦
          rw (found, score)
            (after-IsWf os s place.scope place.category id place.file (changed place found)
              (some (rescored place.entry)) (scoring place found))
    ]

    view-rescored :
        (j : String)
        → view (score os s id delta).1 j
          ≡ (if id == j then Option.map rescored (view s j) else view s j)
    unfolding score rewrite stored
    view-rescored j = elim (Option-cases (locate id s.contents)) [
      | inl n ↦ rw (n, score) (ground (arith, view_of_locate-none id s n, eq_iff id j))
      | inr (place, found) ↦
          rw (found, score)
            (view-after os s place.scope place.category id place.file (changed place found)
                (some (rescored place.entry)) (scoring place found) j
              ∙ ground (arith, view_of_locate id s place found, eq_iff id j))
    ]

    -- After `Score` on a well-formed store the entry of the ID, if there is one, has its score
    -- raised by `delta` but not below zero, and counts a hit where hits are counted; every other ID
    -- shows what it showed. That holds in memory whether or not the file is saved.
    pub view-score :
        (j : String)
        → view (score os s id delta).1 j
          ≡ (if id == j then Option.map raised (view s j) else view s j)
    view-score j = view-rescored j ∙ ground (arith, map-rescored (view s j))
