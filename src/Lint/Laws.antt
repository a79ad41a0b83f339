-- ===== src/Lint/Laws.antt =====
-- The inner loop of `Analyze`, over the entries that are similar to one.
use mnemonic.Prelude.{
  String, true, false, ◌||◌, List, [], ◌∷◌, ◌++◌, map, ◌≡◌, refl, ◌==◌, eq_iff, arith, All,
  contains,
}
use mnemonic.Prelude.Maps.{Distinct}
use mnemonic.Platform.{Platform}
use mnemonic.Store.Entry.{Entry}
use mnemonic.Lint.Analysis.{SimilarEntry, Action, action_for, similar_actions, seen_after}

module _ {F : Type 0} where
  -- The IDs of the entries to be kept, and of those to be removed.
  abbrev pub lefts : List (Action F) → List String
  lefts xs = map (λ a. a.left.id) xs

  abbrev pub rights : List (Action F) → List String
  rights xs = map (λ a. a.right.id) xs

  pub map-append :
      (g : Action F → String) (xs ys : List (Action F)) → map g (xs ++ ys) ≡ map g xs ++ map g ys
  map-append g [] ys = refl
  map-append g (a ∷ xs) ys = rw (map-append g xs ys)

  pub contains-map-append :
      (g : Action F → String) (xs ys : List (Action F)) (x : String)
      → contains (map g (xs ++ ys)) x ≡ (contains (map g xs) x || contains (map g ys) x)
  contains-map-append g [] ys x = refl
  contains-map-append g (a ∷ xs) ys x = ground (arith, contains-map-append g xs ys x)

module _ {F : Type 0} ⦃p : Platform F⦄ where
  pub seen_after-keeps :
      (x : String) (seen : List String) (ss : List (SimilarEntry F))
      → contains seen x ≡ true
      → contains (seen_after seen ss) x ≡ true
  unfolding seen_after
  seen_after-keeps x seen [] h = h
  seen_after-keeps x seen (s ∷ ss) h =
      ground (arith, seen_after-keeps x seen ss, seen_after-keeps x (s.entry.id ∷ seen) ss)

  module _ (current : Entry F) where
    -- Nothing that is seen already is removed,
    pub rights_unseen :
        (x : String) (seen : List String) (ss : List (SimilarEntry F))
        → contains seen x ≡ true
        → contains (rights (similar_actions current seen ss)) x ≡ false
    unfolding similar_actions action_for
    rights_unseen x seen [] h = refl
    rights_unseen x seen (s ∷ ss) h = ground (
      arith,
      rights_unseen x seen ss,
      rights_unseen x (s.entry.id ∷ seen) ss,
      eq_iff s.entry.id x,
    )

    -- and what is removed is seen after that.
    pub rights_seen :
        (x : String) (seen : List String) (ss : List (SimilarEntry F))
        → contains (rights (similar_actions current seen ss)) x ≡ true
        → contains (seen_after seen ss) x ≡ true
    unfolding similar_actions action_for seen_after
    rights_seen x seen [] h = cc
    rights_seen x seen (s ∷ ss) h = ground (
      arith,
      rights_seen x seen ss,
      rights_seen x (s.entry.id ∷ seen) ss,
      seen_after-keeps x (s.entry.id ∷ seen) ss,
      eq_iff s.entry.id x,
    )

    pub rights-Distinct :
        (seen : List String) (ss : List (SimilarEntry F))
        → Distinct (rights (similar_actions current seen ss))
    unfolding similar_actions action_for
    rights-Distinct seen [] = tt
    rights-Distinct seen (s ∷ ss) = ground (
      arith,
      rights-Distinct seen ss,
      rights-Distinct (s.entry.id ∷ seen) ss,
      rights_unseen s.entry.id (s.entry.id ∷ seen) ss,
      eq_iff s.entry.id s.entry.id,
    )

    pub lefts_current :
        (x : String) (seen : List String) (ss : List (SimilarEntry F))
        → contains (lefts (similar_actions current seen ss)) x ≡ true
        → (current.id == x) ≡ true
    unfolding similar_actions action_for
    lefts_current x seen [] h = cc
    lefts_current x seen (s ∷ ss) h =
        ground (arith, lefts_current x seen ss, lefts_current x (s.entry.id ∷ seen) ss)

    pub rights_other :
        (x : String) (seen : List String) (ss : List (SimilarEntry F))
        → All (λ s. (s.entry.id == x) ≡ false) ss
        → contains (rights (similar_actions current seen ss)) x ≡ false
    unfolding similar_actions action_for
    rights_other x seen [] a = refl
    rights_other x seen (s ∷ ss) a =
        ground (arith, rights_other x seen ss a.1, rights_other x (s.entry.id ∷ seen) ss a.1, a.0)
