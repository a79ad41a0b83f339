-- ===== src/Lint/Consistency.antt =====
-- The advice is consistent: no entry is to be removed twice, and none that is to be kept.
use mnemonic.Prelude.{
  String, true, false, List, [], ◌∷◌, ◌++◌, ◌≡◌, ◌⊎◌, refl, ◌==◌, eq_iff, arith, All, any-append,
  contains, Bool-cases, inl, inr,
}
use mnemonic.Prelude.Maps.{Distinct}
use mnemonic.Platform.{Platform}
use mnemonic.Store.Entry.{Entry, Error, Result, ok, err}
use mnemonic.Lint.Analysis.{
  SimilarEntry, Action, similar_actions, seen_after, analyze_from, analyze,
}
use mnemonic.Lint.Laws.{
  lefts, rights, map-append, contains-map-append, seen_after-keeps, rights_unseen, rights_seen,
  rights-Distinct, lefts_current, rights_other,
}

Distinct-append :
    (xs ys : List String)
    → Distinct xs
    → Distinct ys
    → ((x : String) → contains xs x ≡ true → contains ys x ≡ false)
    → Distinct (xs ++ ys)
Distinct-append [] ys d e apart = e
Distinct-append (x ∷ xs) ys d e apart = (
  ground (arith, any-append (λ y. y == x) xs ys, d.0, apart x, eq_iff x x),
  Distinct-append xs ys d.1 e (λ y h. apart y (ground arith)),
)

module _ {F : Type 0} ⦃p : Platform F⦄ where
  module _ (find_similar : String → Result (List (SimilarEntry F))) where
    abbrev advice : List String → List (Entry F) → List (Action F)
    advice seen es = analyze_from find_similar seen es

    -- The actions for one entry and for the others, when its search succeeds, and when it fails.
    advice_found :
        (seen : List String) (e : Entry F) (es : List (Entry F)) (ss : List (SimilarEntry F))
        → contains seen e.id ≡ false
        → find_similar e.id ≡ ok ss
        → advice seen (e ∷ es) ≡ similar_actions e seen ss ++ advice (e.id ∷ seen_after seen ss) es
    unfolding analyze_from
    advice_found seen e es ss h k = ground arith

    advice_passed :
        (seen : List String) (e : Entry F) (es : List (Entry F))
        → (contains seen e.id ≡ true) ⊎ ((x : Error) × (find_similar e.id ≡ err x))
        → advice seen (e ∷ es) ≡ advice seen es
    unfolding analyze_from
    advice_passed seen e es (inl h) = ground arith
    advice_passed seen e es (inr (x, h)) = ground arith

    -- A way to go through the entries: each is passed over, or its actions come first.
    search-cases :
        (seen : List String) (e : Entry F)
        → ((contains seen e.id ≡ true) ⊎ ((x : Error) × (find_similar e.id ≡ err x)))
          ⊎ ((contains seen e.id ≡ false)
              × ((ss : List (SimilarEntry F)) × (find_similar e.id ≡ ok ss)))
    search-cases seen e = elim (Bool-cases (contains seen e.id)) [
      | inl h ↦ inl (inl h)
      | inr h ↦ elim (search_result (find_similar e.id)) [
        | inl (x, f) ↦ inl (inr (x, f))
        | inr (ss, f) ↦ inr (h, (ss, f))
      ]
    ]
      where
        search_result :
            (r : Result (List (SimilarEntry F)))
            → ((x : Error) × (r ≡ err x)) ⊎ ((ss : List (SimilarEntry F)) × (r ≡ ok ss))
        search_result (err x) = inl (x, refl)
        search_result (ok ss) = inr (ss, refl)

    advice_unseen :
        (x : String) (seen : List String) (es : List (Entry F))
        → contains seen x ≡ true
        → (contains (rights (advice seen es)) x ≡ false)
          × (contains (lefts (advice seen es)) x ≡ false)
    unfolding analyze_from
    advice_unseen x seen [] h = (refl, refl)
    advice_unseen x seen (e ∷ es) h = elim (search-cases seen e) [
      | inl passed ↦ rw (advice_passed seen e es passed) (advice_unseen x seen es h)
      | inr (new, (ss, found)) ↦
          let rest = advice (e.id ∷ seen_after seen ss) es in
          rw (advice_found seen e es ss new found) (
            ground (
              arith,
              contains-map-append (λ a. a.right.id) (similar_actions e seen ss) rest x,
              contains-map-append (λ a. a.left.id) (similar_actions e seen ss) rest x,
              rights_unseen e x seen ss h,
              lefts_current e x seen ss,
              advice_unseen x (e.id ∷ seen_after seen ss) es,
              seen_after-keeps x seen ss h,
              eq_iff e.id x,
            ))
    ]

    rights_of_advice-Distinct :
        (seen : List String) (es : List (Entry F)) → Distinct (rights (advice seen es))
    unfolding analyze_from
    rights_of_advice-Distinct seen [] = tt
    rights_of_advice-Distinct seen (e ∷ es) = elim (search-cases seen e) [
      | inl passed ↦ rw (advice_passed seen e es passed) (rights_of_advice-Distinct seen es)
      | inr (new, (ss, found)) ↦
          let after = e.id ∷ seen_after seen ss in
          rw
            (
              advice_found seen e es ss new found,
              map-append (λ a. a.right.id) (similar_actions e seen ss) (advice after es),
            )
            (Distinct-append (rights (similar_actions e seen ss)) (rights (advice after es))
              (rights-Distinct e seen ss) (rights_of_advice-Distinct after es)
              (λ x h. (advice_unseen x after es (ground (arith, rights_seen e x seen ss h))).0))
    ]

    -- A controller's search does not return the entry that it is for.
    abbrev pub SkipsSelf : Type 0
    SkipsSelf =
        (id : String) (ss : List (SimilarEntry F))
        → find_similar id ≡ ok ss
        → All (λ s. (s.entry.id == id) ≡ false) ss

    kept_not_removed :
        (skips : SkipsSelf) (x : String) (seen : List String) (es : List (Entry F))
        → contains (lefts (advice seen es)) x ≡ true
        → contains (rights (advice seen es)) x ≡ false
    unfolding analyze_from
    kept_not_removed skips x seen [] h = cc
    kept_not_removed skips x seen (e ∷ es) h = elim (search-cases seen e) [
      | inl passed ↦
          rw (advice_passed seen e es passed)
            (kept_not_removed skips x seen es (rw (advice_passed seen e es passed) at h))
      | inr (new, (ss, found)) ↦
          let after = e.id ∷ seen_after seen ss in
          let rest = advice after es in
          let g = rw (advice_found seen e es ss new found) at h in
          rw (advice_found seen e es ss new found) (
            ground (
              arith,
              g,
              contains-map-append (λ a. a.right.id) (similar_actions e seen ss) rest x,
              contains-map-append (λ a. a.left.id) (similar_actions e seen ss) rest x,
              lefts_current e x seen ss,
              rights_seen e x seen ss,
              rights_other e e.id seen ss (skips e.id ss found),
              advice_unseen x after es,
              kept_not_removed skips x after es,
              eq_iff e.id x,
            ))
    ]

    -- `Analyze` never advises to remove an entry twice, and, where the search for an entry does not
    -- return the entry itself, never to remove one that another action keeps.
    pub analyze_consistent :
        (entries : List (Entry F)) (actions : List (Action F))
        → SkipsSelf
        → analyze find_similar (ok entries) ≡ ok actions
        → Distinct (rights actions)
          × ((id : String)
              → contains (lefts actions) id ≡ true
              → contains (rights actions) id ≡ false)
    unfolding analyze
    analyze_consistent entries actions skips h =
        let same : actions ≡ advice [] entries = ground arith in
        rw same (rights_of_advice-Distinct [] entries, λ id. kept_not_removed skips id [] entries)
