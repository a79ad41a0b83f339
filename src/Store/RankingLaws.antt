-- ===== src/Store/RankingLaws.antt =====
-- `SortByWeightedScore`: when its comparison orders entries, what the sorted list is then, and why
-- the tie of 1e-10 keeps it from being an order in general.
use mathlib.Core.List.{Perm}
use mathlib.Core.Path.{subst}
use mnemonic.Prelude.{
  ℕ, String, Bool, true, false, List, ◌≡◌, sym, ◌⊎◌, inl, inr, arith, if◌then◌else◌, Bool-cases,
  All, filter,
}
use mnemonic.Prelude.Sort.{IsWeakOn, IsSorted, tied, sort-IsSorted, sort-perm, filter-tied-sort}
use mnemonic.Prelude.Text.{text_less}
use mnemonic.Prelude.TextOrder.{text_less_asymm, text_less_co_trans}
use mnemonic.Platform.{Platform, float_less}
use mnemonic.Store.Entry.{Entry}
use mnemonic.Store.Ranking.{weighted_score, ranks_before, sort_by_weighted_score}

module _ {F : Type 0} ⦃p : Platform F⦄ where
  -- Two weights are tied.
  abbrev pub tie : F → F → Bool
  tie x y = p.lt (p.abs (p.sub x y)) (p.literal 1 10)

  -- The weights in `W` are no NaN, and are the same or more than 1e-10 apart; on them `<` is the
  -- order of the numbers.
  pub record IsSeparated (W : F → Type 0) : Type 0 where
    pub tie_self : (x : F) → W x → tie x x ≡ true
    pub tie_same : (x y : F) → W x → W y → tie x y ≡ true → x ≡ y
    pub asymm : (x y : F) → W x → W y → float_less x y ≡ true → float_less y x ≡ false
    pub trans :
        (x y z : F)
        → W x
        → W y
        → W z
        → float_less x y ≡ true
        → float_less y z ≡ true
        → float_less x z ≡ true
    pub connex : (x y : F) → W x → W y → float_less x y ≡ false → float_less y x ≡ false → x ≡ y

  module _ {W : F → Type 0} (sep : IsSeparated W) where
    abbrev Apart : F → F → Type 0
    Apart x y =
        (tie x y ≡ false) × (tie y x ≡ false) × (float_less x y ≡ true) × (float_less y x ≡ false)

    tie_off : (x y : F) → W x → W y → tie x y ≡ false → tie y x ≡ false
    tie_off x y wx wy h = elim (Bool-cases (tie y x)) [
      | inl t ↦
          let e = sep.tie_same y x wy wx t in
          absurd (ground (arith, subst (λ z. tie x z ≡ true) (sym e) (sep.tie_self x wx)))
      | inr f ↦ f
    ]

    abbrev Same : F → F → Type 0
    Same x y = (x ≡ y) × (tie x y ≡ true) × (tie y x ≡ true)

    same : (x y : F) → W x → W y → x ≡ y → Same x y
    same x y wx wy e = (
      e,
      subst (λ z. tie x z ≡ true) e (sep.tie_self x wx),
      subst (λ z. tie z x ≡ true) e (sep.tie_self x wx),
    )

    -- Two weights of `W` are the same and tied, or not tied and one is the less.
    trichotomy : (x y : F) → W x → W y → Same x y ⊎ Apart x y ⊎ Apart y x
    trichotomy x y wx wy = elim (Bool-cases (tie x y)) [
      | inl t ↦ inl (same x y wx wy (sep.tie_same x y wx wy t))
      | inr f ↦
          let g = tie_off x y wx wy f in
          elim (Bool-cases (float_less x y)) [
            | inl l ↦ inr (inl (f, g, l, sep.asymm x y wx wy l))
            | inr n ↦ elim (Bool-cases (float_less y x)) [
              | inl l ↦ inr (inr (g, f, l, n))
              | inr m ↦ inl (same x y wx wy (sep.connex x y wx wy n m))
            ]
          ]
    ]

    -- The comparison on weights and IDs.
    ranks : F → String → F → String → Bool
    ranks sa a sb b = if tie sa sb then text_less a b else float_less sb sa

    ranks_asymm :
        (x y : F) (a b : String) → W x → W y → ranks x a y b ≡ true → ranks y b x a ≡ false
    unfolding ranks
    ranks_asymm x y a b wx wy h = ground (arith, trichotomy x y wx wy, text_less_asymm a b)

    ranks_co_trans :
        (x y z : F) (a b c : String)
        → W x
        → W y
        → W z
        → ranks x a y b ≡ false
        → ranks y b z c ≡ false
        → ranks x a z c ≡ false
    unfolding ranks
    ranks_co_trans x y z a b c wx wy wz h k = ground (
      arith,
      trichotomy x y wx wy,
      trichotomy y z wy wz,
      trichotomy x z wx wz,
      text_less_co_trans a b c,
      sep.trans x y z wx wy wz,
      sep.trans z y x wz wy wx,
      sep.trans x z y wx wz wy,
      sep.trans y x z wy wx wz,
      sep.asymm x z wx wz,
      sep.asymm x y wx wy,
      sep.asymm y z wy wz,
    )

    module _ (now : ℕ) where
      -- The entries whose weight at `now` is in `W`.
      abbrev pub Weighs : Entry F → Type 0
      Weighs e = W (weighted_score now e)

      pub ranks_before-IsWeakOn : IsWeakOn (ranks_before now) Weighs
      unfolding ranks_before ranks
      ranks_before-IsWeakOn = record {
        asymm = λ a b. ranks_asymm (weighted_score now a) (weighted_score now b) a.id b.id;
        co_trans = λ a b c.
            ranks_co_trans (weighted_score now a) (weighted_score now b) (weighted_score now c) a.id
              b.id c.id;
      }

      -- Where the weights are equal or more than 1e-10 apart, the sort gives the same entries in
      -- an order in which no entry ranks before one that stands in front of it, and keeps entries
      -- of the same rank in their order.
      pub sort_by_weighted_score_lem :
          (entries : List (Entry F)) (a : Entry F)
          → All Weighs entries
          → Weighs a
          → Perm (sort_by_weighted_score now entries) entries
            × IsSorted (ranks_before now) (sort_by_weighted_score now entries)
            × (filter (tied (ranks_before now) a) (sort_by_weighted_score now entries)
                ≡ filter (tied (ranks_before now) a) entries)
      unfolding sort_by_weighted_score
      sort_by_weighted_score_lem entries a h wa = (
        sort-perm (ranks_before now) entries,
        sort-IsSorted (ranks_before now) Weighs ranks_before-IsWeakOn entries h,
        filter-tied-sort (ranks_before now) Weighs ranks_before-IsWeakOn a wa entries h,
      )

  -- Ties do not chain: of three entries where the first outweighs the third by more than the
  -- tolerance, both are tied with the second, and the IDs run backwards, each ranks before the
  -- next in a circle, so that no strict weak order has all three.
  pub ranks_before_circle :
      (now : ℕ) (a b c : Entry F) (D : Entry F → Type 0)
      → tie (weighted_score now b) (weighted_score now a) ≡ true
      → tie (weighted_score now c) (weighted_score now b) ≡ true
      → tie (weighted_score now a) (weighted_score now c) ≡ false
      → float_less (weighted_score now c) (weighted_score now a) ≡ true
      → text_less b.id a.id ≡ true
      → text_less c.id b.id ≡ true
      → D a
      → D b
      → D c
      → (ranks_before now a c ≡ true)
        × (ranks_before now c b ≡ true)
        × (ranks_before now b a ≡ true)
        × (¬ IsWeakOn (ranks_before now) D)
  unfolding ranks_before
  ranks_before_circle now a b c D ba cb ac w ib ic da db dc = (
    ground arith,
    ground arith,
    ground arith,
    λ o. ground (arith, o.asymm c b dc db, o.asymm b a db da, o.co_trans a b c da db dc),
  )
