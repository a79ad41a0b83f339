-- ===== src/Prelude/Sort.antt =====
-- The stable sort of Go's `slices.SortStableFunc`: the insertion sort that it runs on each block
-- of twenty elements. The merging of longer slices gives the same list wherever the comparison is
-- a strict weak order, as then the stable order is unique.
use Prim.Native.Nat.{suc, ◌+◌}
use mathlib.Core.Path.{◌≡◌, refl, ◌∙◌, ap}
use mathlib.Core.Logic.{inl, inr}
use mathlib.Core.Bool.{Bool, true, false, not, ◌&&◌, ◌||◌}
use mathlib.Core.List.{
  List, [], ◌∷◌, ◌++◌, reverse, Perm, reverse-cons, reverse_perm, perm_middle, append-nil,
  append_assoc, reverse-reverse,
}
use mathlib.Core.List.Perm
use native.Mathlib.Omega.{arith}
use mnemonic.Prelude.Tests.{if◌then◌else◌, Bool-cases}
use mnemonic.Prelude.Lists.{
  All, All-append, All-reverse, any, any-reverse, filter, filter-reverse, length, length-reverse,
}

module _ {ℓ} {A : Type ℓ} (less : A → A → Bool) where
  -- `data[j]` moves towards the front past each element that it is less than. The list is the
  -- sorted part of the slice, last element first.
  unfoldable pub sink : A → List A → List A
  sink x [] = x ∷ []
  sink x (p ∷ ps) = if less x p then p ∷ sink x ps else x ∷ p ∷ ps

  unfoldable pub sink_all : List A → List A → List A
  sink_all sorted [] = sorted
  sink_all sorted (x ∷ xs) = sink_all (sink x sorted) xs

  unfoldable pub sort : List A → List A
  unfolding sink sink_all
  sort xs = reverse (sink_all [] xs)

  sink-perm : (x : A) (ps : List A) → Perm (sink x ps) (x ∷ ps)
  unfolding sink
  sink-perm x [] = Perm.refl (x ∷ [])
  sink-perm x (p ∷ ps) = elim (Bool-cases (less x p)) [
    | inl h ↦ rw h (Perm.trans (Perm.cons p (sink-perm x ps)) (Perm.swap x p ps))
    | inr h ↦ rw h (Perm.refl (x ∷ p ∷ ps))
  ]

  sink_all-perm : (ps xs : List A) → Perm (sink_all ps xs) (ps ++ xs)
  unfolding sink_all
  sink_all-perm ps [] = rw append-nil (Perm.refl ps)
  sink_all-perm ps (x ∷ xs) =
      Perm.trans (sink_all-perm (sink x ps) xs)
        (Perm.trans (Perm.append_right xs (sink-perm x ps)) (Perm.symm (perm_middle ps xs)))

  -- A sort loses and adds nothing.
  pub sort-perm : (xs : List A) → Perm (sort xs) xs
  unfolding sort
  sort-perm xs = Perm.trans (reverse_perm (sink_all [] xs)) (sink_all-perm [] xs)

  any-sink : (q : A → Bool) (x : A) (ps : List A) → any q (sink x ps) ≡ (q x || any q ps)
  unfolding sink
  any-sink q x [] = refl
  any-sink q x (p ∷ ps) = ground (arith, any-sink q x ps)

  any-sink_all : (q : A → Bool) (ps xs : List A) → any q (sink_all ps xs) ≡ (any q ps || any q xs)
  unfolding sink_all
  any-sink_all q ps [] = ground arith
  any-sink_all q ps (x ∷ xs) = ground (arith, any-sink_all q (sink x ps) xs, any-sink q x ps)

  pub any-sort : (q : A → Bool) (xs : List A) → any q (sort xs) ≡ any q xs
  unfolding sort
  any-sort q xs = any-reverse q (sink_all [] xs) ∙ any-sink_all q [] xs

  All-sink {κ} : (P : A → Type κ) (x : A) (ps : List A) → P x → All P ps → All P (sink x ps)
  unfolding sink
  All-sink P x [] h k = (h, k)
  All-sink P x (p ∷ ps) h k = ground (arith, All-sink P x ps h k.1)

  All-sink_all {κ} :
      (P : A → Type κ) (ps xs : List A) → All P ps → All P xs → All P (sink_all ps xs)
  unfolding sink_all
  All-sink_all P ps [] h k = h
  All-sink_all P ps (x ∷ xs) h k = All-sink_all P (sink x ps) xs (All-sink P x ps k.0 h) k.1

  pub All-sort {κ} : (P : A → Type κ) (xs : List A) → All P xs → All P (sort xs)
  unfolding sort
  All-sort P xs h = All-reverse P (sink_all [] xs) (All-sink_all P [] xs tt h)

  length-sink : (x : A) (ps : List A) → length (sink x ps) ≡ suc (length ps)
  unfolding sink
  length-sink x [] = refl
  length-sink x (p ∷ ps) = ground (arith, length-sink x ps)

  length-sink_all : (ps xs : List A) → length (sink_all ps xs) ≡ length ps + length xs
  unfolding sink_all
  length-sink_all ps [] = omega arith
  length-sink_all ps (x ∷ xs) = omega (arith, length-sink_all (sink x ps) xs, length-sink x ps)

  pub length-sort : (xs : List A) → length (sort xs) ≡ length xs
  unfolding sort
  length-sort xs = omega (arith, length-reverse (sink_all [] xs), length-sink_all [] xs)

  -- No element is less than one that stands before it.
  abbrev pub IsSorted : List A → Type ℓ
  IsSorted [] = Unit
  IsSorted (x ∷ xs) = All (λ y. less y x ≡ false) xs × IsSorted xs

  -- The same, read from the end.
  abbrev IsSortedBack : List A → Type ℓ
  IsSortedBack [] = Unit
  IsSortedBack (x ∷ xs) = All (λ y. less x y ≡ false) xs × IsSortedBack xs

  IsSorted-snoc :
      (xs : List A) (y : A) → IsSorted xs → All (λ x. less y x ≡ false) xs → IsSorted (xs ++ y ∷ [])
  IsSorted-snoc [] y s h = (tt, tt)
  IsSorted-snoc (x ∷ xs) y s h =
      (All-append (λ z. less z x ≡ false) xs (y ∷ []) s.0 (h.0, tt), IsSorted-snoc xs y s.1 h.1)

  IsSorted-reverse : (xs : List A) → IsSortedBack xs → IsSorted (reverse xs)
  IsSorted-reverse [] s = tt
  IsSorted-reverse (x ∷ xs) s = rw (reverse-cons x xs) (
      IsSorted-snoc (reverse xs) x (IsSorted-reverse xs s.1)
        (All-reverse (λ y. less x y ≡ false) xs s.0))

  -- `less` is a strict weak order on the values in `D`.
  pub record IsWeakOn (D : A → Type ℓ) : Type ℓ where
    pub asymm : (a b : A) → D a → D b → less a b ≡ true → less b a ≡ false
    pub co_trans :
        (a b c : A) → D a → D b → D c → less a b ≡ false → less b c ≡ false → less a c ≡ false

module _ {ℓ} {A : Type ℓ} (less : A → A → Bool) (D : A → Type ℓ) (w : IsWeakOn less D) where
  -- An element that is not less than the last one is less than none.
  not-less-All :
      (x p : A) (ps : List A)
      → D x
      → D p
      → All D ps
      → less x p ≡ false
      → All (λ y. less p y ≡ false) ps
      → All (λ y. less x y ≡ false) ps
  not-less-All x p [] dx dp d h k = tt
  not-less-All x p (q ∷ ps) dx dp d h k =
      (w.co_trans x p q dx dp d.0 h k.0, not-less-All x p ps dx dp d.1 h k.1)

  IsSortedBack-sink :
      (x : A) (ps : List A)
      → D x
      → All D ps
      → IsSortedBack less ps
      → IsSortedBack less (sink less x ps)
  unfolding sink
  IsSortedBack-sink x [] dx d s = (tt, tt)
  IsSortedBack-sink x (p ∷ ps) dx d s = elim (Bool-cases (less x p)) [
    | inl h ↦ rw h (
      All-sink less (λ y. less p y ≡ false) x ps (w.asymm x p dx d.0 h) s.0,
      IsSortedBack-sink x ps dx d.1 s.1,
    )
    | inr h ↦ rw h ((h, not-less-All x p ps dx d.0 d.1 h s.0), s)
  ]

  IsSortedBack-sink_all :
      (ps xs : List A)
      → All D ps
      → All D xs
      → IsSortedBack less ps
      → IsSortedBack less (sink_all less ps xs)
  unfolding sink_all
  IsSortedBack-sink_all ps [] dp dx s = s
  IsSortedBack-sink_all ps (x ∷ xs) dp dx s =
      IsSortedBack-sink_all (sink less x ps) xs (All-sink less D x ps dx.0 dp) dx.1
        (IsSortedBack-sink x ps dx.0 dp s)

  -- Under a strict weak order the result is sorted.
  pub sort-IsSorted : (xs : List A) → All D xs → IsSorted less (sort less xs)
  unfolding sort
  sort-IsSorted xs d =
      IsSorted-reverse less (sink_all less [] xs) (IsSortedBack-sink_all [] xs tt d tt)

-- `a` and `b` are tied.
abbrev pub tied {ℓ} : {A : Type ℓ} → (A → A → Bool) → A → A → Bool
tied less a b = not (less a b) && not (less b a)

module _ {ℓ} {A : Type ℓ} (less : A → A → Bool) (D : A → Type ℓ) (w : IsWeakOn less D) (a : A)
    (da : D a) where
  filter-tied-sink :
      (x : A) (ps : List A)
      → D x
      → All D ps
      → filter (tied less a) (sink less x ps) ≡ filter (tied less a) (x ∷ ps)
  unfolding sink
  filter-tied-sink x [] dx d = refl
  filter-tied-sink x (p ∷ ps) dx d =
      ground (arith, filter-tied-sink x ps dx d.1, w.asymm x p dx d.0, w.co_trans x a p dx da d.0)

  filter-tied-sink_all :
      (ps xs : List A)
      → All D ps
      → All D xs
      → filter (tied less a) (sink_all less ps xs)
        ≡ reverse (filter (tied less a) xs) ++ filter (tied less a) ps
  unfolding sink_all
  filter-tied-sink_all ps [] dp dx = refl
  filter-tied-sink_all ps (x ∷ xs) dp dx =
      filter-tied-sink_all (sink less x ps) xs (All-sink less D x ps dx.0 dp) dx.1
      ∙ (rw (filter-tied-sink x ps dx.0 dp) (elim (Bool-cases (tied less a x)) [
        | inl h ↦ rw (h, reverse-cons, append_assoc)
        | inr h ↦ rw h
      ]))

  -- Values that are tied with `a` keep their order: the sort is stable.
  pub filter-tied-sort :
      (xs : List A) → All D xs → filter (tied less a) (sort less xs) ≡ filter (tied less a) xs
  unfolding sort
  filter-tied-sort xs d =
      filter-reverse (tied less a) (sink_all less [] xs)
      ∙ ap reverse (filter-tied-sink_all [] xs tt d)
      ∙ simp (append-nil, reverse-reverse)
