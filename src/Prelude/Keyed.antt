-- ===== src/Prelude/Keyed.antt =====
-- Lists whose elements have keys: no key twice, in what is filtered, cut, sorted or put together.
use Prim.Native.Nat.{ℕ, zero, suc}
use Prim.Native.String.{String}
use mathlib.Core.Path.{◌≡◌, refl, sym, ◌∙◌}
use mathlib.Core.Bool.{Bool, true, false, ◌||◌}
use mathlib.Core.List.{List, [], ◌∷◌, ◌++◌, map, reverse, reverse-cons, map-append}
use native.Mathlib.Omega.{arith}
use text.Mathlib.Text.{◌==◌}
use text.Mathlib.TextEquality.{eq_iff}
use mnemonic.Prelude.Lists.{any, any-append, any-reverse, take, filter, contains}
use mnemonic.Prelude.Maps.{Distinct}
use mnemonic.Prelude.Sort.{sink, sink_all, sort}

pub Distinct-append :
    (xs ys : List String)
    → Distinct xs
    → Distinct ys
    → ((c : String) → contains xs c ≡ true → contains ys c ≡ false)
    → Distinct (xs ++ ys)
Distinct-append [] ys d e h = e
Distinct-append (x ∷ xs) ys d e h = (
  ground (arith, any-append (λ (c : String). c == x) xs ys, h x, eq_iff x x),
  Distinct-append xs ys d.1 e (λ c m. h c (ground arith)),
)

module _ {ℓ} {A : Type ℓ} (key : A → String) where
  abbrev pub keys_of : List A → List String
  keys_of xs = map key xs

  contains-take :
      (k : String) (n : ℕ) (xs : List A)
      → contains (keys_of xs) k ≡ false
      → contains (keys_of (take n xs)) k ≡ false
  contains-take k zero xs h = refl
  contains-take k (suc n) [] h = refl
  contains-take k (suc n) (x ∷ xs) h = ground (arith, contains-take k n xs)

  pub Distinct-take : (n : ℕ) (xs : List A) → Distinct (keys_of xs) → Distinct (keys_of (take n xs))
  Distinct-take zero xs d = tt
  Distinct-take (suc n) [] d = tt
  Distinct-take (suc n) (x ∷ xs) d = (contains-take (key x) n xs d.0, Distinct-take n xs d.1)

  contains-filter :
      (k : String) (p : A → Bool) (xs : List A)
      → contains (keys_of xs) k ≡ false
      → contains (keys_of (filter p xs)) k ≡ false
  contains-filter k p [] h = refl
  contains-filter k p (x ∷ xs) h = ground (arith, contains-filter k p xs)

  pub Distinct-filter :
      (p : A → Bool) (xs : List A) → Distinct (keys_of xs) → Distinct (keys_of (filter p xs))
  Distinct-filter p [] d = tt
  Distinct-filter p (x ∷ xs) d = ground (arith, Distinct-filter p xs, contains-filter (key x) p xs)

  contains-key : (k : String) (xs : List A) → contains (keys_of xs) k ≡ any (λ x. key x == k) xs
  contains-key k [] = refl
  contains-key k (x ∷ xs) = ground (arith, contains-key k xs)

  contains-reverse :
      (k : String) (xs : List A) → contains (keys_of (reverse xs)) k ≡ contains (keys_of xs) k
  contains-reverse k xs =
      contains-key k (reverse xs) ∙ any-reverse (λ x. key x == k) xs ∙ sym (contains-key k xs)

  Distinct-reverse : (xs : List A) → Distinct (keys_of xs) → Distinct (keys_of (reverse xs))
  Distinct-reverse [] d = tt
  Distinct-reverse (x ∷ xs) d =
      rw (reverse-cons x xs, map-append key (reverse xs) (x ∷ []))
        (Distinct-append (keys_of (reverse xs)) (key x ∷ []) (Distinct-reverse xs d.1) (refl, tt)
          (λ c m. ground (arith, contains-reverse c xs, eq_iff (key x) c)))

  module _ (less : A → A → Bool) where
    contains-sink :
        (k : String) (x : A) (xs : List A)
        → contains (keys_of (sink less x xs)) k ≡ ((key x == k) || contains (keys_of xs) k)
    unfolding sink
    contains-sink k x [] = refl
    contains-sink k x (y ∷ ys) = ground (arith, contains-sink k x ys)

    Distinct-sink :
        (x : A) (xs : List A)
        → contains (keys_of xs) (key x) ≡ false
        → Distinct (keys_of xs)
        → Distinct (keys_of (sink less x xs))
    unfolding sink
    Distinct-sink x [] h d = (refl, tt)
    Distinct-sink x (y ∷ ys) h d = ground (
      arith,
      Distinct-sink x ys,
      contains-sink (key y) x ys,
      eq_iff (key x) (key y),
      eq_iff (key y) (key x),
    )

    -- The keys of the sorted part and of the rest.
    Distinct-sink_all :
        (sorted xs : List A)
        → Distinct (keys_of sorted)
        → Distinct (keys_of xs)
        → ((k : String) → contains (keys_of xs) k ≡ true → contains (keys_of sorted) k ≡ false)
        → Distinct (keys_of (sink_all less sorted xs))
    unfolding sink_all
    Distinct-sink_all sorted [] d e h = d
    Distinct-sink_all sorted (x ∷ xs) d e h =
        Distinct-sink_all (sink less x sorted) xs
          (Distinct-sink x sorted (h (key x) (ground (arith, eq_iff (key x) (key x)))) d) e.1
          (λ k m. ground (arith, contains-sink k x sorted, h k, eq_iff (key x) k))

    pub Distinct-sort : (xs : List A) → Distinct (keys_of xs) → Distinct (keys_of (sort less xs))
    unfolding sort
    Distinct-sort xs d =
        Distinct-reverse (sink_all less [] xs) (Distinct-sink_all [] xs tt d (λ k m. refl))
