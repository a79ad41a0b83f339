-- ===== src/Prelude/TextOrder.antt =====
-- `text_less` is a strict order that tells different texts apart.
use Prim.Native.Nat.{ℕ, Ordering, compare as compare_ℕ}
use Prim.Native.Char.{code}
use Prim.Native.String.compare
use Prim.Native.String.{String, compare, then}
use mathlib.Core.Path.{◌≡◌, refl, sym, ◌∙◌}
use mathlib.Core.Bool.{true, false}
use native.Mathlib.Omega.{arith}
use text.Mathlib.TextEquality.{path_by_compare}
use mnemonic.Prelude.Text.{text_less}

abbrev flip : Ordering → Ordering
flip Ordering.lt = Ordering.gt
flip Ordering.eq = Ordering.eq
flip Ordering.gt = Ordering.lt

compare-flip_ℕ : (m n : ℕ) → compare_ℕ n m ≡ flip (compare_ℕ m n)
compare-flip_ℕ m n = ground arith

flip-then : (a b : Ordering) → flip (then a b) ≡ then (flip a) (flip b)
flip-then Ordering.lt b = refl
flip-then Ordering.eq b = refl
flip-then Ordering.gt b = refl

compare-flip : (s t : String) → compare t s ≡ flip (compare s t)
compare-flip String.[] String.[] = refl
compare-flip String.[] (String.◌∷◌ d t) = rw (compare.nil-cons d t, compare.cons-nil d t)
compare-flip (String.◌∷◌ c s) String.[] = rw (compare.nil-cons c s, compare.cons-nil c s)
compare-flip (String.◌∷◌ c s) (String.◌∷◌ d t) =
    rw
      (
        compare.cons-cons c d s t,
        compare.cons-cons d c t s,
        compare-flip s t,
        compare-flip_ℕ (code c) (code d),
      )
      (sym (flip-then (compare_ℕ (code c) (code d)) (compare s t)))

then_lt_trans :
    (k m n : ℕ) (a b c : Ordering)
    → (a ≡ Ordering.lt → b ≡ Ordering.lt → c ≡ Ordering.lt)
    → then (compare_ℕ k m) a ≡ Ordering.lt
    → then (compare_ℕ m n) b ≡ Ordering.lt
    → then (compare_ℕ k n) c ≡ Ordering.lt
then_lt_trans k m n a b c f h l = ground arith

not_less_empty : (s : String) → ¬ (compare s "" ≡ Ordering.lt)
not_less_empty String.[] h = cc (sym compare.nil-nil ∙ h)
not_less_empty (String.◌∷◌ c s) h = cc (sym (compare.cons-nil c s) ∙ h)

compare_lt_trans :
    (s t u : String)
    → compare s t ≡ Ordering.lt
    → compare t u ≡ Ordering.lt
    → compare s u ≡ Ordering.lt
compare_lt_trans s t String.[] h k = absurd (not_less_empty t k)
compare_lt_trans s String.[] (String.◌∷◌ e u) h k = absurd (not_less_empty s h)
compare_lt_trans String.[] (String.◌∷◌ d t) (String.◌∷◌ e u) h k = compare.nil-cons e u
compare_lt_trans (String.◌∷◌ c s) (String.◌∷◌ d t) (String.◌∷◌ e u) h k =
    compare.cons-cons c e s u
    ∙ then_lt_trans (code c) (code d) (code e) (compare s t) (compare t u) (compare s u)
        (compare_lt_trans s t u) (sym (compare.cons-cons c d s t) ∙ h)
        (sym (compare.cons-cons d e t u) ∙ k)

pub text_less_asymm : (s t : String) → text_less s t ≡ true → text_less t s ≡ false
text_less_asymm s t h = ground (arith, compare-flip s t)

pub text_less_trans :
    (s t u : String) → text_less s t ≡ true → text_less t u ≡ true → text_less s u ≡ true
text_less_trans s t u h k = ground (arith, compare_lt_trans s t u)

-- Texts of which neither is less are the same.
pub text_less_connex : (s t : String) → text_less s t ≡ false → text_less t s ≡ false → s ≡ t
text_less_connex s t h k = path_by_compare s t (ground (arith, compare-flip s t))

pub text_less_co_trans :
    (s t u : String) → text_less s t ≡ false → text_less t u ≡ false → text_less s u ≡ false
text_less_co_trans s t u h k = ground (
  arith,
  compare-flip s t,
  compare-flip t u,
  compare-flip s u,
  compare_lt_trans u t s,
  path_by_compare s t,
  path_by_compare t u,
)
