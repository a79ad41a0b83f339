-- ===== src/Prelude/Trimming.antt =====
-- Trimming twice is trimming once.
use Prim.Native.Char.{Char}
use Prim.Native.String.{String}
use mathlib.Core.Path.{◌≡◌, refl, ap, ◌∙◌}
use mathlib.Core.Bool.{Bool, false, ◌&&◌}
use mathlib.Core.Logic.{inl, inr}
use native.Mathlib.Omega.{arith}
use text.Mathlib.Text.{◌==◌}
use mnemonic.Prelude.Tests.{Bool-cases}
use mnemonic.Prelude.Text.{trim_left, trim_right, trim, trim_space, is_space}

module _ (p : Char → Bool) where
  -- The text does not begin with a character that is trimmed.
  abbrev IsClean : String → Type 0
  IsClean String.[] = Unit
  IsClean (String.◌∷◌ c s) = p c ≡ false

  trim_left-IsClean : (s : String) → IsClean (trim_left p s)
  unfolding trim_left
  trim_left-IsClean String.[] = tt
  trim_left-IsClean (String.◌∷◌ c s) = ground (arith, trim_left-IsClean s)

  trim_left_of_IsClean : (s : String) → IsClean s → trim_left p s ≡ s
  unfolding trim_left
  trim_left_of_IsClean String.[] h = refl
  trim_left_of_IsClean (String.◌∷◌ c s) h = ground arith

  trim_right-IsClean : (s : String) → IsClean s → IsClean (trim_right p s)
  unfolding trim_right
  trim_right-IsClean String.[] h = tt
  trim_right-IsClean (String.◌∷◌ c s) h = ground arith

  trim_right_idem : (s : String) → trim_right p (trim_right p s) ≡ trim_right p s
  unfolding trim_right
  trim_right_idem String.[] = refl
  trim_right_idem (String.◌∷◌ c s) = elim (Bool-cases (p c && trim_right p s == "")) [
    | inl gone ↦ rw gone
    | inr stays ↦ rw stays (ground (arith, trim_right_idem s))
  ]

  pub trim_idem : (s : String) → trim p (trim p s) ≡ trim p s
  unfolding trim
  trim_idem s =
      ap (trim_right p) (
        trim_left_of_IsClean (trim_right p (trim_left p s))
          (trim_right-IsClean (trim_left p s) (trim_left-IsClean s)))
      ∙ trim_right_idem (trim_left p s)

pub trim_space_idem : (s : String) → trim_space (trim_space s) ≡ trim_space s
unfolding trim_space
trim_space_idem = trim_idem is_space
