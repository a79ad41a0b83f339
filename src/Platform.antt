-- ===== src/Platform.antt =====
-- What the program takes from the machine and from tables that are not in the repository: its
-- floating-point numbers, and the case table of Unicode. `F` stands for `float64`; a `float32` is
-- a value of `F` that `round32` has rounded.
use Prim.Native.Char.{Char}
use mnemonic.Prelude.{ℕ, String, Bool, not, ◌&&◌, ◌||◌}

pub record Platform (F : Type 0) : Type 0 where
  -- `literal m k` is the constant m · 10⁻ᵏ
  pub literal : ℕ → ℕ → F
  pub add : F → F → F
  pub sub : F → F → F
  pub mul : F → F → F
  pub div : F → F → F
  pub neg : F → F
  -- `math.Abs`, `math.Exp`, `math.Max`
  pub abs : F → F
  pub exp : F → F
  pub max : F → F → F
  -- the operators `<` and `==`
  pub lt : F → F → Bool
  pub eq : F → F → Bool
  -- the conversion to `float32`
  pub round32 : F → F
  -- `now.Sub(ref).Hours()`
  pub hours : ℕ → ℕ → F
  -- `strconv.FormatFloat(x, 'f', -1, 64)`
  pub format_float : F → String
  -- `unicode.ToLower`
  pub lower : Char → Char

module _ {F : Type 0} ⦃p : Platform F⦄ where
  abbrev pub float_zero : F
  float_zero = p.literal 0 0

  -- `cmp.Compare(x, y) < 0`: a NaN is less than every number.
  unfoldable pub float_less : F → F → Bool
  float_less x y = p.lt x y || (not (p.eq x x) && p.eq y y)
