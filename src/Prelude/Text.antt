-- ===== src/Prelude/Text.antt =====
-- What the program uses of Go's `strings`, on texts that are valid UTF-8: a `String` is the list
-- of its code points, and `compare` orders texts as `strings.Compare` orders their bytes.
use Prim.Native.Char.{Char, code}
use Prim.Native.String.{String, compare}
use mathlib.Core.Path.{◌≡◌, refl}
use mathlib.Core.Bool.{Bool, true, false, ◌&&◌, ◌||◌}
use mathlib.Core.List.{List, [], ◌∷◌}
use mathlib.Core.Option.{none, some}
use text.Mathlib.Text.{◌==◌, find?, is_lt}
use mnemonic.Prelude.Tests.{if◌then◌else◌, leb, nat_eq}

-- `strings.Compare(s, t) < 0`, and `<` on strings
abbrev pub text_less : String → String → Bool
text_less s t = is_lt (compare s t)

-- `strings.Contains`
abbrev pub contains_text : String → String → Bool
contains_text s t = elim (find? s t) [ none ↦ false | some _ ↦ true ]

-- `unicode.IsSpace`: the six in ASCII, U+0085 and U+00A0, and the other characters of the
-- category Z.
unfoldable pub is_space : Char → Bool
is_space c =
    let n = code c in
    (leb 9 n && leb n 13)
    || nat_eq n 32
    || nat_eq n 0x85
    || nat_eq n 0xa0
    || nat_eq n 0x1680
    || (leb 0x2000 n && leb n 0x200a)
    || nat_eq n 0x2028
    || nat_eq n 0x2029
    || nat_eq n 0x202f
    || nat_eq n 0x205f
    || nat_eq n 0x3000

-- `strings.TrimLeftFunc` and `strings.TrimRightFunc`
unfoldable pub trim_left : (Char → Bool) → String → String
trim_left p String.[] = ""
trim_left p (String.◌∷◌ c s) = if p c then trim_left p s else String.◌∷◌ c s

unfoldable pub trim_right : (Char → Bool) → String → String
trim_right p String.[] = ""
trim_right p (String.◌∷◌ c s) =
    let rest = trim_right p s in if p c && rest == "" then "" else String.◌∷◌ c rest

-- `strings.Trim` and `strings.TrimSpace`
unfoldable pub trim : (Char → Bool) → String → String
unfolding trim_left trim_right
trim p s = trim_right p (trim_left p s)

unfoldable pub trim_space : String → String
unfolding is_space trim
trim_space s = trim is_space s

-- The pieces between the characters that pass the test: `strings.Split` by one character.
unfoldable pub split_at : (Char → Bool) → String → List String
split_at p String.[] = "" ∷ []
split_at p (String.◌∷◌ c s) =
    if p c
    then "" ∷ split_at p s
    else elim (split_at p s) [ [] ↦ String.◌∷◌ c "" ∷ [] | w ∷ ws ↦ String.◌∷◌ c w ∷ ws ]

unfoldable pub non_empty : List String → List String
non_empty [] = []
non_empty (w ∷ ws) = if w == "" then non_empty ws else w ∷ non_empty ws

-- `strings.Fields`: the runs of characters that are no space.
unfoldable pub fields : String → List String
unfolding split_at non_empty is_space
fields s = non_empty (split_at is_space s)

-- `strings.ToLower`, for the case table that is given
unfoldable pub to_lower : (Char → Char) → String → String
to_lower lower String.[] = ""
to_lower lower (String.◌∷◌ c s) = String.◌∷◌ (lower c) (to_lower lower s)

fields_example : fields " use go\terrors " ≡ "use" ∷ "go" ∷ "errors" ∷ []
unfolding fields
fields_example = refl
