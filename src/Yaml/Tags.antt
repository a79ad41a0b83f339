-- ===== src/Yaml/Tags.antt =====
-- yaml.go: `sanitizeFileTags`, `normalizeTagValues`, `tagsMatch` and `keywordMatch`.
use Prim.Native.Char.{Char, code}
use text.Mathlib.Text.{starts_with}
use mnemonic.Prelude.{
  String, Bool, true, ◌||◌, List, [], ◌∷◌, map, Option, none, some, nat_eq, ◌==◌, if◌then◌else◌,
  contains, any, all,
}
use mnemonic.Prelude.Text.{trim, trim_space, split_at, contains_text, to_lower}
use mnemonic.Store.Entry.{Entry}
use mnemonic.Yaml.State.{File, Os}

-- The loop of `normalizeTagValues`: `seen` is the set, in the order of `out`.
unfoldable pub normalize_from : List String → List String → List String
unfolding trim_space
normalize_from seen [] = []
normalize_from seen (v ∷ vs) =
    let s = trim_space v in
    if s == "" || contains seen s then normalize_from seen vs else s ∷ normalize_from (s ∷ seen) vs

unfoldable pub normalize_tag_values : List String → List String
unfolding normalize_from
normalize_tag_values values = normalize_from [] values

is_comma : Char → Bool
is_comma c = nat_eq (code c) b','

is_quote : Char → Bool
is_quote c = nat_eq (code c) b'"' || nat_eq (code c) b'\''

-- The parts of a comma-separated scalar, trimmed and without quotes.
unfoldable pub csv_parts : List String → List String
unfolding trim_space is_quote
csv_parts [] = []
csv_parts (p ∷ ps) =
    let q = trim is_quote (trim_space p) in if q == "" then csv_parts ps else q ∷ csv_parts ps

-- What replaces the only tag `t[0]`; `none` if the tags stay.
from_csv : String → Option (List String)
unfolding csv_parts split_at is_comma normalize_tag_values
from_csv raw = elim (csv_parts (split_at is_comma raw)) [
  | [] ↦ none
  | v ∷ vs ↦ some (normalize_tag_values (v ∷ vs))
]

module _ {F : Type 0} where
  unfoldable pub sanitize_single : Os F → String → List String
  unfolding from_csv trim_space normalize_tag_values
  sanitize_single os t =
      let raw = trim_space t in
      let csv : List String = elim (from_csv raw) [ none ↦ t ∷ [] | some vs ↦ vs ] in
      if starts_with raw "[" || contains_text raw ","
      then elim (os.json_strings raw) [
        | none ↦ csv
        | some [] ↦ csv
        | some (j ∷ js) ↦ normalize_tag_values (j ∷ js)
      ]
      else t ∷ []

  unfoldable pub sanitize_tags : Os F → List String → List String
  unfolding sanitize_single
  sanitize_tags os (t ∷ []) = sanitize_single os t
  sanitize_tags os ts = ts

  unfoldable pub sanitize_entry : Os F → Entry F → Entry F
  unfolding sanitize_tags
  sanitize_entry os e = record e { tags = sanitize_tags os e.tags }

  unfoldable pub sanitize_file_tags : Os F → File F → File F
  unfolding sanitize_entry
  sanitize_file_tags os f = record f { entries = map (sanitize_entry os) f.entries }

module _ (lower : Char → Char) where
  -- The required tags are in lower case already.
  unfoldable pub tags_match : List String → List String → Bool
  unfolding to_lower
  tags_match entry_tags required =
      let set = map (to_lower lower) entry_tags in all (λ r. contains set r) required

  unfoldable pub keyword_match : {F : Type 0} → Entry F → List String → Bool
  unfolding to_lower
  keyword_match e [] = true
  keyword_match e (t ∷ ts) =
      any (contains_text (to_lower lower e.content)) (t ∷ ts)
      || any (λ tag. any (contains_text (to_lower lower tag)) (t ∷ ts)) e.tags
