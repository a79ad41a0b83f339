-- ===== src/Sqlite/Rows.antt =====
-- sqlite.go: `scanEntry` and `getByID`, with the tags of a row, and `resolveQueryScopes`.
use Prim.Native.Char.{Char, code}
use text.Mathlib.Text.{starts_with}
use mnemonic.Prelude.{
  String, Bool, true, false, ◌||◌, List, [], ◌∷◌, map, Option, none, some, nat_eq, ◌==◌,
  if◌then◌else◌, contains, any, all, find?,
}
use mnemonic.Prelude.Text.{trim, trim_space, split_at, contains_text, to_lower}
use mnemonic.Store.Entry.{Entry, Result, ok, err, not_found, scope_not_configured}
use mnemonic.Sqlite.State.{Row, Db, SqliteStore, select_by_id}

-- The loop of `normalizeTagValues`: `seen` is the set, in the order of `out`.
unfoldable pub normalize_from : List String → List String → List String
unfolding trim_space
normalize_from seen [] = []
normalize_from seen (v ∷ vs) =
    let s = trim_space v in
    if s == ""
    then normalize_from seen vs
    else if contains seen s
    then normalize_from seen vs
    else s ∷ normalize_from (s ∷ seen) vs

unfoldable pub normalize_tag_values : List String → List String
unfolding normalize_from
normalize_tag_values values = normalize_from [] values

unfoldable pub is_comma : Char → Bool
is_comma c = nat_eq (code c) b','

-- The cut set of the tags in a column, and that of one tag.
unfoldable pub is_quote : Char → Bool
is_quote c = nat_eq (code c) b'"' || nat_eq (code c) b'\''

unfoldable pub is_bracket : Char → Bool
unfolding is_quote
is_bracket c = is_quote c || nat_eq (code c) b'[' || nat_eq (code c) b']'

-- Both loops over comma-separated parts; they differ in the characters that they cut off.
unfoldable pub csv_parts : (Char → Bool) → List String → List String
unfolding trim_space
csv_parts cut [] = []
csv_parts cut (p ∷ ps) =
    let q = trim cut (trim_space p) in if q == "" then csv_parts cut ps else q ∷ csv_parts cut ps

-- The loop over the requested scopes; `seen` is the set of those resolved.
unfoldable pub resolve_from : List String → List String → List String → Result (List String)
resolve_from configured seen [] = ok []
resolve_from configured seen (sc ∷ scs) =
    if contains configured sc
    then elim (contains seen sc) [
      | true ↦ resolve_from configured seen scs
      | false ↦ elim (resolve_from configured (sc ∷ seen) scs) [
        | err x ↦ err x
        | ok rs ↦ ok (sc ∷ rs)
      ]
    ]
    else err (scope_not_configured sc)

module _ {F : Type 0} where
  unfoldable pub sanitize_single : Db F → String → List String
  unfolding csv_parts split_at is_comma is_quote trim_space normalize_tag_values
  sanitize_single db t =
      let raw = trim_space t in
      let out : List String = elim (csv_parts is_quote (split_at is_comma raw)) [
        | [] ↦ t ∷ []
        | v ∷ vs ↦ normalize_tag_values (v ∷ vs)
      ] in
      if starts_with raw "[" || contains_text raw ","
      then elim (db.json_strings raw) [
        | none ↦ out
        | some [] ↦ out
        | some (j ∷ js) ↦ normalize_tag_values (j ∷ js)
      ]
      else t ∷ []

  unfoldable pub sanitize_tags : Db F → List String → List String
  unfolding sanitize_single
  sanitize_tags db [] = []
  sanitize_tags db (t ∷ []) = sanitize_single db t
  sanitize_tags db (t ∷ u ∷ ts) = t ∷ u ∷ ts

  -- The tags in a column: a text of JSON, or else of comma-separated values.
  unfoldable pub read_tags : Db F → String → List String
  unfolding sanitize_tags csv_parts split_at is_comma is_bracket
  read_tags db column =
      if column == ""
      then []
      else sanitize_tags db (elim (db.json_strings column) [
        | none ↦ csv_parts is_bracket (split_at is_comma column)
        | some tags ↦ tags
      ])

  unfoldable pub entry_of : Db F → Row F → Entry F
  unfolding read_tags
  entry_of db r = record {
    id = r.id;
    content = r.content;
    tags = read_tags db r.tags;
    category = r.category;
    scope = r.scope;
    score = r.score;
    hit_count = r.hit_count;
    last_hit = r.last_hit;
    created = r.created;
    source = r.source;
  }

  unfoldable pub scan_entry : Db F → Row F → Result (Entry F)
  unfolding entry_of
  scan_entry db r = elim (db.scan_failure r) [ none ↦ ok (entry_of db r) | some x ↦ err x ]

  -- The row with an ID, the primary key.
  abbrev pub find_row : String → List (Row F) → Option (Row F)
  find_row id rows = find? (λ r. r.id == id) rows

  unfoldable pub get_by_id : Db F → SqliteStore F → String → Result (Entry F)
  unfolding scan_entry
  get_by_id db s id = elim (db.failure select_by_id) [
    | some x ↦ err x
    | none ↦ elim (find_row id s.rows) [ none ↦ err (not_found id) | some r ↦ scan_entry db r ]
  ]

  unfoldable pub resolve_query_scopes : SqliteStore F → List String → Result (List String)
  unfolding resolve_from
  resolve_query_scopes s requested = elim s.configured_scopes [
    | [] ↦ ok requested
    | c ∷ cs ↦ elim requested [ [] ↦ ok (c ∷ cs) | r ∷ rs ↦ resolve_from (c ∷ cs) [] (r ∷ rs) ]
  ]

module _ (lower : Char → Char) where
  -- The required tags are in lower case already.
  unfoldable pub tags_match : List String → List String → Bool
  unfolding to_lower
  tags_match entry_tags [] = true
  tags_match entry_tags (r ∷ rs) =
      let set = map (to_lower lower) entry_tags in all (λ q. contains set q) (r ∷ rs)

  unfoldable pub keyword_match : {F : Type 0} → Entry F → List String → Bool
  unfolding to_lower
  keyword_match e [] = true
  keyword_match e (t ∷ ts) =
      any (contains_text (to_lower lower e.content)) (t ∷ ts)
      || any (λ tag. any (contains_text (to_lower lower tag)) (t ∷ ts)) e.tags
