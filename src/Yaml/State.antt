-- ===== src/Yaml/State.antt =====
-- yaml.go: the store, what it takes from the operating system, and the helpers of its methods.
use Prim.Native.String.{len, slice, ◌++◌ as ◌⊹◌}
use mathlib.Core.Option.{get_or}
use text.Mathlib.Text.{starts_with}
use mnemonic.Prelude.{
  ℕ, zero, suc, String, Bool, List, [], ◌∷◌, ◌++◌, Option, none, some, if◌then◌else◌, ◌==◌,
}
use mnemonic.Prelude.Maps.{Map, lookup, insert, keys}
use mnemonic.Prelude.Sort.{sort}
use mnemonic.Prelude.Text.{text_less}
use mnemonic.Store.Entry.{Entry, mkdir_failed, marshal_failed, write_failed, Result, ok, err}

pub record File (F : Type 0) : Type 0 where
  pub version : ℕ
  pub entries : List (Entry F)

-- The files of a scope by category: `map[string]*file`.
abbrev pub Files : Type 0 → Type 0
Files F = Map (File F)

-- What `os.WriteFile` does: it writes, it leaves the file as it is, or it fails with only some of
-- the text written.
pub data Write : Type 0 where
  written refused : Write
  damaged : String → Write

-- The calls of the operating system and of libraries, as they turn out during one method call.
pub record Os (F : Type 0) : Type 0 where
  -- `time.Now()`
  pub now : ℕ
  -- eight random bytes, printed with `%x`; `none` if `rand.Read` fails
  pub random_id : Option String
  -- `os.UserHomeDir`, `filepath.Join`
  pub home : Option String
  pub join : String → String → String
  -- whether `os.MkdirAll` succeeds; the outcome of `os.WriteFile` by path and text
  pub mkdir_all : String → Bool
  pub write_file : String → String → Write
  -- `os.ReadDir`: the names in a directory, with `IsDir`
  pub read_dir : String → Option (List (String × Bool))
  -- the library of YAML; `none` of a file is its nil pointer
  pub marshal : Option (File F) → Option String
  pub unmarshal : String → Option (File F)
  -- `json.Unmarshal` into a slice of strings
  pub json_strings : String → Option (List String)

-- `contents` is the field `data`; `disk` holds the texts of the files by path.
pub record YamlStore (F : Type 0) : Type 0 where
  pub dirs : Map String
  pub contents : Map (Files F)
  pub dirty : Map (Map Bool)
  pub auto_hit_counting : Bool
  pub closed : Bool
  pub disk : Map String

module _ {F : Type 0} where
  unfoldable pub expand_home : Os F → String → String
  expand_home os path =
      if starts_with path "~/"
      then elim os.home [ none ↦ path | some home ↦ os.join home (slice path 2 (len path)) ]
      else path

  -- `s.data[scope]`, nil if the scope has none
  unfoldable pub files_of : YamlStore F → String → Files F
  unfolding lookup
  files_of s scope = get_or (lookup scope s.contents) []

  unfoldable pub set_file : YamlStore F → String → String → File F → YamlStore F
  unfolding files_of insert
  set_file s scope category f = record s {
    contents = insert scope (insert category f (files_of s scope)) s.contents;
  }

  unfoldable pub path_of : Os F → YamlStore F → String → String → String
  unfolding expand_home lookup
  path_of os s scope category =
      os.join (expand_home os (get_or (lookup scope s.dirs) "")) (category ⊹ ".yaml")

  unfoldable pub write : Os F → String → String → YamlStore F → Result (Unit {0}) × YamlStore F
  unfolding insert
  write os path text s = elim (os.write_file path text) [
    | written ↦ (ok tt, record s { disk = insert path text s.disk })
    | refused ↦ (err (write_failed path), s)
    | damaged part ↦ (err (write_failed path), record s { disk = insert path part s.disk })
  ]

  unfoldable pub persist : Os F → YamlStore F → String → String → Result (Unit {0}) × YamlStore F
  unfolding path_of files_of write
  persist os s scope category =
      let dir = expand_home os (get_or (lookup scope s.dirs) "") in
      if os.mkdir_all dir
      then elim (os.marshal (lookup category (files_of s scope))) [
        | none ↦ (err marshal_failed, s)
        | some text ↦ write os (path_of os s scope category) text s
      ]
      else (err (mkdir_failed dir), s)

  unfoldable pub scopes_for_query : YamlStore F → List String → List String
  unfolding sort
  scopes_for_query s [] = sort text_less (keys s.dirs)
  scopes_for_query s (r ∷ rs) = r ∷ rs

  -- The loop over the sorted categories of one scope.
  unfoldable pub category_entries : Files F → List String → List (Entry F)
  unfolding lookup
  category_entries files [] = []
  category_entries files (cat ∷ cats) =
      elim (lookup cat files) [ none ↦ [] | some f ↦ f.entries ] ++ category_entries files cats

  unfoldable pub all_entries : YamlStore F → List String → List (Entry F)
  unfolding category_entries sort files_of
  all_entries s [] = []
  all_entries s (sc ∷ scs) =
      category_entries (files_of s sc) (sort text_less (keys (files_of s sc))) ++ all_entries s scs

  -- The index of the first entry with the ID.
  unfoldable pub index_of : String → List (Entry F) → Option ℕ
  index_of id [] = none
  index_of id (e ∷ es) =
      if e.id == id then some 0 else elim (index_of id es) [ none ↦ none | some i ↦ some (suc i) ]

module _ {ℓ} {A : Type ℓ} where
  -- `append(l[:i], l[i+1:]...)`
  unfoldable pub remove_at : ℕ → List A → List A
  remove_at i [] = []
  remove_at zero (x ∷ xs) = xs
  remove_at (suc i) (x ∷ xs) = x ∷ remove_at i xs

  -- `append(l[:i], append([]T{x}, l[i:]...)...)`
  unfoldable pub insert_at : ℕ → A → List A → List A
  insert_at zero y xs = y ∷ xs
  insert_at (suc i) y [] = y ∷ []
  insert_at (suc i) y (x ∷ xs) = x ∷ insert_at i y xs

  -- `l[i] = f(l[i])`
  unfoldable pub modify_at : ℕ → (A → A) → List A → List A
  modify_at i f [] = []
  modify_at zero f (x ∷ xs) = f x ∷ xs
  modify_at (suc i) f (x ∷ xs) = x ∷ modify_at i f xs

  unfoldable pub get_elem? : List A → ℕ → Option A
  get_elem? [] i = none
  get_elem? (x ∷ xs) zero = some x
  get_elem? (x ∷ xs) (suc i) = get_elem? xs i
