-- ===== src/Tests/Sample.antt =====
-- A platform with numbers in units of 10⁻¹², a small store and an operating system that writes.
use Prim.Native.String.{◌++◌ as ◌⊹◌}
use mnemonic.Prelude.{
  ℕ, ◌+◌, ◌-◌, ◌*◌, ◌/◌, ◌^◌, max, String, true, false, [], ◌∷◌, Option, none, some, ltb, nat_eq,
}
use mnemonic.Platform.{Platform}
use mnemonic.Store.Entry.{Entry}
use mnemonic.Yaml.State.{File, Os, written, YamlStore}

instance abbrev pub sample : Platform ℕ
sample = record {
  literal = λ m k. m * 10 ^ 12 / 10 ^ k;
  add = λ a b. a + b;
  sub = λ a b. (a - b) + (b - a);
  mul = λ a b. a * b / 10 ^ 12;
  div = λ a b. a * 10 ^ 12 / b;
  neg = λ a. a;
  abs = λ a. a;
  exp = λ a. 10 ^ 12;
  max = max;
  lt = ltb;
  eq = nat_eq;
  round32 = λ a. a;
  hours = λ now ref. (now - ref) * 10 ^ 12;
  format_float = λ a. "0.25";
  lower = λ c. c;
}

-- `n` tenths
abbrev pub tenths : ℕ → ℕ
tenths n = n * 10 ^ 11

abbrev pub entry : String → String → ℕ → Entry ℕ
entry id category score = record {
  id = id;
  content = "use wrapped errors";
  tags = "go" ∷ [];
  category = category;
  scope = "global";
  score = score;
  hit_count = 0;
  last_hit = 0;
  created = 5;
  source = "test";
}

abbrev pub first : Entry ℕ
first = entry "a" "syntax" (tenths 20)

abbrev pub second : Entry ℕ
second = entry "b" "syntax" (tenths 10)

abbrev pub syntax_file : File ℕ
syntax_file = record { version = 1; entries = first ∷ second ∷ [] }

abbrev pub texts : Option (File ℕ) → Option String
texts none = some "null"
texts (some f) = some "entries"

abbrev pub os : Os ℕ
os = record {
  now = 100;
  random_id = some "00000000000000ff";
  home = none;
  join = λ dir name. dir ⊹ name;
  mkdir_all = λ dir. true;
  write_file = λ path text. written;
  read_dir = λ dir. some [];
  marshal = texts;
  unmarshal = λ text. none;
  json_strings = λ text. none;
}

-- Two scopes; the entries stand in the first.
abbrev pub store : YamlStore ℕ
store = record {
  dirs = ("global", "g/") ∷ ("project", "p/") ∷ [];
  contents = ("global", ("syntax", syntax_file) ∷ []) ∷ ("project", []) ∷ [];
  dirty = ("global", []) ∷ ("project", []) ∷ [];
  auto_hit_counting = true;
  closed = false;
  disk = ("g/syntax.yaml", "entries") ∷ [];
}
