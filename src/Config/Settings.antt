-- ===== src/Config/Settings.antt =====
-- The table of the environment variables: which of them a configuration sets, and to what.
use mnemonic.Prelude.{
  zero, suc, String, List, [], ◌∷◌, Option, none, some, ◌≡◌, refl, ◌==◌, arith, inl, inr,
  Bool-cases, if◌then◌else◌,
}
use mnemonic.Prelude.Maps.{Map, lookup, insert, lookup-insert}
use mnemonic.Platform.{Platform, float_zero}
use mnemonic.Store.Entry.{ok}
use mnemonic.Config.State.{ℤ, pos, negsuc, Config, copy}
use mnemonic.Config.Values.{
  put_string, put_int, put_list, put_float, set_values, to_env_map, format_bool, itoa, join,
  log_string, read_configs, expand, ConfigOs, missing, failed, found,
}
use mnemonic.Config.Laws.{lookup-copy, to_env_map-Distinct}

-- The text of a setting, if it is not the zero value.
abbrev pub string_text : String → Option String
string_text v = if v == "" then none else some v

abbrev pub int_text : ℤ → Option String
int_text (pos zero) = none
int_text (pos (suc n)) = some (itoa (pos (suc n)))
int_text (negsuc n) = some (itoa (negsuc n))

abbrev pub list_text : List String → Option String
list_text [] = none
list_text (v ∷ vs) = some (join (v ∷ vs))

abbrev pub float_text : {F : Type 0} → ⦃p : Platform F⦄ → F → Option String
float_text ⦃p⦄ x = if p.eq x float_zero then none else some (p.format_float x)

-- The value that a table gives to a name.
abbrev pub value_of : String → List (String × Option String) → Option String
value_of key [] = none
value_of key ((k, o) ∷ rest) = elim (value_of key rest) [
  | some t ↦ some t
  | none ↦ if k == key then o else none
]

put_text : String → Option String → Map String → Map String
put_text key none m = m
put_text key (some t) m = insert key t m

put_all : List (String × Option String) → Map String → Map String
put_all [] m = m
put_all ((k, o) ∷ rest) m = put_all rest (put_text k o m)

lookup-put_all :
    (key : String) (table : List (String × Option String)) (m : Map String)
    → lookup key (put_all table m)
      ≡ elim (value_of key table) [ some t ↦ some t | none ↦ lookup key m ]
unfolding put_all put_text
lookup-put_all key [] m = refl
lookup-put_all key ((k, none) ∷ rest) m = ground (arith, lookup-put_all key rest m)
lookup-put_all key ((k, some t) ∷ rest) m =
    ground (arith, lookup-put_all key rest (insert k t m), lookup-insert k key t m)

put_string_text :
    (key v : String) (m : Map String) → put_string key v m ≡ put_text key (string_text v) m
unfolding put_string put_text
put_string_text key v m = ground arith

put_int_text :
    (key : String) (z : ℤ) (m : Map String) → put_int key z m ≡ put_text key (int_text z) m
unfolding put_int put_text
put_int_text key (pos zero) m = refl
put_int_text key (pos (suc n)) m = refl
put_int_text key (negsuc n) m = refl

put_list_text :
    (key : String) (vs : List String) (m : Map String)
    → put_list key vs m ≡ put_text key (list_text vs) m
unfolding put_list put_text
put_list_text key [] m = refl
put_list_text key (v ∷ vs) m = refl

module _ {F : Type 0} ⦃p : Platform F⦄ where
  put_float_text :
      (key : String) (x : F) (m : Map String) → put_float key x m ≡ put_text key (float_text x) m
  unfolding put_float put_text
  put_float_text key x m = elim (Bool-cases (p.eq x float_zero)) [
    | inl z ↦ rw (z, put_float, put_text) refl
    | inr s ↦ rw (s, put_float, put_text) refl
  ]

  -- Each setting with its variable. Two of them are written whatever they are.
  unfoldable pub settings : Config F → List (String × Option String)
  settings c =
      ("LOG_LEVEL", string_text c.log_level)
      ∷ ("MNEMONIC_SERVER_ADDR", string_text c.server_addr)
      ∷ ("MNEMONIC_SOCKET_PATH", string_text c.socket_path_raw)
      ∷ ("MNEMONIC_CLIENT_TIMEOUT_SEC", int_text c.client_timeout_sec)
      ∷ ("MNEMONIC_POLL_INTERVAL_SEC", int_text c.poll_interval_sec)
      ∷ ("MNEMONIC_LOGGING", string_text (log_string c.logging))
      ∷ ("MNEMONIC_AUTH_TOKEN", string_text c.auth_token)
      ∷ ("MNEMONIC_ALLOWED_ORIGINS", list_text c.allowed_origins)
      ∷ ("MNEMONIC_EMBEDDINGS_ENDPOINT", string_text c.embeddings.endpoint)
      ∷ ("MNEMONIC_EMBEDDINGS_MODEL", string_text c.embeddings.model)
      ∷ ("MNEMONIC_EMBEDDINGS_AUTH_TOKEN", string_text c.embeddings.auth_token)
      ∷ ("MNEMONIC_INDEX_TYPE", string_text c.index.type)
      ∷ ("MNEMONIC_INDEX_DIMENSIONS", int_text c.index.dimensions)
      ∷ ("MNEMONIC_INDEX_CONNECTIONS", int_text c.index.connections)
      ∷ ("MNEMONIC_INDEX_LEVEL_FACTOR", float_text c.index.level_factor)
      ∷ ("MNEMONIC_INDEX_EF_SEARCH", int_text c.index.ef_search)
      ∷ ("MNEMONIC_STORE_TYPE", string_text c.store.type)
      ∷ ("MNEMONIC_STORE_PATH", string_text c.store.sqlite_path_raw)
      ∷ ("MNEMONIC_EMBEDDINGS_SKIP_PREFLIGHT", some (format_bool c.embeddings.skip_preflight))
      ∷ ("MNEMONIC_UNAUTHENTICATED_STATUS", some (format_bool c.unauthenticated_status))
      ∷ []

  to_env_map-put_all : (c : Config F) → to_env_map c ≡ put_all (settings c) []
  unfolding to_env_map set_values put_all put_text settings
  to_env_map-put_all c = simp (put_string_text, put_int_text, put_list_text, put_float_text)

  -- The files that exist and parse, in the order of their paths.
  abbrev pub files : ConfigOs F → List String → List (Config F)
  files os [] = []
  files os (path ∷ paths) = elim (os.read_file (expand os path)) [
    | missing ↦ files os paths
    | failed ↦ files os paths
    | found t ↦ elim (os.unmarshal t) [ none ↦ files os paths | some c ↦ c ∷ files os paths ]
  ]

  -- What the last file that sets a variable gives it.
  abbrev pub last_setting : String → List (Config F) → Option String
  last_setting key [] = none
  last_setting key (c ∷ cs) = elim (last_setting key cs) [
    | some v ↦ some v
    | none ↦ value_of key (settings c)
  ]

  lookup-copied :
      (key : String) (fm : Map String) (c : Config F)
      → lookup key (copy fm (to_env_map c))
        ≡ elim (value_of key (settings c)) [ some v ↦ some v | none ↦ lookup key fm ]
  unfolding lookup
  lookup-copied key fm c = ground (
    arith,
    lookup-copy key fm (to_env_map c) (to_env_map-Distinct c),
    to_env_map-put_all c,
    lookup-put_all key (settings c) [],
  )

  lookup-read_configs :
      (os : ConfigOs F) (paths : List String) (fm m : Map String) (key : String)
      → read_configs os paths fm ≡ ok m
      → lookup key m
        ≡ elim (last_setting key (files os paths)) [ some v ↦ some v | none ↦ lookup key fm ]
  unfolding read_configs
  lookup-read_configs os [] fm m key r = ground arith
  lookup-read_configs os (path ∷ paths) fm m key r =
      grind (arith, λ (n : Map String). lookup-read_configs os paths n m key, lookup-copied key fm)

  -- When the configuration files are read without an error, each variable has the value that the
  -- last file which sets it gives to it, and no value when no file sets it. A file sets a text, a
  -- number or a list that is not the zero value, under the variable's name, and it always sets the
  -- two variables that say whether the preflight is skipped and whether the status needs no token.
  pub later_file_wins :
      (os : ConfigOs F) (paths : List String) (m : Map String) (key : String)
      → read_configs os paths [] ≡ ok m
      → lookup key m ≡ last_setting key (files os paths)
  unfolding lookup
  later_file_wins os paths m key r = ground (arith, lookup-read_configs os paths [] m key r)
