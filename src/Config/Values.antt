-- ===== src/Config/Values.antt =====
-- config.go: a configuration as a map of texts, and the values that `Load` reads from files.
use Prim.Native.String.{len, slice, ◌++◌ as ◌⊹◌}
use text.Mathlib.Text.{starts_with}
use mnemonic.Prelude.{
  ℕ, zero, suc, ◌+◌, ◌/◌, ◌%◌, String, Bool, List, [], ◌∷◌, Option, none, some, ◌==◌, ltb,
  if◌then◌else◌,
}
use mnemonic.Prelude.Maps.{Map, insert}
use mnemonic.Platform.{Platform, float_zero}
use mnemonic.Store.Entry.{Result, ok, err, read_failed, unmarshal_failed}
use mnemonic.Config.State.{ℤ, pos, negsuc, Config, copy}

-- `strconv.Itoa`: `digits` on fuel, of which a number has enough in itself.
abbrev pub digit : ℕ → String
digit n = slice "0123456789" n (n + 1)

unfoldable pub digits : ℕ → ℕ → String
digits zero n = ""
digits (suc fuel) n =
    let front = digits fuel (n / 10) in if ltb n 10 then digit n else front ⊹ digit (n % 10)

unfoldable pub itoa : ℤ → String
unfolding digits
itoa (pos n) = digits (n + 1) n
itoa (negsuc n) = "-" ⊹ digits (n + 2) (n + 1)

-- `strconv.FormatBool` and `strings.Join(parts, ",")`
unfoldable pub format_bool : Bool → String
format_bool b = if b then "true" else "false"

unfoldable pub join : List String → String
join [] = ""
join (s ∷ []) = s
join (s ∷ t ∷ ts) = s ⊹ "," ⊹ join (t ∷ ts)

log_parts : Map String → List String
log_parts [] = []
log_parts ((k, v) ∷ m) = (k ⊹ "=" ⊹ v) ∷ log_parts m

unfoldable pub log_string : Map String → String
unfolding join log_parts
log_string m = join (log_parts m)

-- `putIfNotZero`, for each type that it is used at
unfoldable pub put_string : String → String → Map String → Map String
unfolding insert
put_string key value m = if value == "" then m else insert key value m

unfoldable pub put_int : String → ℤ → Map String → Map String
unfolding insert itoa
put_int key (pos zero) m = m
put_int key (pos (suc n)) m = insert key (itoa (pos (suc n))) m
put_int key (negsuc n) m = insert key (itoa (negsuc n)) m

unfoldable pub put_list : String → List String → Map String → Map String
unfolding insert join
put_list key [] m = m
put_list key (v ∷ vs) m = insert key (join (v ∷ vs)) m

-- What the operating system and the library of YAML do with the file of a path.
pub data FileRead : Type 0 where
  missing failed : FileRead
  found : String → FileRead

pub record ConfigOs (F : Type 0) : Type 0 where
  pub read_file : String → FileRead
  pub unmarshal : String → Option (Config F)
  pub home : Option String
  pub join_path : String → String → String

module _ {F : Type 0} where
  -- The paths of the socket and of the SQLite store, with the home directory put in.
  unfoldable pub expand : ConfigOs F → String → String
  expand os path =
      if starts_with path "~/"
      then elim os.home [ none ↦ path | some home ↦ os.join_path home (slice path 2 (len path)) ]
      else path

  unfoldable pub socket_path : ConfigOs F → Config F → String
  unfolding expand
  socket_path os c = expand os c.socket_path_raw

  unfoldable pub sqlite_store_path : ConfigOs F → Config F → String
  unfolding expand
  sqlite_store_path os c =
      expand os
        (if c.store.sqlite_path_raw == "" then "~/.mnemonic/store.db" else c.store.sqlite_path_raw)

module _ {F : Type 0} ⦃p : Platform F⦄ where
  unfoldable pub put_float : String → F → Map String → Map String
  unfolding insert
  put_float key x m = if p.eq x float_zero then m else insert key (p.format_float x) m

  unfoldable pub as_map : Config F → Map String
  unfolding put_string put_int put_list put_float format_bool log_string itoa insert
  as_map c =
      let m : Map String =
        ("log_level", c.log_level)
        ∷ ("client_timeout_sec", itoa c.client_timeout_sec)
        ∷ ("poll_interval_sec", itoa c.poll_interval_sec)
        ∷ ("server_addr", c.server_addr)
        ∷ ("socket_path", c.socket_path_raw)
        ∷ ("embeddings_skip_preflight", format_bool c.embeddings.skip_preflight)
        ∷ ("unauthenticated_status", format_bool c.unauthenticated_status)
        ∷ [] in
      let m = put_string "logging" (log_string c.logging) m in
      let m = put_string "auth_token" c.auth_token m in
      let m = put_list "allowed_origins" c.allowed_origins m in
      let m = put_string "embeddings_endpoint" c.embeddings.endpoint m in
      let m = put_string "embeddings_model" c.embeddings.model m in
      let m = put_string "embeddings_auth_token" c.embeddings.auth_token m in
      let m = put_string "index_type" c.index.type m in
      let m = put_int "index_dimensions" c.index.dimensions m in
      let m = put_int "index_connections" c.index.connections m in
      let m = put_float "index_level_factor" c.index.level_factor m in
      let m = put_int "index_ef_search" c.index.ef_search m in
      let m = put_string "store_type" c.store.type m in
      put_string "store_path" c.store.sqlite_path_raw m

  -- The entries of `ToEnvMap` that are left out when they are zero.
  unfoldable pub set_values : Config F → Map String
  unfolding put_string put_int put_list put_float log_string
  set_values c =
      let m = put_string "LOG_LEVEL" c.log_level [] in
      let m = put_string "MNEMONIC_SERVER_ADDR" c.server_addr m in
      let m = put_string "MNEMONIC_SOCKET_PATH" c.socket_path_raw m in
      let m = put_int "MNEMONIC_CLIENT_TIMEOUT_SEC" c.client_timeout_sec m in
      let m = put_int "MNEMONIC_POLL_INTERVAL_SEC" c.poll_interval_sec m in
      let m = put_string "MNEMONIC_LOGGING" (log_string c.logging) m in
      let m = put_string "MNEMONIC_AUTH_TOKEN" c.auth_token m in
      let m = put_list "MNEMONIC_ALLOWED_ORIGINS" c.allowed_origins m in
      let m = put_string "MNEMONIC_EMBEDDINGS_ENDPOINT" c.embeddings.endpoint m in
      let m = put_string "MNEMONIC_EMBEDDINGS_MODEL" c.embeddings.model m in
      let m = put_string "MNEMONIC_EMBEDDINGS_AUTH_TOKEN" c.embeddings.auth_token m in
      let m = put_string "MNEMONIC_INDEX_TYPE" c.index.type m in
      let m = put_int "MNEMONIC_INDEX_DIMENSIONS" c.index.dimensions m in
      let m = put_int "MNEMONIC_INDEX_CONNECTIONS" c.index.connections m in
      let m = put_float "MNEMONIC_INDEX_LEVEL_FACTOR" c.index.level_factor m in
      let m = put_int "MNEMONIC_INDEX_EF_SEARCH" c.index.ef_search m in
      let m = put_string "MNEMONIC_STORE_TYPE" c.store.type m in
      put_string "MNEMONIC_STORE_PATH" c.store.sqlite_path_raw m

  unfoldable pub to_env_map : Config F → Map String
  unfolding set_values format_bool insert
  to_env_map c = insert "MNEMONIC_UNAUTHENTICATED_STATUS" (format_bool c.unauthenticated_status) (
      insert "MNEMONIC_EMBEDDINGS_SKIP_PREFLIGHT" (format_bool c.embeddings.skip_preflight)
        (set_values c))

  -- The loop of `Load` over the paths, with the map that it fills.
  unfoldable pub read_configs : ConfigOs F → List String → Map String → Result (Map String)
  unfolding to_env_map copy expand
  read_configs os [] fm = ok fm
  read_configs os (path ∷ paths) fm = elim (os.read_file (expand os path)) [
    | missing ↦ read_configs os paths fm
    | failed ↦ err (read_failed (expand os path))
    | found t ↦ elim (os.unmarshal t) [
      | none ↦ err unmarshal_failed
      | some c ↦ read_configs os paths (copy fm (to_env_map c))
    ]
  ]
