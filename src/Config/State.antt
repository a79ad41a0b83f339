-- ===== src/Config/State.antt =====
-- config.go: the structs, and what the command line overrides.
use mnemonic.Prelude.{
  ℕ, zero, suc, ◌*◌, max, String, Bool, List, [], ◌∷◌, none, some, ◌==◌, if◌then◌else◌,
}
use mnemonic.Prelude.Maps.{Map, lookup, insert}
use mnemonic.Prelude.Text.{trim_space}
use mnemonic.Platform.{Platform, float_zero}

-- `negsuc n` is -(n + 1).
pub data ℤ : Type 0 where
  pos negsuc : ℕ → ℤ

pub record Store : Type 0 where
  pub type : String
  pub sqlite_path_raw : String

pub record Index (F : Type 0) : Type 0 where
  pub type : String
  pub dimensions : ℤ
  pub connections : ℤ
  pub level_factor : F
  pub ef_search : ℤ

pub record Embeddings : Type 0 where
  pub endpoint : String
  pub model : String
  pub auth_token : String
  pub skip_preflight : Bool

pub record Config (F : Type 0) : Type 0 where
  pub log_level : String
  pub logging : Map String
  pub client_timeout_sec : ℤ
  pub poll_interval_sec : ℤ
  pub server_addr : String
  pub socket_path_raw : String
  pub auth_token : String
  pub allowed_origins : List String
  pub unauthenticated_status : Bool
  pub embeddings : Embeddings
  pub index : Index F
  pub store : Store

-- `max(n, z)` for an `n` that is not negative
unfoldable pub at_least : ℕ → ℤ → ℕ
at_least n (pos k) = max n k
at_least n (negsuc k) = n

-- `maps.Copy(dst, src)`
unfoldable pub copy : Map String → Map String → Map String
unfolding insert
copy dst [] = dst
copy dst ((k, v) ∷ src) = copy (insert k v dst) src

-- A field after `if o != zero { c = o }`, for each type of field.
unfoldable pub pick_string : String → String → String
pick_string c o = if o == "" then c else o

unfoldable pub pick_int : ℤ → ℤ → ℤ
pick_int c (pos zero) = c
pick_int c (pos (suc n)) = pos (suc n)
pick_int c (negsuc n) = negsuc n

unfoldable pub pick_flag : Bool → Bool → Bool
pick_flag c o = if o then o else c

unfoldable pub pick_list : List String → List String → List String
pick_list c [] = c
pick_list c (o ∷ os) = o ∷ os

module _ {F : Type 0} where
  unfoldable pub client_timeout : Config F → ℕ
  unfolding at_least
  client_timeout c = at_least 5 c.client_timeout_sec

  -- in nanoseconds
  unfoldable pub poll_interval : Config F → ℕ
  unfolding at_least
  poll_interval c = at_least 1 c.poll_interval_sec * 1000000000

  unfoldable pub log_level_for : Config F → String → String
  unfolding lookup trim_space
  log_level_for c scope = elim (lookup scope c.logging) [
    | none ↦ c.log_level
    | some value ↦ trim_space value
  ]

module _ {F : Type 0} ⦃p : Platform F⦄ where
  unfoldable pub pick_float : F → F → F
  pick_float c o = if p.eq o float_zero then c else o

  unfoldable pub apply_overrides : Config F → Config F → Config F
  unfolding pick_string pick_int pick_flag pick_list pick_float copy
  apply_overrides c o = record {
    log_level = pick_string c.log_level o.log_level;
    logging = copy c.logging o.logging;
    client_timeout_sec = pick_int c.client_timeout_sec o.client_timeout_sec;
    poll_interval_sec = pick_int c.poll_interval_sec o.poll_interval_sec;
    server_addr = pick_string c.server_addr o.server_addr;
    socket_path_raw = pick_string c.socket_path_raw o.socket_path_raw;
    auth_token = pick_string c.auth_token o.auth_token;
    allowed_origins = pick_list c.allowed_origins o.allowed_origins;
    unauthenticated_status = pick_flag c.unauthenticated_status o.unauthenticated_status;
    embeddings = record {
      endpoint = pick_string c.embeddings.endpoint o.embeddings.endpoint;
      model = pick_string c.embeddings.model o.embeddings.model;
      auth_token = pick_string c.embeddings.auth_token o.embeddings.auth_token;
      skip_preflight = pick_flag c.embeddings.skip_preflight o.embeddings.skip_preflight;
    };
    index = record {
      type = pick_string c.index.type o.index.type;
      dimensions = pick_int c.index.dimensions o.index.dimensions;
      connections = pick_int c.index.connections o.index.connections;
      level_factor = pick_float c.index.level_factor o.index.level_factor;
      ef_search = pick_int c.index.ef_search o.index.ef_search;
    };
    store = record {
      type = pick_string c.store.type o.store.type;
      sqlite_path_raw = pick_string c.store.sqlite_path_raw o.store.sqlite_path_raw;
    };
  }
