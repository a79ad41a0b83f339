-- ===== src/Tests/ConfigTests.antt =====
-- The theorems on the configuration at concrete settings.
use mnemonic.Prelude.{
  ℕ, String, List, true, false, [], ◌∷◌, none, some, ◌≡◌, refl, ◌==◌, if◌then◌else◌,
}
use mnemonic.Prelude.Maps.{Map, lookup}
use mnemonic.Config.State.{pos, Config, copy}
use mnemonic.Config.Values.{to_env_map, format_bool, expand, read_configs, ConfigOs, found, missing}
use mnemonic.Config.Settings.{settings, files, last_setting, later_file_wins}
use mnemonic.Tests.Sample.{sample}

abbrev blank : Config ℕ
blank = record {
  log_level = "";
  logging = [];
  client_timeout_sec = pos 0;
  poll_interval_sec = pos 0;
  server_addr = "";
  socket_path_raw = "";
  auth_token = "";
  allowed_origins = [];
  unauthenticated_status = false;
  embeddings = record { endpoint = ""; model = ""; auth_token = ""; skip_preflight = false };
  index = record {
    type = "";
    dimensions = pos 0;
    connections = pos 0;
    level_factor = 0;
    ef_search = pos 0;
  };
  store = record { type = ""; sqlite_path_raw = "" };
}

abbrev verbose : Config ℕ
verbose = record blank { log_level = "info"; logging = ("server", "debug") ∷ [] }

-- Two files: one that skips the preflight, and a later one that sets the log level.
abbrev first : Config ℕ
first = record blank {
  embeddings = record { endpoint = "http://e"; model = ""; auth_token = ""; skip_preflight = true };
}

abbrev two_files : ConfigOs ℕ
two_files = record {
  read_file =
      λ path. if path == "/a" then found "a" else if path == "/b" then found "b" else missing;
  unmarshal = λ t. if t == "a" then some first else some verbose;
  home = none;
  join_path = λ dir name. name;
}

abbrev both : List String
both = "/a" ∷ "/none" ∷ "/b" ∷ []

abbrev merged : Map String
merged = copy (copy [] (to_env_map first)) (to_env_map verbose)

later_file_wins_example :
    lookup "MNEMONIC_EMBEDDINGS_SKIP_PREFLIGHT" merged
    ≡ last_setting "MNEMONIC_EMBEDDINGS_SKIP_PREFLIGHT" (files two_files both)
unfolding read_configs expand
later_file_wins_example =
    later_file_wins two_files both merged "MNEMONIC_EMBEDDINGS_SKIP_PREFLIGHT" refl

later_file_wins_values :
    (last_setting "MNEMONIC_EMBEDDINGS_SKIP_PREFLIGHT" (files two_files both) ≡ some "false")
    × (last_setting "MNEMONIC_EMBEDDINGS_ENDPOINT" (files two_files both) ≡ some "http://e")
    × (last_setting "LOG_LEVEL" (files two_files both) ≡ some "info")
    × (last_setting "MNEMONIC_STORE_TYPE" (files two_files both) ≡ none)
unfolding settings expand format_bool
later_file_wins_values = (refl, refl, refl, refl)
