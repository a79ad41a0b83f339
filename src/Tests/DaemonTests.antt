-- ===== src/Tests/DaemonTests.antt =====
-- The client of a daemon over its handlers, at concrete entries.
use mnemonic.Prelude.{ℕ, [], ◌∷◌, none, some, ◌==◌, ◌≡◌, ◌↔◌, refl, if◌then◌else◌}
use mnemonic.Store.Entry.{Entry, ok, err, external}
use mnemonic.Controller.Changes.{merge}
use mnemonic.Controller.Api.{controller_api, controller_saver}
use mnemonic.Snapshot.State.{get}
use mnemonic.Daemon.Admin.{save_entry, parse_admin_scopes, dispatch}
use mnemonic.Daemon.Client.{Codec, client_save, client_entry, client_delete, client_merge}
use mnemonic.Daemon.Remote.{
  succeeds, Reader, read_route, IsRead, IsEncoded, local, remote_refines, remote_merge,
}
use mnemonic.Tests.Sample.{sample, first}
use mnemonic.Tests.ControllerTests.{stores, indexes, embedder, controller}

-- A space is escaped, and escaped again with the sign of the first escape.
abbrev codec : Codec ℕ
codec = record {
  encode_entry = λ e. some (record { as_entry = some e; as_merge = none });
  encode_merge = λ k d. some (record { as_entry = none; as_merge = some (k, d) });
  no_body = record { as_entry = none; as_merge = none };
  decode_reply = λ payload. some payload;
  path_escape = λ t. if t == "a b" then "a%20b" else t;
  url_segment = λ t. if t == "a%20b" then "a%2520b" else t;
  query_escape = λ t. t;
}

abbrev reader : Reader
reader = record { segment = λ t. if t == "a%2520b" then "a%20b" else t; query = λ t. t }

abbrev spaced : Entry ℕ
spaced = record first { id = "a b" }

spaced-IsEncoded : IsEncoded codec spaced
spaced-IsEncoded = record {
  body = record { as_entry = some spaced; as_merge = none };
  encoded = refl;
  decoded = refl;
}

spaced-IsRead : IsRead codec reader "a b"
spaced-IsRead = record { named = refl; escaped = refl; read = refl }

scopes_read : parse_admin_scopes "team,global team,," ≡ "team" ∷ "global" ∷ []
unfolding parse_admin_scopes
scopes_read = refl

-- The daemon is asked for another entry than "a b".
missed :
    (client_entry codec (local stores none codec reader) (("a b", spaced) ∷ []) "a b").0
    ≡ err (external "daemon admin")
unfolding client_entry get dispatch read_route
missed = refl

remote_refines_example :
    let connection = local stores none codec reader in
    let there = record spaced { id = "a%20b" } in
    let deleted = client_delete codec connection controller.store "a b" in
    let saved = client_save codec connection controller.store (some spaced) in
    let found = client_entry codec connection controller.store "a b" in
    ((deleted.1 ≡ (stores.delete controller.store "a%20b").1)
      × (succeeds deleted.0 ≡ succeeds (stores.delete controller.store "a%20b").0))
    × ((saved.1 ≡ (save_entry stores none controller.store there).1)
        × (succeeds saved.0 ≡ succeeds (save_entry stores none controller.store there).0))
    × ((found.1 ≡ controller.store)
        × ((x : Entry ℕ) → (found.0 ≡ ok x) ↔ (stores.get controller.store "a%20b" ≡ ok x)))
remote_refines_example =
    remote_refines stores none codec reader controller.store spaced spaced-IsEncoded spaced-IsRead
      (λ x h. refl)

remote_merge_example :
    let daemon = controller_api stores indexes embedder 100 in
    let saver = some (controller_saver stores indexes embedder 100) in
    let r = client_merge codec (local daemon saver codec reader) controller "a" "b" in
    (r.1.store ≡ (merge stores indexes embedder controller "a" "b").1.store)
    × (succeeds r.0 ≡ succeeds (merge stores indexes embedder controller "a" "b").0)
remote_merge_example =
    remote_merge stores indexes codec reader embedder 100 controller "a" "b"
      (record { as_entry = none; as_merge = some ("a", "b") }) refl refl refl refl
