-- ===== src/Tests/ServerTests.antt =====
-- The theorem on the access to the server at a concrete request.
use mnemonic.Prelude.{true, [], ◌∷◌, ◌≡◌}
use mnemonic.Server.Middleware.{Request, Handler, http_error, tcp_handler_from_config, get_header}
use mnemonic.Server.Access.{tcp_handler_from_config_lem}

-- A request with the wrong token.
abbrev request : Request
request = record {
  method = "GET";
  path = "/api/entries";
  header = ("Authorization", "Bearer other" ∷ []) ∷ [];
}

abbrev base : Handler
base r h = record { status = 200; header = h; body = "entries" }

tcp_handler_from_config_lem_example :
    tcp_handler_from_config base "secret" ("https://a.example" ∷ []) true request []
    ≡ http_error [] "unauthorized" 401
unfolding get_header
tcp_handler_from_config_lem_example =
    tcp_handler_from_config_lem base "secret" ("https://a.example" ∷ []) true request []
