-- ===== src/Server/Middleware.antt =====
-- middleware.go: a handler takes the request and the headers that are set on the response so far,
-- and gives the response.
use Prim.Native.String.{◌++◌ as ◌⊹◌}
use mathlib.Core.Option.{get_or}
use mnemonic.Prelude.{
  ℕ, String, Bool, not, ◌&&◌, ◌||◌, List, [], ◌∷◌, ◌++◌, ◌==◌, if◌then◌else◌, contains,
}
use mnemonic.Prelude.Maps.{Map, lookup, insert, remove}

-- `http.Header`, by canonical names
abbrev pub Header : Type 0
Header = Map (List String)

unfoldable pub get_header : Header → String → String
unfolding lookup
get_header h key = elim (get_or (lookup key h) []) [ [] ↦ "" | v ∷ vs ↦ v ]

unfoldable pub set_header : String → String → Header → Header
unfolding insert
set_header key value h = insert key (value ∷ []) h

unfoldable pub add_header : String → String → Header → Header
unfolding insert lookup
add_header key value h = insert key (get_or (lookup key h) [] ++ value ∷ []) h

pub record Request : Type 0 where
  pub method : String
  pub path : String
  pub header : Header

pub record Response : Type 0 where
  pub status : ℕ
  pub header : Header
  pub body : String

abbrev pub Handler : Type 0
Handler = Request → Header → Response

-- `http.Error`
unfoldable pub http_error : Header → String → ℕ → Response
unfolding set_header remove
http_error h text code = record {
  status = code;
  header =
      set_header "X-Content-Type-Options" "nosniff"
        (set_header "Content-Type" "text/plain; charset=utf-8" (remove "Content-Length" h));
  body = text ⊹ "\n";
}

unfoldable pub bearer_auth : String → List String → Handler → Handler
unfolding get_header http_error
bearer_auth token exempt_paths next r h =
    if token == ""
    then next r h
    else if contains exempt_paths r.path
    then next r h
    else if get_header r.header "Authorization" == ("Bearer " ⊹ token)
    then next r h
    else http_error h "unauthorized" 401

-- The headers that `CORS` sets for an origin that is allowed.
unfoldable pub cors_headers : Bool → String → Header → Header
unfolding set_header add_header
cors_headers wildcard origin h =
    set_header "Access-Control-Allow-Headers" "Authorization, Content-Type" (
      set_header "Access-Control-Allow-Methods" "GET, POST, OPTIONS" (
        if wildcard
        then set_header "Access-Control-Allow-Origin" "*" h
        else add_header "Vary" "Origin" (set_header "Access-Control-Allow-Origin" origin h)))

unfoldable pub cors : List String → Handler → Handler
unfolding get_header cors_headers
cors [] next r h = next r h
cors (o ∷ os) next r h =
    let origin = get_header r.header "Origin" in
    let wildcard = contains (o ∷ os) "*" in
    let h' = cors_headers wildcard origin h in
    if not (origin == "") && (wildcard || contains (o ∷ os) origin)
    then if r.method == "OPTIONS"
      then (record { status = 204; header = h'; body = "" })
      else next r h'
    else next r h

unfoldable pub chain : Handler → List (Handler → Handler) → Handler
chain handler [] = handler
chain handler (m ∷ ms) = m (chain handler ms)

unfoldable pub tcp_handler_from_config : Handler → String → List String → Bool → Handler
unfolding chain cors bearer_auth
tcp_handler_from_config base auth_token allowed_origins unauthenticated_status =
    let exempt : List String = if unauthenticated_status then "/api/status" ∷ [] else [] in
    chain base (cors allowed_origins ∷ bearer_auth auth_token exempt ∷ [])
