-- ===== src/Server/Access.antt =====
-- What a request over TCP needs in order to reach the daemon's handler.
use Prim.Native.String.{◌++◌ as ◌⊹◌}
use mnemonic.Prelude.{
  String, Bool, not, ◌&&◌, ◌||◌, List, [], ◌∷◌, ◌≡◌, ◌∙◌, ◌==◌, inl, inr, arith, if◌then◌else◌,
  contains, Bool-cases,
}
use mnemonic.Server.Middleware.{
  Header, get_header, Request, Response, Handler, http_error, bearer_auth, cors_headers, cors,
  chain, tcp_handler_from_config,
}

-- A preflight of an allowed origin is answered; else the next handler is called.
cors_lem :
    (origins : List String) (next : Handler) (r : Request) (h : Header)
    → let allowed =
        not (get_header r.header "Origin" == "")
        && (contains origins "*" || contains origins (get_header r.header "Origin")) in
      let k =
        if allowed
        then cors_headers (contains origins "*") (get_header r.header "Origin") h
        else h in
      cors origins next r h ≡ (
        if allowed && r.method == "OPTIONS"
        then (record { status = 204; header = k; body = "" })
        else next r k)
unfolding cors
cors_lem [] next r h = ground arith
cors_lem (o ∷ os) next r h = ground arith

module _ (base : Handler) (token : String) (origins : List String) (open_status : Bool)
    (r : Request) (h : Header) where
  -- The origin of the request is one of those that are allowed.
  abbrev pub is_allowed_origin : Bool
  is_allowed_origin =
      not (get_header r.header "Origin" == "")
      && (contains origins "*" || contains origins (get_header r.header "Origin"))

  -- The request has the token, or needs none.
  abbrev pub is_authorized : Bool
  is_authorized =
      token == ""
      || (open_status && "/api/status" == r.path)
      || get_header r.header "Authorization" == ("Bearer " ⊹ token)

  -- The headers of the response when the next handler is called.
  abbrev pub headers_after_cors : Header
  headers_after_cors =
      if is_allowed_origin
      then cors_headers (contains origins "*") (get_header r.header "Origin") h
      else h

  abbrev pub response : Response
  response = tcp_handler_from_config base token origins open_status r h

  bearer_auth_lem :
      (k : Header)
      → bearer_auth token (if open_status then "/api/status" ∷ [] else []) base r k
        ≡ (if is_authorized then base r k else http_error k "unauthorized" 401)
  unfolding bearer_auth
  bearer_auth_lem k = elim (Bool-cases open_status) [
    | inl on ↦ rw (on, bearer_auth) (ground arith)
    | inr off ↦ rw (off, bearer_auth) (ground arith)
  ]

  -- The whole chain: a preflight of an allowed origin is answered at once, a request that is
  -- authorized goes to the daemon's handler, and any other is refused with 401. Neither of the
  -- others calls the handler.
  pub tcp_handler_from_config_lem : response ≡ (
      if is_allowed_origin && r.method == "OPTIONS"
      then (record { status = 204; header = headers_after_cors; body = "" })
      else if is_authorized
      then base r headers_after_cors
      else http_error headers_after_cors "unauthorized" 401)
  unfolding tcp_handler_from_config chain
  tcp_handler_from_config_lem =
      cors_lem origins (bearer_auth token (if open_status then "/api/status" ∷ [] else []) base) r h
      ∙ ground (arith, bearer_auth_lem h, bearer_auth_lem headers_after_cors)
