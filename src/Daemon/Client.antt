-- ===== src/Daemon/Client.antt =====
-- admin_backend.go: the client of a running daemon. `send` is the exchange of one request over the
-- socket; JSON and the escapes of URLs are Go's libraries.
use mnemonic.Prelude.{String, ◌||◌, List, [], ◌∷◌, Option, none, some, ◌==◌, leb, if◌then◌else◌}
use Prim.Native.String.{◌++◌ as ◌⊹◌}
use mnemonic.Store.Entry.{Entry, HeadInfo, Result, ok, err, wrapped, external, entry_required}
use mnemonic.Daemon.Admin.{
  Route, entries_route, heads_route, entry_route, merge_route, Body, AdminRequest, Payload,
  text_payload, entries_payload, entry_payload, heads_payload, status_payload, AdminReply,
}

-- `strings.Join` of the scopes by commas
unfoldable pub join_scopes : List String → String
join_scopes [] = ""
join_scopes (s ∷ ss) = elim ss [ [] ↦ s | t ∷ ts ↦ s ⊹ "," ⊹ join_scopes ss ]

pub record Codec (F : Type 0) : Type 0 where
  pub encode_entry : Entry F → Option (Body F)
  pub encode_merge : String → String → Option (Body F)
  pub no_body : Body F
  -- the decoding of a reply into what the caller wants; `none` is an error
  pub decode_reply : Payload F → Option (Payload F)
  -- `url.PathEscape`, how `URL.String` writes a segment of a path, and `Values.Encode`
  pub path_escape : String → String
  pub url_segment : String → String
  pub query_escape : String → String

-- One exchange: the reply, or the error of the connection, and the daemon's state after it. The
-- texts in the route of the request are those of the URL.
abbrev pub Transport : Type 0 → Type 0 → Type 0
Transport F St = St → AdminRequest F → Result (AdminReply F) × St

-- `reqTarget`: a path becomes a URL, which escapes it; the URLs of `path`, with their queries, are
-- left as they are.
unfoldable pub request_target : {F : Type 0} → Codec F → Route → Route
request_target codec (entries_route q) = entries_route q
request_target codec (heads_route q) = heads_route q
request_target codec (entry_route segment) = entry_route (codec.url_segment segment)
request_target codec merge_route = merge_route

-- The query of `path`.
unfoldable pub scopes_query : {F : Type 0} → Codec F → List String → String
unfolding join_scopes
scopes_query codec scopes = elim scopes [
  | [] ↦ ""
  | s ∷ ss ↦ codec.query_escape (join_scopes (s ∷ ss))
]

-- Whether `doJSON` is given something to decode into.
pub data Out : Type 0 where
  wanted unwanted : Out

module _ {F : Type 0} {St : Type 0} (codec : Codec F) where
  -- `doJSON` from the encoded body on.
  unfoldable pub do_json :
      Transport F St → St → String → Route → Option (Body F) → Out → Result (Payload F) × St
  unfolding request_target
  do_json send s method route body out = elim body [
    | none ↦ (err (external "encoding request body"), s)
    | some b ↦
        let (r, s') =
          send s (record { method = method; route = request_target codec route; body = b }) in
        (
          elim r [
            | err x ↦ err (wrapped "sending request" x)
            | ok reply ↦ if leb 300 reply.status then err (external "daemon admin") else elim out [
              | unwanted ↦ ok reply.payload
              | wanted ↦ elim (codec.decode_reply reply.payload) [
                | none ↦ err (external "decoding response")
                | some payload ↦ ok payload
              ]
            ]
          ],
          s',
        )
  ]

  unfoldable pub done : Result (Payload F) × St → Result (Unit {0}) × St
  done (r, s) = (elim r [ err x ↦ err x | ok _ ↦ ok tt ], s)

  -- `none` is the nil pointer.
  unfoldable pub client_save : Transport F St → St → Option (Entry F) → Result (Unit {0}) × St
  unfolding do_json done
  client_save send s none = (err entry_required, s)
  client_save send s (some e) =
      if e.id == ""
      then (err (external "entry id is required"), s)
      else done (
          do_json send s "PUT" (entry_route (codec.path_escape e.id)) (codec.encode_entry e)
            unwanted)

  unfoldable pub client_entries : Transport F St → St → List String → Result (List (Entry F)) × St
  unfolding do_json scopes_query
  client_entries send s scopes =
      let (r, s') =
        do_json send s "GET" (entries_route (scopes_query codec scopes)) (some codec.no_body)
          wanted in
      (
        elim r [
          | err x ↦ err x
          | ok payload ↦ elim payload [
            | entries_payload es ↦ ok es
            | text_payload _ ↦ err (external "decoding response")
            | entry_payload _ ↦ err (external "decoding response")
            | heads_payload _ ↦ err (external "decoding response")
            | status_payload _ _ ↦ err (external "decoding response")
          ]
        ],
        s',
      )

  unfoldable pub client_entry : Transport F St → St → String → Result (Entry F) × St
  unfolding do_json
  client_entry send s id =
      let (r, s') =
        do_json send s "GET" (entry_route (codec.path_escape id)) (some codec.no_body) wanted in
      (
        elim r [
          | err x ↦ err x
          | ok payload ↦ elim payload [
            | entry_payload e ↦ ok e
            | text_payload _ ↦ err (external "decoding response")
            | entries_payload _ ↦ err (external "decoding response")
            | heads_payload _ ↦ err (external "decoding response")
            | status_payload _ _ ↦ err (external "decoding response")
          ]
        ],
        s',
      )

  unfoldable pub client_heads : Transport F St → St → List String → Result (List HeadInfo) × St
  unfolding do_json scopes_query
  client_heads send s scopes =
      let (r, s') =
        do_json send s "GET" (heads_route (scopes_query codec scopes)) (some codec.no_body)
          wanted in
      (
        elim r [
          | err x ↦ err x
          | ok payload ↦ elim payload [
            | heads_payload hs ↦ ok hs
            | text_payload _ ↦ err (external "decoding response")
            | entries_payload _ ↦ err (external "decoding response")
            | entry_payload _ ↦ err (external "decoding response")
            | status_payload _ _ ↦ err (external "decoding response")
          ]
        ],
        s',
      )

  unfoldable pub client_delete : Transport F St → St → String → Result (Unit {0}) × St
  unfolding do_json done
  client_delete send s id =
      if id == ""
      then (err (external "entry id is required"), s)
      else done (
          do_json send s "DELETE" (entry_route (codec.path_escape id)) (some codec.no_body)
            unwanted)

  unfoldable pub client_merge : Transport F St → St → String → String → Result (Unit {0}) × St
  unfolding do_json done
  client_merge send s keep_id delete_id =
      if keep_id == "" || delete_id == ""
      then (err (external "both entry ids are required"), s)
      else done (do_json send s "POST" merge_route (codec.encode_merge keep_id delete_id) unwanted)
