-- ===== src/Daemon/Admin.antt =====
-- daemon_admin.go: the handlers of the daemon. What net/http and the JSON library read from a
-- request is given: its method, the value of `{id}` or the parameter `scopes`, and its decoded
-- body.
use Prim.Native.Char.{Char, code}
use mnemonic.Prelude.{
  ℕ, ◌+◌, String, Bool, ◌||◌, List, [], ◌∷◌, ◌++◌, Option, none, some, ◌==◌, nat_eq, ltb, contains,
  if◌then◌else◌,
}
use mnemonic.Prelude.Text.{trim_space, split_at, non_empty}
use mnemonic.Platform.{Platform}
use mnemonic.Store.Entry.{Entry, HeadInfo, Result, ok, err}
use mnemonic.Controller.Interface.{StoreApi}

-- The path of a request, as the patterns of the multiplexer take it apart.
pub data Route : Type 0 where
  entries_route heads_route entry_route : String → Route
  merge_route : Route

-- The body, by what the JSON library decodes it to: an entry, and a merge request with the IDs to
-- keep and to delete; `none` where decoding fails.
pub record Body (F : Type 0) : Type 0 where
  pub as_entry : Option (Entry F)
  pub as_merge : Option (String × String)

pub record AdminRequest (F : Type 0) : Type 0 where
  pub method : String
  pub route : Route
  pub body : Body F

-- The body of a reply: a text of `http.Error`, or what is encoded in JSON.
pub data Payload (F : Type 0) : Type 0 where
  text_payload : String → Payload F
  entries_payload : List (Entry F) → Payload F
  entry_payload : Entry F → Payload F
  heads_payload : List HeadInfo → Payload F
  -- "status", with the IDs that go with it
  status_payload : String → List String → Payload F

pub record AdminReply (F : Type 0) : Type 0 where
  pub status : ℕ
  pub payload : Payload F

unfoldable pub is_separator : Char → Bool
is_separator c = nat_eq (code c) b',' || nat_eq (code c) b' '

-- The loop of `parseAdminScopes`; `seen` is the set of those kept.
unfoldable pub scopes_from : List String → List String → List String
unfolding trim_space
scopes_from seen [] = []
scopes_from seen (v ∷ vs) =
    let part = trim_space v in
    if part == "" || contains seen part
    then scopes_from seen vs
    else part ∷ scopes_from (part ∷ seen) vs

unfoldable pub parse_admin_scopes : String → List String
unfolding scopes_from non_empty split_at is_separator
parse_admin_scopes raw =
    if raw == "" then [] else scopes_from [] (non_empty (split_at is_separator raw))

-- The loop of `handleAdminMerge` over the tags.
unfoldable pub add_tags : List String → List String → List String
add_tags tags [] = tags
add_tags tags (t ∷ ts) = if contains tags t then add_tags tags ts else add_tags (tags ++ t ∷ []) ts

module _ {F : Type 0} where
  unfoldable pub refuse : ℕ → String → AdminReply F
  refuse status text = record { status = status; payload = text_payload text }

  unfoldable pub reply_ok : Payload F → AdminReply F
  reply_ok payload = record { status = 200; payload = payload }

module _ {F : Type 0} ⦃p : Platform F⦄ where
  unfoldable pub kept_after_merge : Entry F → Entry F → Entry F
  unfolding add_tags
  kept_after_merge keep del = record keep {
    tags = add_tags keep.tags del.tags;
    score = p.max keep.score del.score;
    hit_count = keep.hit_count + del.hit_count;
    last_hit = if ltb keep.last_hit del.last_hit then del.last_hit else keep.last_hit;
  }

module _ {F : Type 0} ⦃p : Platform F⦄ (S : StoreApi F) where
  -- The method `Save` of a store that has one, as a controller has. Each store has `Upsert`.
  abbrev pub Saver : Type 0
  Saver = Option (S.State → Entry F → Result (Unit {0}) × S.State)

  unfoldable pub save_entry : Saver → S.State → Entry F → Result (Unit {0}) × S.State
  save_entry (some save) s e = save s e
  save_entry none s e = let (r, e', s') = S.upsert s e in (r, s')

  unfoldable pub handle_entries : S.State → String → String → AdminReply F × S.State
  unfolding refuse reply_ok parse_admin_scopes
  handle_entries s method raw =
      if method == "GET"
      then (let (r, s') = S.all_in s (parse_admin_scopes raw) in
          (elim r [ err _ ↦ refuse 500 "store" | ok es ↦ reply_ok (entries_payload es) ], s'))
      else (refuse 405 "method not allowed", s)

  unfoldable pub handle_entry_get : S.State → String → String → AdminReply F
  unfolding refuse reply_ok
  handle_entry_get s method id =
      if method == "GET"
      then if id == ""
        then refuse 400 "entry id is required"
        else elim (S.get s id) [ err _ ↦ refuse 404 "store" | ok e ↦ reply_ok (entry_payload e) ]
      else refuse 405 "method not allowed"

  -- The entry is stored under the ID of the path.
  unfoldable pub store_under : Saver → S.State → String → Entry F → AdminReply F × S.State
  unfolding save_entry refuse reply_ok
  store_under saver s id e =
      let (r, s') = save_entry saver s (record e { id = id }) in
      (
        elim r [
          | err _ ↦ refuse 500 "store"
          | ok _ ↦ reply_ok (status_payload "updated" (id ∷ []))
        ],
        s',
      )

  unfoldable pub handle_entry_update :
      Saver → S.State → String → String → Body F → AdminReply F × S.State
  unfolding store_under refuse
  handle_entry_update saver s method id body =
      if method == "PUT"
      then if id == "" then (refuse 400 "entry id is required", s) else elim body.as_entry [
        | none ↦ (refuse 400 "decoding entry", s)
        | some e ↦ store_under saver s id e
      ]
      else (refuse 405 "method not allowed", s)

  unfoldable pub handle_entry_delete : S.State → String → String → AdminReply F × S.State
  unfolding refuse reply_ok
  handle_entry_delete s method id =
      if method == "DELETE"
      then if id == ""
        then (refuse 400 "entry id is required", s)
        else (let (r, s') = S.delete s id in
            (
              elim r [
                | err _ ↦ refuse 500 "store"
                | ok _ ↦ reply_ok (status_payload "deleted" (id ∷ []))
              ],
              s',
            ))
      else (refuse 405 "method not allowed", s)

  unfoldable pub handle_heads : S.State → String → String → AdminReply F
  unfolding refuse reply_ok parse_admin_scopes
  handle_heads s method raw =
      if method == "GET"
      then elim (S.list_heads s (parse_admin_scopes raw)) [
        | err _ ↦ refuse 500 "store"
        | ok heads ↦ reply_ok (heads_payload heads)
      ]
      else refuse 405 "method not allowed"

  -- `handleAdminMerge` from the merged entry on.
  unfoldable pub finish_merge : Saver → S.State → Entry F → String → String → AdminReply F × S.State
  unfolding save_entry refuse reply_ok
  finish_merge saver s merged keep_id delete_id =
      let (r, s') = save_entry saver s merged in
      elim r [
        | err _ ↦ (refuse 500 "updating kept entry", s')
        | ok _ ↦
            let (r', s'') = S.delete s' delete_id in
            (
              elim r' [
                | err _ ↦ refuse 500 "deleting merged entry"
                | ok _ ↦ reply_ok (status_payload "merged" (keep_id ∷ delete_id ∷ []))
              ],
              s'',
            )
      ]

  unfoldable pub merge_entries_of : Saver → S.State → String → String → AdminReply F × S.State
  unfolding kept_after_merge finish_merge refuse
  merge_entries_of saver s keep_id delete_id =
      if keep_id == "" || delete_id == ""
      then (refuse 400 "keep_id and delete_id are required", s)
      else elim (S.get s keep_id) [
        | err _ ↦ (refuse 404 "getting kept entry", s)
        | ok keep ↦ elim (S.get s delete_id) [
          | err _ ↦ (refuse 404 "getting deleted entry", s)
          | ok del ↦ finish_merge saver s (kept_after_merge keep del) keep_id delete_id
        ]
      ]

  unfoldable pub handle_merge : Saver → S.State → String → Body F → AdminReply F × S.State
  unfolding merge_entries_of refuse
  handle_merge saver s method body =
      if method == "POST"
      then elim body.as_merge [
        | none ↦ (refuse 400 "decoding merge request", s)
        | some (k, d) ↦ merge_entries_of saver s k d
      ]
      else (refuse 405 "method not allowed", s)

  -- The multiplexer of daemon.go: the patterns with their methods. It answers 405 itself where the
  -- path is known and the method is not.
  unfoldable pub dispatch : Saver → S.State → AdminRequest F → AdminReply F × S.State
  unfolding handle_entries handle_entry_get handle_entry_update handle_entry_delete handle_heads
      handle_merge refuse
  dispatch saver s req = elim req.route [
    | entries_route raw ↦ handle_entries s req.method raw
    | heads_route raw ↦ (handle_heads s req.method raw, s)
    | merge_route ↦ handle_merge saver s req.method req.body
    | entry_route id ↦
        if req.method == "GET"
        then (handle_entry_get s req.method id, s)
        else if req.method == "PUT"
        then handle_entry_update saver s req.method id req.body
        else handle_entry_delete s req.method id
  ]
