-- ===== src/Daemon/Remote.antt =====
-- The client over the handlers of the daemon: what a command does to a running daemon is what it
-- would do to the store.
use mnemonic.Prelude.{
  ℕ, String, Bool, true, false, List, [], ◌∷◌, ◌++◌, some, ◌≡◌, ◌↔◌, refl, ◌==◌, arith, inl, inr,
}
use mnemonic.Platform.{Platform}
use mnemonic.Store.Entry.{Entry, Result, ok, err, Result-cases}
use mnemonic.Controller.Interface.{StoreApi, IndexApi, Embedder}
use mnemonic.Controller.State.{MemoryController, get}
use mnemonic.Controller.Changes.{
  merge_tags, merge_entries, merge_into, merge, save, do_upsert, delete,
}
use mnemonic.Controller.Api.{controller_api, controller_saver}
use mnemonic.Daemon.Admin.{
  Route, entries_route, heads_route, entry_route, merge_route, entry_payload, AdminRequest, Body,
  AdminReply, Saver, refuse, reply_ok, add_tags, kept_after_merge, save_entry, store_under,
  handle_entry_get, handle_entry_update, handle_entry_delete, finish_merge, merge_entries_of,
  handle_merge, dispatch,
}
use mnemonic.Daemon.Client.{
  Codec, request_target, do_json, done, client_save, client_entry, client_delete, client_merge,
}

abbrev pub succeeds {ℓ} : {A : Type ℓ} → Result A → Bool
succeeds (ok _) = true
succeeds (err _) = false

-- What net/http reads of a URL: the value of `{id}`, and that of the parameter `scopes`.
pub record Reader : Type 0 where
  pub segment : String → String
  pub query : String → String

unfoldable pub read_route : Reader → Route → Route
read_route reader (entries_route q) = entries_route (reader.query q)
read_route reader (heads_route q) = heads_route (reader.query q)
read_route reader (entry_route t) = entry_route (reader.segment t)
read_route reader merge_route = merge_route

-- An ID that reaches the daemon: it is not empty, and neither is it escaped, and the daemon reads
-- the segment that the client has written.
pub record IsRead {F : Type 0} (codec : Codec F) (reader : Reader) (id : String) : Type 0 where
  pub named : (id == "") ≡ false
  pub escaped : (codec.path_escape id == "") ≡ false
  pub read : reader.segment (codec.url_segment (codec.path_escape id)) ≡ codec.path_escape id

-- An entry that the JSON library encodes and decodes.
pub record IsEncoded {F : Type 0} (codec : Codec F) (e : Entry F) : Type 0 where
  pub body : Body F
  pub encoded : codec.encode_entry e ≡ some body
  pub decoded : body.as_entry ≡ some e

module _ {F : Type 0} ⦃p : Platform F⦄ (S : StoreApi F) (saver : Saver S) (codec : Codec F)
    (reader : Reader) where
  -- A connection that works.
  abbrev pub local : S.State → AdminRequest F → Result (AdminReply F) × S.State
  local s req =
      let (reply, s') = dispatch S saver s (record req { route = read_route reader req.route }) in
      (ok reply, s')

  remote_delete :
      (s : S.State) (id : String)
      → IsRead codec reader id
      → let r = client_delete codec local s id in
        (r.1 ≡ (S.delete s (codec.path_escape id)).1)
        × (succeeds r.0 ≡ succeeds (S.delete s (codec.path_escape id)).0)
  unfolding client_delete do_json request_target read_route done dispatch handle_entry_delete refuse
      reply_ok
  remote_delete s id w = rw w.read (ground (arith, w.named, w.escaped))

  remote_save :
      (s : S.State) (e : Entry F)
      → IsEncoded codec e
      → IsRead codec reader e.id
      → let r = client_save codec local s (some e) in
        let there = record e { id = codec.path_escape e.id } in
        (r.1 ≡ (save_entry S saver s there).1)
        × (succeeds r.0 ≡ succeeds (save_entry S saver s there).0)
  unfolding client_save do_json request_target read_route done dispatch handle_entry_update
      store_under refuse reply_ok
  remote_save s e c w =
      rw (w.named, client_save, c.encoded, do_json, request_target, read_route, w.read)
        (ground (arith, w.escaped, c.decoded))

  remote_entry :
      (s : S.State) (id : String)
      → IsRead codec reader id
      → ((x : Entry F)
          → S.get s (codec.path_escape id) ≡ ok x
          → codec.decode_reply (entry_payload x) ≡ some (entry_payload x))
      → let r = client_entry codec local s id in
        (r.1 ≡ s) × ((e : Entry F) → (r.0 ≡ ok e) ↔ (S.get s (codec.path_escape id) ≡ ok e))
  unfolding client_entry do_json request_target read_route dispatch handle_entry_get refuse reply_ok
  remote_entry s id w d = elim (Result-cases (S.get s (codec.path_escape id))) [
    | inl (x, missing) ↦
        rw (client_entry, do_json, request_target, read_route, w.read)
          (
            ground (arith, w.escaped),
            λ e. (λ a. absurd (ground (arith, w.escaped)), λ a. absurd (cc)),
          )
    | inr (e', found) ↦
        let back = d e' found in
        rw (client_entry, do_json, request_target, read_route, w.read)
          (
            ground (arith, w.escaped),
            λ e. (λ a. ground (arith, w.escaped, back), λ a. ground (arith, w.escaped, back)),
          )
  ]

  -- Over a connection that works, deleting, saving and getting an entry through the daemon do to
  -- its store what Delete, Save and Get do, and succeed when they do, but under the ID as
  -- `url.PathEscape` writes it, since the client escapes the ID a second time and the daemon reads
  -- only one of the two escapes back. Asked for are an entry that JSON encodes and decodes, an ID
  -- that is not empty and that the daemon reads as it was written, and that the entry that is found
  -- can be decoded.
  pub remote_refines :
      (s : S.State) (e : Entry F)
      → IsEncoded codec e
      → IsRead codec reader e.id
      → ((x : Entry F)
          → S.get s (codec.path_escape e.id) ≡ ok x
          → codec.decode_reply (entry_payload x) ≡ some (entry_payload x))
      → let id = codec.path_escape e.id in
        let there = record e { id = id } in
        let deleted = client_delete codec local s e.id in
        let saved = client_save codec local s (some e) in
        let found = client_entry codec local s e.id in
        ((deleted.1 ≡ (S.delete s id).1) × (succeeds deleted.0 ≡ succeeds (S.delete s id).0))
        × ((saved.1 ≡ (save_entry S saver s there).1)
            × (succeeds saved.0 ≡ succeeds (save_entry S saver s there).0))
        × ((found.1 ≡ s) × ((x : Entry F) → (found.0 ≡ ok x) ↔ (S.get s id ≡ ok x)))
  remote_refines s e c w d = (remote_delete s e.id w, remote_save s e c w, remote_entry s e.id w d)

-- The two ways to merge tags are one.
add_tags-merge_tags : (tags ts : List String) → add_tags tags ts ≡ merge_tags tags ts
unfolding add_tags merge_tags
add_tags-merge_tags tags [] = refl
add_tags-merge_tags tags (t ∷ ts) =
    ground (arith, add_tags-merge_tags tags ts, add_tags-merge_tags (tags ++ t ∷ []) ts)

module _ {F : Type 0} ⦃p : Platform F⦄ (S : StoreApi F) (I : IndexApi F) (codec : Codec F)
    (reader : Reader) where
  kept-merge_entries : (keep del : Entry F) → kept_after_merge keep del ≡ merge_entries keep del
  unfolding kept_after_merge merge_entries
  kept-merge_entries keep del = rw (add_tags-merge_tags keep.tags del.tags) refl

  -- Merging two IDs, neither empty, through a daemon that serves a controller
  -- changes the controller's store as its own Merge does, and succeeds when it does, where JSON
  -- carries the two IDs.
  pub remote_merge :
      (em : Embedder F) (now : ℕ) (mc : MemoryController S I) (keep_id delete_id : String)
      (b : Body F)
      → codec.encode_merge keep_id delete_id ≡ some b
      → b.as_merge ≡ some (keep_id, delete_id)
      → (keep_id == "") ≡ false
      → (delete_id == "") ≡ false
      → let daemon = controller_api S I em now in
        let saver = some (controller_saver S I em now) in
        let r = client_merge codec (local daemon saver codec reader) mc keep_id delete_id in
        (r.1.store ≡ (merge S I em mc keep_id delete_id).1.store)
        × (succeeds r.0 ≡ succeeds (merge S I em mc keep_id delete_id).0)
  unfolding client_merge do_json request_target read_route done dispatch handle_merge
      merge_entries_of finish_merge save_entry refuse reply_ok merge merge_into get save do_upsert
      delete
  remote_merge em now mc keep_id delete_id b encoded decoded h k =
      elim (Result-cases (S.get mc.store keep_id)) [
        | inl (x, missing) ↦ ground arith
        | inr (keep, kept) ↦ elim (Result-cases (S.get mc.store delete_id)) [
          | inl (x, missing) ↦ ground arith
          | inr (del, gone) ↦ ground (arith, kept-merge_entries keep del)
        ]
      ]
