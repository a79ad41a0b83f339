-- ===== src/Yaml/Reach.antt =====
-- The calls of the store in any order, each with whatever the operating system does.
use mnemonic.Prelude.{
  ℕ, String, true, false, ◌&&◌, List, none, some, ◌≡◌, refl, ◌==◌, arith, Option-cases, Bool-cases,
  inl, inr, contains,
}
use mnemonic.Prelude.Maps.{keys, contains-keys}
use mnemonic.Platform.{Platform}
use mnemonic.Store.Allowed.{is_allowed_category}
use mnemonic.Store.Entry.{Entry}
use mnemonic.Yaml.State.{Os, YamlStore, files_of, remove_at}
use mnemonic.Yaml.Changes.{with_id, fill, locate_outside, rewrite, upsert, delete, score, promote}
use mnemonic.Yaml.Queries.{finish, all_in, all_by_category, query_by_category, query}
use mnemonic.Yaml.Flush.{flagged, flush_pairs, flush, close}
use mnemonic.Yaml.View.{IsWf, entry_in}
use mnemonic.Yaml.Single.{IsWf-same}
use mnemonic.Yaml.Upserting.{target_scope, refusal, upsert_refused, upsert-IsWf}
use mnemonic.Yaml.Removal.{delete-IsWf}
use mnemonic.Yaml.Scoring.{score-IsWf}
use mnemonic.Yaml.Promotion.{promote_unconfigured, promote_missing, rolled_back-IsWf, promote-IsWf}
use mnemonic.Yaml.Hits.{mark_hits-IsWf}
use mnemonic.Yaml.Sync.{flush_pairs-contents, Result-cases}

module _ {F : Type 0} ⦃p : Platform F⦄ where
  -- The ID that `Upsert` stores the entry under stands in no file but the one it goes to.
  abbrev pub IsFresh : Os F → YamlStore F → Entry F → Type 0
  IsFresh os s entry =
      (e : Entry F)
      → with_id os entry ≡ some e
      → (sc c : String) → (target_scope os s entry == sc && (fill os.now e).category == c) ≡ false
      → entry_in s sc c (fill os.now e).id ≡ none

  -- One call: from a store to the store after it.
  pub data Step (s : YamlStore F) : YamlStore F → Type 0 where
    upserting : (os : Os F) (entry : Entry F) → IsFresh os s entry → Step s (upsert os s entry).2
    deleting : (os : Os F) (id : String) → Step s (delete os s id).1
    scoring : (os : Os F) (id : String) (delta : F) → Step s (score os s id delta).1
    promoting : (os : Os F) (id target : String) → Step s (promote os s id target).1
    listing : (os : Os F) (scopes : List String) → Step s (all_in os s scopes).1
    listing_category :
        (os : Os F) (category : String) (top_k : ℕ) (scopes : List String)
        → Step s (all_by_category os s category top_k scopes).1
    searching :
        (os : Os F) (category q : String) (top_k : ℕ) (scopes : List String)
        → Step s (query_by_category os s category q top_k scopes).1
    querying :
        (os : Os F) (category : String) (tags : List String) → Step s (query os s category tags).1
    flushing : (os : Os F) → Step s (flush os s).1
    closing : (os : Os F) → Step s (close os s).1

  -- Any number of calls.
  pub data Reach (s : YamlStore F) : YamlStore F → Type 0 where
    here : Reach s s
    call : {t u : YamlStore F} → Reach s t → Step t u → Reach s u

  -- An entry that is not refused has an allowed category, a configured scope and an ID.
  accepted_lem :
      (os : Os F) (s : YamlStore F) (entry : Entry F)
      → refusal os s entry ≡ none
      → (is_allowed_category entry.category ≡ true)
        × (contains (keys s.contents) (target_scope os s entry) ≡ true)
        × ((e : Entry F) × (with_id os entry ≡ some e))
  unfolding refusal
  accepted_lem os s entry h = elim (Option-cases (with_id os entry)) [
    | inl n ↦ absurd (ground arith)
    | inr (e, k) ↦ (ground arith, ground arith, (e, k))
  ]

  IsWf-same_maps : (s t : YamlStore F) → t.contents ≡ s.contents → t.dirs ≡ s.dirs → IsWf s → IsWf t
  unfolding files_of
  IsWf-same_maps s t same dirs w =
      IsWf-same s t (λ sc c. rw same) w (rw same w.distinct) (λ sc. rw (same, dirs) (w.covered sc))

  module _ (os : Os F) (s : YamlStore F) (w : IsWf s) where
    upserting-IsWf : (entry : Entry F) → IsFresh os s entry → IsWf (upsert os s entry).2
    upserting-IsWf entry fresh = elim (Option-cases (refusal os s entry)) [
      | inr (x, refused) ↦ rw (upsert_refused os s entry x refused) w
      | inl accepted ↦
          let (allowed, known, (e, numbered)) = accepted_lem os s entry accepted in
          upsert-IsWf os s entry e allowed known numbered w (fresh e numbered)
    ]

    promoting-IsWf : (id target : String) → IsWf (promote os s id target).1
    promoting-IsWf id target = elim (Bool-cases (contains (keys s.contents) target)) [
      | inr n ↦
          rw (promote_unconfigured os s id target (ground (arith, contains-keys target s.contents)))
            w
      | inl known ↦ elim (Option-cases (locate_outside id target s.contents)) [
        | inl none_found ↦ rw (promote_missing os s id target known none_found) w
        | inr (place, found) ↦
            elim (Result-cases os
              (rewrite os s place (remove_at place.index place.file.entries)).0) [
                | inl removed ↦ promote-IsWf os s id target w known place found removed
                | inr (x, failed) ↦ rolled_back-IsWf os s id target w known place found x failed
              ]
      ]
    ]

    flushing-IsWf : IsWf (flush os s).1
    unfolding flush
    flushing-IsWf =
        let (same, dirs) = flush_pairs-contents os (flagged s.dirty) s in
        IsWf-same_maps s (flush_pairs os (flagged s.dirty) s).1 same dirs w

  -- The first `Close` is a `flush` of the closed store.
  close_running :
      (os : Os F) (s : YamlStore F)
      → s.closed ≡ false
      → close os s ≡ flush os (record s { closed = true })
  unfolding close
  close_running os s h = ground arith

  close_done : (os : Os F) (s : YamlStore F) → s.closed ≡ true → (close os s).1 ≡ s
  unfolding close
  close_done os s h = ground arith

  closing-IsWf : (os : Os F) (s : YamlStore F) → IsWf s → IsWf (close os s).1
  closing-IsWf os s w = elim (Bool-cases s.closed) [
    | inl done ↦ rw (close_done os s done) w
    | inr running ↦
        let t = record s { closed = true } in
        rw (close_running os s running) (flushing-IsWf os t (IsWf-same_maps s t refl refl w))
  ]

  -- Each call keeps the invariant, whatever it returns.
  pub Step-IsWf : {s t : YamlStore F} → Step s t → IsWf s → IsWf t
  unfolding all_in all_by_category query_by_category query finish
  Step-IsWf {s = s} (upserting os entry fresh) w = upserting-IsWf os s w entry fresh
  Step-IsWf {s = s} (deleting os id) w = delete-IsWf os s id w
  Step-IsWf {s = s} (scoring os id delta) w = score-IsWf os s id delta w
  Step-IsWf {s = s} (promoting os id target) w = promoting-IsWf os s w id target
  Step-IsWf {s = s} (listing os scopes) w = mark_hits-IsWf os.now (all_in os s scopes).0 s w
  Step-IsWf {s = s} (listing_category os category top_k scopes) w =
      mark_hits-IsWf os.now (all_by_category os s category top_k scopes).0 s w
  Step-IsWf {s = s} (searching os category q top_k scopes) w =
      mark_hits-IsWf os.now (query_by_category os s category q top_k scopes).0 s w
  Step-IsWf {s = s} (querying os category tags) w =
      mark_hits-IsWf os.now (query os s category tags).0 s w
  Step-IsWf {s = s} (flushing os) w = flushing-IsWf os s w
  Step-IsWf {s = s} (closing os) w = closing-IsWf os s w

  -- The invariant holds after any number of calls on a store that has it, whether the calls
  -- succeed or fail, as long as each `Upsert` stores under an ID that no other file has.
  pub Reach-IsWf : {s t : YamlStore F} → Reach s t → IsWf s → IsWf t
  Reach-IsWf here w = w
  Reach-IsWf (call reached step) w = Step-IsWf step (Reach-IsWf reached w)
