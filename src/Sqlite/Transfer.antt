-- ===== src/Sqlite/Transfer.antt =====
-- cmd/mnemonic/sqlite_import.go and sqlite_export.go: the entries of one store are upserted into
-- another, both being open.
use mathlib.Core.Path.{subst}
use mnemonic.Prelude.{
  ℕ, suc, String, false, List, [], ◌∷◌, Option, none, some, ◌≡◌, ◌∙◌, refl, ◌==◌, arith, All,
  nat_eq, Bool-cases, inl, inr, if◌then◌else◌,
}
use mnemonic.Platform.{Platform, float_zero}
use mnemonic.Store.Entry.{Entry, Error, Result, ok, err, wrapped, Result-cases, scope_global}
use mnemonic.Store.Allowed.{Mandatory, is_allowed_category}
use mnemonic.Controller.Interface.{StoreApi}
use mnemonic.Sqlite.State.{Db}
use mnemonic.Sqlite.Rows.{sanitize_tags}
use mnemonic.Sqlite.Queries.{get}
use mnemonic.Sqlite.Changes.{with_id, fill, upsert_entry}
use mnemonic.Sqlite.Upserting.{CanRead, get-upsert}
use mnemonic.Sqlite.Api.{Session, sqlite_api}

module _ {F : Type 0} where
  -- The loop: the errors that it joins, and the store.
  unfoldable pub copy_from : (S : StoreApi F) → S.State → List (Entry F) → List Error × S.State
  copy_from S s [] = ([], s)
  copy_from S s (e ∷ es) =
      let (r, e', s') = S.upsert s e in
      let (errors, s'') = copy_from S s' es in (elim r [ err x ↦ x ∷ errors | ok _ ↦ errors ], s'')

  -- `Run` of both commands, once the stores are open: from `A` to `B`.
  unfoldable pub transfer :
      (A B : StoreApi F) → A.State → B.State → Result (List Error) × A.State × B.State
  unfolding copy_from
  transfer A B a b =
      let (r, a') = A.all_in a [] in
      elim r [
        | err x ↦ (err (wrapped "retrieving entries" x), a', b)
        | ok entries ↦ let (errors, b') = copy_from B b entries in (ok errors, a', b')
      ]

-- The last entry of an ID.
abbrev pub last_with : {F : Type 0} → String → List (Entry F) → Option (Entry F)
last_with id [] = none
last_with id (e ∷ es) = elim (last_with id es) [
  | some x ↦ some x
  | none ↦ if e.id == id then some e else none
]

module _ {F : Type 0} ⦃p : Platform F⦄ where
  -- An entry with an ID and a time of creation.
  pub record IsDated (e : Entry F) : Type 0 where
    pub named : (e.id == "") ≡ false
    pub dated : nat_eq e.created 0 ≡ false

  -- What is stored of it: a blank scope becomes the global one, and a score of zero becomes one.
  abbrev pub imported : Db F → Entry F → Entry F
  imported reading e = record e {
    scope = if e.scope == "" then "global" else e.scope;
    score = if p.eq e.score float_zero then p.literal 1 0 else e.score;
    tags = sanitize_tags reading e.tags;
  }

  filled_as :
      (db reading : Db F) (s : Session F) (e : Entry F)
      → IsDated e
      → (upsert_entry db s.store e).0 ≡ ok tt
      → let filled = (upsert_entry db s.store e).1 in
        (filled.id ≡ e.id)
        × (record filled { tags = sanitize_tags reading filled.tags } ≡ imported reading e)
  unfolding upsert_entry with_id fill scope_global
  filled_as db reading s e k h = elim (Bool-cases (is_allowed_category e.category)) [
    | inr refused ↦ absurd (ground arith)
    | inl allowed ↦ rw (allowed, upsert_entry, k.named, with_id, fill, k.dated) (refl, refl)
  ]

  module _ (m : Mandatory) (reading : Db F) where
    -- What Get finds in the store after a copy: the last entries of the list, and what was there.
    abbrev copied : List (Entry F) → Session F → String → Result (Entry F)
    copied es r id = elim (last_with id es) [
      | none ↦ get reading r.store id
      | some e ↦ ok (imported reading e)
    ]

    get-copy_from :
        (es : List (Entry F)) (r : Session F)
        → ((n : ℕ) → CanRead (r.calls n) reading)
        → All IsDated es
        → (copy_from (sqlite_api m) r es).0 ≡ []
        → (id : String) → get reading (copy_from (sqlite_api m) r es).1.store id ≡ copied es r id
    unfolding copy_from
    get-copy_from [] r c k h id = refl
    get-copy_from (e ∷ es) r c k h id = elim (Result-cases (upsert_entry (r.calls 0) r.store e).0) [
      | inl (x, failed) ↦ absurd (ground arith)
      | inr (done, f) ↦
          let next : Session F = record {
            store = (upsert_entry (r.calls 0) r.store e).2;
            calls = λ n. r.calls (suc n);
          } in
          let rest = get-copy_from es next (λ n. c (suc n)) k.1 (ground arith) id in
          let (same_id, same) = filled_as (r.calls 0) reading r e k.0 f in
          let here : get reading next.store id
              ≡ (if e.id == id then ok (imported reading e) else get reading r.store id) =
            subst
              (λ (x : Entry F).
                get reading next.store id ≡ (if e.id == id then ok x else get reading r.store id))
              same
              (subst
                (λ (i : String). get reading next.store id ≡ (
                  if i == id
                  then ok (record (upsert_entry (r.calls 0) r.store e).1 {
                    tags = sanitize_tags reading (upsert_entry (r.calls 0) r.store e).1.tags;
                  })
                  else get reading r.store id))
                same_id (get-upsert (r.calls 0) reading (c 0) r.store e id f)) in
          rest ∙ ground (arith, here)
    ]

    -- When a transfer into the SQLite store reports no error, and each entry that the source gives
    -- has an ID and a time of creation, then Get finds under each of their IDs the last of the
    -- entries with that ID, in the global scope if it has none, with its tags sanitized, and with a
    -- score of one in place of a score of zero; and under every other ID what it found before.
    pub get-transfer :
        (A : StoreApi F) (a : A.State) (r : Session F) (entries : List (Entry F))
        → (A.all_in a []).0 ≡ ok entries
        → ((n : ℕ) → CanRead (r.calls n) reading)
        → All IsDated entries
        → (transfer A (sqlite_api m) a r).0 ≡ ok []
        → (id : String)
        → get reading (transfer A (sqlite_api m) a r).2.store id ≡ (elim (last_with id entries) [
          | none ↦ get reading r.store id
          | some e ↦ ok (imported reading e)
        ])
    unfolding transfer
    get-transfer A a r entries q c k h id =
        let clean : (copy_from (sqlite_api m) r entries).0 ≡ [] = ground (arith, q) in
        rw (q, transfer) (get-copy_from entries r c k clean id)
