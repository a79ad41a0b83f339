-- ===== src/Sqlite/Adding.antt =====
-- The server's `handleAdd` over the SQLite store.
use mnemonic.Prelude.{
  ℕ, String, false, ◌≡◌, refl, ap, ◌∙◌, ◌==◌, eq_iff, arith, if◌then◌else◌, Bool-cases, inl, inr,
}
use mnemonic.Platform.{Platform}
use mnemonic.Store.Entry.{Entry, ok, Result-cases}
use mnemonic.Store.Allowed.{Mandatory, is_allowed_category}
use mnemonic.Sqlite.State.{Db, SqliteStore}
use mnemonic.Sqlite.Rows.{sanitize_tags}
use mnemonic.Sqlite.Queries.{get}
use mnemonic.Sqlite.Changes.{generate_id, with_id, fill, upsert_entry}
use mnemonic.Sqlite.Upserting.{CanRead, get-upsert}
use mnemonic.Sqlite.Api.{Session, sqlite_api}
use mnemonic.Server.Model.{AddInput, AddOutput}
use mnemonic.Server.Handlers.{entry_of, handle_add}

scope_given :
    (G : Type 0) ⦃q : Platform G⦄ (today : String) (input : AddInput)
    → ((entry_of ⦃p = q⦄ today input).scope == "") ≡ false
unfolding entry_of
scope_given G today input = elim (Bool-cases (input.scope == "")) [
  | inl missing ↦ rw missing refl
  | inr given ↦ rw given given
]

module _ {F : Type 0} ⦃p : Platform F⦄ where
  -- What numbering an entry and filling it in keep of it.
  abbrev Keeps : Entry F → Entry F → Type 0
  Keeps e filled =
      (filled.content ≡ e.content)
      × (filled.category ≡ e.category)
      × (filled.tags ≡ e.tags)
      × ((e.scope == "") ≡ false → filled.scope ≡ e.scope)

  numbered-Keeps :
      (db : Db F) (e numbered : Entry F) → with_id db e ≡ ok numbered → Keeps e numbered
  unfolding with_id
  numbered-Keeps db e numbered h = elim (Result-cases (generate_id db)) [
    | inl (x, failed) ↦ ground arith
    | inr (id, done) ↦ ground arith
  ]

  filled-Keeps : (now : ℕ) (e numbered : Entry F) → Keeps e numbered → Keeps e (fill now numbered)
  unfolding fill
  filled-Keeps now e numbered (c, g, t, sc) = (c, g, t, λ k. let same = sc k in ground arith)

  upserted-Keeps :
      (db : Db F) (s : SqliteStore F) (e : Entry F)
      → (upsert_entry db s e).0 ≡ ok tt
      → Keeps e (upsert_entry db s e).1
  unfolding upsert_entry
  upserted-Keeps db s e h = elim (Bool-cases (is_allowed_category e.category)) [
    | inr refused ↦ absurd (ground arith)
    | inl allowed ↦ elim (Result-cases (with_id db e)) [
      | inl (x, failed) ↦ absurd (ground arith)
      | inr (numbered, done) ↦
          let same : (upsert_entry db s e).1 ≡ fill db.now numbered = ground arith in
          rw same (filled-Keeps db.now e numbered (numbered-Keeps db e numbered done))
    ]
  ]

  module _ (m : Mandatory) (reading : Db F) (r : Session F) (c : CanRead (r.calls 0) reading) where
    -- When `mnemonic_add` over the SQLite store reports success, `Get` finds under the ID that it
    -- answers an entry with the content, the category and the sanitized tags of the request, in the
    -- scope that it answers, "project" where the request names none.
    pub get-handle_add :
        (today : String) (input : AddInput) (out : AddOutput)
        → (handle_add (sqlite_api m) today r input).0 ≡ ok out
        → (e : Entry F) × (get reading (handle_add (sqlite_api m) today r input).1.store out.id
            ≡ ok e)
          × (e.content ≡ input.content)
          × (e.category ≡ input.category)
          × (e.tags ≡ sanitize_tags reading input.tags)
          × (e.scope ≡ out.scope)
          × (out.scope ≡ (if input.scope == "" then "project" else input.scope))
    unfolding handle_add entry_of
    get-handle_add today input out h =
        let s = r.store in
        let db = r.calls 0 in
        let e : Entry F = entry_of today input in
        let filled = (upsert_entry db s e).1 in
        let (kc, kg, kt, ks) = upserted-Keeps db s e (ground arith) in
        let found = get-upsert db reading c s e filled.id (ground arith) in
        let named : out.id ≡ filled.id = ground arith in
        (
          record filled { tags = sanitize_tags reading filled.tags },
          rw named (ground (arith, found, eq_iff filled.id filled.id)),
          kc,
          kg,
          ap (sanitize_tags reading) kt,
          ks (scope_given F today input) ∙ ground arith,
          ground arith,
        )
