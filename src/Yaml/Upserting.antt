-- ===== src/Yaml/Upserting.antt =====
-- `Upsert`: what it refuses, and what the store shows after it.
use mnemonic.Prelude.{
  String, true, false, ◌&&◌, List, Option, none, some, ◌≡◌, ap, ◌∙◌, ◌==◌, ==_sym, eq_iff, arith,
  if◌then◌else◌, Bool-cases, inl, inr, contains,
}
use mnemonic.Prelude.Maps.{keys, contains-keys}
use mnemonic.Platform.{Platform}
use mnemonic.Store.Allowed.{is_allowed_category}
use mnemonic.Store.Entry.{
  Entry, Error, ok, err, scope_global, category_not_allowed, scope_not_configured, generating_id,
}
use mnemonic.Yaml.State.{File, Os, YamlStore}
use mnemonic.Yaml.Changes.{put_entry, with_id, fill, store_entry, upsert}
use mnemonic.Yaml.Files.{file_at}
use mnemonic.Yaml.Lists.{find_id-put_entry, Distinct-put_entry}
use mnemonic.Yaml.Queries.{get}
use mnemonic.Yaml.Rewriting.{stored, stored-Rewrites, stored-IsDistinct, stored-covered}
use mnemonic.Yaml.Single.{IsWf-rewritten, view-rewritten, entry_in-rewritten, Rewrites}
use mnemonic.Yaml.View.{view, IsWf, find_id, entries_of, entry_in, entry_in-cases, only_here}
use mnemonic.Yaml.Reads.{get-view}

module _ {F : Type 0} ⦃p : Platform F⦄ (os : Os F) (s : YamlStore F) (entry : Entry F) where
  -- The scope that the entry goes to.
  abbrev pub target_scope : String
  target_scope = if entry.scope == "" then scope_global else entry.scope

  -- The store, the caller's entry and the result after `Upsert`.
  abbrev pub upserted : YamlStore F
  upserted = (upsert os s entry).2

  -- What `Upsert` refuses an entry for: a category that is not allowed, before a scope that is not
  -- configured, before a failure to make an ID for an entry that has none.
  unfoldable pub refusal : Option Error
  unfolding with_id
  refusal =
      if is_allowed_category entry.category
      then if contains (keys s.contents) target_scope
        then elim (with_id os entry) [ none ↦ some generating_id | some _ ↦ none ]
        else some (scope_not_configured target_scope)
      else some (category_not_allowed entry.category)

  -- A refused entry is reported by its error, and neither the caller's entry nor the store changes.
  pub upsert_refused : (x : Error) → refusal ≡ some x → upsert os s entry ≡ (err x, entry, s)
  unfolding upsert refusal
  upsert_refused x h = ground (arith, contains-keys target_scope s.contents)

  module _ (e : Entry F) (allowed : is_allowed_category entry.category ≡ true)
      (known : contains (keys s.contents) target_scope ≡ true)
      (numbered : with_id os entry ≡ some e) where
    -- The entry that is stored.
    abbrev pub filled : Entry F
    filled = fill os.now e

    abbrev old : List (Entry F)
    old = entries_of (file_at s target_scope filled.category)

    abbrev new_entries : List (Entry F)
    new_entries = put_entry filled old

    new_file : File F
    new_file = elim (file_at s target_scope filled.category) [
      | none ↦ record { version = 1; entries = new_entries }
      | some f ↦ record f { entries = new_entries }
    ]

    entries-new_file : new_file.entries ≡ new_entries
    unfolding new_file
    entries-new_file = ground arith

    -- The store is changed in one file, and the caller's entry is filled in.
    upserted-eq :
        (upserted ≡ stored os s target_scope filled.category new_file)
        × ((upsert os s entry).1 ≡ filled)
    unfolding upsert store_entry stored new_file
    upserted-eq = ground (arith, contains-keys target_scope s.contents)

    upserted-Rewrites : Rewrites s target_scope filled.category new_entries upserted
    upserted-Rewrites sc c = rw upserted-eq.0 (
        stored-Rewrites os s target_scope filled.category new_file sc c
        ∙ ap
            (λ es.
              if target_scope == sc && filled.category == c
              then es
              else entries_of (file_at s sc c))
            entries-new_file)

    module _ (w : IsWf s)
        (apart : (sc c : String)
          → (target_scope == sc && filled.category == c) ≡ false
          → entry_in s sc c filled.id ≡ none) where
      new_apart :
          (id sc c : String) (x : Entry F)
          → find_id id new_entries ≡ some x
          → (target_scope == sc && filled.category == c) ≡ false
          → entry_in s sc c id ≡ none
      new_apart id sc c x h other = elim (Bool-cases (filled.id == id)) [
        | inl same ↦ rw ((eq_iff id filled.id).0 (==_sym id filled.id ∙ same)) (apart sc c other)
        | inr ne ↦
            only_here id s target_scope filled.category sc c x w
              (ground (arith, find_id-put_entry filled id old)) other
      ]

      -- `Upsert` keeps the invariant, unless another file has the ID.
      pub upsert-IsWf : IsWf upserted
      upsert-IsWf =
          IsWf-rewritten s upserted target_scope filled.category new_entries upserted-Rewrites w
            (Distinct-put_entry filled old (w.once target_scope filled.category)) new_apart
            (rw upserted-eq.0
              (stored-IsDistinct os s target_scope filled.category new_file w.distinct))
            (rw upserted-eq.0
              (stored-covered os s target_scope filled.category new_file known w.covered))

      -- `Upsert` on a well-formed store, of an entry with an allowed category, a configured scope
      -- and an ID that no other file has: the store shows the entry with its blanks filled in under
      -- its ID, and every other ID as before, whether or not the file is saved.
      pub view-upsert :
          (j : String) → view upserted j ≡ (if filled.id == j then some filled else view s j)
      view-upsert j =
          rw
            (view-rewritten s upserted target_scope filled.category new_entries upserted-Rewrites j
              w upsert-IsWf)
            (ground (
              arith,
              find_id-put_entry filled j old,
              entry_in-cases j s target_scope filled.category w,
            ))

      pub get-upsert : get upserted filled.id ≡ ok filled
      get-upsert =
          rw (get-view filled.id upserted upsert-IsWf, view-upsert filled.id)
            (ground (arith, eq_iff filled.id filled.id))

    -- `Upsert`, of an entry that it accepts, of an ID that another file of the store has leaves
    -- that entry where it is and adds a second one, so that the store is no longer well-formed.
    pub upsert_duplicates :
        (sc c : String) (x : Entry F)
        → entry_in s sc c filled.id ≡ some x
        → (target_scope == sc && filled.category == c) ≡ false
        → (entry_in upserted sc c filled.id ≡ some x)
          × (entry_in upserted target_scope filled.category filled.id ≡ some filled)
          × (¬ IsWf upserted)
    upsert_duplicates sc c x h other =
        let law = λ (a b : String).
          entry_in-rewritten s upserted target_scope filled.category new_entries upserted-Rewrites a
            b filled.id in
        let there : entry_in upserted sc c filled.id ≡ some x = ground (arith, law sc c) in
        let here : entry_in upserted target_scope filled.category filled.id ≡ some filled = ground (
          arith,
          law target_scope filled.category,
          find_id-put_entry filled filled.id old,
          eq_iff filled.id filled.id,
          eq_iff target_scope target_scope,
          eq_iff filled.category filled.category,
        ) in
        (
          there,
          here,
          λ w'. ground (
            arith,
            w'.one_file filled.id target_scope filled.category sc c filled x here there,
            eq_iff target_scope sc,
            eq_iff filled.category c,
          ),
        )
