-- ===== src/Yaml/Lists.antt =====
-- The edits that the methods make to the entries of one file, by what a search for an ID finds.
use mnemonic.Prelude.{
  ℕ, zero, suc, String, false, ◌||◌, List, [], ◌∷◌, ◌++◌, none, some, ◌≡◌, refl, ◌==◌, eq_iff,
  arith, if◌then◌else◌, contains,
}
use mnemonic.Prelude.Maps.{Distinct}
use mnemonic.Store.Entry.{Entry}
use mnemonic.Platform.{Platform}
use mnemonic.Yaml.State.{index_of, remove_at, modify_at, insert_at, get_elem?}
use mnemonic.Yaml.Changes.{put_entry}
use mnemonic.Yaml.View.{ids, find_id}

module _ {F : Type 0} where
  -- A search finds an entry exactly when the ID is among the IDs.
  pub find_id-contains :
      (id : String) (es : List (Entry F)) → contains (ids es) id ≡ false → find_id id es ≡ none
  find_id-contains id [] h = refl
  find_id-contains id (x ∷ xs) h = ground (arith, find_id-contains id xs)

  pub contains-find_id :
      (id : String) (es : List (Entry F)) → find_id id es ≡ none → contains (ids es) id ≡ false
  contains-find_id id [] h = refl
  contains-find_id id (x ∷ xs) h = ground (arith, contains-find_id id xs)

  pub find_id-eq_id :
      (id : String) (es : List (Entry F)) (e : Entry F) → find_id id es ≡ some e → e.id ≡ id
  find_id-eq_id id [] e h = cc
  find_id-eq_id id (x ∷ xs) e h = ground (arith, find_id-eq_id id xs e, eq_iff x.id id)

  module _ (id : String) where
    contains-remove_at :
        (j : String) (es : List (Entry F)) (i : ℕ)
        → contains (ids es) j ≡ false
        → contains (ids (remove_at i es)) j ≡ false
    unfolding remove_at
    contains-remove_at j [] i h = refl
    contains-remove_at j (x ∷ xs) zero h = ground arith
    contains-remove_at j (x ∷ xs) (suc i) h = ground (arith, contains-remove_at j xs i)

    pub Distinct-remove_at :
        (es : List (Entry F)) (i : ℕ) → Distinct (ids es) → Distinct (ids (remove_at i es))
    unfolding remove_at
    Distinct-remove_at [] i d = tt
    Distinct-remove_at (x ∷ xs) zero d = d.1
    Distinct-remove_at (x ∷ xs) (suc i) d =
        (contains-remove_at x.id xs i d.0, Distinct-remove_at xs i d.1)

    -- Removing the entry of an ID that occurs once.
    pub find_id-remove_at :
        (j : String) (es : List (Entry F)) (i : ℕ)
        → index_of id es ≡ some i
        → Distinct (ids es)
        → find_id j (remove_at i es) ≡ (if id == j then none else find_id j es)
    unfolding index_of remove_at
    find_id-remove_at j [] i h d = cc
    find_id-remove_at j (x ∷ xs) zero h d =
        ground (arith, eq_iff x.id id, eq_iff x.id j, eq_iff id j, find_id-contains x.id xs d.0)
    find_id-remove_at j (x ∷ xs) (suc i) h d =
        ground (arith, find_id-remove_at j xs i, eq_iff x.id id, eq_iff x.id j, eq_iff id j)

    pub ids-modify_at :
        (g : Entry F → Entry F) (es : List (Entry F)) (i : ℕ)
        → ((e : Entry F) → (g e).id ≡ e.id)
        → ids (modify_at i g es) ≡ ids es
    unfolding modify_at
    ids-modify_at g [] i h = refl
    ids-modify_at g (x ∷ xs) zero h = rw (h x)
    ids-modify_at g (x ∷ xs) (suc i) h = rw (ids-modify_at g xs i h)

    -- Changing the entry of an ID, but not its ID.
    pub find_id-modify_at :
        (g : Entry F → Entry F) (j : String) (es : List (Entry F)) (i : ℕ) (e : Entry F)
        → ((x : Entry F) → (g x).id ≡ x.id)
        → index_of id es ≡ some i
        → get_elem? es i ≡ some e
        → find_id j (modify_at i g es) ≡ (if id == j then some (g e) else find_id j es)
    unfolding index_of modify_at get_elem?
    find_id-modify_at g j [] i e k h n = cc
    find_id-modify_at g j (x ∷ xs) zero e k h n =
        ground (arith, k x, eq_iff x.id id, eq_iff x.id j, eq_iff id j)
    find_id-modify_at g j (x ∷ xs) (suc i) e k h n =
        ground (arith, find_id-modify_at g j xs i e k, eq_iff x.id id, eq_iff x.id j, eq_iff id j)

    -- Putting back what was removed gives the file that was.
    pub insert_at-remove_at :
        (es : List (Entry F)) (i : ℕ) (e : Entry F)
        → get_elem? es i ≡ some e
        → insert_at i e (remove_at i es) ≡ es
    unfolding insert_at remove_at get_elem?
    insert_at-remove_at [] i e h = cc
    insert_at-remove_at (x ∷ xs) zero e h = ground arith
    insert_at-remove_at (x ∷ xs) (suc i) e h = ground (arith, insert_at-remove_at xs i e)

  contains-append_ids :
      (j : String) (es : List (Entry F)) (e : Entry F)
      → contains (ids (es ++ e ∷ [])) j ≡ (contains (ids es) j || e.id == j)
  contains-append_ids j [] e = ground arith
  contains-append_ids j (x ∷ xs) e = ground (arith, contains-append_ids j xs e)

  -- A new ID at the end of a file.
  pub Distinct-append :
      (es : List (Entry F)) (e : Entry F)
      → Distinct (ids es)
      → find_id e.id es ≡ none
      → Distinct (ids (es ++ e ∷ []))
  Distinct-append [] e d h = (refl, tt)
  Distinct-append (x ∷ xs) e d h = ground (
    arith,
    Distinct-append xs e d.1,
    contains-append_ids x.id xs e,
    eq_iff x.id e.id,
    eq_iff e.id x.id,
  )

  module _ ⦃p : Platform F⦄ (e : Entry F) where
    pub find_id-put_entry :
        (j : String) (es : List (Entry F))
        → find_id j (put_entry e es) ≡ (if e.id == j then some e else find_id j es)
    unfolding put_entry
    find_id-put_entry j [] = refl
    find_id-put_entry j (x ∷ xs) =
        ground (arith, find_id-put_entry j xs, eq_iff x.id e.id, eq_iff x.id j, eq_iff e.id j)

    contains-put_entry :
        (j : String) (es : List (Entry F))
        → contains (ids (put_entry e es)) j ≡ ((e.id == j) || contains (ids es) j)
    unfolding put_entry
    contains-put_entry j [] = ground arith
    contains-put_entry j (x ∷ xs) =
        ground (arith, contains-put_entry j xs, eq_iff x.id e.id, eq_iff x.id j, eq_iff e.id j)

    pub Distinct-put_entry :
        (es : List (Entry F)) → Distinct (ids es) → Distinct (ids (put_entry e es))
    unfolding put_entry
    Distinct-put_entry [] d = (refl, tt)
    Distinct-put_entry (x ∷ xs) d = ground (
      arith,
      Distinct-put_entry xs,
      contains-put_entry x.id xs,
      eq_iff x.id e.id,
      eq_iff e.id x.id,
    )
