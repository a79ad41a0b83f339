-- ===== src/Sqlite/Hits.antt =====
-- sqlite.go: `markHits`, the transaction that counts the hits of a query.
use mnemonic.Prelude.{
  ◌+◌, String, true, false, ◌&&◌, List, [], ◌∷◌, map, none, some, ◌≡◌, refl, eq_iff, arith,
  contains, Bool-cases, Option-cases, inl, inr, if◌then◌else◌,
}
use mnemonic.Prelude.Maps.{Distinct}
use mnemonic.Store.Entry.{Entry, Result, ok, err, Result-cases}
use mnemonic.Sqlite.State.{Row, Db, SqliteStore, begin_transaction, commit_transaction, update_hits}
use mnemonic.Sqlite.Rows.{find_row}
use mnemonic.Sqlite.Queries.{update_rows, hit_row, seen_ids, hit_all, transact, mark_hits}
use mnemonic.Sqlite.Table.{row_ids, find_row-update_rows, row_ids-update_rows}

abbrev entry_ids : {F : Type 0} → List (Entry F) → List String
entry_ids es = map (λ e. e.id) es

module _ {F : Type 0} where
  contains-seen_ids :
      (id : String) (seen : List String) (es : List (Entry F))
      → contains seen id ≡ false
      → contains (seen_ids seen es) id ≡ contains (entry_ids es) id
  unfolding seen_ids
  contains-seen_ids id seen [] h = refl
  contains-seen_ids id seen (e ∷ es) h =
      ground (
        arith,
        contains-seen_ids id seen es h,
        contains-seen_ids id (e.id ∷ seen) es,
        eq_iff e.id id,
      )

  absent-seen_ids :
      (id : String) (seen : List String) (es : List (Entry F))
      → contains seen id ≡ true
      → contains (seen_ids seen es) id ≡ false
  unfolding seen_ids
  absent-seen_ids id seen [] h = refl
  absent-seen_ids id seen (e ∷ es) h =
      ground
        (arith, absent-seen_ids id seen es h, absent-seen_ids id (e.id ∷ seen) es, eq_iff e.id id)

  Distinct-seen_ids : (seen : List String) (es : List (Entry F)) → Distinct (seen_ids seen es)
  unfolding seen_ids
  Distinct-seen_ids seen [] = tt
  Distinct-seen_ids seen (e ∷ es) = ground (
    arith,
    Distinct-seen_ids seen es,
    Distinct-seen_ids (e.id ∷ seen) es,
    absent-seen_ids e.id (e.id ∷ seen) es,
    eq_iff e.id e.id,
  )

  module _ (db : Db F) where
    hit_id : (r : Row F) → (hit_row db.now r).id ≡ r.id
    unfolding hit_row
    hit_id r = refl

    find_row-hit_all :
        (id : String) (ids : List String) (rows hit : List (Row F))
        → Distinct ids
        → hit_all db ids rows ≡ ok hit
        → find_row id hit ≡ elim (find_row id rows) [
          | none ↦ none
          | some r ↦ some (if contains ids id then hit_row db.now r else r)
        ]
    unfolding hit_all
    find_row-hit_all id [] rows hit d h = ground arith
    find_row-hit_all id (i ∷ is) rows hit d h = elim (Option-cases (db.failure (update_hits i))) [
      | inr (x, failed) ↦ absurd (ground arith)
      | inl runs ↦
          let rest =
            find_row-hit_all id is (update_rows i (hit_row db.now) rows) hit d.1 (ground arith) in
          ground (arith, rest, find_row-update_rows (hit_row db.now) hit_id i id rows, eq_iff i id)
    ]

    row_ids-hit_all :
        (ids : List String) (rows hit : List (Row F))
        → hit_all db ids rows ≡ ok hit
        → row_ids hit ≡ row_ids rows
    unfolding hit_all
    row_ids-hit_all [] rows hit h = ground arith
    row_ids-hit_all (i ∷ is) rows hit h = elim (Option-cases (db.failure (update_hits i))) [
      | inr (x, failed) ↦ absurd (ground arith)
      | inl runs ↦ ground (
        arith,
        row_ids-hit_all is (update_rows i (hit_row db.now) rows) hit (ground arith),
        row_ids-update_rows (hit_row db.now) hit_id i rows,
      )
    ]

    -- A row after `markHits`, as the caller expects it.
    abbrev pub IsHitOnce : List (Entry F) → SqliteStore F → SqliteStore F → String → Type 0
    IsHitOnce es s s' id = find_row id s'.rows ≡ elim (find_row id s.rows) [
      | none ↦ none
      | some r ↦ some (
          if s.auto_hit_counting && contains (entry_ids es) id
          then (record r { hit_count = r.hit_count + 1; last_hit = db.now })
          else r)
    ]

    -- What `markHits` may come to.
    abbrev pub IsAtomic :
        List (Entry F) → SqliteStore F → Result (Unit {0}) × SqliteStore F → Type 0
    IsAtomic es s (err _, s') = s' ≡ s
    IsAtomic es s (ok _, s') = (id : String) → IsHitOnce es s s' id

    transact-IsAtomic :
        (es : List (Entry F)) (s : SqliteStore F)
        → s.auto_hit_counting ≡ true
        → IsAtomic es s (transact db (seen_ids [] es) s)
    unfolding transact
    transact-IsAtomic es s counting = elim (Option-cases (db.failure begin_transaction)) [
      | inr (x, failed) ↦ ground arith
      | inl begun ↦ elim (Result-cases (hit_all db (seen_ids [] es) s.rows)) [
        | inl (x, failed) ↦ ground arith
        | inr (rows, done) ↦ elim (Option-cases (db.failure commit_transaction)) [
          | inr (x, failed) ↦ ground arith
          | inl committed ↦
              let eqn : transact db (seen_ids [] es) s ≡ (ok tt, record s { rows = rows }) =
                ground arith in
              rw eqn (λ id. ground (
                arith,
                find_row-hit_all id (seen_ids [] es) s.rows rows (Distinct-seen_ids [] es) done,
                contains-seen_ids id [] es,
              ))
        ]
      ]
    ]

    -- Where `markHits` reports an error the store is as it was. Otherwise each entry among the hits
    -- has one more hit at the time of the call, though it occurs twice, and no other row changes.
    pub mark_hits-IsAtomic :
        (es : List (Entry F)) (s : SqliteStore F) → IsAtomic es s (mark_hits db es s)
    unfolding mark_hits
    mark_hits-IsAtomic [] s = λ id. ground arith
    mark_hits-IsAtomic (e ∷ es) s = elim (Bool-cases s.auto_hit_counting) [
      | inl counting ↦
          let eqn : mark_hits db (e ∷ es) s ≡ transact db (seen_ids [] (e ∷ es)) s = ground arith in
          rw eqn (transact-IsAtomic (e ∷ es) s counting)
      | inr off ↦
          let eqn : mark_hits db (e ∷ es) s ≡ (ok tt, s) = ground arith in
          rw eqn (λ id. ground arith)
    ]

    -- The IDs of the table stay, whatever fails.
    pub row_ids-mark_hits :
        (es : List (Entry F)) (s : SqliteStore F)
        → row_ids (mark_hits db es s).1.rows ≡ row_ids s.rows
    unfolding mark_hits transact
    row_ids-mark_hits [] s = refl
    row_ids-mark_hits (e ∷ es) s = elim (Result-cases (hit_all db (seen_ids [] (e ∷ es)) s.rows)) [
      | inl (x, failed) ↦ ground arith
      | inr (rows, done) ↦ ground (arith, row_ids-hit_all (seen_ids [] (e ∷ es)) s.rows rows done)
    ]
