-- ===== src/Tests/VectorTests.antt =====
-- The theorems on the index of vectors, and on a controller over it.
use mnemonic.Prelude.{
  ℕ, suc, ◌≤◌, max, String, false, List, [], ◌∷◌, map, Option, none, some, ◌≡◌, refl, ◌==◌, eq_iff,
  arith, any, nat_eq, contains, All, length, Bool-cases, inl, inr, if◌then◌else◌,
}
use mnemonic.Config.State.{pos}
use mnemonic.Store.Entry.{Entry, Result, ok, err, external, not_found}
use mnemonic.Controller.State.{MemoryController}
use mnemonic.Controller.Changes.{save, delete}
use mnemonic.Hnsw.Manager.{has_size}
use mnemonic.Sqlite.Queries.{get}
use mnemonic.Sqlite.Rows.{sanitize_tags}
use mnemonic.Sqlite.Changes.{upsert_entry}
use mnemonic.Sqlite.Api.{sqlite_api}
use mnemonic.Vectors.Index.{IdRow, VecDb, VecIndex, find_rowid, lookup_vector}
use mnemonic.Vectors.Manager.{build_indexes}
use mnemonic.Vectors.Lookup.{IsIndexed, VecLaws}
use mnemonic.Vectors.Insertion.{IsStorable}
use mnemonic.Vectors.Building.{has_vector, build_indexes_exact}
use mnemonic.Vectors.Api.{vec_api}
use mnemonic.Vectors.Saving.{lookup-save, lookup-delete}
use mnemonic.Tests.Sample.{sample, first, second}
use mnemonic.Tests.SqliteTests.{db, store, can_read}
use mnemonic.Tests.ControllerTests.{rules, embedder}

-- The rowid of a new row: one more than the largest.
abbrev next_rowid : List IdRow → ℕ
next_rowid [] = 1
next_rowid (x ∷ xs) = max (suc x.rowid) (next_rowid xs)

next_rowid_fresh :
    (n : ℕ) (rows : List IdRow) → next_rowid rows ≤ n → any (λ x. nat_eq x.rowid n) rows ≡ false
next_rowid_fresh n [] h = refl
next_rowid_fresh n (x ∷ rows) h = ground (arith, next_rowid_fresh n rows)

-- Only the vectors 1 and 2 have a text.
abbrev write_vector : List ℕ → Result String
write_vector [] = err (external "empty")
write_vector (x ∷ xs) = elim xs [
  | [] ↦ if nat_eq x 1 then ok "1" else if nat_eq x 2 then ok "2" else err (external "unexpected")
  | _ ∷ _ ↦ err (external "too long")
]

abbrev read_vector : String → Option (List ℕ)
read_vector text = some ((if text == "1" then 1 else 2) ∷ [])

abbrev vectors_db : VecDb ℕ String
vectors_db = record {
  failure = λ s. none;
  close_failure = none;
  new_rowid = next_rowid;
  encode_vector = write_vector;
  decode_vector = read_vector;
  vec1_from_json = λ text. some text;
  vec1_to_json = λ b. b;
  vec1_cos_distance = λ a b. 0;
  nearest = λ b k rows. rows;
  open_tables = λ path. ok ([], []);
}

read_back :
    (v : List ℕ) (json b : String)
    → write_vector v ≡ ok json
    → some json ≡ some b
    → read_vector b ≡ some v
read_back [] json b h g = absurd (ground arith)
read_back (x ∷ []) json b h g = elim (Bool-cases (nat_eq x 1)) [
  | inl one ↦ let p : b ≡ "1" = ground arith in rw p (ground arith)
  | inr other ↦ elim (Bool-cases (nat_eq x 2)) [
    | inl two ↦ let p : b ≡ "2" = ground arith in rw p (ground arith)
    | inr neither ↦ absurd (ground arith)
  ]
]
read_back (x ∷ y ∷ xs) json b h g = absurd (ground arith)

vectors_db-VecLaws : VecLaws vectors_db
vectors_db-VecLaws = record {
  new_rowid_fresh = λ rows. next_rowid_fresh (next_rowid rows) rows (ground arith);
  decode-encode = read_back;
}

-- An index with a vector whose entry is gone, and one that has no vector.
abbrev index : VecIndex String
index = record {
  ids = (record { rowid = 3; id = "gone" }) ∷ (record { rowid = 5; id = "a" }) ∷ [];
  embeddings = (record { rowid = 3; embedding = "2" }) ∷ [];
  dimensions = pos 1;
}

index-IsIndexed : IsIndexed index
unfolding find_rowid
index-IsIndexed = record {
  distinct = (refl, (refl, tt));
  apart = λ i j n p q. ground (arith, eq_iff "gone" i, eq_iff "gone" j, eq_iff "a" i, eq_iff "a" j);
}

one-IsStorable : IsStorable vectors_db (pos 1) (1 ∷ [])
unfolding has_size
one-IsStorable = record { sized = refl; json = "1"; form = "1"; encoded = refl; converted = refl }

abbrev vectors : List String → List (List ℕ)
vectors [] = []
vectors (t ∷ ts) = (1 ∷ []) ∷ vectors ts

length-vectors : (ts : List String) → length (vectors ts) ≡ length ts
length-vectors [] = refl
length-vectors (t ∷ ts) = ground (arith, length-vectors ts)

vectors-IsStorable : (ts : List String) → All (IsStorable vectors_db (pos 1)) (vectors ts)
vectors-IsStorable [] = tt
vectors-IsStorable (t ∷ ts) = (one-IsStorable, vectors-IsStorable ts)

build_indexes_exact_example :
    let (r, after) =
      build_indexes vectors_db index (first ∷ second ∷ []) false (λ ts. ok (vectors ts)) in
    (r ≡ ok tt)
    × IsIndexed after
    × ((j : String)
        → has_vector vectors_db after j
          ≡ contains (map (λ (e : Entry ℕ). e.id) (first ∷ second ∷ [])) j)
build_indexes_exact_example =
    build_indexes_exact vectors_db vectors_db-VecLaws index (first ∷ second ∷ []) false vectors
      index-IsIndexed (λ s. refl) length-vectors vectors-IsStorable

abbrev controller : MemoryController (sqlite_api rules) (vec_api vectors_db)
controller = record { store = record { store = store; calls = λ n. db }; index = index }

lookup-save_example :
    let (r, e, mc) = save (sqlite_api rules) (vec_api vectors_db) embedder controller second in
    (get db mc.store.store "b" ≡ ok (record e { tags = "go" ∷ [] }))
    × (lookup_vector vectors_db mc.index "b" ≡ some (1 ∷ []))
    × IsIndexed mc.index
unfolding save upsert_entry sanitize_tags
lookup-save_example =
    lookup-save rules vectors_db embedder controller db can_read vectors_db-VecLaws second (1 ∷ [])
      refl index-IsIndexed (λ s. refl) refl refl one-IsStorable "b"

lookup-delete_example :
    let (r, mc) = delete (sqlite_api rules) (vec_api vectors_db) embedder controller "gone" in
    (r ≡ ok tt)
    × (get db mc.store.store "gone" ≡ err (not_found "gone"))
    × (lookup_vector vectors_db mc.index "gone" ≡ none)
    × IsIndexed mc.index
lookup-delete_example =
    lookup-delete rules vectors_db embedder controller db can_read "gone" refl index-IsIndexed
      (λ s. refl) (λ n. refl) refl "gone"
