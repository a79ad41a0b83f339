-- ===== src/Vectors/Tables.antt =====
-- sqlitevec.go: the statements on the two tables, by the rowid of an ID and the vector of a rowid.
use mnemonic.Prelude.{
  ℕ, String, true, false, not, List, [], ◌∷◌, ◌++◌, map, none, some, ◌≡◌, ◌≢◌, refl, ◌==◌, eq_iff,
  arith, any, filter, nat_eq, contains, if◌then◌else◌,
}
use mnemonic.Prelude.Maps.{Distinct}
use mnemonic.Vectors.Index.{IdRow, Embedding, find_rowid, find_embedding, replace_embedding}

abbrev pub ids_of : List IdRow → List String
ids_of rows = map (λ x. x.id) rows

pub find_rowid-append :
    (j : String) (r : IdRow) (rows : List IdRow)
    → find_rowid j (rows ++ r ∷ []) ≡ (elim (find_rowid j rows) [
      | some n ↦ some n
      | none ↦ if r.id == j then some r.rowid else none
    ])
unfolding find_rowid
find_rowid-append j r [] = refl
find_rowid-append j r (x ∷ rows) = ground (arith, find_rowid-append j r rows)

-- A rowid that an ID has is in the table.
pub rowid_present :
    (j : String) (n : ℕ) (rows : List IdRow)
    → find_rowid j rows ≡ some n
    → any (λ x. nat_eq x.rowid n) rows ≡ true
unfolding find_rowid
rowid_present j n [] h = ground arith
rowid_present j n (x ∷ rows) h = ground (arith, rowid_present j n rows)

-- Deleting a rowid leaves the IDs that have another one,
pub find_rowid-delete :
    (j : String) (n : ℕ) (rows : List IdRow)
    → find_rowid j rows ≢ some n
    → find_rowid j (filter (λ x. not (nat_eq x.rowid n)) rows) ≡ find_rowid j rows
unfolding find_rowid
find_rowid-delete j n [] h = refl
find_rowid-delete j n (x ∷ rows) h = ground (arith, find_rowid-delete j n rows)

pub find_rowid_absent :
    (j : String) (rows : List IdRow) → contains (ids_of rows) j ≡ false → find_rowid j rows ≡ none
unfolding find_rowid
find_rowid_absent j [] h = refl
find_rowid_absent j (x ∷ rows) h = ground (arith, find_rowid_absent j rows)

pub contains-ids-delete :
    (j : String) (n : ℕ) (rows : List IdRow)
    → contains (ids_of rows) j ≡ false
    → contains (ids_of (filter (λ x. not (nat_eq x.rowid n)) rows)) j ≡ false
contains-ids-delete j n [] h = refl
contains-ids-delete j n (x ∷ rows) h = ground (arith, contains-ids-delete j n rows)

-- and takes out the ID that has this one.
pub find_rowid-deleted :
    (j : String) (n : ℕ) (rows : List IdRow)
    → Distinct (ids_of rows)
    → find_rowid j rows ≡ some n
    → find_rowid j (filter (λ x. not (nat_eq x.rowid n)) rows) ≡ none
unfolding find_rowid
find_rowid-deleted j n [] d h = refl
find_rowid-deleted j n (x ∷ rows) d h = ground (
  arith,
  find_rowid-deleted j n rows,
  eq_iff x.id j,
  find_rowid_absent j (filter (λ y. not (nat_eq y.rowid n)) rows),
  contains-ids-delete j n rows,
)

pub Distinct-ids-delete :
    (n : ℕ) (rows : List IdRow)
    → Distinct (ids_of rows)
    → Distinct (ids_of (filter (λ x. not (nat_eq x.rowid n)) rows))
Distinct-ids-delete n [] d = tt
Distinct-ids-delete n (x ∷ rows) d =
    ground (arith, Distinct-ids-delete n rows, contains-ids-delete x.id n rows)

pub contains-ids-append :
    (j : String) (r : IdRow) (rows : List IdRow)
    → contains (ids_of rows) j ≡ false
    → (r.id == j) ≡ false
    → contains (ids_of (rows ++ r ∷ [])) j ≡ false
contains-ids-append j r [] h g = ground arith
contains-ids-append j r (x ∷ rows) h g = ground (arith, contains-ids-append j r rows)

pub Distinct-ids-append :
    (r : IdRow) (rows : List IdRow)
    → Distinct (ids_of rows)
    → find_rowid r.id rows ≡ none
    → Distinct (ids_of (rows ++ r ∷ []))
unfolding find_rowid
Distinct-ids-append r [] d h = (refl, tt)
Distinct-ids-append r (x ∷ rows) d h = ground (
  arith,
  Distinct-ids-append r rows,
  contains-ids-append x.id r rows,
  eq_iff x.id r.id,
  eq_iff r.id x.id,
)

module _ {B : Type 0} where
  find_embedding-unchanged :
      (m n : ℕ) (b : B) (rows : List (Embedding B))
      → nat_eq n m ≡ false
      → find_embedding m (replace_embedding n b rows) ≡ find_embedding m rows
  unfolding find_embedding replace_embedding
  find_embedding-unchanged m n b [] h = refl
  find_embedding-unchanged m n b (x ∷ rows) h = ground (arith, find_embedding-unchanged m n b rows)

  pub find_embedding-replace :
      (m n : ℕ) (b : B) (rows : List (Embedding B))
      → any (λ x. nat_eq x.rowid n) rows ≡ true
      → find_embedding m (replace_embedding n b rows)
        ≡ (if nat_eq n m then some b else find_embedding m rows)
  unfolding find_embedding replace_embedding
  find_embedding-replace m n b [] h = ground arith
  find_embedding-replace m n b (x ∷ rows) h =
      ground (arith, find_embedding-replace m n b rows, find_embedding-unchanged m n b rows)

  pub find_embedding-append :
      (m n : ℕ) (b : B) (rows : List (Embedding B))
      → any (λ x. nat_eq x.rowid n) rows ≡ false
      → find_embedding m (rows ++ (record { rowid = n; embedding = b }) ∷ [])
        ≡ (if nat_eq n m then some b else find_embedding m rows)
  unfolding find_embedding
  find_embedding-append m n b [] h = refl
  find_embedding-append m n b (x ∷ rows) h = ground (arith, find_embedding-append m n b rows)

  pub find_embedding-delete :
      (m n : ℕ) (rows : List (Embedding B))
      → nat_eq n m ≡ false
      → find_embedding m (filter (λ x. not (nat_eq x.rowid n)) rows) ≡ find_embedding m rows
  unfolding find_embedding
  find_embedding-delete m n [] h = refl
  find_embedding-delete m n (x ∷ rows) h = ground (arith, find_embedding-delete m n rows)
