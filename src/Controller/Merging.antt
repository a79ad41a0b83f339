-- ===== src/Controller/Merging.antt =====
-- `Merge`: what the entry that is kept gets from the other one.
use mnemonic.Prelude.{
  String, false, ◌||◌, List, [], ◌∷◌, ◌++◌, ◌≡◌, inl, inr, refl, ◌==◌, eq_iff, arith, contains,
  any-append,
}
use mnemonic.Prelude.Maps.{Distinct}
use mnemonic.Platform.{Platform}
use mnemonic.Store.Entry.{Error, ok, err, Result-cases}
use mnemonic.Controller.Interface.{StoreApi, IndexApi, Embedder}
use mnemonic.Controller.State.{MemoryController}
use mnemonic.Controller.Changes.{merge_tags, merge_entries, merge_into, merge}

contains-merge_tags :
    (tags ts : List String) (t : String)
    → contains (merge_tags tags ts) t ≡ (contains tags t || contains ts t)
unfolding merge_tags
contains-merge_tags tags [] t = ground arith
contains-merge_tags tags (x ∷ xs) t = ground (
  arith,
  contains-merge_tags tags xs t,
  contains-merge_tags (tags ++ x ∷ []) xs t,
  any-append (λ y. y == t) tags (x ∷ []),
  eq_iff x t,
)

Distinct-append_one :
    (xs : List String) (x : String) → Distinct xs → contains xs x ≡ false → Distinct (xs ++ x ∷ [])
Distinct-append_one [] x d h = (refl, tt)
Distinct-append_one (y ∷ ys) x d h =
    ground (
      arith,
      Distinct-append_one ys x,
      any-append (λ z. z == y) ys (x ∷ []),
      eq_iff x y,
      eq_iff y x,
    )

Distinct-merge_tags : (tags ts : List String) → Distinct tags → Distinct (merge_tags tags ts)
unfolding merge_tags
Distinct-merge_tags tags [] d = d
Distinct-merge_tags tags (x ∷ xs) d = ground (
  arith,
  Distinct-merge_tags tags xs,
  Distinct-merge_tags (tags ++ x ∷ []) xs,
  Distinct-append_one tags x,
)

-- The merged entry has exactly the tags of the two, and none twice if the first had none twice.
pub merge_tags_lem :
    (tags ts : List String)
    → Distinct tags
    → Distinct (merge_tags tags ts)
      × ((t : String) → contains (merge_tags tags ts) t ≡ (contains tags t || contains ts t))
merge_tags_lem tags ts d = (Distinct-merge_tags tags ts d, contains-merge_tags tags ts)

module _ {F : Type 0} ⦃p : Platform F⦄ (S : StoreApi F) (I : IndexApi F) (em : Embedder F) where
  -- Where the store's `Delete` removes what it reports as deleted, an entry that is merged with
  -- itself is lost.
  pub merge_self :
      (mc : MemoryController S I) (id : String)
      → ((s : S.State)
          → (S.delete s id).0 ≡ ok tt
          → (x : Error) × (S.get (S.delete s id).1 id ≡ err x))
      → (merge S I em mc id id).0 ≡ ok tt
      → (x : Error) × (S.get (merge S I em mc id id).1.store id ≡ err x)
  unfolding merge merge_into
  merge_self mc id deletes h = elim (Result-cases (S.get mc.store id)) [
    | inl (x, e) ↦ absurd (ground arith)
    | inr (keep, e) ↦
        let merged = merge_entries keep keep in
        elim (Result-cases (S.upsert mc.store merged).0) [
          | inl (x, f) ↦ absurd (ground arith)
          | inr (done, f) ↦
              let s = (S.upsert mc.store merged).2 in
              elim (Result-cases (S.delete s id).0) [
                | inl (x, g) ↦ absurd (ground arith)
                | inr (gone, g) ↦
                    let last : (merge S I em mc id id).1.store ≡ (S.delete s id).1 = ground arith in
                    let (x, lost) = deletes s g in (x, rw last lost)
              ]
        ]
  ]
