-- ===== src/Controller/Deduplication.antt =====
-- `Upsert` of the controller: which entry it stores in place of the one it is given.
use mathlib.Core.List.{flat_map}
use mnemonic.Prelude.{
  ℕ, Bool, ◌&&◌, List, [], ◌∷◌, ◌≡◌, inl, inr, refl, ◌==◌, arith, if◌then◌else◌, filter,
}
use mnemonic.Platform.{Platform}
use mnemonic.Store.Entry.{Entry, ok, err, Result-cases}
use mnemonic.Controller.Interface.{StoreApi, IndexApi, Embedder, SearchResult}
use mnemonic.Controller.State.{MemoryController}
use mnemonic.Controller.Changes.{normalized_scope, reuse, dedupe, do_upsert, upsert}

module _ {F : Type 0} ⦃p : Platform F⦄ (S : StoreApi F) (I : IndexApi F) (em : Embedder F)
    (now : ℕ) where
  -- The entry of a neighbour that is near enough, if the store has it.
  near_entry : S.State → SearchResult F → List (Entry F)
  near_entry s r =
      if p.lt r.distance (p.round32 (p.literal 5 2))
      then elim (S.get s r.id) [ err _ ↦ [] | ok e ↦ e ∷ [] ]
      else []

  -- Two entries of one category and one scope.
  abbrev pub has_same_place : Entry F → Entry F → Bool
  has_same_place entry e =
      e.category == entry.category && normalized_scope e.scope == normalized_scope entry.scope

  -- All entries that are near enough and have the place of the entry, in the order of the search.
  unfoldable pub duplicates : S.State → Entry F → List (SearchResult F) → List (Entry F)
  unfolding near_entry
  duplicates s entry results = filter (has_same_place entry) (flat_map (near_entry s) results)

  -- The entry that is stored already, with what the new one brings: its text, its tags, if it has
  -- any, and its place, a score raised by 0.1, and the time as its last hit.
  abbrev pub refreshed : Entry F → Entry F → Entry F
  refreshed existing entry = record existing {
    content = entry.content;
    category = entry.category;
    scope = entry.scope;
    tags = elim entry.tags [ [] ↦ existing.tags | t ∷ ts ↦ t ∷ ts ];
    score = p.add existing.score (p.literal 1 1);
    last_hit = now;
  }

  reuse-refreshed : (existing entry : Entry F) → reuse now existing entry ≡ refreshed existing entry
  unfolding reuse
  reuse-refreshed existing entry = refl

  -- What `Upsert` stores for the entry.
  unfoldable pub chosen : MemoryController S I → Entry F → Entry F
  unfolding duplicates
  chosen mc entry =
      if em.available
      then elim (em.embed_single entry.content) [
        | err _ ↦ entry
        | ok vec ↦ elim (I.search mc.index vec 3) [
          | err _ ↦ entry
          | ok results ↦ elim (duplicates mc.store entry results) [
            | [] ↦ entry
            | existing ∷ _ ↦ refreshed existing entry
          ]
        ]
      ]
      else entry

  dedupe_lem :
      (s : S.State) (entry : Entry F) (results : List (SearchResult F))
      → dedupe S I em now s entry results
        ≡ elim (duplicates s entry results) [ [] ↦ entry | existing ∷ _ ↦ refreshed existing entry ]
  unfolding dedupe duplicates near_entry flat_map
  dedupe_lem s entry [] = refl
  dedupe_lem s entry (r ∷ rs) = elim (Result-cases (S.get s r.id)) [
    | inl (x, e) ↦ ground (arith, dedupe_lem s entry rs)
    | inr (found, e) ↦ ground (arith, dedupe_lem s entry rs, reuse-refreshed found entry)
  ]

  -- Where the embedder is available and the search gives an entry within 0.05 that the store has
  -- and that has the category and the scope of the entry, `Upsert` stores the first such entry of
  -- the search, with its ID, its hits, its creation and its source, but with the text, the place
  -- and the tags, if there are any, of the new one, a score raised by 0.1, and the time as its last
  -- hit. Without one, or when the embedding or the search fails, it stores the new entry as it is.
  pub upsert_chosen :
      (mc : MemoryController S I) (entry : Entry F)
      → upsert S I em now mc entry ≡ do_upsert S I em mc (chosen mc entry)
  unfolding upsert chosen
  upsert_chosen mc entry = elim (Result-cases (em.embed_single entry.content)) [
    | inl (x, e) ↦ ground arith
    | inr (vec, e) ↦ elim (Result-cases (I.search mc.index vec 3)) [
      | inl (x, f) ↦ ground arith
      | inr (results, f) ↦ ground (arith, dedupe_lem mc.store entry results)
    ]
  ]
