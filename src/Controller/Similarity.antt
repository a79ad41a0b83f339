-- ===== src/Controller/Similarity.antt =====
-- `FindSimilar` and `SemanticSearch`: what they return.
use mnemonic.Prelude.{
  ℕ, suc, ◌+◌, ◌≤◌, max, String, true, false, ◌&&◌, List, [], ◌∷◌, map, ◌≡◌, ◌⊎◌, refl, inl, inr,
  ◌==◌, ◌∙◌, eq_iff, arith, All, length, leb, contains, Bool-cases, Bool, any,
}
use mnemonic.Prelude.Maps.{Distinct}
use mnemonic.Prelude.Sort.{sort, All-sort, any-sort}
use mnemonic.Platform.{Platform}
use mnemonic.Store.Entry.{Entry, ok, Result-cases}
use mnemonic.Lint.Analysis.{SimilarEntry, Action, analyze}
use mnemonic.Lint.Laws.{lefts, rights}
use mnemonic.Lint.Consistency.{SkipsSelf, analyze_consistent}
use mnemonic.Controller.Interface.{StoreApi, IndexApi, Embedder, SearchResult}
use mnemonic.Controller.State.{MemoryController}
use mnemonic.Controller.Searches.{
  is_nearer, admits, search_size, collect, candidates, semantic_search, vector_of, similar_of,
  find_similar,
}

module _ {F : Type 0} ⦃p : Platform F⦄ where
  pub length-collect :
      (k n : ℕ) (cs : List (SimilarEntry F)) → length (collect k n cs) + n ≤ max k (suc n)
  unfolding collect
  length-collect k n [] = ground arith
  length-collect k n (c ∷ cs) = ground (arith, length-collect k (suc n) cs)

  All-collect :
      (P : Entry F → Type 0) (k n : ℕ) (cs : List (SimilarEntry F))
      → All (λ c. P c.entry) cs
      → All P (collect k n cs)
  unfolding collect
  All-collect P k n [] a = tt
  All-collect P k n (c ∷ cs) a = elim (Bool-cases (leb k (suc n))) [
    | inl t ↦ rw t (a.0, tt)
    | inr f ↦ rw f (a.0, All-collect P k (suc n) cs a.1)
  ]

  -- A list that is not filled up to the limit leaves nothing out.
  any-collect :
      (k n : ℕ) (cs : List (SimilarEntry F))
      → (length (collect k n cs) + n ≡ max k (suc n))
        ⊎ ((q : Entry F → Bool) → any q (collect k n cs) ≡ any (λ c. q c.entry) cs)
  unfolding collect
  any-collect k n [] = inr (λ q. refl)
  any-collect k n (c ∷ cs) = elim (Bool-cases (leb k (suc n))) [
    | inl t ↦ inl (ground arith)
    | inr f ↦ elim (any-collect k (suc n) cs) [
      | inl full ↦ inl (ground (arith, full))
      | inr whole ↦ inr (λ q. ground (arith, whole q))
    ]
  ]

  module _ (S : StoreApi F) (I : IndexApi F) (em : Embedder F) where
    -- The entry is the store's under an ID that the index found, and its scope and its category are
    -- among those that are asked for, where any are.
    pub record IsFound (s : S.State) (scopes categories : List String) (rs : List (SearchResult F))
        (e : Entry F) : Type 0 where
      pub id : String
      pub listed : contains (map (λ r. r.id) rs) id ≡ true
      pub stored : S.get s id ≡ ok e
      pub scoped : (scopes ≡ []) ⊎ (contains scopes e.scope ≡ true)
      pub filed : (categories ≡ []) ⊎ (contains categories e.category ≡ true)

    admits_lem :
        (names : List String) (n : String)
        → admits names n ≡ true
        → (names ≡ []) ⊎ (contains names n ≡ true)
    unfolding admits
    admits_lem [] n h = inl refl
    admits_lem (x ∷ xs) n h = inr h

    admitted :
        (names : List String) (n : String)
        → (names ≡ []) ⊎ (contains names n ≡ true)
        → admits names n ≡ true
    unfolding admits
    admitted [] n h = refl
    admitted (x ∷ xs) n (inl h) = absurd (ground arith)
    admitted (x ∷ xs) n (inr h) = h

    -- Every entry that is found is a candidate.
    any-candidates :
        (s : S.State) (scopes categories : List String) (id : String) (e : Entry F)
        (rs : List (SearchResult F))
        → S.get s id ≡ ok e
        → admits scopes e.scope ≡ true
        → admits categories e.category ≡ true
        → contains (map (λ r. r.id) rs) id ≡ true
        → any (λ c. c.entry.id == e.id) (candidates S I s scopes categories rs) ≡ true
    unfolding candidates
    any-candidates s scopes categories id e [] stored scoped filed h = absurd (ground arith)
    any-candidates s scopes categories id e (r ∷ rs) stored scoped filed h =
        let rest = any-candidates s scopes categories id e rs stored scoped filed in
        elim (Result-cases (S.get s r.id)) [
          | inl (x, missing) ↦ ground (arith, rest, eq_iff r.id id)
          | inr (found, here) ↦ ground (arith, rest, eq_iff r.id id, eq_iff e.id e.id)
        ]

    IsFound-later :
        (s : S.State) (scopes categories : List String) (r : SearchResult F)
        (rs : List (SearchResult F)) (cs : List (SimilarEntry F))
        → All (λ c. IsFound s scopes categories rs c.entry) cs
        → All (λ c. IsFound s scopes categories (r ∷ rs) c.entry) cs
    IsFound-later s scopes categories r rs [] a = tt
    IsFound-later s scopes categories r rs (c ∷ cs) (f, a) = (
      record {
        id = f.id;
        listed = ground (arith, f.listed);
        stored = f.stored;
        scoped = f.scoped;
        filed = f.filed;
      },
      IsFound-later s scopes categories r rs cs a,
    )

    All-candidates :
        (s : S.State) (scopes categories : List String) (rs : List (SearchResult F))
        → All (λ c. IsFound s scopes categories rs c.entry) (candidates S I s scopes categories rs)
    unfolding candidates
    All-candidates s scopes categories [] = tt
    All-candidates s scopes categories (r ∷ rs) =
        let cs = candidates S I s scopes categories rs in
        let rest =
          IsFound-later s scopes categories r rs cs (All-candidates s scopes categories rs) in
        elim (Result-cases (S.get s r.id)) [
          | inl (x, e) ↦ rw (e, candidates) rest
          | inr (found, e) ↦
              elim (Bool-cases (admits scopes found.scope && admits categories found.category)) [
                | inr out ↦ rw (e, candidates, out) rest
                | inl in_place ↦
                    rw (e, candidates, in_place)
                      (
                        record {
                          id = r.id;
                          listed = ground (arith, eq_iff r.id r.id);
                          stored = e;
                          scoped = admits_lem scopes found.scope (ground arith);
                          filed = admits_lem categories found.category (ground arith);
                        },
                        rest,
                      )
              ]
        ]

    -- Every entry that a semantic search returns is the store's under an ID that the index found
    -- for the vector of the query, with a scope and a category of those that the search is
    -- restricted to, where it is restricted; there are no more than it is asked for, or than one;
    -- and where there are fewer, it returns each such entry, one of its ID at least.
    pub semantic_search_lem :
        (now : ℕ) (mc : MemoryController S I) (q : String) (k : ℕ) (scopes categories : List String)
        (vec : List F) (results : List (SearchResult F)) (es : List (Entry F))
        → em.available ≡ true
        → em.embed_single q ≡ ok vec
        → I.search mc.index vec (search_size k categories) ≡ ok results
        → (semantic_search S I em now mc q k scopes categories).0 ≡ ok es
        → All (IsFound mc.store scopes categories results) es
          × (length es ≤ max k 1)
          × ((length es ≡ max k 1)
              ⊎ ((e : Entry F)
                  → IsFound mc.store scopes categories results e
                  → any (λ x. x.id == e.id) es ≡ true))
    unfolding semantic_search
    semantic_search_lem now mc q k scopes categories vec results es on e f h =
        let found = candidates S I mc.store scopes categories results in
        let ranked = sort (is_nearer now) found in
        let same : es ≡ collect k 0 ranked = ground arith in
        rw same (
          All-collect (IsFound mc.store scopes categories results) k 0 ranked (
              All-sort (is_nearer now) (λ c. IsFound mc.store scopes categories results c.entry)
                found (All-candidates mc.store scopes categories results)),
          ground (arith, length-collect k 0 ranked),
          elim (any-collect k 0 ranked) [
            | inl full ↦ inl (ground (arith, full))
            | inr whole ↦ inr (λ e found_here.
                let q = λ (x : Entry F). x.id == e.id in
                whole q
                ∙ any-sort (is_nearer now) (λ (c : SimilarEntry F). q c.entry) found
                ∙ any-candidates mc.store scopes categories found_here.id e results
                    found_here.stored (admitted scopes e.scope found_here.scoped)
                    (admitted categories e.category found_here.filed) found_here.listed)
          ],
        )

    similar_of-other :
        (s : S.State) (id : String) (target : F) (rs : List (SearchResult F))
        → ((r : String) (e : Entry F) → S.get s r ≡ ok e → e.id ≡ r)
        → All (λ c. (c.entry.id == id) ≡ false) (similar_of S I em s id target rs)
    unfolding similar_of
    similar_of-other s id target [] keyed = tt
    similar_of-other s id target (r ∷ rs) keyed = elim (Result-cases (S.get s r.id)) [
      | inl (x, e) ↦ ground (arith, similar_of-other s id target rs keyed)
      | inr (found, e) ↦
          ground (arith, similar_of-other s id target rs keyed, keyed r.id found e, eq_iff r.id id)
    ]

    -- Where the store returns for each ID an entry that has it, the controller's search for what is
    -- similar to an entry does not return the entry itself.
    pub find_similar-SkipsSelf :
        (mc : MemoryController S I) (threshold : F)
        → ((r : String) (e : Entry F) → S.get mc.store r ≡ ok e → e.id ≡ r)
        → SkipsSelf (find_similar S I em mc threshold)
    unfolding find_similar
    find_similar-SkipsSelf mc threshold keyed id ss h = elim (Bool-cases em.available) [
      | inr off ↦ absurd (ground arith)
      | inl on ↦ elim (Result-cases (vector_of S I em mc id)) [
        | inl (x, e) ↦ absurd (ground arith)
        | inr (vec, e) ↦ elim (Result-cases (I.search mc.index vec 10)) [
          | inl (x, f) ↦ absurd (ground arith)
          | inr (results, f) ↦
              let target = p.round32 (p.sub (p.literal 1 0) threshold) in
              let same : ss ≡ similar_of S I em mc.store id target results = ground arith in
              rw same (similar_of-other mc.store id target results keyed)
        ]
      ]
    ]

    -- The linter over this controller: where the store returns for each ID an entry that has it,
    -- the advice removes no entry twice, and none that it keeps.
    pub advice_consistent :
        (mc : MemoryController S I) (threshold : F) (entries : List (Entry F))
        (actions : List (Action F))
        → ((r : String) (e : Entry F) → S.get mc.store r ≡ ok e → e.id ≡ r)
        → analyze (find_similar S I em mc threshold) (ok entries) ≡ ok actions
        → Distinct (rights actions)
          × ((id : String)
              → contains (lefts actions) id ≡ true
              → contains (rights actions) id ≡ false)
    advice_consistent mc threshold entries actions keyed =
        analyze_consistent (find_similar S I em mc threshold) entries actions
          (find_similar-SkipsSelf mc threshold keyed)
