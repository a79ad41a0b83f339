-- ===== src/Sqlite/Resolving.antt =====
-- sqlite.go: `resolveQueryScopes`.
use mnemonic.Prelude.{
  String, true, false, List, [], ◌∷◌, ◌≡◌, refl, ◌∙◌, eq_iff, arith, contains, all, Bool-cases, inl,
  inr,
}
use mnemonic.Prelude.Maps.{Distinct}
use mnemonic.Store.Entry.{Result, ok, err, Result-cases}
use mnemonic.Sqlite.State.{SqliteStore}
use mnemonic.Sqlite.Rows.{resolve_from, resolve_query_scopes}

-- The scopes that a request resolves to.
pub record IsResolved (configured requested resolved : List String) : Type 0 where
  pub allowed : (sc : String) → contains resolved sc ≡ true → contains configured sc ≡ true
  pub same : (sc : String) → contains resolved sc ≡ contains requested sc
  pub distinct : Distinct resolved

module _ (configured : List String) where
  resolve_from-contains :
      (sc : String) (seen requested resolved : List String)
      → resolve_from configured seen requested ≡ ok resolved
      → (contains seen sc ≡ true → contains resolved sc ≡ false)
        × (contains seen sc ≡ false → contains resolved sc ≡ contains requested sc)
        × (contains resolved sc ≡ true → contains configured sc ≡ true)
  unfolding resolve_from
  resolve_from-contains sc seen [] resolved h = ground arith
  resolve_from-contains sc seen (r ∷ rs) resolved h = elim (Bool-cases (contains seen r)) [
    | inl old ↦
        ground (arith, resolve_from-contains sc seen rs resolved (ground arith), eq_iff r sc)
    | inr fresh ↦ elim (Result-cases (resolve_from configured (r ∷ seen) rs)) [
      | inl (x, failed) ↦ absurd (ground arith)
      | inr (rest, done) ↦
          ground (arith, resolve_from-contains sc (r ∷ seen) rs rest done, eq_iff r sc)
    ]
  ]

  resolve_from-Distinct :
      (seen requested resolved : List String)
      → resolve_from configured seen requested ≡ ok resolved
      → Distinct resolved
  unfolding resolve_from
  resolve_from-Distinct seen [] resolved h = ground arith
  resolve_from-Distinct seen (r ∷ rs) resolved h = elim (Bool-cases (contains seen r)) [
    | inl old ↦ resolve_from-Distinct seen rs resolved (ground arith)
    | inr fresh ↦ elim (Result-cases (resolve_from configured (r ∷ seen) rs)) [
      | inl (x, failed) ↦ absurd (ground arith)
      | inr (rest, done) ↦ ground (
        arith,
        resolve_from-Distinct (r ∷ seen) rs rest done,
        resolve_from-contains r (r ∷ seen) rs rest done,
        eq_iff r r,
      )
    ]
  ]

  resolve_from-refused :
      (seen requested : List String)
      → (elim (resolve_from configured seen requested) [ err _ ↦ false | ok _ ↦ true ])
        ≡ all (contains configured) requested
  unfolding resolve_from
  resolve_from-refused seen [] = refl
  resolve_from-refused seen (r ∷ rs) =
      ground (arith, resolve_from-refused seen rs, resolve_from-refused (r ∷ seen) rs)

-- A request without scopes resolves to all that are configured. One with scopes is refused because
-- one of them is not configured, or resolves to its own scopes, each once.
abbrev pub Resolves : List String → List String → Result (List String) → Type 0
Resolves configured [] outcome = outcome ≡ ok configured
Resolves configured (r ∷ rs) (err _) = all (contains configured) (r ∷ rs) ≡ false
Resolves configured (r ∷ rs) (ok resolved) = IsResolved configured (r ∷ rs) resolved

module _ {F : Type 0} (s : SqliteStore F) (c : String) (cs : List String) where
  -- With configured scopes, `resolveQueryScopes` gives all of them for a request without scopes.
  -- It refuses another request only where one of its scopes is not configured, and otherwise gives
  -- the scopes of the request, each once.
  pub resolve_query_scopes_lem :
      (requested : List String)
      → s.configured_scopes ≡ c ∷ cs
      → Resolves (c ∷ cs) requested (resolve_query_scopes s requested)
  unfolding resolve_query_scopes
  resolve_query_scopes_lem [] h = ground arith
  resolve_query_scopes_lem (r ∷ rs) h =
      let eqn : resolve_query_scopes s (r ∷ rs) ≡ resolve_from (c ∷ cs) [] (r ∷ rs) =
        ground arith in
      elim (Result-cases (resolve_from (c ∷ cs) [] (r ∷ rs))) [
        | inl (x, refused) ↦
            let stop : resolve_query_scopes s (r ∷ rs) ≡ err x = eqn ∙ refused in
            rw stop (ground (arith, resolve_from-refused (c ∷ cs) [] (r ∷ rs)))
        | inr (resolved, done) ↦
            let go : resolve_query_scopes s (r ∷ rs) ≡ ok resolved = eqn ∙ done in
            let facts =
              λ (sc : String). resolve_from-contains (c ∷ cs) sc [] (r ∷ rs) resolved done in
            rw go (record {
              allowed = λ sc. (facts sc).2;
              same = λ sc. (facts sc).1 refl;
              distinct = resolve_from-Distinct (c ∷ cs) [] (r ∷ rs) resolved done;
            })
      ]

  -- What a query with configured scopes asks for is never the empty list, which would let all
  -- scopes through, and holds configured scopes only.
  pub resolved_scopes :
      (requested resolved : List String) (sc : String)
      → s.configured_scopes ≡ c ∷ cs
      → resolve_query_scopes s requested ≡ ok resolved
      → (elim resolved [ [] ↦ true | x ∷ xs ↦ contains (x ∷ xs) sc ]) ≡ true
      → contains (c ∷ cs) sc ≡ true
  unfolding resolve_query_scopes
  resolved_scopes [] resolved sc h k m = ground arith
  resolved_scopes (r ∷ rs) resolved sc h k m = ground (
    arith,
    resolve_from-contains (c ∷ cs) sc [] (r ∷ rs) resolved,
    resolve_from-contains (c ∷ cs) r [] (r ∷ rs) resolved,
    eq_iff r r,
  )
