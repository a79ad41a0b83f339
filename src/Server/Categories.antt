-- ===== src/Server/Categories.antt =====
-- server.go: `normalizeCategories`.
use mnemonic.Prelude.{
  String, Bool, true, false, not, ◌&&◌, List, [], ◌∷◌, ◌⊎◌, ◌≡◌, refl, sym, ◌∙◌, ◌==◌, eq_iff,
  arith, any, contains, Bool-cases, inl, inr,
}
use mnemonic.Prelude.Maps.{Distinct}
use mnemonic.Prelude.Text.{trim_space}
use mnemonic.Store.Entry.{Error, Result, ok, err, category_not_allowed, Result-cases}
use mnemonic.Store.Allowed.{is_allowed_category}
use mnemonic.Server.Handlers.{normalize_from, normalize_categories}

-- Whether a text, trimmed, is one of the values, trimmed.
abbrev pub trimmed_contains : List String → String → Bool
trimmed_contains vs c = any (λ v. trim_space v == c) vs

-- How the loop comes to accept a value and those after it: the value is blank, or it is kept
-- already, or it is new.
accepted :
    (seen vs cs : List String) (v : String)
    → normalize_from seen (v ∷ vs) ≡ ok cs
    → (((trim_space v == "") ≡ true) × (normalize_from seen vs ≡ ok cs))
      ⊎ ((((trim_space v == "") ≡ false)
            × (contains seen (trim_space v) ≡ true)
            × (normalize_from seen vs ≡ ok cs))
          ⊎ ((rest : List String) × ((trim_space v == "") ≡ false)
              × (is_allowed_category (trim_space v) ≡ true)
              × (contains seen (trim_space v) ≡ false)
              × (normalize_from (trim_space v ∷ seen) vs ≡ ok rest)
              × (cs ≡ trim_space v ∷ rest)))
unfolding normalize_from
accepted seen vs cs v h = elim (Bool-cases (trim_space v == "")) [
  | inl blank ↦ inl (blank, ground arith)
  | inr proper ↦ elim (Bool-cases (is_allowed_category (trim_space v))) [
    | inr refused ↦ absurd (ground arith)
    | inl allowed ↦ elim (Bool-cases (contains seen (trim_space v))) [
      | inl old ↦ inr (inl (proper, old, ground arith))
      | inr fresh ↦ elim (Result-cases (normalize_from (trim_space v ∷ seen) vs)) [
        | inl (x, failed) ↦ absurd (ground arith)
        | inr (rest, done) ↦ inr (inr (rest, proper, allowed, fresh, done, ground arith))
      ]
    ]
  ]
]

-- A blank text is none that is kept.
blank_differs : (t c : String) → (t == "") ≡ true → (c == "") ≡ false → (t == c) ≡ false
blank_differs t c h k = ground (arith, eq_iff t c, eq_iff t "", eq_iff c "")

kept :
    (c : String) (seen vs cs : List String)
    → normalize_from seen vs ≡ ok cs
    → contains cs c ≡ (not (c == "") && not (contains seen c) && trimmed_contains vs c)
kept c seen [] cs h = unfold normalize_from in ground arith
kept c seen (v ∷ vs) cs h = elim (accepted seen vs cs v h) [
  | inl (blank, rest) ↦ ground (arith, kept c seen vs cs rest, blank_differs (trim_space v) c blank)
  | inr (inl (proper, old, rest)) ↦ ground (arith, kept c seen vs cs rest, eq_iff (trim_space v) c)
  | inr (inr (rest, proper, allowed, fresh, done, e)) ↦
      rw e (ground (arith, kept c (trim_space v ∷ seen) vs rest done, eq_iff (trim_space v) c))
]

kept_allowed :
    (c : String) (seen vs cs : List String)
    → normalize_from seen vs ≡ ok cs
    → contains cs c ≡ true
    → is_allowed_category c ≡ true
kept_allowed c seen [] cs h k = unfold normalize_from in ground arith
kept_allowed c seen (v ∷ vs) cs h k = elim (accepted seen vs cs v h) [
  | inl (blank, rest) ↦ kept_allowed c seen vs cs rest k
  | inr (inl (proper, old, rest)) ↦ kept_allowed c seen vs cs rest k
  | inr (inr (rest, proper, allowed, fresh, done, e)) ↦
      ground (arith, kept_allowed c (trim_space v ∷ seen) vs rest done, eq_iff (trim_space v) c)
]

kept-Distinct : (seen vs cs : List String) → normalize_from seen vs ≡ ok cs → Distinct cs
kept-Distinct seen [] cs h = unfold normalize_from in ground arith
kept-Distinct seen (v ∷ vs) cs h = elim (accepted seen vs cs v h) [
  | inl (blank, rest) ↦ kept-Distinct seen vs cs rest
  | inr (inl (proper, old, rest)) ↦ kept-Distinct seen vs cs rest
  | inr (inr (rest, proper, allowed, fresh, done, e)) ↦ ground (
    arith,
    kept-Distinct (trim_space v ∷ seen) vs rest done,
    kept (trim_space v) (trim_space v ∷ seen) vs rest done,
    eq_iff (trim_space v) (trim_space v),
  )
]

refused_for :
    (seen vs : List String) (x : Error)
    → normalize_from seen vs ≡ err x
    → (c : String) × (x ≡ category_not_allowed c)
      × (is_allowed_category c ≡ false)
      × (trimmed_contains vs c ≡ true)
unfolding normalize_from
refused_for seen [] x h = cc
refused_for seen (v ∷ vs) x h = elim (Bool-cases (trim_space v == "")) [
  | inl blank ↦
      let (c, e, bad, at) = refused_for seen vs x (ground arith) in (c, e, bad, ground arith)
  | inr proper ↦ elim (Bool-cases (is_allowed_category (trim_space v))) [
    | inr refused ↦
        (trim_space v, ground arith, refused, ground (arith, eq_iff (trim_space v) (trim_space v)))
    | inl allowed ↦ elim (Bool-cases (contains seen (trim_space v))) [
      | inl old ↦
          let (c, e, bad, at) = refused_for seen vs x (ground arith) in (c, e, bad, ground arith)
      | inr fresh ↦ elim (Result-cases (normalize_from (trim_space v ∷ seen) vs)) [
        | inl (y, failed) ↦
            let (c, e, bad, at) = refused_for (trim_space v ∷ seen) vs y failed in
            (c, ground arith, bad, ground arith)
        | inr (rest, done) ↦ absurd (ground arith)
      ]
    ]
  ]
]

-- What `normalizeCategories` may give for the values of a request.
abbrev pub IsNormalization : List String → Result (List String) → Type 0
IsNormalization values (err x) =
    (c : String) × (x ≡ category_not_allowed c)
    × (is_allowed_category c ≡ false)
    × (trimmed_contains values c ≡ true)
IsNormalization values (ok cs) =
    Distinct cs
    × ((c : String)
        → (contains cs c ≡ (not (c == "") && trimmed_contains values c))
          × (contains cs c ≡ true → is_allowed_category c ≡ true))

normalize_from-IsNormalization :
    (values : List String) → IsNormalization values (normalize_from [] values)
normalize_from-IsNormalization values = elim (Result-cases (normalize_from [] values)) [
  | inl (x, failed) ↦ rw failed (refused_for [] values x failed)
  | inr (cs, done) ↦ rw done (
    kept-Distinct [] values cs done,
    λ c. (kept c [] values cs done ∙ ground arith, kept_allowed c [] values cs done),
  )
]

blank_skipped : (vs : List String) → normalize_from [] ("" ∷ vs) ≡ normalize_from [] vs
unfolding normalize_from
blank_skipped vs = refl

normalize_combined :
    (category : String) (categories : List String)
    → normalize_categories category categories ≡ normalize_from [] (category ∷ categories)
unfolding normalize_categories
normalize_combined category categories = elim (Bool-cases (category == "")) [
  | inr given ↦ rw given refl
  | inl missing ↦
      let same : category ≡ "" = (eq_iff category "").0 missing in
      rw same (sym (blank_skipped categories))
]

-- The categories of a query are those of the request, the single one and the list, trimmed, without
-- blanks and each once, and all of them are allowed; or the query is refused because of one that is
-- not allowed.
pub normalize_categories_lem :
    (category : String) (categories : List String)
    → IsNormalization (category ∷ categories) (normalize_categories category categories)
normalize_categories_lem category categories =
    rw (normalize_combined category categories)
      (normalize_from-IsNormalization (category ∷ categories))
