-- ===== src/Compact/Choices.antt =====
-- compact.go: where a compacted text comes from, and which choice of a reply it is.
use Prim.Native.String.{◌++◌ as ◌⊹◌}
use mnemonic.Prelude.{
  ℕ, String, true, false, List, [], ◌∷◌, map, none, some, ◌≡◌, refl, sym, ap, ◌∙◌, ◌⊎◌, eq_iff,
  arith, ltb, leb, contains, All, Bool-cases, inl, inr,
}
use mathlib.Core.Path.{subst}
use mnemonic.Platform.{Platform}
use mnemonic.Store.Entry.{ok, Result-cases}
use mnemonic.Compact.Compacter.{
  Choice, content_of, is_zero, zero_choice, Reply, unreachable, replied, Compacter, similarity_of,
  choose, most_similar, last, best_choice, request_of, token_of, receive, compact,
}

abbrev pub contents : List Choice → List String
contents xs = map content_of xs

-- A choice with the content of one of those given.
abbrev OneOf : List Choice → Choice → Type 0
OneOf xs y = contains (contents xs) (content_of y) ≡ true

head_of : (x : Choice) (xs : List Choice) → OneOf (x ∷ xs) x
head_of x xs = ground (arith, eq_iff (content_of x) (content_of x))

tail_of : (x : Choice) (xs : List Choice) (y : Choice) → OneOf xs y → OneOf (x ∷ xs) y
tail_of x xs y h = ground arith

last_from :
    (x : Choice) (xs : List Choice) → contains (contents (x ∷ xs)) (content_of (last x xs)) ≡ true
unfolding last
last_from x [] = ground (arith, eq_iff (content_of x) (content_of x))
last_from x (y ∷ ys) = ground (arith, last_from y ys)

zero_found : (x : Choice) → x ≡ zero_choice → is_zero x ≡ false → ⊥
unfolding is_zero zero_choice
zero_found x e h = let z : is_zero x ≡ true = rw e refl in cc

module _ {F : Type 0} ⦃p : Platform F⦄ where
  choose_from :
      (c : Compacter F) (original : List F) (xs : List Choice) (highest : F) (best : Choice)
      → (choose c original xs highest best ≡ best)
        ⊎ (contains (contents xs) (content_of (choose c original xs highest best)) ≡ true)
  unfolding choose
  choose_from c original [] highest best = inl refl
  choose_from c original (x ∷ xs) highest best = elim (Result-cases (similarity_of c original x)) [
    | inl (e, failed) ↦ inl (ground arith)
    | inr (s, done) ↦ elim (Bool-cases (p.lt highest s)) [
      | inl more ↦
          let eqn : choose c original (x ∷ xs) highest best ≡ choose c original xs s x =
            ground arith in
          elim (choose_from c original xs s x) [
            | inl same ↦ inr (subst (OneOf (x ∷ xs)) (sym (eqn ∙ same)) (head_of x xs))
            | inr at ↦
                inr (subst (OneOf (x ∷ xs)) (sym eqn) (tail_of x xs (choose c original xs s x) at))
          ]
      | inr less ↦
          let eqn : choose c original (x ∷ xs) highest best ≡ choose c original xs highest best =
            ground arith in
          elim (choose_from c original xs highest best) [
            | inl same ↦ inl (eqn ∙ same)
            | inr at ↦ inr (
                subst (OneOf (x ∷ xs)) (sym eqn)
                  (tail_of x xs (choose c original xs highest best) at))
          ]
    ]
  ]

  most_similar_from :
      (c : Compacter F) (input : String) (xs : List Choice)
      → (most_similar c input xs ≡ zero_choice)
        ⊎ (contains (contents xs) (content_of (most_similar c input xs)) ≡ true)
  unfolding most_similar
  most_similar_from c input xs = elim (Result-cases (c.embed_single input)) [
    | inl (e, failed) ↦ inl (ground arith)
    | inr ([], done) ↦ inl (ground arith)
    | inr (v ∷ vs, done) ↦
        let start = p.neg (p.literal 1 0) in
        let eqn : most_similar c input xs ≡ choose c (v ∷ vs) xs start zero_choice = ground arith in
        elim (choose_from c (v ∷ vs) xs start zero_choice) [
          | inl same ↦ inl (eqn ∙ same)
          | inr at ↦ inr (subst (OneOf xs) (sym eqn) at)
        ]
  ]

  best_from :
      (c : Compacter F) (input : String) (x : Choice) (xs : List Choice)
      → contains (contents (x ∷ xs)) (content_of (best_choice c input x xs)) ≡ true
  unfolding best_choice
  best_from c input x xs = elim (Bool-cases (is_zero (most_similar c input (x ∷ xs)))) [
    | inl zero ↦
        let eqn : best_choice c input x xs ≡ last x xs = ground arith in
        subst (OneOf (x ∷ xs)) (sym eqn) (last_from x xs)
    | inr found ↦
        let eqn : best_choice c input x xs ≡ most_similar c input (x ∷ xs) = ground arith in
        elim (most_similar_from c input (x ∷ xs)) [
          | inl same ↦ absurd (zero_found (most_similar c input (x ∷ xs)) same found)
          | inr at ↦ subst (OneOf (x ∷ xs)) (sym eqn) at
        ]
  ]

  receive_from :
      (c : Compacter F) (input text : String) (reply : Reply)
      → receive c input reply ≡ ok text
      → (text ≡ input)
        ⊎ ((status : ℕ) × (choices : List Choice) × (reply ≡ replied status (some choices))
            × (leb 200 status ≡ true)
            × (ltb status 300 ≡ true)
            × (contains (contents choices) text ≡ true))
  unfolding receive
  receive_from c input text (unreachable x) h = cc
  receive_from c input text (replied status none) h = absurd (ground arith)
  receive_from c input text (replied status (some [])) h = inl (ground arith)
  receive_from c input text (replied status (some (x ∷ xs))) h =
      let same : text ≡ content_of (best_choice c input x xs) = ground arith in
      inr (
        status,
        x ∷ xs,
        refl,
        ground arith,
        ground arith,
        subst (λ t. contains (contents (x ∷ xs)) t ≡ true) (sym same) (best_from c input x xs),
      )

  -- The text that `Compact` returns is its input, or the content of one of the choices that the
  -- service sent back, with a status of success.
  pub compact_from_reply :
      (c : Compacter F) (input text : String)
      → compact c input ≡ ok text
      → (text ≡ input)
        ⊎ ((status : ℕ) × (choices : List Choice) × (c.post
                (c.base_url ⊹ "/chat/completions")
                ("Bearer " ⊹ token_of c)
                (request_of c input)
              ≡ replied status (some choices))
            × (leb 200 status ≡ true)
            × (ltb status 300 ≡ true)
            × (contains (contents choices) text ≡ true))
  unfolding compact
  compact_from_reply c input text h =
      receive_from c input text
        (c.post (c.base_url ⊹ "/chat/completions") ("Bearer " ⊹ token_of c) (request_of c input)) h

module _ {F : Type 0} ⦃p : Platform F⦄ (c : Compacter F) (original : List F) where
  -- Every similarity can be computed.
  abbrev pub AllComparable : List Choice → Type 0
  AllComparable xs = All (λ x. (s : F) × (similarity_of c original x ≡ ok s)) xs

  -- No choice is more similar than `h`.
  abbrev pub NoneAbove : F → List Choice → Type 0
  NoneAbove h xs = All (λ x. (s : F) → similarity_of c original x ≡ ok s → p.lt h s ≡ false) xs

  module _ (transitive : (x y z : F) → p.lt x y ≡ true → p.lt y z ≡ true → p.lt x z ≡ true)
      (irreflexive : (x : F) → p.lt x x ≡ false) where
    below : (x y : F) → p.lt x y ≡ true → p.lt y x ≡ false
    below x y h = ground (arith, transitive x y x h, irreflexive x)

    -- Where `<` is transitive and irreflexive and the similarities can be computed, the comparison
    -- ends with a choice that no other is more similar than, or with the one that it began with,
    -- and then no choice is more similar than the bound that it began with.
    pub choose_best :
        (xs : List Choice) (highest : F) (best : Choice)
        → AllComparable xs
        → (h : F) × (((h ≡ highest) × (choose c original xs highest best ≡ best))
            ⊎ ((p.lt highest h ≡ true)
                × (similarity_of c original (choose c original xs highest best) ≡ ok h)))
          × NoneAbove h xs
    unfolding choose
    choose_best [] highest best a = (highest, inl (refl, refl), tt)
    choose_best (x ∷ xs) highest best ((s, e), a) = elim (Bool-cases (p.lt highest s)) [
      | inl more ↦
          let eqn : choose c original (x ∷ xs) highest best ≡ choose c original xs s x =
            ground arith in
          let (h, is, above) = choose_best xs s x a in
          elim is [
            | inl (same, kept) ↦ (
              h,
              inr (
                subst (λ y. p.lt highest y ≡ true) (sym same) more,
                ap (similarity_of c original) (eqn ∙ kept) ∙ e ∙ ap ok (sym same),
              ),
              (λ t e'. ground (arith, irreflexive s), above),
            )
            | inr (up, at) ↦ (
              h,
              inr (transitive highest s h more up, ap (similarity_of c original) eqn ∙ at),
              (λ t e'. ground (arith, below s h up), above),
            )
          ]
      | inr less ↦
          let eqn : choose c original (x ∷ xs) highest best ≡ choose c original xs highest best =
            ground arith in
          let (h, is, above) = choose_best xs highest best a in
          elim is [
            | inl (same, kept) ↦ (h, inl (same, eqn ∙ kept), (λ t e'. ground arith, above))
            | inr (up, at) ↦ (
              h,
              inr (up, ap (similarity_of c original) eqn ∙ at),
              (λ t e'. ground (arith, transitive highest h s up), above),
            )
          ]
    ]
