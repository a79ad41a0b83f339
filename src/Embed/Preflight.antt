-- ===== src/Embed/Preflight.antt =====
-- The preflight: it fails at most once, and then lets vectors of every size through.
use mnemonic.Prelude.{
  ◌<◌, String, true, false, List, [], ◌∷◌, map, ◌≡◌, ◌∙◌, ap, inl, inr, refl, arith, length,
  Option-cases,
}
use mnemonic.Platform.{Platform}
use mnemonic.Store.Entry.{Error, Result, ok, err, Result-cases}
use mnemonic.Embed.Client.{
  HttpEmbedder, Service, request_for, checked, do_request, check_dimensions, preflight,
  embed_single, map_to_float32,
}

module _ {F : Type 0} ⦃p : Platform F⦄ (web : Service F) where
  -- What a request gives by itself, whatever the size of its vector.
  abbrev pub request_alone : HttpEmbedder → String → Result (List F)
  request_alone d input = elim (do_request web d (input ∷ [])) [
    | err x ↦ err x
    | ok (v, vs) ↦ ok (map p.round32 v)
  ]

  -- `EmbedSingle` from the preflight on.
  abbrev continued : String → Result (Unit {0}) × HttpEmbedder → Result (List F) × HttpEmbedder
  continued input (r, d) = elim r [
    | err x ↦ (err x, d)
    | ok _ ↦ elim (do_request web d (input ∷ [])) [
      | err x ↦ (err x, d)
      | ok (v, vs) ↦ (ok (map p.round32 v), d)
    ]
  ]

  preflight_fails :
      (e : HttpEmbedder) (input : String) (x : Error)
      → preflight web e ≡ (err x, record e { once = true })
      → embed_single web e input ≡ (err x, record e { once = true })
  unfolding embed_single map_to_float32
  preflight_fails e input x h = ap (continued input) h

  preflight_passes :
      (e : HttpEmbedder) (input : String)
      → preflight web e ≡ (ok tt, e)
      → embed_single web e input ≡ (request_alone e input, e)
  unfolding embed_single map_to_float32
  preflight_passes e input h =
      ap (continued input) h ∙ elim (Result-cases (do_request web e (input ∷ []))) [
        | inl (y, f) ↦ rw (continued, request_alone, f) refl
        | inr (q, f) ↦ rw (continued, request_alone, f) refl
      ]

module _ {F : Type 0} ⦃p : Platform F⦄ (web web' : Service F) (e : HttpEmbedder) where
  -- Of an embedder that is to make the preflight and has not yet, the first EmbedSingle whose
  -- preflight fails, as it does when the vector has another size than the configured one, reports
  -- that error. Every later EmbedSingle reports what its own request gives, a vector of any size,
  -- and changes nothing.
  pub preflight_once :
      (input later : String) (x : Error)
      → e.embeddings.skip_preflight ≡ false
      → e.preflight_passed ≡ false
      → e.once ≡ false
      → check_dimensions web e ≡ err x
      → let (first, after) = embed_single web e input in
        (first ≡ err x)
        × (embed_single web' after later ≡ (request_alone web' after later, after))
        × (after.preflight_passed ≡ false)
  unfolding preflight
  preflight_once input later x skip passed once failed =
      let after : HttpEmbedder = record e { once = true } in
      let fails : preflight web e ≡ (err x, after) = ground arith in
      let passes : preflight web' after ≡ (ok tt, after) = ground arith in
      rw (preflight_fails web e input x fails)
        (refl, preflight_passes web' after later passes, passed)

module _ {F : Type 0} ⦃p : Platform F⦄ (web : Service F) (e : HttpEmbedder) (input : String) where
  length-map : (xs : List F) → length (map p.round32 xs) ≡ length xs
  length-map [] = refl
  length-map (x ∷ xs) = ground (arith, length-map xs)

  checked_nonempty :
      (vs : List (List F)) (q : List F × List (List F)) → checked vs ≡ ok q → 0 < length q.0
  unfolding checked
  checked_nonempty [] q h = absurd (ground arith)
  checked_nonempty ([] ∷ vs) q h = absurd (ground arith)
  checked_nonempty ((x ∷ xs) ∷ vs) q h =
      let same : q ≡ (x ∷ xs, vs) = ground arith in rw same (ground arith)

  do_request_nonempty :
      (d : HttpEmbedder) (q : List F × List (List F))
      → do_request web d (input ∷ []) ≡ ok q
      → 0 < length q.0
  unfolding do_request
  do_request_nonempty d q h = elim (Option-cases (web.send (request_for d (input ∷ [])))) [
    | inl n ↦ absurd (ground arith)
    | inr ((status, body), s) ↦ elim (Option-cases (web.decode body)) [
      | inl n ↦ absurd (ground arith)
      | inr (vs, t) ↦ ground (arith, checked_nonempty vs q)
    ]
  ]

  -- A vector that `EmbedSingle` returns is never empty.
  pub embed_single_nonempty : (v : List F) → (embed_single web e input).0 ≡ ok v → 0 < length v
  unfolding embed_single map_to_float32
  embed_single_nonempty v h =
      let e' = (preflight web e).1 in
      elim (Result-cases (preflight web e).0) [
        | inl (x, f) ↦ absurd (ground arith)
        | inr (u, f) ↦ elim (Result-cases (do_request web e' (input ∷ []))) [
          | inl (x, g) ↦ absurd (ground arith)
          | inr (q, g) ↦
              let same : v ≡ map p.round32 q.0 = ground arith in
              rw same (ground (arith, length-map q.0, do_request_nonempty e' q g))
        ]
      ]
