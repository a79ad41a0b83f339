-- ===== src/Embed/Client.antt =====
-- embedding.go: an embedder over the service's replies, which are arguments, as is the decoding of
-- JSON.
use Prim.Native.String.{◌++◌ as ◌⊹◌}
use mnemonic.Prelude.{
  ℕ, String, Bool, true, false, not, ◌&&◌, ◌||◌, List, [], ◌∷◌, map, Option, none, some, ◌==◌,
  nat_eq, length, if◌then◌else◌,
}
use mnemonic.Prelude.Maps.{Map}
use mnemonic.Platform.{Platform}
use mnemonic.Store.Entry.{Result, ok, err, external, wrapped}
use mnemonic.Config.State.{ℤ, pos, negsuc, Embeddings}

-- `dimensions` is that of the index in the configuration; `once` tells whether the preflight's
-- function has run.
pub record HttpEmbedder : Type 0 where
  pub embeddings : Embeddings
  pub dimensions : ℤ
  pub once : Bool
  pub preflight_passed : Bool

pub record Request : Type 0 where
  pub url : String
  pub header : Map String
  pub model : String
  pub input : List String

-- What happens to a request: no reply, or a status and a body. `decode` gives the vectors of
-- `data`.
pub record Service (F : Type 0) : Type 0 where
  pub send : Request → Option (ℕ × String)
  pub decode : String → Option (List (List F))

unfoldable pub request_for : HttpEmbedder → List String → Request
request_for e input =
    let json : Map String = ("Content-Type", "application/json") ∷ [] in
    record {
      url = e.embeddings.endpoint;
      header =
          if e.embeddings.auth_token == ""
          then json
          else ("Content-Type", "application/json")
            ∷ ("Authorization", "Bearer " ⊹ e.embeddings.auth_token)
            ∷ [];
      model = e.embeddings.model;
      input = input;
    }

unfoldable pub is_available : HttpEmbedder → Bool
is_available e = not (e.embeddings.endpoint == "") && not (e.embeddings.model == "")

module _ {F : Type 0} where
  -- The data of a reply: at least one vector, of which the first is not empty.
  unfoldable pub checked : List (List F) → Result (List F × List (List F))
  checked [] = err (external "embedding response missing data")
  checked ([] ∷ vs) = err (external "embedding response missing data")
  checked ((x ∷ xs) ∷ vs) = ok (x ∷ xs, vs)

  -- The first vector and the others.
  unfoldable pub do_request :
      Service F → HttpEmbedder → List String → Result (List F × List (List F))
  unfolding request_for checked
  do_request web e input = elim (web.send (request_for e input)) [
    | none ↦ err (external "embedding request failed")
    | some (status, body) ↦
        if nat_eq status 200
        then elim (web.decode body) [
          | none ↦ err (external "decoding embedding response")
          | some vs ↦ checked vs
        ]
        else err (external "embedding endpoint returned")
  ]

  -- The function that runs once.
  unfoldable pub check_dimensions : Service F → HttpEmbedder → Result (Unit {0})
  unfolding do_request
  check_dimensions web e = elim (do_request web e ("test" ∷ [])) [
    | err x ↦ err (wrapped "embedding preflight request failed" x)
    | ok (v, vs) ↦
        if elim e.dimensions [ pos n ↦ nat_eq (length v) n | negsuc _ ↦ false ]
        then ok tt
        else err (external "embedding dimensions mismatch")
  ]

  unfoldable pub preflight : Service F → HttpEmbedder → Result (Unit {0}) × HttpEmbedder
  unfolding check_dimensions
  preflight web e =
      if e.embeddings.skip_preflight || e.preflight_passed
      then (ok tt, e)
      else if e.once
      then (ok tt, e)
      else elim (check_dimensions web e) [
        | err x ↦ (err x, record e { once = true })
        | ok _ ↦ (ok tt, record e { once = true; preflight_passed = true })
      ]

module _ {F : Type 0} ⦃p : Platform F⦄ where
  unfoldable pub map_to_float32 : List F → List F
  map_to_float32 input = map p.round32 input

  unfoldable pub embed :
      Service F → HttpEmbedder → List String → Result (List (List F)) × HttpEmbedder
  unfolding preflight do_request map_to_float32
  embed web e input =
      let (r, e') = preflight web e in
      elim r [
        | err x ↦ (err x, e')
        | ok _ ↦ elim (do_request web e' input) [
          | err x ↦ (err x, e')
          | ok (v, vs) ↦ (ok (map map_to_float32 (v ∷ vs)), e')
        ]
      ]

  unfoldable pub embed_single : Service F → HttpEmbedder → String → Result (List F) × HttpEmbedder
  unfolding preflight do_request map_to_float32
  embed_single web e input =
      let (r, e') = preflight web e in
      elim r [
        | err x ↦ (err x, e')
        | ok _ ↦ elim (do_request web e' (input ∷ [])) [
          | err x ↦ (err x, e')
          | ok (v, vs) ↦ (ok (map_to_float32 v), e')
        ]
      ]
