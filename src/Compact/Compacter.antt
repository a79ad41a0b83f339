-- ===== src/Compact/Compacter.antt =====
-- compact.go: the reply of the language model that replaces a text.
use Prim.Native.String.{◌++◌ as ◌⊹◌}
use mnemonic.Prelude.{
  ℕ, String, Bool, true, false, ◌&&◌, ◌||◌, List, [], ◌∷◌, Option, none, some, ◌==◌, ltb, leb,
  nat_eq, length, if◌then◌else◌,
}
use mnemonic.Platform.{Platform, float_zero}
use mnemonic.Store.Entry.{Error, Result, ok, err, wrapped, external}
use mnemonic.Compact.Modes.{CavemanMode, get_prompt}

pub record Message : Type 0 where
  pub role : String
  pub content : String

pub record Request (F : Type 0) : Type 0 where
  pub model : String
  pub messages : List Message
  pub max_tokens : ℕ
  pub temperature : F

-- One part of a content that is a list, with its type.
pub record ContentPart : Type 0 where
  pub kind : String
  pub text : String

-- `messageContent.UnmarshalJSON`, over what JSON gives for the content as a text and as a list of
-- parts; `none` where it is neither.
unfoldable pub joined_parts : List ContentPart → String
joined_parts [] = ""
joined_parts (p ∷ ps) =
    if p.kind == "" || p.kind == "text" then p.text ⊹ joined_parts ps else joined_parts ps

unfoldable pub read_content : Option String → Option (List ContentPart) → Option String
unfolding joined_parts
read_content (some text) parts = some text
read_content none (some parts) = some (joined_parts parts)
read_content none none = none

pub record Choice : Type 0 where
  pub text : String
  pub index : ℕ
  pub finish_reason : String
  pub message : Message

unfoldable pub content_of : Choice → String
content_of c = if c.message.content == "" then c.text else c.message.content

unfoldable pub is_zero : Choice → Bool
unfolding content_of
is_zero c = content_of c == "" && nat_eq c.index 0 && c.finish_reason == ""

unfoldable pub zero_choice : Choice
zero_choice = record {
  text = "";
  index = 0;
  finish_reason = "";
  message = record { role = ""; content = "" };
}

unfoldable pub last : Choice → List Choice → Choice
last x [] = x
last x (y ∷ ys) = last y ys

-- What the service sends back: no response, or a status with the choices of its body, `none` where
-- the body cannot be decoded.
pub data Reply : Type 0 where
  unreachable : Error → Reply
  replied : ℕ → Option (List Choice) → Reply

pub record Compacter (F : Type 0) : Type 0 where
  -- `EmbedSingle`, and `math.Sqrt` of the machine
  pub embed_single : String → Result (List F)
  pub sqrt : F → F
  pub base_url : String
  pub api_key : String
  pub model : String
  pub caveman_mode : CavemanMode
  -- the service: the reply to a request with its URL and its token
  pub post : String → String → Request F → Reply

module _ {F : Type 0} ⦃p : Platform F⦄ where
  -- The loop of `cosineSimilarity`: the sums of products and of squares, all in `float32`.
  unfoldable pub sums : List F → List F → F × F × F → F × F × F
  sums (a ∷ as') (b ∷ bs) (dot, na, nb) = sums as' bs (
    p.round32 (p.add dot (p.round32 (p.mul a b))),
    p.round32 (p.add na (p.round32 (p.mul a a))),
    p.round32 (p.add nb (p.round32 (p.mul b b))),
  )
  sums [] bs acc = acc
  sums (a ∷ as') [] acc = acc

  unfoldable pub cosine_similarity : (F → F) → List F → List F → Result F
  unfolding sums
  cosine_similarity sqrt v1 v2 =
      if nat_eq (length v1) (length v2)
      then if nat_eq (length v1) 0
        then err (external "vectors cannot be empty")
        else (let (dot, na, nb) = sums v1 v2 (float_zero, float_zero, float_zero) in
            if p.eq na float_zero || p.eq nb float_zero
            then err (external "cannot calculate similarity for zero-based vectors")
            else ok (
                p.round32
                  (p.div dot (p.round32 (p.mul (p.round32 (sqrt na)) (p.round32 (sqrt nb)))))))
      else err (external "vectors must have same length")

  -- The similarity of a choice to a text with an embedding.
  unfoldable pub similarity_of : Compacter F → List F → Choice → Result F
  unfolding content_of cosine_similarity
  similarity_of c original x = elim (c.embed_single (content_of x)) [
    | err e ↦ err e
    | ok v ↦ cosine_similarity c.sqrt original v
  ]

  -- The loop over the choices, with the best so far and its similarity. An error ends it.
  unfoldable pub choose : Compacter F → List F → List Choice → F → Choice → Choice
  unfolding similarity_of
  choose c original [] highest best = best
  choose c original (x ∷ xs) highest best = elim (similarity_of c original x) [
    | err _ ↦ best
    | ok similarity ↦ elim (p.lt highest similarity) [
      | true ↦ choose c original xs similarity x
      | false ↦ choose c original xs highest best
    ]
  ]

  -- The comparison of all the choices, which nothing comes of without an embedding of the text.
  unfoldable pub most_similar : Compacter F → String → List Choice → Choice
  unfolding choose zero_choice
  most_similar c input xs = elim (c.embed_single input) [
    | err _ ↦ zero_choice
    | ok [] ↦ zero_choice
    | ok (v ∷ vs) ↦ choose c (v ∷ vs) xs (p.neg (p.literal 1 0)) zero_choice
  ]

  -- The choice of a reply that has one.
  unfoldable pub best_choice : Compacter F → String → Choice → List Choice → Choice
  unfolding most_similar last is_zero
  best_choice c input x xs =
      let best = most_similar c input (x ∷ xs) in if is_zero best then last x xs else best

  unfoldable pub request_of : Compacter F → String → Request F
  unfolding get_prompt
  request_of c input = record {
    model = c.model;
    messages =
        (record { role = "system"; content = get_prompt c.caveman_mode })
        ∷ (record { role = "user"; content = "Text to compact:\n" ⊹ input })
        ∷ [];
    max_tokens = 2048;
    temperature = p.literal 3 1;
  }

  unfoldable pub token_of : Compacter F → String
  token_of c = if c.api_key == "" then "abc123" else c.api_key

  -- `Compact` from the response of the service on.
  unfoldable pub receive : Compacter F → String → Reply → Result String
  unfolding best_choice content_of
  receive c input (unreachable x) = err (wrapped "making OpenAI-compatible /completions request" x)
  receive c input (replied status body) =
      if ltb status 200 || leb 300 status
      then err (external "non-2xx response from /chat/completions endpoint")
      else elim body [
        | none ↦ err (external "unmarshaling OpenAI-compatible /completions response")
        | some [] ↦ ok input
        | some (x ∷ xs) ↦ ok (content_of (best_choice c input x xs))
      ]

  unfoldable pub compact : Compacter F → String → Result String
  unfolding request_of token_of receive
  compact c input =
      receive c input
        (c.post (c.base_url ⊹ "/chat/completions") ("Bearer " ⊹ token_of c) (request_of c input))
