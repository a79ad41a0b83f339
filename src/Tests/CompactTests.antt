-- ===== src/Tests/CompactTests.antt =====
-- The compacter and its command at concrete replies.
use mnemonic.Prelude.{
  ℕ, ◌≤◌, ◌+◌, String, true, false, List, [], ◌∷◌, none, some, ◌≡◌, ◌⊎◌, refl, arith, ◌==◌, ltb,
  leb, contains, if◌then◌else◌,
}
use mnemonic.Store.Entry.{Entry, Result, ok, err, external}
use mnemonic.Compact.Modes.{caveman_off}
use mnemonic.Compact.Compacter.{Choice, replied, Compacter, compact}
use mnemonic.Compact.Command.{CompactBackend, no_progress, is_wanted, compact_from}
use mnemonic.Compact.Choices.{contents, compact_from_reply}
use mnemonic.Compact.Runs.{compact_from_saves, compact_from_bounds}
use mnemonic.Tests.Sample.{sample, first, second}

abbrev choice : String → Choice
choice text = record {
  text = text;
  index = 0;
  finish_reason = "stop";
  message = record { role = "assistant"; content = "" };
}

-- The embeddings have one number, the same for every text.
abbrev compacter : Compacter ℕ
compacter = record {
  embed_single = λ text. ok (1000000000000 ∷ []);
  sqrt = λ x. x;
  base_url = "http://localhost";
  api_key = "";
  model = "m";
  caveman_mode = caveman_off;
  post = λ url token request. replied 200 (some (choice "short" ∷ choice "shorter" ∷ []));
}

compacted : compact compacter "a long text" ≡ ok "shorter"
unfolding compact
compacted = refl

abbrev long_text : String
long_text = "a long text"

abbrev short_text : String
short_text = "shorter"

compact_from_reply_example :
    (short_text ≡ long_text)
    ⊎ ((status : ℕ) × (choices : List Choice) × (replied 200
            (some (choice "short" ∷ choice "shorter" ∷ []))
          ≡ replied status (some choices))
        × (leb 200 status ≡ true)
        × (ltb status 300 ≡ true)
        × (contains (contents choices) short_text ≡ true))
unfolding compact
compact_from_reply_example = compact_from_reply compacter long_text short_text refl

less_trans : (x y z : ℕ) → ltb x y ≡ true → ltb y z ≡ true → ltb x z ≡ true
less_trans x y z h k = ground arith

less_irrefl : (x : ℕ) → ltb x x ≡ false
less_irrefl x = ground arith

-- A backend that keeps what is saved, but for the entry "b".
abbrev backend : CompactBackend ℕ
backend = record {
  State = List (Entry ℕ);
  all_in = λ s scopes. (ok s, s);
  save = λ s e. if e.id == "b" then (err (external "read-only"), s) else (ok tt, e ∷ s);
  build_indexes = λ s. (ok tt, s);
}

abbrev shorten : String → Result String
shorten text = ok "wrap errors"

compact_from_saves_example :
    (compact_from backend false ("a" ∷ []) shorten 0 no_progress [] (first ∷ second ∷ [])).1
    ≡ record first { content = "wrap errors" } ∷ []
unfolding is_wanted
compact_from_saves_example = compact_from_saves backend ("a" ∷ []) shorten [] (first ∷ second ∷ [])

compact_from_bounds_example :
    let g = (compact_from backend true [] shorten 0 no_progress [] (second ∷ first ∷ [])).0 in
    (g.updated + g.failed ≤ 2)
    × (g.processed ≤ 2)
    × (true ≡ true → g.failed ≤ 1)
    × (g.first_error ≡ none → g.failed ≡ 0)
compact_from_bounds_example = compact_from_bounds backend [] shorten true [] (second ∷ first ∷ [])
