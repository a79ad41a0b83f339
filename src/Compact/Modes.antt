-- ===== src/Compact/Modes.antt =====
-- options.go: the modes, with the prompt of compact.go. A mode is an integer, as in the source; a
-- negative one is `negsuc`.
use Prim.Native.String.{◌++◌ as ◌⊹◌}
use mnemonic.Prelude.{String, Bool, false, List, [], ◌∷◌, ◌==◌, ltb, nat_eq, if◌then◌else◌}
use mnemonic.Config.State.{ℤ, pos, negsuc}

abbrev pub CavemanMode : Type 0
CavemanMode = ℤ

abbrev pub caveman_off : CavemanMode
caveman_off = pos 0

abbrev pub caveman_lite : CavemanMode
caveman_lite = pos 1

abbrev pub caveman_full : CavemanMode
caveman_full = pos 2

abbrev pub caveman_ultra : CavemanMode
caveman_ultra = pos 3

-- `String`
unfoldable pub mode_text : CavemanMode → String
mode_text (negsuc n) = "unknown"
mode_text (pos n) =
    if nat_eq n 0
    then "off"
    else if nat_eq n 1
    then "lite"
    else if nat_eq n 2
    then "full"
    else if nat_eq n 3
    then "ultra"
    else "unknown"

unfoldable pub parse_caveman_mode : String → CavemanMode
parse_caveman_mode s =
    if s == "off"
    then caveman_off
    else if s == "lite"
    then caveman_lite
    else if s == "full"
    then caveman_full
    else if s == "ultra"
    then caveman_ultra
    else caveman_off

-- The mode that `WithCavemanMode` sets.
unfoldable pub set_mode : CavemanMode → CavemanMode
set_mode (negsuc n) = caveman_off
set_mode (pos n) = if ltb 3 n then caveman_off else pos n

unfoldable pub concat : List String → String
concat [] = ""
concat (s ∷ ss) = s ⊹ concat ss

unfoldable pub caveman_prompt : String → String
unfolding concat
caveman_prompt level = concat (
    "Respond terse like smart caveman. All technical substance stay. Only fluff die.\n"
    ∷ "## Rules\n"
    ∷ "* Drop articles (a/an/the), filler (just/really/basically/actually/simply), pleasantries (sure/certainly/of course/happy to), and hedging.\n"
    ∷ "* Fragments OK. Use short synonyms (e.g., use \"big\" not \"extensive\", \"fix\" not \"implement a solution for\").\n"
    ∷ "* Technical terms exact. Code blocks unchanged. Errors quoted exact. No wrapping in brackets.\n"
    ∷ "* Pattern: Subject state. Root cause. Required action.\n"
    ∷ "* NO: \"I would be happy to help. It seems your code has a bug because...\"\n"
    ∷ "* YES: \"Motor loud. Bearing dry. Apply oil.\"\n"
    ∷ ("## Intensity Levels (Default is " ⊹ level ⊹ ")\n")
    ∷ "* off: Do not apply caveman.\n"
    ∷ "* lite: No filler/hedging. Keep articles + full sentences. Professional but tight.\n"
    ∷ "* full: Drop articles, fragments OK, short synonyms. Classic caveman.\n"
    ∷ "* ultra: Abbreviate (DB/auth/config/req/res/fn/impl), strip conjunctions, arrows for causality (X → Y), one word when one word enough.\n"
    ∷ "## Persistence & Boundaries\n"
    ∷ "* ACTIVE EVERY RESPONSE. No revert after many turns. No filler drift.\n"
    ∷ "* Code/commits/PRs: write normally.\n"
    ∷ "* Auto-Clarity: Drop caveman for security warnings, irreversible action confirmations, or multi-step sequences where fragment order risks misread. Resume caveman after clear part done.\n"
    ∷ "\nFinal Instruction: Be concise. No brackets. No wrapping response in quotes.\n"
    ∷ "\n"
    ∷ [])

unfoldable pub is_off : CavemanMode → Bool
is_off (negsuc n) = false
is_off (pos n) = nat_eq n 0

unfoldable pub get_prompt : CavemanMode → String
unfolding is_off caveman_prompt mode_text
get_prompt mode =
    if is_off mode
    then "Please shorten the following text to reduce token usage, preserving all key information and details and making zero modification to any code blocks:\n\n"
    else caveman_prompt (mode_text mode)
