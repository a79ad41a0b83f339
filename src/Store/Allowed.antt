-- ===== src/Store/Allowed.antt =====
-- internal/store/allowed.go and mandatory.go: the fixed categories and scopes, and the categories
-- that every query shows.
use mnemonic.Prelude.{String, Bool, true, false, List, [], ◌∷◌, ◌++◌, contains, if◌then◌else◌}

unfoldable pub allowed_categories : List String
allowed_categories = "avoidance" ∷ "security" ∷ "syntax" ∷ "architecture" ∷ "domain" ∷ []

unfoldable pub allowed_scopes : List String
allowed_scopes = "global" ∷ "team" ∷ "project" ∷ []

unfoldable pub is_allowed_category : String → Bool
unfolding allowed_categories
is_allowed_category head = contains allowed_categories head

unfoldable pub is_allowed_scope : String → Bool
unfolding allowed_scopes
is_allowed_scope scope = contains allowed_scopes scope

-- The package's variables: the list, and whether `onceMandatory` has run.
pub record Mandatory : Type 0 where
  pub categories : List String
  pub extended : Bool

unfoldable pub mandatory : Mandatory
mandatory = record { categories = "avoidance" ∷ "security" ∷ []; extended = false }

unfoldable pub is_mandatory_category : Mandatory → String → Bool
is_mandatory_category m head = contains m.categories head

-- Only the first call with a category in it has an effect.
unfoldable pub with_additional_mandatory_categories : List String → Mandatory → Mandatory
with_additional_mandatory_categories [] m = m
with_additional_mandatory_categories (c ∷ cs) m =
    if m.extended then m else record { categories = m.categories ++ c ∷ cs; extended = true }
