-- ===== src/Store/Entry.antt =====
-- internal/store/entry.go and store.go: the data that every store holds, and its errors.
use mnemonic.Prelude.{ℕ, String, Bool, List, ◌≡◌, ◌⊎◌, inl, inr, refl}

-- A time is a number of nanoseconds since the zero value of `time.Time`, so `IsZero` is `0`.
pub record Entry (F : Type 0) : Type 0 where
  pub id : String
  pub content : String
  pub tags : List String
  pub category : String
  pub scope : String
  pub score : F
  pub hit_count : ℕ
  pub last_hit : ℕ
  pub created : ℕ
  pub source : String

pub record HeadInfo : Type 0 where
  pub name : String
  pub count : ℕ
  pub mandatory : Bool

unfoldable pub scope_global : String
scope_global = "global"

-- The errors that the program returns, by what they report.
pub data Error : Type 0 where
  category_not_allowed : String → Error
  scope_not_configured : String → Error
  target_scope_not_configured : String → Error
  not_found : String → Error
  entry_required : Error
  generating_id : Error
  mkdir_failed : String → Error
  read_failed : String → Error
  marshal_failed : Error
  unmarshal_failed : Error
  write_failed : String → Error
  embedder_not_available : Error
  -- `fmt.Errorf("text: %w", err)`
  wrapped : String → Error → Error
  -- an error of a library or a service, by its text
  external : String → Error

pub data Result {ℓ} (A : Type ℓ) : Type ℓ where
  ok : A → Result A
  err : Error → Result A

pub Result-cases {ℓ} :
    {A : Type ℓ} (r : Result A) → ((x : Error) × (r ≡ err x)) ⊎ ((a : A) × (r ≡ ok a))
Result-cases (ok a) = inr (a, refl)
Result-cases (err x) = inl (x, refl)
