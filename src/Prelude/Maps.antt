-- ===== src/Prelude/Maps.antt =====
-- A Go map with string keys, as an association list whose order stands for the order in which a
-- `range` over the map visits it.
use Prim.Native.String.{String}
use mathlib.Core.Path.{◌≡◌, refl, subst}
use mathlib.Core.Logic.{inl, inr}
use mathlib.Core.Bool.{true, false, ◌||◌}
use mathlib.Core.List.{List, [], ◌∷◌, map}
use mathlib.Core.Option.{Option, none, some}
use native.Mathlib.Omega.{arith}
use text.Mathlib.Text.{◌==◌}
use text.Mathlib.TextEquality.{eq_iff}
use mnemonic.Prelude.Tests.{if◌then◌else◌, Bool-cases}
use mnemonic.Prelude.Lists.{All, contains}

abbrev pub Map {ℓ} : Type ℓ → Type ℓ
Map V = List (String × V)

-- No key occurs twice.
abbrev pub Distinct : List String → Type 0
Distinct [] = Unit
Distinct (k ∷ ks) = (contains ks k ≡ false) × Distinct ks

module _ {ℓ} {V : Type ℓ} where
  -- `delete(m, key)`
  unfoldable pub remove : String → Map V → Map V
  remove key [] = []
  remove key ((k, x) ∷ rest) = if k == key then remove key rest else (k, x) ∷ remove key rest

  -- `x, ok := m[key]`
  unfoldable pub lookup : String → Map V → Option V
  lookup key [] = none
  lookup key ((k, x) ∷ rest) = if k == key then some x else lookup key rest

  -- `m[key] = x`
  unfoldable pub insert : String → V → Map V → Map V
  insert key x [] = (key, x) ∷ []
  insert key x ((k, y) ∷ rest) = if k == key then (key, x) ∷ rest else (k, y) ∷ insert key x rest

  abbrev pub keys : Map V → List String
  keys m = map (λ e. e.0) m

  pub lookup-insert :
      (key other : String) (x : V) (m : Map V)
      → lookup other (insert key x m) ≡ (if key == other then some x else lookup other m)
  unfolding insert lookup
  lookup-insert key other x [] = refl
  lookup-insert key other x ((k, y) ∷ rest) =
      ground (arith, lookup-insert key other x rest, eq_iff k key, eq_iff k other, eq_iff key other)

  pub lookup-remove :
      (k j : String) (m : Map V) → lookup j (remove k m) ≡ (if k == j then none else lookup j m)
  unfolding lookup remove
  lookup-remove k j [] = ground arith
  lookup-remove k j ((i, w) ∷ m) =
      ground (arith, eq_iff k j, eq_iff i k, eq_iff i j, lookup-remove k j m)

  -- A key is present exactly when it is among the keys.
  pub contains-keys :
      (k : String) (m : Map V)
      → contains (keys m) k ≡ (elim (lookup k m) [ none ↦ false | some _ ↦ true ])
  unfolding lookup
  contains-keys k [] = refl
  contains-keys k ((j, v) ∷ m) = ground (arith, contains-keys k m)

module _ {ℓ} {V : Type ℓ} where
  pub contains-keys-insert :
      (k j : String) (v : V) (m : Map V)
      → contains (keys (insert k v m)) j ≡ ((k == j) || contains (keys m) j)
  unfolding insert
  contains-keys-insert k j v [] = ground arith
  contains-keys-insert k j v ((i, w) ∷ m) =
      ground (arith, contains-keys-insert k j v m, eq_iff i k, eq_iff i j, eq_iff k j)

  pub Distinct-insert :
      (k : String) (v : V) (m : Map V) → Distinct (keys m) → Distinct (keys (insert k v m))
  unfolding insert
  Distinct-insert k v [] d = (refl, tt)
  Distinct-insert k v ((i, w) ∷ m) d =
      ground (arith, Distinct-insert k v m, contains-keys-insert k i v m, eq_iff i k, eq_iff k i)

  pub All-insert {κ} :
      (P : String × V → Type κ) (k : String) (v : V) (m : Map V)
      → P (k, v)
      → All P m
      → All P (insert k v m)
  unfolding insert
  All-insert P k v [] h a = (h, tt)
  All-insert P k v ((i, w) ∷ m) h a = ground (arith, All-insert P k v m h)

  pub All-lookup {κ} :
      (P : V → Type κ) (k : String) (v : V) (m : Map V)
      → lookup k m ≡ some v
      → All (λ e. P e.1) m
      → P v
  unfolding lookup
  All-lookup P k v [] h a = cc
  All-lookup P k v ((i, w) ∷ m) h a = elim (Bool-cases (i == k)) [
    | inl e ↦ let same : w ≡ v = ground arith in subst P same a.0
    | inr e ↦ All-lookup P k v m (ground arith) a.1
  ]

pub ruleset map_laws = (lookup-insert, lookup-remove)
