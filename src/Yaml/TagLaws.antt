-- ===== src/Yaml/TagLaws.antt =====
-- `normalizeTagValues`: exactly the trimmed values that are not blank, each once.
use mnemonic.Prelude.{
  String, false, not, ◌&&◌, List, [], ◌∷◌, ◌≡◌, refl, ◌∙◌, ◌==◌, eq_iff, arith, All, any, contains,
}
use mnemonic.Prelude.Maps.{Distinct}
use mnemonic.Prelude.Text.{trim_space}
use mnemonic.Prelude.Trimming.{trim_space_idem}
use mnemonic.Yaml.Tags.{normalize_from, normalize_tag_values}

-- No tag twice, none blank, and none with space around it.
pub record IsNormal (tags : List String) : Type 0 where
  pub distinct : Distinct tags
  pub proper : All (λ t. ((t == "") ≡ false) × (trim_space t ≡ t)) tags

contains-normalize_from :
    (t : String) (seen vs : List String)
    → contains (normalize_from seen vs) t
      ≡ (not (t == "") && not (contains seen t) && any (λ v. trim_space v == t) vs)
unfolding normalize_from
contains-normalize_from t seen [] = ground arith
contains-normalize_from t seen (v ∷ vs) = ground (
  arith,
  contains-normalize_from t seen vs,
  contains-normalize_from t (trim_space v ∷ seen) vs,
  eq_iff (trim_space v) t,
  eq_iff t (trim_space v),
)

-- A tag is kept exactly when it is not blank and one of the values, trimmed.
pub contains-normalize_tag_values :
    (t : String) (vs : List String)
    → contains (normalize_tag_values vs) t ≡ (not (t == "") && any (λ v. trim_space v == t) vs)
unfolding normalize_tag_values
contains-normalize_tag_values t vs = contains-normalize_from t [] vs ∙ ground arith

Distinct-normalize_from : (seen vs : List String) → Distinct (normalize_from seen vs)
unfolding normalize_from
Distinct-normalize_from seen [] = tt
Distinct-normalize_from seen (v ∷ vs) = ground (
  arith,
  Distinct-normalize_from seen vs,
  Distinct-normalize_from (trim_space v ∷ seen) vs,
  contains-normalize_from (trim_space v) (trim_space v ∷ seen) vs,
  eq_iff (trim_space v) (trim_space v),
)

proper-normalize_from :
    (seen vs : List String)
    → All (λ t. ((t == "") ≡ false) × (trim_space t ≡ t)) (normalize_from seen vs)
unfolding normalize_from
proper-normalize_from seen [] = tt
proper-normalize_from seen (v ∷ vs) = ground (
  arith,
  proper-normalize_from seen vs,
  proper-normalize_from (trim_space v ∷ seen) vs,
  trim_space_idem v,
)

-- The result is normal.
pub normalize_tag_values-IsNormal : (vs : List String) → IsNormal (normalize_tag_values vs)
unfolding normalize_tag_values
normalize_tag_values-IsNormal vs = record {
  distinct = Distinct-normalize_from [] vs;
  proper = proper-normalize_from [] vs;
}

-- No element of the second list is in the first.
abbrev IsDisjoint : List String → List String → Type 0
IsDisjoint seen ts = All (λ t. contains seen t ≡ false) ts

widen :
    (t : String) (seen ts : List String)
    → contains ts t ≡ false
    → IsDisjoint seen ts
    → IsDisjoint (t ∷ seen) ts
widen t seen [] h d = tt
widen t seen (u ∷ us) h d =
    (ground (arith, eq_iff t u, eq_iff u t), widen t seen us (ground arith) d.1)

normalize_from-eq :
    (seen ts : List String) → IsNormal ts → IsDisjoint seen ts → normalize_from seen ts ≡ ts
unfolding normalize_from
normalize_from-eq seen [] n d = refl
normalize_from-eq seen (t ∷ ts) n d =
    let rest : IsNormal ts = record { distinct = n.distinct.1; proper = n.proper.1 } in
    rw n.proper.0.1
      (ground (arith, normalize_from-eq (t ∷ seen) ts rest (widen t seen ts n.distinct.0 d.1)))

IsDisjoint-nil : (ts : List String) → IsDisjoint [] ts
IsDisjoint-nil [] = tt
IsDisjoint-nil (t ∷ ts) = (refl, IsDisjoint-nil ts)

-- Tags that are normal stay as they are, so normalizing twice is normalizing once.
pub normalize_tag_values_idem :
    (vs : List String) → normalize_tag_values (normalize_tag_values vs) ≡ normalize_tag_values vs
unfolding normalize_tag_values
normalize_tag_values_idem vs =
    normalize_from-eq [] (normalize_from [] vs) (normalize_tag_values-IsNormal vs)
      (IsDisjoint-nil (normalize_from [] vs))
