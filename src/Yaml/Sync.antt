-- ===== src/Yaml/Sync.antt =====
-- `flush`: after it without an error every file is on disk as it is in memory.
use mnemonic.Prelude.{
  String, Bool, true, ◌&&◌, ◌⊎◌, List, [], ◌∷◌, ◌≡◌, refl, ◌∙◌, ◌==◌, arith, inl, inr, All, any,
  contains,
}
use mnemonic.Prelude.Maps.{Map, keys}
use mnemonic.Store.Entry.{Error, Result, ok, err}
use mnemonic.Yaml.State.{Os, YamlStore, persist}
use mnemonic.Yaml.Files.{persist-memory}
use mnemonic.Yaml.Flush.{clear_flag, flush_pairs}

-- Whether a pair is in a list of pairs.
abbrev has_pair : List (String × String) → String → String → Bool
has_pair pairs sc c = any (λ q. q.0 == sc && q.1 == c) pairs

module _ {F : Type 0} (os : Os F) where
  -- The pairs are of configured scopes.
  abbrev AllKnown : Map String → List (String × String) → Type 0
  AllKnown dirs pairs = All (λ q. contains (keys dirs) q.0 ≡ true) pairs

  clear_flag-same :
      (s : YamlStore F) (scope category : String)
      → ((clear_flag s scope category).contents ≡ s.contents)
        × ((clear_flag s scope category).dirs ≡ s.dirs)
        × ((clear_flag s scope category).disk ≡ s.disk)
  unfolding clear_flag
  clear_flag-same s scope category = ground arith

  -- One round of `flush`: the save and the cleared flag.
  abbrev round : YamlStore F → String → String → YamlStore F
  round s scope category = clear_flag (persist os s scope category).1 scope category

  round-dirs : (s : YamlStore F) (scope category : String) → (round s scope category).dirs ≡ s.dirs
  round-dirs s scope category =
      (clear_flag-same (persist os s scope category).1 scope category).1
      ∙ (persist-memory os s scope category).1

  round-contents :
      (s : YamlStore F) (scope category : String) → (round s scope category).contents ≡ s.contents
  round-contents s scope category =
      (clear_flag-same (persist os s scope category).1 scope category).0
      ∙ (persist-memory os s scope category).0

  pub Result-cases : (r : Result (Unit {0})) → (r ≡ ok tt) ⊎ ((x : Error) × (r ≡ err x))
  Result-cases (ok tt) = inl refl
  Result-cases (err x) = inr (x, refl)

  flush_step :
      (scope category : String) (pairs : List (String × String)) (s : YamlStore F)
      → (persist os s scope category).0 ≡ ok tt
      → flush_pairs os ((scope, category) ∷ pairs) s ≡ flush_pairs os pairs (round s scope category)
  unfolding flush_pairs
  flush_step scope category pairs s h = rw (h, flush_pairs)

  flush_stop :
      (scope category : String) (pairs : List (String × String)) (s : YamlStore F) (x : Error)
      → (persist os s scope category).0 ≡ err x
      → flush_pairs os ((scope, category) ∷ pairs) s ≡ (err x, (persist os s scope category).1)
  unfolding flush_pairs
  flush_stop scope category pairs s x h = rw (h, flush_pairs)

  pub flush_pairs-contents :
      (pairs : List (String × String)) (s : YamlStore F)
      → ((flush_pairs os pairs s).1.contents ≡ s.contents)
        × ((flush_pairs os pairs s).1.dirs ≡ s.dirs)
  flush_pairs-contents [] s = unfold flush_pairs in (refl, refl)
  flush_pairs-contents ((scope, category) ∷ pairs) s =
      elim (Result-cases (persist os s scope category).0) [
        | inl done ↦
            let (same, dirs) = flush_pairs-contents pairs (round s scope category) in
            rw (flush_step scope category pairs s done)
              (same ∙ round-contents s scope category, dirs ∙ round-dirs s scope category)
        | inr (x, e) ↦
            let (same, dirs, _, _, _) = persist-memory os s scope category in
            rw (flush_stop scope category pairs s x e) (same, dirs)
      ]
