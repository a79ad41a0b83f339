-- ===== src/Yaml/Hits.antt =====
-- `markHits`: what a query that counts hits changes in the entries, and which files it flags.
use mathlib.Core.Option
use mnemonic.Prelude.{
  ◌+◌, contains, if◌then◌else◌, ℕ, String, true, false, List, [], ◌∷◌, map, Option, none, some, ◌≡◌,
  refl, sym, ap, ◌∙◌, arith, Option-cases, Bool-cases, inl, inr, All,
}
use mnemonic.Prelude.Maps.{Map, lookup, keys, Distinct}
use mnemonic.Store.Entry.{Entry}
use mnemonic.Yaml.State.{Files, YamlStore, files_of}
use mnemonic.Yaml.Queries.{mark_entry, mark_file, mark_files, mark_scopes, flag_scopes, mark_hits}
use mnemonic.Yaml.Files.{file_at, file_in}
use mnemonic.Yaml.View.{
  view, IsWf, ids, find_id, entries_of, entry_in, entry_in_of_view, view_of_entry_in, view-none,
  entry_in_of_view-none,
}

module _ {F : Type 0} (now : ℕ) (hit : List String) where
  lookup-mark_files :
      (c : String) (files : Files F)
      → lookup c (mark_files now hit files) ≡ Option.map (mark_file now hit) (lookup c files)
  unfolding mark_files lookup
  lookup-mark_files c [] = refl
  lookup-mark_files c ((k, f) ∷ files) = ground (arith, lookup-mark_files c files)

  file_in-mark_scopes :
      (sc c : String) (contents : Map (Files F))
      → file_in (mark_scopes now hit contents) sc c
        ≡ Option.map (mark_file now hit) (file_in contents sc c)
  unfolding mark_scopes lookup
  file_in-mark_scopes sc c [] = refl
  file_in-mark_scopes sc c ((k, files) ∷ contents) =
      ground (arith, file_in-mark_scopes sc c contents, lookup-mark_files c files)

  keys-mark_files : (files : Files F) → keys (mark_files now hit files) ≡ keys files
  unfolding mark_files
  keys-mark_files [] = refl
  keys-mark_files ((k, f) ∷ files) = rw (keys-mark_files files)

  keys-mark_scopes :
      (contents : Map (Files F)) → keys (mark_scopes now hit contents) ≡ keys contents
  unfolding mark_scopes
  keys-mark_scopes [] = refl
  keys-mark_scopes ((k, f) ∷ contents) = rw (keys-mark_scopes contents)

  All-mark_scopes :
      (contents : Map (Files F))
      → All (λ e. Distinct (keys e.1)) contents
      → All (λ e. Distinct (keys e.1)) (mark_scopes now hit contents)
  unfolding mark_scopes
  All-mark_scopes [] a = tt
  All-mark_scopes ((k, files) ∷ contents) a =
      (rw (keys-mark_files files) a.0, All-mark_scopes contents a.1)

  find_id-mark :
      (j : String) (es : List (Entry F))
      → find_id j (map (mark_entry now hit) es) ≡ Option.map (mark_entry now hit) (find_id j es)
  unfolding mark_entry
  find_id-mark j [] = refl
  find_id-mark j (x ∷ xs) = ground (arith, find_id-mark j xs)

  ids-mark : (es : List (Entry F)) → ids (map (mark_entry now hit) es) ≡ ids es
  unfolding mark_entry
  ids-mark [] = refl
  ids-mark (x ∷ xs) = ground (arith, ids-mark xs)

of_map :
    {A B : Type 0} (g : A → B) (o : Option A) {b : B}
    → Option.map g o ≡ some b
    → (a : A) × (o ≡ some a)
of_map g none h = cc
of_map g (some a) h = (a, refl)

module _ {F : Type 0} (now : ℕ) (e : Entry F) (es : List (Entry F)) (s : YamlStore F)
    (counting : s.auto_hit_counting ≡ true) where
  abbrev marked : YamlStore F
  marked = mark_hits now (e ∷ es) s

  abbrev mark : Entry F → Entry F
  mark = mark_entry now (ids (e ∷ es))

  marked-eq :
      (marked.contents ≡ mark_scopes now (ids (e ∷ es)) s.contents)
      × (marked.dirs ≡ s.dirs)
      × (marked.dirty ≡ flag_scopes (ids (e ∷ es)) s.contents s.dirty)
  unfolding mark_hits
  marked-eq = ground arith

  file_at-marked :
      (sc c : String)
      → file_at marked sc c ≡ Option.map (mark_file now (ids (e ∷ es))) (file_at s sc c)
  unfolding files_of
  file_at-marked sc c =
      ap (λ (m : Map (Files F)). file_in m sc c) marked-eq.0
      ∙ file_in-mark_scopes now (ids (e ∷ es)) sc c s.contents

  entries-marked :
      (sc c : String) → entries_of (file_at marked sc c) ≡ map mark (entries_of (file_at s sc c))
  unfolding mark_file
  entries-marked sc c = elim (Option-cases (file_at s sc c)) [
    | inl n ↦ rw (file_at-marked sc c, n)
    | inr (f, h) ↦ rw (file_at-marked sc c, h)
  ]

  entry_in-marked : (sc c j : String) → entry_in marked sc c j ≡ Option.map mark (entry_in s sc c j)
  entry_in-marked sc c j =
      ap (find_id j) (entries-marked sc c)
      ∙ find_id-mark now (ids (e ∷ es)) j (entries_of (file_at s sc c))

  marked-IsWf : IsWf s → IsWf marked
  marked-IsWf w = record {
    distinct = rw marked-eq.0 (
      rw (keys-mark_scopes now (ids (e ∷ es)) s.contents) w.distinct.0,
      All-mark_scopes now (ids (e ∷ es)) s.contents w.distinct.1,
    );
    once = λ sc c.
        rw (entries-marked sc c, ids-mark now (ids (e ∷ es)) (entries_of (file_at s sc c)))
          (w.once sc c);
    one_file = λ id sc c sc' c' x x' h k.
        let (y, a) = of_map mark (entry_in s sc c id) (sym (entry_in-marked sc c id) ∙ h) in
        let (y', b) = of_map mark (entry_in s sc' c' id) (sym (entry_in-marked sc' c' id) ∙ k) in
        w.one_file id sc c sc' c' y y' a b;
    covered = λ sc.
        rw (marked-eq.0, marked-eq.1, keys-mark_scopes now (ids (e ∷ es)) s.contents)
          (w.covered sc);
  }

  view-marked : (w : IsWf s) (j : String) → view marked j ≡ Option.map mark (view s j)
  view-marked w j = elim (Option-cases (view s j)) [
    | inl n ↦ rw n (
        view-none j marked
          (λ sc c. ground (arith, entry_in-marked sc c j, entry_in_of_view-none j s sc c n))
          (marked-IsWf w).distinct)
    | inr (x, h) ↦
        let (sc, c, here) = entry_in_of_view j s x h w.distinct in
        rw h (
          view_of_entry_in j marked sc c (mark x) (marked-IsWf w)
            (ground (arith, entry_in-marked sc c j)))
  ]

module _ {F : Type 0} (now : ℕ) (s : YamlStore F) where
  unmarked_off : (hits : List (Entry F)) → s.auto_hit_counting ≡ false → mark_hits now hits s ≡ s
  unfolding mark_hits
  unmarked_off [] off = refl
  unmarked_off (e ∷ es) off = ground arith

  unmarked : (o : Option (Entry F)) → o ≡ Option.map (mark_entry now []) o
  unfolding mark_entry
  unmarked none = refl
  unmarked (some e) = refl

  counted :
      (hits : List (Entry F)) → s.auto_hit_counting ≡ true → IsWf s → IsWf (mark_hits now hits s)
  unfolding mark_hits
  counted [] on w = w
  counted (e ∷ es) on w = marked-IsWf now e es s on w

  shown :
      (hits : List (Entry F))
      → IsWf s
      → s.auto_hit_counting ≡ true
      → (j : String)
      → view (mark_hits now hits s) j ≡ Option.map (mark_entry now (ids hits)) (view s j)
  unfolding mark_hits
  shown [] w on j = unmarked (view s j)
  shown (e ∷ es) w on j = view-marked now e es s on w j

module _ {F : Type 0} (now : ℕ) (hits : List (Entry F)) (s : YamlStore F) where
  -- An entry, with one hit more if it is one of those that the query returned.
  abbrev pub hit_once : Entry F → Entry F
  hit_once e =
      if contains (ids hits) e.id
      then record e { hit_count = e.hit_count + 1; last_hit = now }
      else e

  -- Without hit counting a query changes nothing.
  pub mark_hits_off : s.auto_hit_counting ≡ false → mark_hits now hits s ≡ s
  mark_hits_off off = unmarked_off now s hits off

  -- Counting hits keeps the invariant.
  pub mark_hits-IsWf : IsWf s → IsWf (mark_hits now hits s)
  mark_hits-IsWf w = elim (Bool-cases s.auto_hit_counting) [
    | inl on ↦ counted now s hits on w
    | inr off ↦ rw (mark_hits_off off) w
  ]

  -- Where hits are counted, and the store is well-formed, after a query each entry that it
  -- returned, in whichever scope it stands, has one hit more and the time of the query as its last
  -- hit; the other entries are as they were.
  pub view-mark_hits :
      IsWf s
      → s.auto_hit_counting ≡ true
      → (j : String) → view (mark_hits now hits s) j ≡ Option.map hit_once (view s j)
  unfolding mark_entry
  view-mark_hits w on j = shown now s hits w on j
