-- ===== src/Yaml/Single.antt =====
-- A method that rewrites one file: what the view shows after it, and when the store stays
-- well-formed.
use mnemonic.Prelude.{
  String, true, false, ◌&&◌, List, none, some, ◌≡◌, sym, ap, ◌∙◌, ◌==◌, eq_iff, arith,
  if◌then◌else◌, Option-cases, Bool-cases, inl, inr, contains,
}
use mnemonic.Prelude.Maps.{keys, Distinct}
use mnemonic.Store.Entry.{Entry}
use mnemonic.Yaml.State.{YamlStore}
use mnemonic.Yaml.Files.{file_at, IsDistinct}
use mnemonic.Yaml.View.{
  view, IsWf, ids, find_id, entries_of, entry_in, entry_in_of_view, entry_in_of_view-none,
  view_of_entry_in, view-none,
}

-- `s'` is `s` with the entries of one file replaced.
abbrev pub Rewrites :
    {F : Type 0} → YamlStore F → String → String → List (Entry F) → YamlStore F → Type 0
Rewrites s scope category es s' =
    (sc c : String)
    → entries_of (file_at s' sc c)
      ≡ (if scope == sc && category == c then es else entries_of (file_at s sc c))

module _ {F : Type 0} (s s' : YamlStore F) (scope category : String) (es : List (Entry F))
    (rewritten : Rewrites s scope category es s') where
  -- No other file has an ID of the new entries.
  abbrev IsApart : Type 0
  IsApart =
      (id sc c : String) (e : Entry F)
      → find_id id es ≡ some e
      → (scope == sc && category == c) ≡ false
      → entry_in s sc c id ≡ none

  pub entry_in-rewritten :
      (sc c id : String)
      → entry_in s' sc c id
        ≡ (if scope == sc && category == c then find_id id es else entry_in s sc c id)
  entry_in-rewritten sc c id =
      rw (rewritten sc c)
        (elim (Bool-cases (scope == sc && category == c)) [ inl h ↦ rw h | inr h ↦ rw h ])

  entry_in-here : (id : String) → entry_in s' scope category id ≡ find_id id es
  entry_in-here id =
      ground
        (arith, entry_in-rewritten scope category id, eq_iff scope scope, eq_iff category category)

  pub IsWf-rewritten :
      IsWf s
      → Distinct (ids es)
      → IsApart
      → IsDistinct s'.contents
      → ((sc : String) → contains (keys s'.contents) sc ≡ true → contains (keys s'.dirs) sc ≡ true)
      → IsWf s'
  IsWf-rewritten w once apart distinct covered = record {
    distinct = distinct;
    once = λ sc c. rw (rewritten sc c) (elim (Bool-cases (scope == sc && category == c)) [
      | inl h ↦ rw h once
      | inr h ↦ rw h (w.once sc c)
    ]);
    one_file = λ id sc c sc' c' e e' h k. ground (
      arith,
      entry_in-rewritten sc c id,
      entry_in-rewritten sc' c' id,
      apart id sc c e',
      apart id sc' c' e,
      w.one_file id sc c sc' c' e e',
      eq_iff scope sc,
      eq_iff scope sc',
      eq_iff category c,
      eq_iff category c',
    );
    covered = covered;
  }

  module _ (id : String) (w : IsWf s) (w' : IsWf s') (new : find_id id es ≡ none) where
    -- An ID that only the old entries of the file had is gone.
    view_gone : (e : Entry F) → entry_in s scope category id ≡ some e → view s' id ≡ none
    view_gone e old =
        view-none id s'
          (λ sc c. elim (Option-cases (entry_in s sc c id)) [
            | inl n ↦ ground (arith, entry_in-rewritten sc c id)
            | inr (e', h) ↦ ground (
              arith,
              entry_in-rewritten sc c id,
              w.one_file id scope category sc c e e' old h,
              eq_iff scope sc,
              eq_iff category c,
            )
          ])
          w'.distinct

    -- An ID that the file never had is shown as before.
    view_kept : entry_in s scope category id ≡ none → view s' id ≡ view s id
    view_kept old = elim (Option-cases (view s id)) [
      | inl n ↦ rw n (
          view-none id s'
            (λ sc c. ground (arith, entry_in-rewritten sc c id, entry_in_of_view-none id s sc c n))
            w'.distinct)
      | inr (e, shown) ↦
          let (sc, c, h) = entry_in_of_view id s e shown w.distinct in
          rw shown (
            view_of_entry_in id s' sc c e w'
              (ground (arith, entry_in-rewritten sc c id, eq_iff scope sc, eq_iff category c)))
    ]

  -- The view after: the new entries of the file first; what else was in the file is gone.
  pub view-rewritten :
      (id : String)
      → IsWf s
      → IsWf s'
      → view s' id ≡ elim (find_id id es) [
        | some e ↦ some e
        | none ↦ elim (entry_in s scope category id) [ none ↦ view s id | some _ ↦ none ]
      ]
  view-rewritten id w w' = elim (Option-cases (find_id id es)) [
    | inr (e, here) ↦ rw here (view_of_entry_in id s' scope category e w' (entry_in-here id ∙ here))
    | inl new ↦ rw new (elim (Option-cases (entry_in s scope category id)) [
      | inr (e, old) ↦ rw old (view_gone id w w' new e old)
      | inl old ↦ rw old (view_kept id w w' new old)
    ])
  ]

-- A store with the same files.
pub IsWf-same :
    {F : Type 0} (s s' : YamlStore F)
    → ((sc c : String) → file_at s' sc c ≡ file_at s sc c)
    → IsWf s
    → IsDistinct s'.contents
    → ((sc : String) → contains (keys s'.contents) sc ≡ true → contains (keys s'.dirs) sc ≡ true)
    → IsWf s'
IsWf-same s s' same w distinct covered = record {
  distinct = distinct;
  once = λ sc c. rw (same sc c) (w.once sc c);
  one_file = λ id sc c sc' c' e e' h k.
      w.one_file id sc c sc' c' e e' (ap (λ f. find_id id (entries_of f)) (sym (same sc c)) ∙ h)
        (ap (λ f. find_id id (entries_of f)) (sym (same sc' c')) ∙ k);
  covered = covered;
}
