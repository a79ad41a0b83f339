-- ===== src/Compact/Runs.antt =====
-- cmd/mnemonic/compact.go and options.go: what a run saves and counts, and the texts of the modes.
use mnemonic.Prelude.{
  ℕ, zero, suc, ◌+◌, ◌≤◌, String, Bool, true, false, List, [], ◌∷◌, none, ◌≡◌, refl, ◌==◌, arith,
  length, nat_eq, contains, ◌||◌, if◌then◌else◌, Bool-cases, inl, inr,
}
use mnemonic.Config.State.{pos, negsuc}
use mnemonic.Store.Entry.{Entry, Error, Result, ok, err, wrapped, Result-cases}
use mnemonic.Compact.Modes.{CavemanMode, mode_text, parse_caveman_mode, set_mode}
use mnemonic.Compact.Command.{
  Progress, no_progress, fail_at, CompactBackend, is_wanted, compact_from,
}

-- Whatever integer `WithCavemanMode` is given, the text of the mode that it sets is parsed as that
-- mode.
pub parse-mode_text : (m : CavemanMode) → parse_caveman_mode (mode_text (set_mode m)) ≡ set_mode m
unfolding parse_caveman_mode mode_text set_mode
parse-mode_text (negsuc n) = refl
parse-mode_text (pos zero) = refl
parse-mode_text (pos (suc zero)) = refl
parse-mode_text (pos (suc (suc zero))) = refl
parse-mode_text (pos (suc (suc (suc zero)))) = refl
parse-mode_text (pos (suc (suc (suc (suc n))))) =
    let off : set_mode (pos (suc (suc (suc (suc n))))) ≡ pos 0 = ground arith in rw off refl

module _ {F : Type 0} (B : CompactBackend F) (ids : List String)
    (compact : String → Result String) where
  -- The entries that a run is to save: those of the IDs, or all without any, whose text comes back,
  -- and other than it was.
  abbrev pub rewrites : List (Entry F) → List (Entry F)
  rewrites [] = []
  rewrites (e ∷ es) =
      if nat_eq (length ids) 0 || contains ids e.id
      then elim (compact e.content) [
        | err _ ↦ rewrites es
        | ok text ↦
            if text == e.content then rewrites es else (record e { content = text }) ∷ rewrites es
      ]
      else rewrites es

  abbrev pub save_all : B.State → List (Entry F) → B.State
  save_all s [] = s
  save_all s (e ∷ es) = save_all (B.save s e).1 es

  is_wanted_lem : (e : Entry F) → is_wanted ids e ≡ (nat_eq (length ids) 0 || contains ids e.id)
  unfolding is_wanted
  is_wanted_lem e = ground arith

  local_from :
      (i : ℕ) (g : Progress) (s : B.State) (es : List (Entry F))
      → (compact_from B false ids compact i g s es).1 ≡ save_all s (rewrites es)
  unfolding compact_from
  local_from i g s [] = refl
  local_from i g s (e ∷ es) = elim (Bool-cases (is_wanted ids e)) [
    | inr unwanted ↦ ground (arith, is_wanted_lem e, local_from (suc i) g s es)
    | inl wanted ↦ elim (Result-cases (compact e.content)) [
      | inl (x, failed) ↦ ground (
        arith,
        is_wanted_lem e,
        local_from (suc i) (fail_at i (wrapped "compact failed" x) g) s es,
      )
      | inr (text, done) ↦ elim (Bool-cases (text == e.content)) [
        | inl same ↦
            ground
              (arith, is_wanted_lem e, local_from (suc i) (record g { processed = suc i }) s es)
        | inr new ↦
            let (r, s') = B.save s (record e { content = text }) in
            elim (Result-cases r) [
              | inl (x, unsaved) ↦ ground (
                arith,
                is_wanted_lem e,
                local_from (suc i) (fail_at i (wrapped "save failed" x) g) s' es,
              )
              | inr (u, saved) ↦ ground (
                arith,
                is_wanted_lem e,
                local_from (suc i) (record g { updated = suc g.updated; processed = suc i }) s' es,
              )
            ]
      ]
    ]
  ]

  -- A run without a daemon saves, one after another and whatever fails before, exactly the entries
  -- that have one of the given IDs, or all if none is given, and whose compacted text differs, each
  -- with that text and its other fields as they were.
  pub compact_from_saves :
      (s : B.State) (es : List (Entry F))
      → (compact_from B false ids compact 0 no_progress s es).1 ≡ save_all s (rewrites es)
  compact_from_saves s es = local_from 0 no_progress s es

  -- The counters after so many more entries.
  record Counted (is_daemon : Bool) (last n : ℕ) (before after : Progress) : Type 0 where
    total : after.updated + after.failed ≤ before.updated + before.failed + n
    reached : after.processed ≤ last
    once : is_daemon ≡ true → after.failed ≤ suc before.failed
    reported :
        (before.first_error ≡ none → before.failed ≡ 0)
        → after.first_error ≡ none
        → after.failed ≡ 0

  widen :
      (d : Bool) (last last' n : ℕ) (g g' after : Progress)
      → last ≤ last'
      → g'.updated + g'.failed ≤ g.updated + g.failed + 1
      → (d ≡ true → g'.failed ≡ g.failed)
      → ((g.first_error ≡ none → g.failed ≡ 0) → g'.first_error ≡ none → g'.failed ≡ 0)
      → Counted d last n g' after
      → Counted d last' (suc n) g after
  widen d last last' n g g' after l a b k c = record {
    total = omega (arith, c.total);
    reached = omega (arith, c.reached);
    once = λ e. omega (arith, c.once e, b e);
    reported = λ r. c.reported (k r);
  }

  fails :
      (i : ℕ) (x : Error) (g : Progress)
      → ((fail_at i x g).updated + (fail_at i x g).failed ≤ g.updated + g.failed + 1)
        × ((fail_at i x g).failed ≡ suc g.failed)
        × ((fail_at i x g).processed ≡ suc i)
        × ((fail_at i x g).first_error ≡ none → ⊥)
  unfolding fail_at
  fails i x g = (omega arith, refl, refl, λ h. ground arith)

  -- A failure ends the loop on a daemon, and does not otherwise.
  stopped :
      (d : Bool) (i n : ℕ) (x : Error) (g : Progress)
      → Counted d (i + suc n) (suc n) g (fail_at i x g)
  stopped d i n x g =
      let (t, f, r, e) = fails i x g in
      record {
        total = omega (arith, t);
        reached = omega (arith, r);
        once = λ _. omega (arith, f);
        reported = λ _ none_left. absurd (e none_left);
      }

  after_failure :
      (d : Bool) (i n : ℕ) (x : Error) (g : Progress) (s : B.State)
      (rest whole : Progress × B.State)
      → whole ≡ (elim d [ true ↦ (fail_at i x g, s) | false ↦ rest ])
      → Counted d (suc i + n) n (fail_at i x g) rest.0
      → Counted d (i + suc n) (suc n) g whole.0
  after_failure true i n x g s rest whole eqn c = rw eqn (stopped true i n x g)
  after_failure false i n x g s rest whole eqn c =
      let (t, f, r, e) = fails i x g in
      rw eqn (
        widen false (suc i + n) (i + suc n) n g (fail_at i x g) rest.0 (omega arith) t (λ k. cc)
          (λ _ none_left. absurd (e none_left)) c)

  Counted-from :
      (d : Bool) (i : ℕ) (g : Progress) (s : B.State) (es : List (Entry F))
      → g.processed ≤ i
      → Counted d (i + length es) (length es) g (compact_from B d ids compact i g s es).0
  unfolding compact_from
  Counted-from d i g s [] h = record {
    total = omega arith;
    reached = omega arith;
    once = λ _. omega arith;
    reported = λ k. k;
  }
  Counted-from d i g s (e ∷ es) h =
      let n = length es in
      let whole = compact_from B d ids compact i g s (e ∷ es) in
      elim (Bool-cases (is_wanted ids e)) [
        | inr unwanted ↦
            let rest = compact_from B d ids compact (suc i) g s es in
            let eqn : whole ≡ rest = ground arith in
            rw eqn (
              widen d (suc i + n) (i + suc n) n g g rest.0 (omega arith) (omega arith) (λ _. refl)
                (λ k. k) (Counted-from d (suc i) g s es (omega arith)))
        | inl wanted ↦ elim (Result-cases (compact e.content)) [
          | inl (x, failed) ↦
              let y = wrapped "compact failed" x in
              let g' = fail_at i y g in
              after_failure d i n y g s (compact_from B d ids compact (suc i) g' s es) whole
                (ground arith) (Counted-from d (suc i) g' s es (omega (arith, (fails i y g).2)))
          | inr (text, done) ↦ elim (Bool-cases (text == e.content)) [
            | inl same ↦
                let g' = record g { processed = suc i } in
                let rest = compact_from B d ids compact (suc i) g' s es in
                let eqn : whole ≡ rest = ground arith in
                rw eqn (
                  widen d (suc i + n) (i + suc n) n g g' rest.0 (omega arith) (omega arith)
                    (λ _. refl) (λ k. k) (Counted-from d (suc i) g' s es (omega arith)))
            | inr new ↦
                let (r, s') = B.save s (record e { content = text }) in
                elim (Result-cases r) [
                  | inl (x, unsaved) ↦
                      let y = wrapped "save failed" x in
                      let g' = fail_at i y g in
                      after_failure d i n y g s' (compact_from B d ids compact (suc i) g' s' es)
                        whole (ground arith)
                        (Counted-from d (suc i) g' s' es (omega (arith, (fails i y g).2)))
                  | inr (u, saved) ↦
                      let g' = record g { updated = suc g.updated; processed = suc i } in
                      let rest = compact_from B d ids compact (suc i) g' s' es in
                      let eqn : whole ≡ rest = ground arith in
                      rw eqn (
                        widen d (suc i + n) (i + suc n) n g g' rest.0 (omega arith) (omega arith)
                          (λ _. refl) (λ k. k) (Counted-from d (suc i) g' s' es (omega arith)))
                ]
          ]
        ]
      ]

  -- Of a run, on a daemon or not: the entries updated and those that failed are together no more
  -- than the entries that there are, and no more are counted as processed; on a daemon at most one
  -- fails; and none has failed where no first error is kept.
  pub compact_from_bounds :
      (d : Bool) (s : B.State) (es : List (Entry F))
      → let g = (compact_from B d ids compact 0 no_progress s es).0 in
        (g.updated + g.failed ≤ length es)
        × (g.processed ≤ length es)
        × (d ≡ true → g.failed ≤ 1)
        × (g.first_error ≡ none → g.failed ≡ 0)
  unfolding no_progress
  compact_from_bounds d s es =
      let c = Counted-from d 0 no_progress s es (omega arith) in
      (
        omega (arith, c.total),
        omega (arith, c.reached),
        λ e. omega (arith, c.once e),
        λ e. c.reported (λ _. refl) e,
      )
