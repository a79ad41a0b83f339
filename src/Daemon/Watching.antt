-- ===== src/Daemon/Watching.antt =====
-- watch.go: the watch over a running daemon.
use mnemonic.Prelude.{
  ℕ, zero, suc, Bool, true, false, not, ◌||◌, List, [], ◌∷◌, Option, none, some, ◌≡◌, refl, arith,
  nat_eq, any,
}

-- What `GET /api/status` gives: no answer, or a status code and the `started_at` of the body.
pub data Reply : Type 0 where
  unreachable : Reply
  answered : ℕ → Option ℕ → Reply

-- Whether the watch ends within these ticks; `started` is 0 as long as no start is known.
unfoldable pub watch_from : ℕ → List Reply → Bool
watch_from started [] = false
watch_from started (unreachable ∷ rs) = true
watch_from started (answered code at ∷ rs) = elim (nat_eq code 200) [
  | false ↦ true
  | true ↦ elim at [
    | none ↦ watch_from started rs
    | some t ↦ elim (nat_eq started 0) [
      | true ↦ watch_from t rs
      | false ↦ elim (nat_eq started t) [ false ↦ true | true ↦ watch_from started rs ]
    ]
  ]
]

unfoldable pub watch_daemon : List Reply → Bool
unfolding watch_from
watch_daemon rs = watch_from 0 rs

unfoldable pub is_down : Reply → Bool
is_down unreachable = true
is_down (answered code at) = not (nat_eq code 200)

-- The starts that the replies name.
unfoldable pub starts : List Reply → List ℕ
starts [] = []
starts (unreachable ∷ rs) = starts rs
starts (answered code none ∷ rs) = starts rs
starts (answered code (some t) ∷ rs) = t ∷ starts rs

unfoldable pub differ : List ℕ → Bool
differ [] = false
differ (zero ∷ ts) = differ ts
differ (suc t ∷ ts) = any (λ u. not (nat_eq (suc t) u)) ts

watch_known :
    (t : ℕ) (rs : List Reply)
    → watch_from (suc t) rs ≡ (any is_down rs || any (λ u. not (nat_eq (suc t) u)) (starts rs))
unfolding watch_from is_down starts
watch_known t [] = refl
watch_known t (unreachable ∷ rs) = refl
watch_known t (answered code none ∷ rs) = ground (arith, watch_known t rs)
watch_known t (answered code (some u) ∷ rs) = ground (arith, watch_known t rs)

-- The watch ends exactly when one of the replies is missing or has another status than 200, or when
-- two replies name different starts, where a start of 0 before the first other one does not count.
pub watch_daemon_lem : (rs : List Reply) → watch_daemon rs ≡ (any is_down rs || differ (starts rs))
unfolding watch_daemon watch_from is_down starts differ
watch_daemon_lem [] = refl
watch_daemon_lem (unreachable ∷ rs) = refl
watch_daemon_lem (answered code none ∷ rs) = ground (arith, watch_daemon_lem rs)
watch_daemon_lem (answered code (some zero) ∷ rs) = ground (arith, watch_daemon_lem rs)
watch_daemon_lem (answered code (some (suc u)) ∷ rs) = ground (arith, watch_known u rs)
