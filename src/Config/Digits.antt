-- ===== src/Config/Digits.antt =====
-- `strconv.Itoa`: the fuel of its digits is enough.
use mnemonic.Prelude.{ℕ, zero, suc, ◌/◌, ◌<◌, ◌≡◌, arith, ltb, Bool-cases, inl, inr}
use mnemonic.Config.Values.{digits}

-- Any fuel above the number gives the same digits, so more than `itoa` takes adds none.
pub digits_enough : (f g n : ℕ) → n < f → n < g → digits f n ≡ digits g n
unfolding digits
digits_enough zero g n h k = absurd (ground arith)
digits_enough (suc f) zero n h k = absurd (ground arith)
digits_enough (suc f) (suc g) n h k = elim (Bool-cases (ltb n 10)) [
  | inl small ↦ ground arith
  | inr large ↦
      let p : n / 10 < f = ground arith in
      let q : n / 10 < g = ground arith in rw (large, digits) (rw (digits_enough f g (n / 10) p q))
]
