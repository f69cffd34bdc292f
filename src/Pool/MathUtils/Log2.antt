-- ===== src/Pool/MathUtils/Log2.antt =====
-- The logarithm finds the highest set bit of every positive word.
use duo_duo.Base.{ℕ, ◌+◌, ◌-◌, ◌*◌, ◌/◌, ◌%◌, ◌^◌, ◌≤◌, ◌<◌, ◌≡◌, ap, arith, dec_lt, ◌==◌, false}
use native.Mathlib.Nat.{pow-le-pow_right}
use duo_duo.Base.Pow.{two_pow-add, two_pow_pos}
use duo_duo.Pool.MathUtils.{narrow, number_of_leading_zeros, log2}

-- After some rounds: `v` shifted left by `n - 1`, no bit lost, the top one at `low` or above.
record Shifted (v low : ℕ) (s : ℕ × ℕ) : Type 0 where
  counted : 1 ≤ s.0
  shifted : v * 2 ^ (s.0 - 1) ≡ s.1
  fits : s.1 < 2 ^ 32
  high : 2 ^ low ≤ s.1

shift_more : (v n step : ℕ) → 1 ≤ n → v * 2 ^ (n + step - 1) ≡ v * 2 ^ (n - 1) * 2 ^ step
shift_more v n step h =
    let e : n + step - 1 ≡ (n - 1) + step = omega arith in
    omega (arith, ap (λ (k : ℕ). v * 2 ^ k) e, ap (λ (k : ℕ). v * k) (two_pow-add (n - 1) step))

narrow-Shifted16 : {v : ℕ} {s : ℕ × ℕ} → Shifted v 0 s → Shifted v 16 (narrow 16 16 s)
unfolding narrow
narrow-Shifted16 {v} {s = (n, val)} h = ground (arith, shift_more v n 16)

narrow-Shifted8 : {v : ℕ} {s : ℕ × ℕ} → Shifted v 16 s → Shifted v 24 (narrow 24 8 s)
unfolding narrow
narrow-Shifted8 {v} {s = (n, val)} h = ground (arith, shift_more v n 8)

narrow-Shifted4 : {v : ℕ} {s : ℕ × ℕ} → Shifted v 24 s → Shifted v 28 (narrow 28 4 s)
unfolding narrow
narrow-Shifted4 {v} {s = (n, val)} h = ground (arith, shift_more v n 4)

narrow-Shifted2 : {v : ℕ} {s : ℕ × ℕ} → Shifted v 28 s → Shifted v 30 (narrow 30 2 s)
unfolding narrow
narrow-Shifted2 {v} {s = (n, val)} h = ground (arith, shift_more v n 2)

-- The exponent is below every power that bounds the product.
exponent_lt : (v k m : ℕ) → 0 < v → v * 2 ^ k < 2 ^ m → k < m
exponent_lt v k m pos h = elim (dec_lt k m) [
  | yes p ↦ p
  | no p ↦
      let grow : 2 ^ m ≤ 2 ^ k = pow-le-pow_right {n = 2} (omega arith) (omega arith) in
      absurd (grind arith)
]

-- The last round looks at the top bit alone.
last_round :
    (v n top : ℕ)
    → 0 < v
    → Shifted v 30 (n, top)
    → let m = n - top / 2 ^ 31 in (m ≤ 31) × (2 ^ 31 ≤ v * 2 ^ m) × (v * 2 ^ m < 2 ^ 32)
last_round v n top pos h = elim (dec_lt top (2 ^ 31)) [
  | yes low ↦
      let e : n - top / 2 ^ 31 ≡ n = omega arith in
      let d : v * 2 ^ n ≡ 2 * top = omega (
        arith,
        shift_more v n 1 h.counted,
        h.shifted,
        ap (λ (k : ℕ). v * 2 ^ k) (let q : n + 1 - 1 ≡ n = omega arith in q),
      ) in
      let b : n < 32 = exponent_lt v n 32 pos (omega (arith, d)) in
      rw e (omega arith, omega (arith, d, h.high), omega (arith, d))
  | no high ↦
      let e : n - top / 2 ^ 31 ≡ n - 1 = omega (arith, h.fits) in
      let b : n - 1 < 32 = exponent_lt v (n - 1) 32 pos (omega (arith, h.shifted, h.fits)) in
      rw e (omega arith, omega (arith, h.shifted), omega (arith, h.shifted, h.fits))
]

-- A positive word shifted left by its leading zeros has its top bit set, and no bit is lost.
pub number_of_leading_zeros_bounds :
    (v : ℕ)
    → 0 < v
    → v < 2 ^ 32
    → let n = number_of_leading_zeros v in (n ≤ 31) × (2 ^ 31 ≤ v * 2 ^ n) × (v * 2 ^ n < 2 ^ 32)
unfolding number_of_leading_zeros
number_of_leading_zeros_bounds v pos fits =
    let start : Shifted v 0 (1, v) = record {
      counted = omega arith;
      shifted = omega arith;
      fits = fits;
      high = omega arith;
    } in
    let h = narrow-Shifted2 (narrow-Shifted4 (narrow-Shifted8 (narrow-Shifted16 start))) in
    let z : (v == 0) ≡ false = ground arith in rw z (last_round v _ _ pos h)

cancel_le : (k n m v : ℕ) → k + n ≡ m → 2 ^ m ≤ v * 2 ^ n → 2 ^ k ≤ v
cancel_le k n m v e h =
    let p : 2 ^ m ≡ 2 ^ k * 2 ^ n = rw (← e) (two_pow-add k n) in
    let q = two_pow_pos n in
    elim (dec_lt v (2 ^ k)) [ yes l ↦ absurd (grind arith) | no g ↦ omega arith ]

cancel_lt : (k n m v : ℕ) → k + n ≡ m → v * 2 ^ n < 2 ^ m → v < 2 ^ k
cancel_lt k n m v e h =
    let p : 2 ^ m ≡ 2 ^ k * 2 ^ n = rw (← e) (two_pow-add k n) in
    let q = two_pow_pos n in elim (dec_lt v (2 ^ k)) [ yes l ↦ l | no g ↦ absurd (grind arith) ]

-- `log2` of a positive word is the place of its highest set bit.
pub log2_bounds :
    (v : ℕ) → 0 < v → v < 2 ^ 32 → (2 ^ log2 v ≤ v) × (v < 2 ^ (log2 v + 1)) × (log2 v ≤ 31)
unfolding log2
log2_bounds v pos fits =
    let n = number_of_leading_zeros v in
    let (small, low, high) = number_of_leading_zeros_bounds v pos fits in
    let e : (31 + 2 ^ 32 - n) % 2 ^ 32 ≡ 31 - n = omega (arith, small) in
    let d : 31 - n + 1 ≡ 32 - n = omega (arith, small) in
    rw (e, d)
      (
        cancel_le (31 - n) n 31 v (omega (arith, small)) low,
        cancel_lt (32 - n) n 32 v (omega (arith, small)) high,
        omega arith,
      )
