-- ===== src/Pool/SizeClass/Compute.antt =====
-- buffer/SizeClass.cpp above its table: the class that is computed from the logarithm.
use native.Mathlib.Nat.{
  pow-le-pow_right, div-add-mod, mod-lt, mul-le-mul_right, mod-eq_of_lt, mul-div_left,
  add-mul-div_right, div-eq_of_lt,
}
use duo_duo.Base.{
  ℕ, ◌+◌, ◌-◌, ◌*◌, ◌/◌, ◌%◌, ◌^◌, ◌≤◌, ◌<◌, ◌≡◌, sym, ap, ◌∙◌, dec_lt, ltb, false, ◌==◌, arith,
  bit_and,
}
use duo_duo.Base.Bits.{bit_and-high, bit_and-low}
use duo_duo.Base.Pow.{two_pow_pos}
use duo_duo.Pool.SizeClass.Rows.{shl}
use duo_duo.Pool.SizeClass.Lookup.{
  slot, size2size_idx_compute, size_idx2size_compute, normalize_size_compute,
}
use duo_duo.Pool.SizeClass.Spread.{Spread, quotient, high_mask, inverse_mask, double, eighth}

-- The slot in the group is the quotient by the step.
pub slot-eq : {size d : ℕ} → Spread size d → slot size d ≡ (size - 1) / 2 ^ d - 4
slot-eq {size} {d} s =
    let pos = two_pow_pos d in
    let q = (size - 1) / 2 ^ d in
    let room : 2 ^ 3 ≤ 2 ^ (32 - d) =
      pow-le-pow_right {n = 2} (omega arith) {i = 3} (omega (arith, s.most)) in
    let (least, most) = quotient s in
    rw
      (
        high_mask d (omega (arith, s.most)),
        bit_and-high d (size - 1) (2 ^ (32 - d) - 1),
        mul-div_left (bit_and q (2 ^ (32 - d) - 1)) pos,
        bit_and-low (32 - d) q,
        mod-eq_of_lt {n = q} {m = 2 ^ (32 - d)} (omega (arith, most, room)),
        bit_and-low 2 q,
      )
      (omega (arith, least, most))

pub size2size_idx_compute-eq :
    {size d : ℕ}
    → Spread size d
    → size2size_idx_compute size ≡ 4 * (d - 3) + ((size - 1) / 2 ^ d - 4)
unfolding size2size_idx_compute
size2size_idx_compute-eq {size} {d} s =
    let f : ltb (d + 3) 7 ≡ false = ground (arith, s.least) in
    let e : d + 3 - 2 - 1 ≡ d = omega arith in
    rw s.log (rw (f, e, slot-eq s) (omega (arith, s.most, s.least)))

pub size_idx2size_compute-eq :
    (d m : ℕ) → 4 ≤ d → d ≤ 21 → m < 4 → size_idx2size_compute (4 * (d - 3) + m) ≡ (m + 5) * 2 ^ d
unfolding size_idx2size_compute
size_idx2size_compute-eq d m lo hi h =
    let g : (4 * (d - 3) + m) / 4 ≡ d - 3 = omega arith in
    let z : (d - 3 == 0) ≡ false = ground arith in
    let k : d - 3 + 4 - 1 ≡ d = omega arith in
    let e : 2 ^ d ≡ 8 * 2 ^ (d - 3) =
      omega (arith, eighth (d - 3), ap (λ k. 2 ^ k) (let q : d - 3 + 3 ≡ d = omega arith in q)) in
    let p : 2 ^ d ≤ 2 ^ 21 = pow-le-pow_right {n = 2} (omega arith) hi in
    let r : (4 * (d - 3) + m) % 4 ≡ m = omega arith in
    let b : m * 2 ^ d ≤ 3 * 2 ^ d = mul-le-mul_right (2 ^ d) (let l : m ≤ 3 = omega arith in l) in
    rw (g, z, k, bit_and-low 2 (4 * (d - 3) + m)) (rw r (omega (arith, e, p, b)))

-- The class of a size is `q + 1` steps long, and the class below it `q`, where `q` is the quotient.
class_size :
    {size d : ℕ}
    → Spread size d
    → size_idx2size_compute (size2size_idx_compute size) ≡ ((size - 1) / 2 ^ d + 1) * 2 ^ d
class_size {size} {d} s =
    let q = (size - 1) / 2 ^ d in
    let (least, most) = quotient s in
    let e : q - 4 + 5 ≡ q + 1 = omega (arith, least) in
    rw (size2size_idx_compute-eq s) (
      size_idx2size_compute-eq d (q - 4) s.least s.most (omega (arith, most))
      ∙ ap (λ k. k * 2 ^ d) e)

class_below :
    {size d : ℕ}
    → 5 ≤ d
    → Spread size d
    → size_idx2size_compute (size2size_idx_compute size - 1) ≡ (size - 1) / 2 ^ d * 2 ^ d
class_below {size} {d} five s = rw (size2size_idx_compute-eq s) (elim (dec_lt 4 q) [
  | yes more ↦
      let e : 4 * (d - 3) + (q - 4) - 1 ≡ 4 * (d - 3) + (q - 5) = omega (arith, more) in
      let f : q - 5 + 5 ≡ q = omega (arith, more) in
      ap size_idx2size_compute e
      ∙ size_idx2size_compute-eq d (q - 5) s.least s.most (omega (arith, most))
      ∙ ap (λ k. k * 2 ^ d) f
  | no four ↦
      let g : q ≡ 4 = omega (arith, four, least) in
      let e : 4 * (d - 3) + (q - 4) - 1 ≡ 4 * (d - 1 - 3) + 3 = omega (arith, g, five) in
      let h : 2 ^ d ≡ 2 * 2 ^ (d - 1) = omega (
        arith,
        double (d - 1),
        ap (λ k. 2 ^ k) (let r : d - 1 + 1 ≡ d = omega (arith, five) in r),
      ) in
      ap size_idx2size_compute e
      ∙ size_idx2size_compute-eq (d - 1) 3 (omega (arith, five)) (omega (arith, s.most))
          (omega arith)
      ∙ rw g (omega (arith, h))
])
  where
    q : ℕ
    q = (size - 1) / 2 ^ d

    least : 4 ≤ q
    least = (quotient s).0

    most : q < 8
    most = (quotient s).1

-- A size above the table: its class has room, and the class below is too small.
pub size2size_idx_compute-fits :
    {size d : ℕ}
    → 5 ≤ d
    → Spread size d
    → let i = size2size_idx_compute size in
      (size ≤ size_idx2size_compute i)
      × (size_idx2size_compute (i - 1) < size)
      × (i ≤ 4 * (d - 3) + 3)
      × (4 * (d - 3) ≤ i)
size2size_idx_compute-fits {size} {d} five s =
    let split = div-add-mod (size - 1) (2 ^ d) in
    let rest = mod-lt (size - 1) (two_pow_pos d) in
    let (least, most) = quotient s in
    let i = size2size_idx_compute-eq s in
    (
      rw (class_size s) (omega (arith, split, rest)),
      rw (class_below five s) (omega (arith, split, s.low)),
      omega (arith, i, most),
      omega (arith, i),
    )

-- Rounding up gives the size of the class.
pub normalize_size_compute-eq :
    {size d : ℕ}
    → Spread size d
    → normalize_size_compute size ≡ size_idx2size_compute (size2size_idx_compute size)
unfolding normalize_size_compute
normalize_size_compute-eq {size} {d} s =
    let p = 2 ^ d in
    let pos = two_pow_pos d in
    let split = div-add-mod (size - 1) p in
    let rest = mod-lt (size - 1) pos in
    let f : ltb (d + 3) 7 ≡ false = ground (arith, s.least) in
    let e : d + 3 - 2 - 1 ≡ d = omega arith in
    let step : shl 1 d ≡ p = omega (arith, s.power) in
    let sum : (size + (p - 1)) % 2 ^ 32 ≡ (size - 1) % p + ((size - 1) / p + 1) * p =
      omega (arith, split, s.power, s.high, s.low, pos) in
    let up : ((size - 1) % p + ((size - 1) / p + 1) * p) / p ≡ (size - 1) / p + 1 =
      omega
        (arith, add-mul-div_right ((size - 1) % p) ((size - 1) / p + 1) pos, div-eq_of_lt rest) in
    let room : 2 ^ 4 ≤ 2 ^ (32 - d) =
      pow-le-pow_right {n = 2} (omega arith) {i = 4} (omega (arith, s.most)) in
    let small : (size - 1) / p + 1 < 2 ^ (32 - d) = omega (arith, quotient s, room) in
    rw (s.log, f, e, step, sum)
      (rw
        (
          inverse_mask d (omega (arith, s.most)),
          bit_and-high d ((size - 1) % p + ((size - 1) / p + 1) * p) (2 ^ (32 - d) - 1),
          up,
          bit_and-low (32 - d) ((size - 1) / p + 1),
          mod-eq_of_lt small,
        )
        (sym (class_size s)))
