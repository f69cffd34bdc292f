-- ===== src/Pool/SizeClass/Spread.antt =====
-- Above the table of small sizes: where a size lies between two powers of two.
use native.Mathlib.Nat.{pow-le-pow_right, div-add-mod, mod-lt}
use duo_duo.Base.{
  ℕ, ◌+◌, ◌-◌, ◌*◌, ◌/◌, ◌%◌, ◌^◌, ◌≤◌, ◌<◌, ◌≡◌, refl, sym, ap, dec_lt, ◌∙◌, true, ◌==◌, ==_iff,
  arith, all_below, all_below_sound,
}
use duo_duo.Base.Pow.{two_pow-add, two_pow_pos}
use duo_duo.Pool.MathUtils.{log2}
use duo_duo.Pool.MathUtils.Log2.{log2_bounds}
use duo_duo.Pool.SizeClass.Rows.{shl}
use duo_duo.Pool.SizeClass.Lookup.{log2_up}

high_masks : all_below 32 (λ d. shl (2 ^ 32 - 1) d == (2 ^ (32 - d) - 1) * 2 ^ d) ≡ true
unfolding all_below
high_masks = refl

pub high_mask : (d : ℕ) → d < 32 → shl (2 ^ 32 - 1) d ≡ (2 ^ (32 - d) - 1) * 2 ^ d
high_mask d h = (==_iff _ _).0 (all_below_sound 32 _ d high_masks h)

inverse_masks : all_below 32 (λ d. 2 ^ 32 - 1 - (2 ^ d - 1) == (2 ^ (32 - d) - 1) * 2 ^ d) ≡ true
unfolding all_below
inverse_masks = refl

pub inverse_mask : (d : ℕ) → d < 32 → 2 ^ 32 - 1 - (2 ^ d - 1) ≡ (2 ^ (32 - d) - 1) * 2 ^ d
inverse_mask d h = (==_iff _ _).0 (all_below_sound 32 _ d inverse_masks h)

pub double : (d : ℕ) → 2 ^ (d + 1) ≡ 2 * 2 ^ d
double d = omega (arith, two_pow-add d 1)

pub eighth : (d : ℕ) → 2 ^ (d + 3) ≡ 8 * 2 ^ d
eighth d = omega (arith, two_pow-add d 3)

exponent_above : (m x v : ℕ) → 2 ^ m ≤ v → v < 2 ^ (x + 1) → m < x + 1
exponent_above m x v lo hi = elim (dec_lt m (x + 1)) [
  | yes p ↦ p
  | no p ↦
      let grow : 2 ^ (x + 1) ≤ 2 ^ m = pow-le-pow_right {n = 2} (omega arith) (omega arith) in
      absurd (omega arith)
]

exponent_below : (m x v : ℕ) → v < 2 ^ m → 2 ^ x ≤ v → x < m
exponent_below m x v hi lo = elim (dec_lt x m) [
  | yes p ↦ p
  | no p ↦
      let grow : 2 ^ m ≤ 2 ^ x = pow-le-pow_right {n = 2} (omega arith) (omega arith) in
      absurd (omega arith)
]

-- Where a size above 64 lies: `size - 1` is at least 4 and less than 8 steps of `2 ^ d`.
quotient_least : (q p r n : ℕ) → p * q + r ≡ n → r < p → 4 * p ≤ n → 4 ≤ q
quotient_least q p r n e h lo = elim (dec_lt q 4) [
  | yes l ↦ absurd (grind arith)
  | no g ↦ omega arith
]

quotient_most : (q p r n : ℕ) → 0 < p → p * q + r ≡ n → n < 8 * p → q < 8
quotient_most q p r n pos e hi = elim (dec_lt q 8) [ yes l ↦ l | no g ↦ absurd (grind arith) ]

pub record Spread (size d : ℕ) : Type 0 where
  pub log : log2_up size ≡ d + 3
  pub least : 4 ≤ d
  pub most : d ≤ 21
  pub low : 4 * 2 ^ d < size
  pub high : size ≤ 8 * 2 ^ d
  pub power : 2 ^ d ≤ 2 ^ 21

pub quotient : {size d : ℕ} → Spread size d → (4 ≤ (size - 1) / 2 ^ d) × ((size - 1) / 2 ^ d < 8)
quotient {size} {d} s =
    let pos = two_pow_pos d in
    let split = div-add-mod (size - 1) (2 ^ d) in
    let rest = mod-lt (size - 1) pos in
    (
      quotient_least ((size - 1) / 2 ^ d) (2 ^ d) ((size - 1) % 2 ^ d) (size - 1) split rest
          (omega (arith, s.low)),
      quotient_most ((size - 1) / 2 ^ d) (2 ^ d) ((size - 1) % 2 ^ d) (size - 1) pos split
          (omega (arith, s.high, s.low)),
    )

pub spread : (size : ℕ) → 64 < size → size ≤ 2 ^ 24 → (d : ℕ) × Spread size d
spread size lo hi =
    let v : ℕ = 2 * size - 1 in
    let x = log2 v in
    let (below, above, top) = log2_bounds v (omega arith) (omega arith) in
    let arg : (shl size 1 + 2 ^ 32 - 1) % 2 ^ 32 ≡ v = omega arith in
    let big : 6 < x = omega (arith, exponent_above 7 x v (omega arith) above) in
    let small : x < 25 = exponent_below 25 x v (omega arith) below in
    let d : ℕ = x - 3 in
    let e : d + 3 ≡ x = omega (arith, big) in
    let e' : d + 3 + 1 ≡ x + 1 = omega (arith, big) in
    let p : 2 ^ x ≡ 8 * 2 ^ d = omega (arith, ap (λ k. 2 ^ k) e, eighth d) in
    let p' : 2 ^ (x + 1) ≡ 16 * 2 ^ d =
      omega (arith, ap (λ k. 2 ^ k) e', double (d + 3), eighth d) in
    (
      d,
      record {
        log = ap log2 arg ∙ sym e;
        least = omega (arith, big);
        most = omega (arith, small);
        low = omega (arith, below, p);
        high = omega (arith, above, p');
        power = pow-le-pow_right {n = 2} (omega arith) {j = 21} (omega (arith, small));
      },
    )
