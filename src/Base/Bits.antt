-- ===== src/Base/Bits.antt =====
-- Laws of `bit_and`, `bit_or` and `bit_xor` for every width: the lowest digit, one bit, disjoint
-- fields, masks.
use Prim.Native.Nat.{
  ℕ, zero, suc, ◌+◌, ◌-◌, ◌*◌, ◌/◌, ◌%◌, ◌^◌, ◌≤◌, ◌<◌, min, max, digits, bitwise, differ, bit_and,
  bit_or, bit_xor, bit_and-bitwise, bit_or-bitwise, bit_xor-bitwise,
}
use mathlib.Core.Path.{◌≡◌, refl, ap}
use mathlib.Core.Logic.{◌≢◌}
use native.Mathlib.Nat.{
  div-div-eq-div-mul, div-add-mod, mod-lt, mod-eq_of_lt, add-mul-mod_self_left,
}
use native.Mathlib.Omega.{arith}
use duo_duo.Base.Pow.{two_pow-suc, two_pow_pos, mul-two_pow-suc}

module _ (rest : ℕ → ℕ) (op : ℕ → ℕ → ℕ) where
  -- Two amounts of fuel that both suffice give one result.
  digits_agree : (f g a b : ℕ) → a ≤ f → a ≤ g → digits rest op f a b ≡ digits rest op g a b
  digits_agree zero zero a b hf hg = refl
  digits_agree (suc f) zero zero b hf hg = refl
  digits_agree (suc f) zero (suc a) b hf hg = absurd (omega arith)
  digits_agree zero (suc g) zero b hf hg = refl
  digits_agree zero (suc g) (suc a) b hf hg = absurd (omega arith)
  digits_agree (suc f) (suc g) zero b hf hg = refl
  digits_agree (suc f) (suc g) (suc a) b hf hg =
      let ih = digits_agree f g (suc a / 2) (b / 2) (omega arith) (omega arith) in omega (arith, ih)

  bitwise_digit :
      (a b : ℕ)
      → bitwise rest op (suc a) b ≡ bitwise rest op (suc a / 2) (b / 2) * 2 + op (suc a % 2) (b % 2)
  bitwise_digit a b =
      let e = digits_agree a (suc a / 2) (suc a / 2) (b / 2) (omega arith) (omega arith) in
      omega (arith, e)

pub bit_and_digit : (a b : ℕ) → bit_and a b ≡ bit_and (a / 2) (b / 2) * 2 + min (a % 2) (b % 2)
bit_and_digit zero b = omega (arith, bit_and-bitwise 0 b, bit_and-bitwise 0 (b / 2))
bit_and_digit (suc a) b = simp bit_and-bitwise (bitwise_digit (λ y. 0) min a b)

pub bit_or_digit : (a b : ℕ) → bit_or a b ≡ bit_or (a / 2) (b / 2) * 2 + max (a % 2) (b % 2)
bit_or_digit zero b = omega (arith, bit_or-bitwise 0 b, bit_or-bitwise 0 (b / 2))
bit_or_digit (suc a) b = simp bit_or-bitwise (bitwise_digit (λ y. y) max a b)

pub bit_xor_digit : (a b : ℕ) → bit_xor a b ≡ bit_xor (a / 2) (b / 2) * 2 + differ (a % 2) (b % 2)
bit_xor_digit zero b = omega (arith, bit_xor-bitwise 0 b, bit_xor-bitwise 0 (b / 2))
bit_xor_digit (suc a) b = simp bit_xor-bitwise (bitwise_digit (λ y. y) differ a b)

differ_bits : (d e : ℕ) → d < 2 → e < 2 → differ d e ≡ (d + e) % 2
differ_bits zero e hd he = omega arith
differ_bits (suc zero) zero hd he = refl
differ_bits (suc zero) (suc zero) hd he = refl
differ_bits (suc zero) (suc (suc e)) hd he = absurd (omega arith)
differ_bits (suc (suc d)) e hd he = absurd (omega arith)

-- `w >> j & 1`, digit by digit.
unfoldable pub bit_at : ℕ → ℕ → ℕ
bit_at w zero = w % 2
bit_at w (suc j) = bit_at (w / 2) j

pub bit_at-lt : (w j : ℕ) → bit_at w j < 2
unfolding bit_at
bit_at-lt w zero = omega arith
bit_at-lt w (suc j) = bit_at-lt (w / 2) j

pub half-pow : (w j : ℕ) → w / 2 ^ suc j ≡ w / 2 / 2 ^ j
half-pow w j = rw (two_pow-suc j, div-div-eq-div-mul w 2 (2 ^ j))

-- The digit is the shift that the sources write.
pub shift-bit_at : (w j : ℕ) → w / 2 ^ j % 2 ≡ bit_at w j
unfolding bit_at
shift-bit_at w zero = omega arith
shift-bit_at w (suc j) = omega (arith, half-pow w j, shift-bit_at (w / 2) j)

pub bit_at-zero : (j : ℕ) → bit_at 0 j ≡ 0
unfolding bit_at
bit_at-zero zero = refl
bit_at-zero (suc j) = bit_at-zero j

pub bit_at-bit_or : (a b j : ℕ) → bit_at (bit_or a b) j ≡ max (bit_at a j) (bit_at b j)
unfolding bit_at
bit_at-bit_or a b zero = omega (arith, bit_or_digit a b)
bit_at-bit_or a b (suc j) =
    let e : bit_or a b / 2 ≡ bit_or (a / 2) (b / 2) = omega (arith, bit_or_digit a b) in
    rw e (bit_at-bit_or (a / 2) (b / 2) j)

pub bit_at-bit_xor : (a b j : ℕ) → bit_at (bit_xor a b) j ≡ (bit_at a j + bit_at b j) % 2
unfolding bit_at
bit_at-bit_xor a b zero =
    omega (arith, bit_xor_digit a b, differ_bits (a % 2) (b % 2) (omega arith) (omega arith))
bit_at-bit_xor a b (suc j) =
    let d = differ_bits (a % 2) (b % 2) (omega arith) (omega arith) in
    let e : bit_xor a b / 2 ≡ bit_xor (a / 2) (b / 2) = omega (arith, bit_xor_digit a b, d) in
    rw e (bit_at-bit_xor (a / 2) (b / 2) j)

pub bit_at-pow_self : (j : ℕ) → bit_at (2 ^ j) j ≡ 1
unfolding bit_at
bit_at-pow_self zero = refl
bit_at-pow_self (suc j) =
    let e : 2 ^ suc j / 2 ≡ 2 ^ j = omega (arith, two_pow-suc j) in rw e (bit_at-pow_self j)

pub bit_at-pow_ne : (i j : ℕ) → i ≢ j → bit_at (2 ^ i) j ≡ 0
unfolding bit_at
bit_at-pow_ne zero zero h = absurd (h refl)
bit_at-pow_ne zero (suc j) h = bit_at-zero j
bit_at-pow_ne (suc i) zero h = omega (arith, two_pow-suc i)
bit_at-pow_ne (suc i) (suc j) h =
    let e : 2 ^ suc i / 2 ≡ 2 ^ i = omega (arith, two_pow-suc i) in
    rw e (bit_at-pow_ne i j (λ q. h (ap suc q)))

bit_or-zero_fuel : (f a : ℕ) → a ≤ f → bit_or a 0 ≡ a
bit_or-zero_fuel f zero h = refl
bit_or-zero_fuel zero (suc a) h = absurd (omega arith)
bit_or-zero_fuel (suc f) (suc a) h =
    omega (arith, bit_or_digit (suc a) 0, bit_or-zero_fuel f (suc a / 2) (omega arith))

bit_and-zero_fuel : (f a : ℕ) → a ≤ f → bit_and a 0 ≡ 0
bit_and-zero_fuel f zero h = refl
bit_and-zero_fuel zero (suc a) h = absurd (omega arith)
bit_and-zero_fuel (suc f) (suc a) h =
    omega (arith, bit_and_digit (suc a) 0, bit_and-zero_fuel f (suc a / 2) (omega arith))

-- `hi << k | lo` is a sum when `lo` fits `k` bits.
pub bit_or-shift : (k hi lo : ℕ) → lo < 2 ^ k → bit_or (hi * 2 ^ k) lo ≡ hi * 2 ^ k + lo
bit_or-shift zero hi lo h =
    let e : lo ≡ 0 = omega arith in
    let m : hi * 2 ^ 0 ≡ hi = omega arith in rw (e, m) (omega (arith, bit_or-zero_fuel hi hi))
bit_or-shift (suc k) hi lo h =
    let s = mul-two_pow-suc hi k in
    let t = two_pow-suc k in
    let e : hi * 2 ^ suc k / 2 ≡ hi * 2 ^ k = omega (arith, s) in
    let ih = bit_or-shift k hi (lo / 2) (omega (arith, t)) in
    let d = bit_or_digit (hi * 2 ^ suc k) lo in let d' = rw e at d in omega (arith, d', ih, s)

mod-two_pow-suc : (a k : ℕ) → a % 2 ^ suc k ≡ (a / 2 % 2 ^ k) * 2 + a % 2
mod-two_pow-suc a k =
    let q = a / 2 / 2 ^ k in
    let low = a / 2 % 2 ^ k * 2 + a % 2 in
    let t = two_pow-suc k in
    let p = two_pow_pos k in
    let e : a ≡ low + 2 ^ suc k * q =
      omega (arith, ap (λ (m : ℕ). m * q) t, div-add-mod (a / 2) (2 ^ k)) in
    let small : low < 2 ^ suc k = omega (arith, t, p, mod-lt (a / 2) p) in
    rw (ap (λ n. n % 2 ^ suc k) e)
      (rw (add-mul-mod_self_left low (2 ^ suc k) q) (mod-eq_of_lt small))

-- `a & (2 ^ k - 1)` is the remainder.
pub bit_and-low : (k a : ℕ) → bit_and a (2 ^ k - 1) ≡ a % 2 ^ k
bit_and-low zero a = omega (arith, bit_and-zero_fuel a a)
bit_and-low (suc k) a =
    let t = two_pow-suc k in
    let e : (2 ^ suc k - 1) / 2 ≡ 2 ^ k - 1 = omega (arith, t, two_pow_pos k) in
    let d = bit_and_digit a (2 ^ suc k - 1) in
    let d' = rw e at d in
    omega (arith, d', bit_and-low k (a / 2), mod-two_pow-suc a k, t, two_pow_pos k)

-- A mask with its `d` low bits clear.
pub bit_and-high : (d x m : ℕ) → bit_and x (m * 2 ^ d) ≡ bit_and (x / 2 ^ d) m * 2 ^ d
bit_and-high zero x m =
    let e : m * 2 ^ 0 ≡ m = omega arith in
    let f : x / 2 ^ 0 ≡ x = omega arith in rw (e, f) (omega arith)
bit_and-high (suc d) x m =
    let s = mul-two_pow-suc m d in
    let h : m * 2 ^ suc d / 2 ≡ m * 2 ^ d = omega (arith, s) in
    let g = rw h at (bit_and_digit x (m * 2 ^ suc d)) in
    rw (half-pow x d)
      (omega (arith, g, s, bit_and-high d (x / 2) m, mul-two_pow-suc (bit_and (x / 2 / 2 ^ d) m) d))

pub bit_or-lt : (k a b : ℕ) → a < 2 ^ k → b < 2 ^ k → bit_or a b < 2 ^ k
bit_or-lt zero a b ha hb =
    let e : a ≡ 0 = omega (arith, ha) in
    let f : b ≡ 0 = omega (arith, hb) in rw (e, f) (omega arith)
bit_or-lt (suc k) a b ha hb =
    let t = two_pow-suc k in
    let ih = bit_or-lt k (a / 2) (b / 2) (omega (arith, t)) (omega (arith, t)) in
    omega (arith, t, ih, bit_or_digit a b)

pub bit_xor-lt : (k a b : ℕ) → a < 2 ^ k → b < 2 ^ k → bit_xor a b < 2 ^ k
bit_xor-lt zero a b ha hb =
    let e : a ≡ 0 = omega (arith, ha) in
    let f : b ≡ 0 = omega (arith, hb) in rw (e, f) (omega arith)
bit_xor-lt (suc k) a b ha hb =
    let t = two_pow-suc k in
    let ih = bit_xor-lt k (a / 2) (b / 2) (omega (arith, t)) (omega (arith, t)) in
    omega (arith, t, ih, bit_xor_digit a b, differ_bits (a % 2) (b % 2) (omega arith) (omega arith))

-- A word whose bits are all set is the greatest.
pub all_ones : (n w : ℕ) → w < 2 ^ n → ((k : ℕ) → k < n → bit_at w k ≡ 1) → w ≡ 2 ^ n - 1
unfolding bit_at
all_ones zero w h ones = omega (arith, h)
all_ones (suc n) w h ones =
    let t = two_pow-suc n in
    let low = ones 0 (omega arith) in
    let ih = all_ones n (w / 2) (omega (arith, t)) (λ k hk. ones (suc k) (omega arith)) in
    omega (arith, t, low, ih, two_pow_pos n)
