-- ===== src/Base/Pow.antt =====
-- Powers of two over the native numbers.
use Prim.Native.Nat.{ℕ, zero, suc, ◌+◌, ◌*◌, ◌^◌, ◌≤◌, ◌<◌}
use mathlib.Core.Path.{◌≡◌, ap}
use native.Mathlib.Nat.{pow-suc, pow-le-pow_right}
use native.Mathlib.Omega.{arith}

pub two_pow-suc : (n : ℕ) → 2 ^ suc n ≡ 2 * 2 ^ n
two_pow-suc n = omega (arith, pow-suc 2 n)

pub two_pow_pos : (n : ℕ) → 0 < 2 ^ n
two_pow_pos zero = omega arith
two_pow_pos (suc n) = omega (arith, two_pow-suc n, two_pow_pos n)

pub two_pow-add : (m n : ℕ) → 2 ^ (m + n) ≡ 2 ^ m * 2 ^ n
two_pow-add m zero = omega (arith, ap (λ (k : ℕ). 2 ^ k) (let e : m + 0 ≡ m = omega arith in e))
two_pow-add m (suc n) = omega (
  arith,
  ap (λ (k : ℕ). 2 ^ k) (let e : m + suc n ≡ suc (m + n) = omega arith in e),
  two_pow-suc (m + n),
  two_pow-suc n,
  two_pow-add m n,
  ap (λ (k : ℕ). 2 ^ m * k) (two_pow-suc n),
)

-- Multiplying by a power of two, one factor at a time.
pub mul-two_pow-suc : (q k : ℕ) → q * 2 ^ suc k ≡ 2 * (q * 2 ^ k)
mul-two_pow-suc q k = omega (arith, ap (λ (p : ℕ). q * p) (two_pow-suc k))

pub two_pow-lt : (m n : ℕ) → m < n → 2 ^ m < 2 ^ n
two_pow-lt m n h =
    let grow : 2 ^ suc m ≤ 2 ^ n = pow-le-pow_right {n = 2} (omega arith) h in
    omega (arith, grow, two_pow-suc m, two_pow_pos m)
