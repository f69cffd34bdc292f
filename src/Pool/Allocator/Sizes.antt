-- ===== src/Pool/Allocator/Sizes.antt =====
-- The checks of the size of a page and of a chunk.
use duo_duo.Base.{
  ℕ, zero, suc, ◌+◌, ◌-◌, ◌*◌, ◌/◌, ◌%◌, ◌^◌, ◌≤◌, ◌<◌, ◌≡◌, ◌≢◌, ◌⊎◌, inl, inr, refl, sym, ap, ap₂,
  ◌∙◌, true, none, some, arith, ltb, ◌==◌, Bool-cases, bit_and, min,
}
use native.Mathlib.Nat.{le-div_iff_mul-le, div-lt_iff_lt-mul, mod_self}
use duo_duo.Pool.MathUtils.{log2}
use duo_duo.Pool.MathUtils.Log2.{log2_bounds}
use duo_duo.Base.Bits.{bit_and_digit, bit_and-low, bit_at, bit_at-zero, shift-bit_at}
use duo_duo.Base.Pow.{two_pow-suc, two_pow_pos, mul-two_pow-suc}
use duo_duo.Pool.Allocator.{
  validate_and_calculate_page_shifts, validate_and_calculate_chunk_size, double, max_chunk_size,
  min_page_size,
}

le_mul-two_pow : (q k : ℕ) → q ≤ q * 2 ^ k
le_mul-two_pow q zero = omega arith
le_mul-two_pow q (suc k) = omega (arith, le_mul-two_pow q k, mul-two_pow-suc q k)

double-bounds :
    (i c : ℕ)
    → 0 < c
    → ((double i c ≡ some (c * 2 ^ i)) × ((i ≡ 0) ⊎ (c * 2 ^ i ≤ max_chunk_size)))
      ⊎ ((double i c ≡ none) × (max_chunk_size < c * 2 ^ i))
unfolding double
double-bounds zero c h = inl (ap some (omega arith), inl refl)
double-bounds (suc i) c h = elim (Bool-cases (ltb (max_chunk_size / 2) c)) [
  | inl t ↦
      let le : max_chunk_size / 2 < c = ground (arith, t) in
      inr (rw (double, t) refl, omega (arith, le_mul-two_pow c i, mul-two_pow-suc c i, le))
  | inr t ↦
      let half : c ≤ max_chunk_size / 2 = ground (arith, t) in
      let small : (i ≡ 0) ⊎ (c * 2 * 2 ^ i ≤ max_chunk_size) → c * 2 ^ suc i ≤ max_chunk_size = λ g.
        elim g [
          | inl z ↦ omega (arith, z, half, mul-two_pow-suc c i, ap (λ k. c * 2 ^ k) z)
          | inr l ↦ omega (arith, l, mul-two_pow-suc c i)
        ] in
      elim (double-bounds i (c * 2) (omega (arith, h))) [
        | inl (e, g) ↦
            inl (rw (double, t) (e ∙ ap some (omega (arith, mul-two_pow-suc c i))), inr (small g))
        | inr (e, g) ↦ inr (rw (double, t) e, omega (arith, g, mul-two_pow-suc c i))
      ]
]

-- For a page that is not empty and an order below 14: the size of a chunk is that of a page doubled
-- as often as the order says, unless that is more than the largest chunk; then it is refused. The
-- order 0 is not checked.
pub validate_and_calculate_chunk_size-bounds :
    (page_size max_order : ℕ)
    → 0 < page_size
    → max_order < 14
    → ((validate_and_calculate_chunk_size page_size max_order ≡ some (page_size * 2 ^ max_order))
        × ((max_order ≡ 0) ⊎ (page_size * 2 ^ max_order ≤ max_chunk_size)))
      ⊎ ((validate_and_calculate_chunk_size page_size max_order ≡ none)
          × (max_chunk_size < page_size * 2 ^ max_order))
unfolding validate_and_calculate_chunk_size
validate_and_calculate_chunk_size-bounds page_size max_order h l =
    let t : ltb max_order 14 ≡ true = ground (arith, l) in
    rw (validate_and_calculate_chunk_size, t) (double-bounds max_order page_size h)

bit_at-bit_and : (a b j : ℕ) → bit_at (bit_and a b) j ≡ min (bit_at a j) (bit_at b j)
unfolding bit_at
bit_at-bit_and a b zero = omega (arith, bit_and_digit a b)
bit_at-bit_and a b (suc j) =
    let e : bit_and a b / 2 ≡ bit_and (a / 2) (b / 2) = omega (arith, bit_and_digit a b) in
    rw e (bit_at-bit_and (a / 2) (b / 2) j)

-- The highest bit of a number between a power of two and the next one.
bit_at_top : (k n : ℕ) → 2 ^ k ≤ n → n < 2 ^ (k + 1) → bit_at n k ≡ 1
bit_at_top k n h l =
    let one : n / 2 ^ k ≡ 1 =
      (let low : 1 ≤ n / 2 ^ k = (le-div_iff_mul-le (two_pow_pos k)).1 (omega (arith, h)) in
        let high : n / 2 ^ k < 2 = (div-lt_iff_lt-mul (two_pow_pos k)).1 (
          omega (
            arith,
            l,
            two_pow-suc k,
            ap (λ j. 2 ^ j) (let e : k + 1 ≡ suc k = omega arith in e),
          )) in
        omega (arith, low, high)) in
    sym (shift-bit_at n k) ∙ ap (λ q. q % 2) one

-- A page is accepted just if its size is a power of two that is not too small, and the result is
-- the exponent.
pub validate_and_calculate_page_shifts-exact :
    (page_size : ℕ)
    → page_size < 2 ^ 31
    → ((k : ℕ) × (validate_and_calculate_page_shifts page_size ≡ some k)
        × (2 ^ k ≡ page_size)
        × (min_page_size ≤ page_size))
      ⊎ ((validate_and_calculate_page_shifts page_size ≡ none)
          × ((page_size < min_page_size) ⊎ ((k : ℕ) → 2 ^ k ≢ page_size)))
unfolding validate_and_calculate_page_shifts
validate_and_calculate_page_shifts-exact n h = elim (Bool-cases (ltb n min_page_size)) [
  | inl t ↦ inr (rw (validate_and_calculate_page_shifts, t) refl, inl (ground (arith, t)))
  | inr t ↦
      let large : min_page_size ≤ n = ground (arith, t) in
      let (low, high, _) = log2_bounds n (omega (arith, large)) (omega (arith, h)) in
      let k = log2 n in
      let top : 2 ^ k < n → bit_at (bit_and n (n - 1)) k ≡ 1 = λ more.
        bit_at-bit_and n (n - 1) k
        ∙ ap₂ min (bit_at_top k n low high)
            (bit_at_top k (n - 1) (omega (arith, more)) (omega (arith, high))) in
      elim (Bool-cases (bit_and n (n - 1) == 0)) [
        | inl z ↦
            let none_ : bit_and n (n - 1) ≡ 0 = ground (arith, z) in
            let power : 2 ^ k ≡ n = elim (Bool-cases (ltb (2 ^ k) n)) [
              | inl more ↦ absurd (
                  omega
                    (arith, top (ground (arith, more)), ap (λ x. bit_at x k) none_, bit_at-zero k))
              | inr same ↦ ground (arith, same, low)
            ] in
            inl (k, rw (validate_and_calculate_page_shifts, t, z) refl, power, large)
        | inr z ↦ inr (
          rw (validate_and_calculate_page_shifts, t, z) refl,
          inr (λ j e.
              let w : bit_and n (n - 1) ≡ 0 =
                ap (λ x. bit_and n (x - 1)) (sym e)
                ∙ bit_and-low j n
                ∙ ap (λ x. x % 2 ^ j) (sym e)
                ∙ mod_self (2 ^ j) in
              ground (arith, z, w)),
        )
      ]
]
