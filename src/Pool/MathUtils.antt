-- ===== src/Pool/MathUtils.antt =====
-- buffer/MathUtils.h: the integer logarithm and rounding to a power of two, on 32-bit words.
-- A signed `int` is its bit pattern, so `log2` of 0 is the pattern of -1.
pub mod Log2
use duo_duo.Base.{ℕ, ◌+◌, ◌-◌, ◌*◌, ◌/◌, ◌%◌, ◌^◌, bit_or, ◌==◌, if◌then◌else◌}

abbrev pub int_size : ℕ
int_size = 32

-- `if (val >> shift == 0) { n += step; val <<= step; }`
unfoldable pub narrow : ℕ → ℕ → ℕ × ℕ → ℕ × ℕ
narrow shift step (n, val) =
    if val / 2 ^ shift == 0 then (n + step, val * 2 ^ step % 2 ^ 32) else (n, val)

unfoldable pub number_of_leading_zeros : ℕ → ℕ
number_of_leading_zeros val =
    let (n, top) = narrow 30 2 (narrow 28 4 (narrow 24 8 (narrow 16 16 (1, val)))) in
    if val == 0 then int_size else n - top / 2 ^ 31

unfoldable pub log2 : ℕ → ℕ
log2 val = (31 + 2 ^ 32 - number_of_leading_zeros val) % 2 ^ 32

-- `val |= val >> k`, on a non-negative `int`
unfoldable pub smear : ℕ → ℕ → ℕ
smear k val = bit_or val (val / 2 ^ k)

unfoldable pub next_power_of_two : ℕ → ℕ
unfolding smear
next_power_of_two val =
    (smear 16 (smear 8 (smear 4 (smear 2 (smear 1 ((val + 2 ^ 32 - 1) % 2 ^ 32))))) + 1) % 2 ^ 32
