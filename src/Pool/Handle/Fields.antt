-- ===== src/Pool/Handle/Fields.antt =====
-- A handle is read back field by field.
use duo_duo.Base.{ℕ, ◌+◌, ◌*◌, ◌/◌, ◌%◌, ◌^◌, ◌<◌, ◌≡◌, ◌∙◌, ap, true, false, ◌==◌, bit_or, arith}
use duo_duo.Base.Bits.{bit_or-shift, bit_and-low}
use duo_duo.Pool.Handle.{
  shl64, to_run_handle, to_handle, calculate_run_offset, calculate_run_pages, is_used, is_subpage,
  calculate_bitmap_idx,
}

shl64-eq : (a k : ℕ) → a * 2 ^ k < 2 ^ 64 → shl64 a k ≡ a * 2 ^ k
shl64-eq a k h = omega arith

-- Two fields side by side are one field.
join : (o p : ℕ) → p < 2 ^ 15 → bit_or (o * 2 ^ 49) (p * 2 ^ 34) ≡ (o * 2 ^ 15 + p) * 2 ^ 34
join o p h = omega (arith, bit_or-shift 49 o (p * 2 ^ 34) (omega arith))

pub to_run_handle-sum :
    (o p u : ℕ)
    → o < 2 ^ 14
    → p < 2 ^ 15
    → u < 2
    → to_run_handle o p u ≡ o * 2 ^ 49 + p * 2 ^ 34 + u * 2 ^ 33
unfolding to_run_handle
to_run_handle-sum o p u ho hp hu =
    let n = o * 2 ^ 15 + p in
    rw
      (
        shl64-eq o 49 (omega arith),
        shl64-eq p 34 (omega arith),
        shl64-eq u 33 (omega arith),
        join o p hp,
        bit_or-shift 34 n (u * 2 ^ 33) (omega arith),
      )
      (omega arith)

pub to_handle-sum :
    (o p b : ℕ)
    → o < 2 ^ 14
    → p < 2 ^ 15
    → b < 2 ^ 32
    → to_handle o p b ≡ o * 2 ^ 49 + p * 2 ^ 34 + 2 ^ 33 + 2 ^ 32 + b
unfolding to_handle
to_handle-sum o p b ho hp hb =
    let n = o * 2 ^ 15 + p in
    let used : bit_or (n * 2 ^ 34) (2 ^ 33) ≡ (n * 2 + 1) * 2 ^ 33 =
      omega (arith, bit_or-shift 34 n (2 ^ 33) (omega arith)) in
    let sub : bit_or ((n * 2 + 1) * 2 ^ 33) (2 ^ 32) ≡ (n * 4 + 3) * 2 ^ 32 =
      omega (arith, bit_or-shift 33 (n * 2 + 1) (2 ^ 32) (omega arith)) in
    rw
      (
        shl64-eq o 49 (omega arith),
        shl64-eq p 34 (omega arith),
        join o p hp,
        used,
        sub,
        bit_or-shift 32 (n * 4 + 3) b hb,
      )
      (omega arith)

-- The flags and fields of a number, without the bit operations.
pub calculate_run_pages-eq : (h : ℕ) → calculate_run_pages h ≡ h / 2 ^ 34 % 2 ^ 15
unfolding calculate_run_pages
calculate_run_pages-eq h = bit_and-low 15 (h / 2 ^ 34)

pub is_used-eq : (h : ℕ) → is_used h ≡ (h / 2 ^ 33 % 2 == 1)
unfolding is_used
is_used-eq h = ap (λ b. b == 1) (bit_and-low 1 (h / 2 ^ 33))

pub is_subpage-eq : (h : ℕ) → is_subpage h ≡ (h / 2 ^ 32 % 2 == 1)
unfolding is_subpage
is_subpage-eq h = ap (λ b. b == 1) (bit_and-low 1 (h / 2 ^ 32))

-- A run's handle gives back its offset, its pages and its in-use flag, and is no subpage.
pub to_run_handle-fields :
    (o p u : ℕ)
    → o < 2 ^ 14
    → p < 2 ^ 15
    → u < 2
    → let h = to_run_handle o p u in
      (calculate_run_offset h ≡ o)
      × (calculate_run_pages h ≡ p)
      × (is_used h ≡ (u == 1))
      × (is_subpage h ≡ false)
unfolding calculate_run_offset
to_run_handle-fields o p u ho hp hu =
    let h = to_run_handle o p u in
    let e = to_run_handle-sum o p u ho hp hu in
    (
      omega (arith, e),
      omega (arith, e, calculate_run_pages-eq h),
      is_used-eq h ∙ ground (arith, e),
      is_subpage-eq h ∙ ground (arith, e),
    )

-- A subpage element's handle gives back the run, the element's index and both flags.
pub to_handle-fields :
    (o p b : ℕ)
    → o < 2 ^ 14
    → p < 2 ^ 15
    → b < 2 ^ 32
    → let h = to_handle o p b in
      (calculate_run_offset h ≡ o)
      × (calculate_run_pages h ≡ p)
      × (calculate_bitmap_idx h ≡ b)
      × (is_used h ≡ true)
      × (is_subpage h ≡ true)
unfolding calculate_run_offset calculate_bitmap_idx
to_handle-fields o p b ho hp hb =
    let h = to_handle o p b in
    let e = to_handle-sum o p b ho hp hb in
    (
      omega (arith, e),
      omega (arith, e, calculate_run_pages-eq h),
      omega (arith, e),
      is_used-eq h ∙ ground (arith, e),
      is_subpage-eq h ∙ ground (arith, e),
    )
