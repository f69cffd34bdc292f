-- ===== src/Pool/Handle.antt =====
-- The 64-bit handle of buffer/PoolChunk.h and buffer/PoolChunk.cpp: run offset, page count, the
-- in-use and subpage flags and the bitmap index. A `long` is its bit pattern; handles in use are
-- not negative.
pub mod Fields
pub mod Flags
use duo_duo.Base.{ℕ, ◌-◌, ◌*◌, ◌/◌, ◌%◌, ◌^◌, Bool, not, bit_and, bit_or, ◌==◌}

abbrev pub is_subpage_shift : ℕ
is_subpage_shift = 32

abbrev pub is_inused_shift : ℕ
is_inused_shift = 33

abbrev pub size_shift : ℕ
size_shift = 34

abbrev pub run_offset_shift : ℕ
run_offset_shift = 49

-- `a << k` on a `long`
abbrev pub shl64 : ℕ → ℕ → ℕ
shl64 a k = a * 2 ^ k % 2 ^ 64

unfoldable pub to_run_handle : ℕ → ℕ → ℕ → ℕ
to_run_handle run_offset run_pages in_used =
    bit_or (bit_or (shl64 run_offset run_offset_shift) (shl64 run_pages size_shift))
      (shl64 in_used is_inused_shift)

-- `PoolSubpage::toHandle`
unfoldable pub to_handle : ℕ → ℕ → ℕ → ℕ
to_handle run_offset pages bitmap_idx =
    bit_or
      (bit_or
        (bit_or (bit_or (shl64 run_offset run_offset_shift) (shl64 pages size_shift))
          (shl64 1 is_inused_shift))
        (shl64 1 is_subpage_shift))
      bitmap_idx

unfoldable pub calculate_run_offset : ℕ → ℕ
calculate_run_offset handle = handle / 2 ^ run_offset_shift

unfoldable pub calculate_run_pages : ℕ → ℕ
calculate_run_pages handle = bit_and (handle / 2 ^ size_shift) 0x7fff

unfoldable pub calculate_run_size : ℕ → ℕ → ℕ
calculate_run_size page_shifts handle = calculate_run_pages handle * 2 ^ page_shifts % 2 ^ 32

unfoldable pub is_used : ℕ → Bool
is_used handle = bit_and (handle / 2 ^ is_inused_shift) 1 == 1

unfoldable pub is_subpage : ℕ → Bool
is_subpage handle = bit_and (handle / 2 ^ is_subpage_shift) 1 == 1

unfoldable pub is_run : ℕ → Bool
is_run handle = not (is_subpage handle)

-- `static_cast<int>(handle)`
unfoldable pub calculate_bitmap_idx : ℕ → ℕ
calculate_bitmap_idx handle = handle % 2 ^ 32

-- `handle &= ~(1L << IS_INUSED_SHIFT_); handle &= ~(1L << IS_SUBPAGE_SHIFT_);`
unfoldable pub clear_flags : ℕ → ℕ
clear_flags handle = bit_and (bit_and handle (2 ^ 64 - 1 - 2 ^ 33)) (2 ^ 64 - 1 - 2 ^ 32)

-- `handle |= 1L << IS_INUSED_SHIFT_`
unfoldable pub mark_used : ℕ → ℕ
mark_used handle = bit_or handle (2 ^ 33)
