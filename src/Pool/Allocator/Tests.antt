-- ===== src/Pool/Allocator/Tests.antt =====
-- The theorem on the size of a page at the allocator's own.
use duo_duo.Base.{ℕ, ◌^◌, ◌≤◌, ◌<◌, ◌≡◌, ◌≢◌, ◌⊎◌, none, some, arith}
use duo_duo.Pool.Allocator.{validate_and_calculate_page_shifts, min_page_size}
use duo_duo.Pool.Allocator.Sizes.{validate_and_calculate_page_shifts-exact}

validate_and_calculate_page_shifts-exact_example :
    ((k : ℕ) × (validate_and_calculate_page_shifts 8192 ≡ some k)
      × (2 ^ k ≡ 8192)
      × (min_page_size ≤ 8192))
    ⊎ ((validate_and_calculate_page_shifts 8192 ≡ none)
        × ((8192 < min_page_size) ⊎ ((k : ℕ) → 2 ^ k ≢ 8192)))
validate_and_calculate_page_shifts-exact_example =
    validate_and_calculate_page_shifts-exact 8192 (omega arith)
