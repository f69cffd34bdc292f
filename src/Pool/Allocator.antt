-- ===== src/Pool/Allocator.antt =====
-- buffer/PoolByteBufAllocator.h and buffer/PoolByteBufAllocator.cpp: the checks of the sizes that
-- the arenas are made with, and the choice of an arena for a thread. An arena is its place in the
-- vector, known by how many thread caches it has. `none` is an exception or a failed assertion.
pub mod Sizes
pub mod LeastUsed
mod Tests
use duo_duo.Base.{
  ℕ, zero, suc, ◌+◌, ◌-◌, ◌*◌, ◌/◌, ◌^◌, Bool, true, false, List, [], ◌∷◌, Option, none, some,
  bit_and, ltb, ◌==◌, if◌then◌else◌,
}
use duo_duo.Pool.MathUtils.{log2}

abbrev pub min_page_size : ℕ
min_page_size = 4096

-- `(int) (((long) INT_MAX + 1) / 2)`
abbrev pub max_chunk_size : ℕ
max_chunk_size = 1073741824

unfoldable pub validate_and_calculate_page_shifts : ℕ → Option ℕ
validate_and_calculate_page_shifts page_size =
    if ltb page_size min_page_size
    then none
    else if bit_and page_size (page_size - 1) == 0
    then some (log2 page_size)
    else none

-- The loop, with the rounds left, which are the order.
unfoldable pub double : ℕ → ℕ → Option ℕ
double zero chunk_size = some chunk_size
double (suc i) chunk_size =
    let more = double i (chunk_size * 2) in
    if ltb (max_chunk_size / 2) chunk_size then none else more

unfoldable pub validate_and_calculate_chunk_size : ℕ → ℕ → Option ℕ
validate_and_calculate_chunk_size page_size max_order =
    if ltb max_order 14 then double max_order page_size else none

-- The loop from a place on: the place and the count of the least used arena so far.
unfoldable pub least_loop : List ℕ → ℕ → ℕ → ℕ → ℕ
least_loop [] i min_arena count = min_arena
least_loop (c ∷ cs) i min_arena count =
    let here = least_loop cs (suc i) i c in
    let there = least_loop cs (suc i) min_arena count in if ltb c count then here else there

-- The counts are read in one order; without an arena, the read of the first is out of bounds.
unfoldable pub least_used_arena : List ℕ → Option ℕ
least_used_arena [] = none
least_used_arena (c ∷ cs) = some (least_loop (c ∷ cs) 0 0 c)
