-- ===== src/Pool/ChunkList.antt =====
-- buffer/PoolChunkList.h, buffer/PoolChunkList.cpp and the six lists that the constructor of
-- buffer/PoolArena.cpp links: chunks by how much of them is in use. A chunk is a number, and a
-- doubly linked list is the list of the numbers in it, its head first. The thresholds, which the
-- source computes with doubles, are computed exactly. `none` is a failed assertion, a null
-- pointer, or a recursion out of rounds.
pub mod Thresholds
pub mod Placed
pub mod Moves
pub mod Allocates
pub mod Frees
mod Tests
use duo_duo.Base.{
  ℕ, zero, suc, ◌+◌, ◌-◌, ◌*◌, ◌/◌, ◌^◌, Bool, true, false, List, [], ◌∷◌, Option, none, some, ltb,
  leb, ◌==◌, if◌then◌else◌,
}
use duo_duo.Pool.Subpage.{Pool, unlink}
use duo_duo.Pool.Chunk
use duo_duo.Pool.Chunk.{ArenaSizes, Chunk, Place, update, usage}

pub data Level : Type 0 where
  q_init : Level
  q00 : Level
  q25 : Level
  q50 : Level
  q75 : Level
  q100 : Level

abbrev pub rank : Level → ℕ
rank q_init = 0
rank q00 = 1
rank q25 = 2
rank q50 = 3
rank q75 = 4
rank q100 = 5

abbrev pub same : Level → Level → Bool
same p q = rank p == rank q

-- `m_nextList` and `m_prevList`, as the arena links them.
abbrev pub next_list : Level → Option Level
next_list q_init = some q00
next_list q00 = some q25
next_list q25 = some q50
next_list q50 = some q75
next_list q75 = some q100
next_list q100 = none

abbrev pub prev_list : Level → Option Level
prev_list q_init = some q_init
prev_list q00 = none
prev_list q25 = some q00
prev_list q50 = some q25
prev_list q75 = some q50
prev_list q100 = some q75

-- `m_minUsage`, which is not less than 0, and `m_maxUsage`.
abbrev pub min_usage : Level → ℕ
min_usage q_init = 0
min_usage q00 = 1
min_usage q25 = 25
min_usage q50 = 50
min_usage q75 = 75
min_usage q100 = 100

abbrev pub max_usage : Level → ℕ
max_usage q_init = 25
max_usage q00 = 50
max_usage q25 = 75
max_usage q50 = 100
max_usage q75 = 100
max_usage q100 = 2147483647

-- `chunkSize * (100.0 - u + 0.99999999) / 100L`
abbrev pub threshold : ℕ → ℕ → ℕ
threshold chunk_size u = chunk_size * ((100 - u) * 100000000 + 99999999) / 10000000000

unfoldable pub max_capacity : ℕ → Level → ℕ
max_capacity chunk_size q = chunk_size * (100 - min_usage q) / 100

abbrev pub free_max_threshold : ℕ → Level → ℕ
free_max_threshold chunk_size q =
    if min_usage q == 100 then 0 else threshold chunk_size (min_usage q)

-- `freeBytes <= m_freeMinThreshold`; the threshold of the last list is negative.
unfoldable pub is_full : ℕ → Level → ℕ → Bool
is_full chunk_size q100 free_bytes = false
is_full chunk_size q free_bytes =
    leb free_bytes (if max_usage q == 100 then 0 else threshold chunk_size (max_usage q))

-- `freeBytes > m_freeMaxThreshold`
unfoldable pub is_idle : ℕ → Level → ℕ → Bool
is_idle chunk_size q free_bytes = ltb (free_max_threshold chunk_size q) free_bytes

-- The lists, the list that a chunk is told that it is in, and the chunks.
pub record Lists : Type 0 where
  pub lists : Level → List ℕ
  pub parent : ℕ → Level
  pub chunks : ℕ → Chunk

abbrev pub update_list : (Level → List ℕ) → Level → List ℕ → Level → List ℕ
update_list f q l p = if same p q then l else f p

abbrev pub update_parent : (ℕ → Level) → ℕ → Level → ℕ → Level
update_parent f n q m = if m == n then q else f m

abbrev pub add0 : Level → ℕ → Lists → Lists
add0 q n s = record s {
  lists = update_list s.lists q (n ∷ s.lists q);
  parent = update_parent s.parent n q;
}

abbrev pub remove : Level → ℕ → Lists → Lists
remove q n s = record s { lists = update_list s.lists q (unlink n (s.lists q)) }

module _ (chunk_size : ℕ) where
  -- `add`, with the rounds left.
  unfoldable pub add : ℕ → Level → ℕ → Lists → Option Lists
  add zero q n s = none
  add (suc left) q n s = elim (is_full chunk_size q (s.chunks n).free_bytes) [
    | false ↦ some (add0 q n s)
    | true ↦ elim (next_list q) [ none ↦ none | some p ↦ add left p n s ]
  ]

  -- `move`, with the rounds left; `move0` is its last part. No list takes a chunk that is all
  -- free, and the result is `none` then.
  unfoldable pub move : ℕ → Level → ℕ → Lists → Option (Bool × Lists)
  move zero q n s = none
  move (suc left) q n s = elim (ltb (usage (s.chunks n)) (max_usage q)) [
    | false ↦ none
    | true ↦ elim (is_idle chunk_size q (s.chunks n).free_bytes) [
      | false ↦ some (true, add0 q n s)
      | true ↦ elim (prev_list q) [
        | none ↦ if usage (s.chunks n) == 0 then some (false, s) else none
        | some p ↦ move left p n s
      ]
    ]
  ]

  abbrev pub move0 : Level → ℕ → Lists → Option (Bool × Lists)
  move0 q n s = elim (prev_list q) [
    | none ↦ if usage (s.chunks n) == 0 then some (false, s) else none
    | some p ↦ move 6 p n s
  ]

  -- The part of `free` after the chunk has taken the run back.
  unfoldable pub settle : Level → ℕ → Lists → Option (Bool × Lists)
  settle q n s =
      if is_idle chunk_size q (s.chunks n).free_bytes
      then move0 q n (remove q n s)
      else some (true, s)

  -- The part of `allocate` after a chunk of the list has given a place.
  unfoldable pub promote : Level → ℕ → Lists → Option Lists
  promote q n s =
      if is_full chunk_size q (s.chunks n).free_bytes
      then elim (next_list q) [ none ↦ none | some p ↦ add 6 p n (remove q n s) ]
      else some s

  module _ (sizes : ArenaSizes) where
    -- `free`: the Boolean says whether the chunk is kept.
    unfoldable pub free :
        Level → ℕ → ℕ → ℕ → Option ℕ → Lists → (ℕ → Pool) → Option (Bool × Lists × (ℕ → Pool))
    free q n handle norm_capacity buffer s heads =
        elim (Chunk.free sizes handle norm_capacity buffer (s.chunks n) heads) [
          | none ↦ none
          | some (d, hs) ↦ elim (settle q n (record s { chunks = update s.chunks n d })) [
            | none ↦ none
            | some (kept, t) ↦ some (kept, t, hs)
          ]
        ]

    -- The loop of `allocate` over the chunks of a list.
    unfoldable pub allocate_from :
        Level → List ℕ → ℕ → ℕ → ℕ → Lists → (ℕ → Pool) → Option (Option Place × Lists × (ℕ → Pool))
    allocate_from q [] number req_capacity size_idx s heads = some (none, s, heads)
    allocate_from q (n ∷ ns) number req_capacity size_idx s heads =
        elim (Chunk.allocate sizes number req_capacity size_idx (s.chunks n) heads) [
          | none ↦ none
          | some (none, d, hs) ↦
              allocate_from q ns number req_capacity size_idx
                (record s { chunks = update s.chunks n d }) hs
          | some (some place, d, hs) ↦
              elim (promote q n (record s { chunks = update s.chunks n d })) [
                | none ↦ none
                | some t ↦ some (some place, t, hs)
              ]
        ]

    unfoldable pub allocate :
        Level → ℕ → ℕ → ℕ → Lists → (ℕ → Pool) → Option (Option Place × Lists × (ℕ → Pool))
    allocate q number req_capacity size_idx s heads =
        if ltb (max_capacity chunk_size q) (sizes.size_idx2size size_idx)
        then some (none, s, heads)
        else allocate_from q (s.lists q) number req_capacity size_idx s heads

    -- `PoolArena::allocateNormal`: the lists in this order, and then a new chunk.
    abbrev pub try_lists :
        List Level → ℕ → ℕ → ℕ → Lists → (ℕ → Pool) → Option (Option Place × Lists × (ℕ → Pool))
    try_lists [] number req_capacity size_idx s heads = some (none, s, heads)
    try_lists (q ∷ qs) number req_capacity size_idx s heads =
        elim (allocate q number req_capacity size_idx s heads) [
          | none ↦ none
          | some (some place, t, hs) ↦ some (some place, t, hs)
          | some (none, t, hs) ↦ try_lists qs number req_capacity size_idx t hs
        ]

    -- A new chunk with the given number, if no list has a place; it must have one.
    unfoldable pub allocate_normal :
        ℕ → ℕ → ℕ → ℕ → ℕ → ℕ → Lists → (ℕ → Pool) → Option (Option Place × Lists × (ℕ → Pool))
    allocate_normal page_size page_shifts fresh number req_capacity size_idx s heads =
        elim (try_lists (q50 ∷ q25 ∷ q00 ∷ q_init ∷ q75 ∷ []) number req_capacity size_idx s
          heads) [
            | none ↦ none
            | some (some place, t, hs) ↦ some (some place, t, hs)
            | some (none, t, hs) ↦
                elim (Chunk.allocate sizes number req_capacity size_idx
                  (Chunk.new_chunk sizes page_size page_shifts chunk_size 0) hs) [
                    | none ↦ none
                    | some (none, d, ks) ↦ none
                    | some (some place, d, ks) ↦
                        elim (add 6 q_init fresh (record t { chunks = update t.chunks fresh d })) [
                          | none ↦ none
                          | some u ↦ some (some place, u, ks)
                        ]
                  ]
          ]
