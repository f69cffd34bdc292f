-- ===== src/Pool/Subpage.antt =====
-- buffer/PoolSubpage.h and buffer/PoolSubpage.cpp: a run cut into equal elements, with a bitmap of
-- those in use. The doubly linked list of the subpages of one size is the list of their numbers,
-- the one after the head first; a subpage is linked when its number is there.
mod Bitmap
mod Search
pub mod Valid
pub mod Allocate
pub mod Free
mod Tests
use duo_duo.Base.{
  ℕ, zero, suc, ◌+◌, ◌-◌, ◌*◌, ◌/◌, ◌%◌, ◌^◌, Bool, true, false, not, ◌&&◌, ◌||◌, List, [], ◌∷◌,
  Option, none, some, bit_or, bit_xor, bit_and, ltb, ◌==◌, if◌then◌else◌, get_or, set, replicate,
}
use duo_duo.Pool.Handle.{to_handle}

-- `m_nextAail` is -1 for `none`.
pub record Subpage : Type 0 where
  pub number : ℕ
  pub page_shifts : ℕ
  pub run_offset : ℕ
  pub run_size : ℕ
  pub elem_size : ℕ
  pub bitmap : List ℕ
  pub max_num_elems : ℕ
  pub bitmap_length : ℕ
  pub next_avail : Option ℕ
  pub num_avail : ℕ
  pub dont_release : Bool

abbrev pub Pool : Type 0
Pool = List ℕ

abbrev pub contains : ℕ → Pool → Bool
contains n [] = false
contains n (m ∷ p) = (n == m) || contains n p

abbrev pub unlink : ℕ → Pool → Pool
unlink n [] = []
unlink n (m ∷ p) = if n == m then p else m ∷ unlink n p

-- `prev == next`: no other subpage is in the list.
abbrev pub alone : Pool → Bool
alone [] = true
alone (m ∷ []) = true
alone (m ∷ k ∷ p) = false

-- `none` is a failed assertion, here as below.
unfoldable pub add_to_pool : Subpage → Pool → Option Pool
add_to_pool s p = if contains s.number p then none else some (s.number ∷ p)

unfoldable pub remove_from_pool : Subpage → Pool → Option Pool
remove_from_pool s p = if contains s.number p then some (unlink s.number p) else none

-- The constructor, for an element size that is not 0: the members, then the list.
abbrev pub fresh : ℕ → ℕ → ℕ → ℕ → ℕ → Subpage
fresh number page_shifts run_offset run_size elem_size =
    let max = run_size / elem_size in
    record {
      number = number;
      page_shifts = page_shifts;
      run_offset = run_offset;
      run_size = run_size;
      elem_size = elem_size;
      bitmap = replicate (run_size / 2 ^ (6 + 4)) 0;
      max_num_elems = max;
      bitmap_length = if bit_and max 63 == 0 then max / 2 ^ 6 else max / 2 ^ 6 + 1;
      next_avail = some 0;
      num_avail = max;
      dont_release = true;
    }

unfoldable pub init : ℕ → Pool → ℕ → ℕ → ℕ → ℕ → Option (Subpage × Pool)
unfolding add_to_pool
init number p page_shifts run_offset run_size elem_size =
    let s = fresh number page_shifts run_offset run_size elem_size in
    elim (add_to_pool s p) [ none ↦ none | some p' ↦ some (s, p') ]

-- `findNextAvail0`: the loop over `j`, with the rounds left; `baseVal | j` is a sum.
unfoldable pub find_next_avail0 : ℕ → ℕ → ℕ → ℕ → ℕ → Option ℕ
find_next_avail0 zero j max base bits = none
find_next_avail0 (suc left) j max base bits =
    let rest = find_next_avail0 left (j + 1) max base (bits / 2) in
    if bit_and bits 1 == 0 then (if ltb (base + j) max then some (base + j) else none) else rest

-- `findNextAvail`: the loop over the words, with the rounds left.
unfoldable pub find_next_avail : ℕ → ℕ → ℕ → List ℕ → Option ℕ
unfolding find_next_avail0
find_next_avail zero i max bitmap = none
find_next_avail (suc left) i max bitmap =
    let rest = find_next_avail left (i + 1) max bitmap in
    let bits = get_or bitmap i 0 in
    if bits == 2 ^ 64 - 1 then rest else find_next_avail0 64 0 max (i * 2 ^ 6) bits

unfoldable pub get_next_avail : Subpage → Option ℕ
get_next_avail s = elim s.next_avail [
  | some i ↦ some i
  | none ↦ find_next_avail s.bitmap_length 0 s.max_num_elems s.bitmap
]

-- `m_bitmap[q] >> r & 1`
unfoldable pub bit : List ℕ → ℕ → ℕ
bit bitmap i = get_or bitmap (i / 2 ^ 6) 0 / 2 ^ (i % 64) % 2

-- `m_bitmap[q] |= 1L << r` and `m_bitmap[q] ^= 1L << r`
unfoldable pub set_bit : List ℕ → ℕ → List ℕ
set_bit bitmap i = set bitmap (i / 2 ^ 6) (bit_or (get_or bitmap (i / 2 ^ 6) 0) (2 ^ (i % 64)))

unfoldable pub flip_bit : List ℕ → ℕ → List ℕ
flip_bit bitmap i = set bitmap (i / 2 ^ 6) (bit_xor (get_or bitmap (i / 2 ^ 6) 0) (2 ^ (i % 64)))

-- The handle of the element, or `none` for -1. No free element where `m_numAvail` says that there
-- is one would write outside the bitmap, which is a failed assertion too.
unfoldable pub allocate : Subpage → Pool → Option (Option ℕ × Subpage × Pool)
allocate s p =
    if (s.num_avail == 0) || not s.dont_release
    then some (none, s, p)
    else elim (get_next_avail s) [
      | none ↦ none
      | some i ↦
          if bit s.bitmap i == 0
          then (let s' : Subpage = record s {
            bitmap = set_bit s.bitmap i;
            next_avail = none;
            num_avail = s.num_avail - 1;
          } in
              let handle = some (to_handle s.run_offset (s.run_size / 2 ^ s.page_shifts) i) in
              if s'.num_avail == 0
              then elim (remove_from_pool s' p) [ none ↦ none | some p' ↦ some (handle, s', p') ]
              else some (handle, s', p))
          else none
    ]

-- `true` keeps the subpage, `false` gives its run back to the chunk.
unfoldable pub free : Subpage → Pool → ℕ → Option (Bool × Subpage × Pool)
free s p i =
    if s.elem_size == 0
    then some (true, s, p)
    else if bit s.bitmap i == 0
    then none
    else (let s' : Subpage = record s {
      bitmap = flip_bit s.bitmap i;
      next_avail = some i;
      num_avail = s.num_avail + 1;
    } in
        if s.num_avail == 0
        then elim (add_to_pool s' p) [ none ↦ none | some p' ↦ some (true, s', p') ]
        else if not (s'.num_avail == s.max_num_elems) || alone p
        then some (true, s', p)
        else elim (remove_from_pool s' p) [
          | none ↦ none
          | some p' ↦ some (false, record s' { dont_release = false }, p')
        ])
