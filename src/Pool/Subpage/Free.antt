-- ===== src/Pool/Subpage/Free.antt =====
-- `PoolSubpage::free` takes an element back.
use duo_duo.Base.{ℕ, ◌+◌, ◌≡◌, ◌≢◌, Bool, not, ◌&&◌, ◌∷◌, none, some, ◌==◌, if◌then◌else◌, arith}
use duo_duo.Pool.Subpage.{Subpage, Pool, alone, bit, flip_bit, free}

-- The subpage after element `i` is back.
abbrev returned : Subpage → ℕ → Subpage
returned s i = record s {
  bitmap = flip_bit s.bitmap i;
  next_avail = some i;
  num_avail = s.num_avail + 1;
}

abbrev linked_again : Subpage → Pool → Pool
linked_again s p = if s.num_avail == 0 then s.number ∷ p else p

-- Whether the run goes back to the chunk: all is free, and the list has another subpage.
abbrev pub gives_back : Subpage → Pool → Bool
gives_back s p = not (s.num_avail == 0) && (s.num_avail + 1 == s.max_num_elems) && not (alone p)

-- Freeing an element that is not in use fails the assertion.
pub free_twice :
    (s : Subpage) (p : Pool) (i : ℕ) → s.elem_size ≢ 0 → bit s.bitmap i ≡ 0 → free s p i ≡ none
unfolding free
free_twice s p i h z = ground arith
