-- ===== src/Pool/Subpage/Allocate.antt =====
-- `PoolSubpage::allocate` hands out a free element, on every valid subpage that has one.
use duo_duo.Base.{
  ℕ, ◌+◌, ◌-◌, ◌/◌, ◌^◌, ◌<◌, ◌≡◌, true, not, ◌||◌, none, some, inl, inr, ◌==◌, if◌then◌else◌,
  arith, Option-cases,
}
use duo_duo.Pool.Handle.{to_handle}
use duo_duo.Pool.Subpage.{
  Subpage, Pool, unlink, bit, set_bit, get_next_avail, find_next_avail, remove_from_pool, allocate,
}
use duo_duo.Pool.Subpage.Bitmap.{bit-set_bit, count_free-set, count_free-all_used}
use duo_duo.Pool.Subpage.Search.{Found, clear, full, find_next_avail-Found}
use duo_duo.Pool.Subpage.Valid.{
  IsValid, contains-unlink, unlink-IsDistinct, set_bit-words, length-set_bit,
}

-- The element that the next call hands out.
search_finds :
    {s : Subpage} {p : Pool}
    → IsValid s p
    → 0 < s.num_avail
    → Found s.bitmap_length 0 s.max_num_elems s.bitmap
        (find_next_avail s.bitmap_length 0 s.max_num_elems s.bitmap)
    → (i : ℕ) × (find_next_avail s.bitmap_length 0 s.max_num_elems s.bitmap ≡ some i)
      × (i < s.max_num_elems)
      × (bit s.bitmap i ≡ 0)
search_finds v pos (clear i lt z e) = (i, e, lt, z)
search_finds {s} v pos (full used e) = absurd (
    omega (
      arith,
      pos,
      v.counted,
      count_free-all_used s.bitmap s.max_num_elems
          (λ i lt. used i (omega arith) (omega (arith, lt, v.covers)) lt),
    ))

pub get_next_avail-free :
    {s : Subpage} {p : Pool}
    → IsValid s p
    → 0 < s.num_avail
    → (i : ℕ) × (get_next_avail s ≡ some i) × (i < s.max_num_elems) × (bit s.bitmap i ≡ 0)
unfolding get_next_avail
get_next_avail-free {s} v pos = elim (Option-cases s.next_avail) [
  | inl e ↦ rw e (
      search_finds v pos (find_next_avail-Found s.bitmap_length 0 s.max_num_elems s.bitmap v.words))
  | inr (i, e) ↦ (i, rw e, (v.hint i e).0, (v.hint i e).1)
]

-- The subpage after element `i` is taken.
abbrev taken : Subpage → ℕ → Subpage
taken s i = record s { bitmap = set_bit s.bitmap i; next_avail = none; num_avail = s.num_avail - 1 }

abbrev relinked : Subpage → ℕ → Pool → Pool
relinked s i p = if s.num_avail - 1 == 0 then unlink s.number p else p

taken-IsValid :
    {s : Subpage} {p : Pool} (i : ℕ)
    → IsValid s p
    → 0 < s.num_avail
    → i < s.max_num_elems
    → bit s.bitmap i ≡ 0
    → IsValid (taken s i) (relinked s i p)
taken-IsValid {s} {p} i v pos lt z = record {
  elements = v.elements;
  sized = v.sized;
  covers = v.covers;
  stored = rw (length-set_bit s.bitmap i) v.stored;
  words = set_bit-words s.bitmap i v.words;
  counted = ground (
    arith,
    v.counted,
    pos,
    lt,
    count_free-set s.bitmap (set_bit s.bitmap i) i s.max_num_elems z
        (λ j. bit-set_bit s.bitmap i j (omega (arith, lt, v.covers, v.stored))),
  );
  hint = λ j e. cc;
  live = v.live;
  linked = ground (arith, v.linked, pos, contains-unlink s.number p v.distinct);
  distinct = ground (arith, v.distinct, unlink-IsDistinct s.number p v.distinct);
}

-- A valid subpage with a free element hands out the handle of one: it was free, it is the only
-- bit that changes, and the subpage stays valid with one element fewer.
pub allocate-takes :
    {s : Subpage} {p : Pool}
    → IsValid s p
    → 0 < s.num_avail
    → (i : ℕ) × (s' : Subpage) × (p' : Pool) × (allocate s p
        ≡ some (some (to_handle s.run_offset (s.run_size / 2 ^ s.page_shifts) i), s', p'))
      × (i < s.max_num_elems)
      × (bit s.bitmap i ≡ 0)
      × ((j : ℕ) → bit s'.bitmap j ≡ (if i == j then 1 else bit s.bitmap j))
      × (s'.num_avail + 1 ≡ s.num_avail)
      × IsValid s' p'
unfolding allocate remove_from_pool
allocate-takes {s} {p} v pos =
    let (i, e, lt, z) = get_next_avail-free v pos in
    (
      i,
      taken s i,
      relinked s i p,
      ground arith,
      lt,
      z,
      (λ j. bit-set_bit s.bitmap i j (omega (arith, lt, v.covers, v.stored))),
      omega (arith, pos),
      taken-IsValid i v pos lt z,
    )

-- With no free element, or after its run is given back, it refuses and nothing changes.
pub allocate-refuses :
    (s : Subpage) (p : Pool)
    → (s.num_avail == 0) || not s.dont_release ≡ true
    → allocate s p ≡ some (none, s, p)
unfolding allocate
allocate-refuses s p h = rw h
