-- ===== src/Pool/Subpage/Tests.antt =====
-- The theorems on subpages at concrete inputs.
use duo_duo.Base.{
  ◌^◌, zero, suc, get_or, get_or-replicate, ℕ, ◌+◌, ◌<◌, ◌≡◌, refl, [], ◌∷◌, none, some, arith,
  ◌==◌, if◌then◌else◌,
}
use duo_duo.Pool.Handle.{to_handle}
use duo_duo.Pool.Subpage.{Subpage, Pool, fresh, bit, allocate}
use duo_duo.Pool.Subpage.Bitmap.{count_free}
use duo_duo.Pool.Subpage.Valid.{IsValid}
use duo_duo.Pool.Subpage.Allocate.{allocate-takes}

-- Two elements of 4096 bytes in one page, beside subpage 7 of the same size.
abbrev pair : Subpage
pair = fresh 3 13 5 8192 4096

abbrev used_pair : Subpage
used_pair = record pair {
  bitmap = 1 ∷ 0 ∷ 0 ∷ 0 ∷ 0 ∷ 0 ∷ 0 ∷ 0 ∷ [];
  next_avail = none;
  num_avail = 1;
}

used_pair-words : (q : ℕ) → get_or (1 ∷ 0 ∷ 0 ∷ 0 ∷ 0 ∷ 0 ∷ 0 ∷ 0 ∷ []) q 0 < 2 ^ 64
used_pair-words zero = omega arith
used_pair-words (suc q) = rw (get_or-replicate {A = ℕ} 7 q 0) (omega arith)

abbrev listed : Pool
listed = 3 ∷ []

used_pair-IsValid : IsValid used_pair listed
unfolding bit count_free
used_pair-IsValid = record {
  elements = omega arith;
  sized = λ e. omega (arith, e);
  covers = omega arith;
  stored = omega arith;
  words = used_pair-words;
  counted = refl;
  hint = λ i e. cc;
  live = refl;
  linked = refl;
  distinct = (refl, tt);
}

allocate-takes_example :
    (i : ℕ) × (s' : Subpage) × (p' : Pool) × (allocate used_pair listed
      ≡ some (some (to_handle 5 1 i), s', p'))
    × (i < 2)
    × (bit used_pair.bitmap i ≡ 0)
    × ((j : ℕ) → bit s'.bitmap j ≡ (if i == j then 1 else bit used_pair.bitmap j))
    × (s'.num_avail + 1 ≡ 1)
    × IsValid s' p'
allocate-takes_example = allocate-takes used_pair-IsValid (omega arith)
