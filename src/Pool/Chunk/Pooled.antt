-- ===== src/Pool/Chunk/Pooled.antt =====
-- The tables of buffer/SizeClass.cpp, as a chunk of the allocator sees them.
use duo_duo.Base.{
  ℕ, zero, suc, ◌+◌, ◌-◌, ◌≤◌, ◌<◌, ◌≡◌, refl, subst, true, ltb, ltb→lt, arith, all_below,
  all_below_sound,
}
use native.Mathlib.Nat.{le_refl}
use duo_duo.Pool.MathUtils.{log2, number_of_leading_zeros, narrow}
use duo_duo.Pool.SizeClass.{pooled}
use duo_duo.Pool.SizeClass.{
  page2page_idx, page2page_idx_floor, page_idx2size, size_idx2size, size2size_idx,
}
use duo_duo.Pool.SizeClass.Pages.{page2page_idx-fits, page2page_idx_floor-fits}
use duo_duo.Pool.Chunk.{ArenaSizes}
use duo_duo.Pool.Chunk.Split.{IsPaged}

unfoldable pub pooled_sizes : ArenaSizes
pooled_sizes = record {
  n_p_sizes = pooled.n_p_sizes;
  small_max_size_idx = pooled.small_max_size_idx;
  page2page_idx = page2page_idx pooled;
  page2page_idx_floor = page2page_idx_floor pooled;
  size_idx2size = size_idx2size pooled;
  size2size_idx = size2size_idx pooled;
}

rising_table :
    all_below 39 (λ i. ltb (page_idx2size pooled i) (page_idx2size pooled (suc i))) ≡ true
unfolding pooled page_idx2size all_below
rising_table = refl

page_idx2size_mono : (k i : ℕ) → i + k < 40 → page_idx2size pooled i ≤ page_idx2size pooled (i + k)
page_idx2size_mono zero i h = let e : i + 0 ≡ i = omega arith in rw e (le_refl _)
page_idx2size_mono (suc k) i h =
    let e : i + suc k ≡ suc (i + k) = omega arith in
    rw e (
      omega (
        arith,
        page_idx2size_mono k i (omega arith),
        ltb→lt _ _ (all_below_sound 39 _ (i + k) rising_table (omega arith)),
      ))

n_p_sizes-eq : pooled.n_p_sizes ≡ 40
unfolding pooled
n_p_sizes-eq = refl

floor_last : page2page_idx_floor pooled 2048 ≡ 39
unfolding pooled page2page_idx_floor log2 number_of_leading_zeros narrow
floor_last = refl

-- In a chunk of up to 2048 pages every run has a page class; a run whose class, rounded down, is
-- not below that of a request, rounded up, has the pages for it; and the largest class is the last.
pub pooled_sizes-IsPaged : IsPaged pooled_sizes 2048
unfolding pooled_sizes
pooled_sizes-IsPaged = record {
  some_class = λ n p le. omega (arith, (page2page_idx_floor-fits n p le).0, n_p_sizes-eq);
  serves = λ n m p q le le' h.
      let up = page2page_idx-fits n p le in
      let down = page2page_idx_floor-fits m q le' in
      let i = page2page_idx pooled n in
      let j = page2page_idx_floor pooled m in
      let e : i + (j - i) ≡ j = omega (arith, h) in
      let mono : page_idx2size pooled i ≤ page_idx2size pooled j =
        subst (λ k. page_idx2size pooled i ≤ page_idx2size pooled k) e
          (page_idx2size_mono (j - i) i (omega (arith, e, down.0))) in
      omega (arith, up.1, down.1, mono);
  last_class = omega (arith, floor_last, n_p_sizes-eq);
}
