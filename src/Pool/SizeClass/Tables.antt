-- ===== src/Pool/SizeClass/Tables.antt =====
-- What the tables of the allocator's object hold, checked entry by entry.
use duo_duo.Base.{◌^◌, ◌≡◌, refl, true, ◌==◌, all_below}
use duo_duo.Pool.SizeClass.Rows.{pooled}
use duo_duo.Pool.SizeClass.Lookup.{
  size_idx2size, size_idx2size_compute, page_idx2size, page_idx2size_compute,
}

pub counts :
    (pooled.n_sizes ≡ 76)
    × (pooled.n_subpages ≡ 39)
    × (pooled.n_p_sizes ≡ 40)
    × (pooled.small_max_size_idx ≡ 38)
    × (pooled.search_max_size ≡ 4096)
    × (pooled.chunk_size ≡ 2 ^ 24)
unfolding pooled
counts = (refl, refl, refl, refl, refl, refl)

pub sizes_table : all_below 76 (λ i. size_idx2size pooled i == size_idx2size_compute i) ≡ true
unfolding pooled size_idx2size size_idx2size_compute all_below
sizes_table = refl

-- The table of page sizes and the closed formula agree.
pages_table : all_below 40 (λ i. page_idx2size pooled i == page_idx2size_compute pooled i) ≡ true
unfolding pooled page_idx2size page_idx2size_compute all_below
pages_table = refl
