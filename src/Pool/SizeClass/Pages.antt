-- ===== src/Pool/SizeClass/Pages.antt =====
-- The same for runs of pages, whose numbers are few enough to check one by one.
use duo_duo.Base.{
  ℕ, ◌+◌, ◌-◌, ◌*◌, ◌≤◌, ◌<◌, ◌≡◌, ◌⊎◌, refl, Bool, true, ◌&&◌, ◌||◌, ltb, leb, ◌==◌, arith,
  all_below, all_below_sound,
}
use duo_duo.Pool.MathUtils.{log2, number_of_leading_zeros, narrow}
use duo_duo.Pool.SizeClass.Rows.{pooled}
use duo_duo.Pool.SizeClass.Lookup.{page2page_idx, page2page_idx_floor, page_idx2size}

abbrev up_case : ℕ → Bool
up_case n =
    let pages = n + 1 in
    let i = page2page_idx pooled pages in
    ltb i 40
    && leb (pages * 8192) (page_idx2size pooled i)
    && ((i == 0) || ltb (page_idx2size pooled (i - 1)) (pages * 8192))

abbrev down_case : ℕ → Bool
down_case n =
    let pages = n + 1 in
    let i = page2page_idx_floor pooled pages in
    ltb i 40
    && leb (page_idx2size pooled i) (pages * 8192)
    && ((i == 39) || ltb (pages * 8192) (page_idx2size pooled (i + 1)))

up_table : all_below 2048 up_case ≡ true
unfolding pooled page_idx2size page2page_idx all_below log2 number_of_leading_zeros narrow
up_table = refl

down_table : all_below 2048 down_case ≡ true
unfolding pooled page_idx2size page2page_idx_floor all_below log2 number_of_leading_zeros narrow
down_table = refl

up_case-fits :
    (pages : ℕ)
    → 0 < pages
    → up_case (pages - 1) ≡ true
    → let i = page2page_idx pooled pages in
      (i < 40)
      × (pages * 8192 ≤ page_idx2size pooled i)
      × ((i ≡ 0) ⊎ (page_idx2size pooled (i - 1) < pages * 8192))
up_case-fits pages pos h =
    let e : pages - 1 + 1 ≡ pages = omega arith in let h' = rw e at h in ground (arith, h')

-- A run of up to 2048 pages gets the smallest page class that holds it.
pub page2page_idx-fits :
    (pages : ℕ)
    → 0 < pages
    → pages ≤ 2048
    → let i = page2page_idx pooled pages in
      (i < 40)
      × (pages * 8192 ≤ page_idx2size pooled i)
      × ((i ≡ 0) ⊎ (page_idx2size pooled (i - 1) < pages * 8192))
page2page_idx-fits pages pos hi =
    up_case-fits pages pos (all_below_sound 2048 up_case (pages - 1) up_table (omega arith))

down_case-fits :
    (pages : ℕ)
    → 0 < pages
    → down_case (pages - 1) ≡ true
    → let i = page2page_idx_floor pooled pages in
      (i < 40)
      × (page_idx2size pooled i ≤ pages * 8192)
      × ((i ≡ 39) ⊎ (pages * 8192 < page_idx2size pooled (i + 1)))
down_case-fits pages pos h =
    let e : pages - 1 + 1 ≡ pages = omega arith in let h' = rw e at h in ground (arith, h')

-- Rounded down, it gets the largest page class that it can serve.
pub page2page_idx_floor-fits :
    (pages : ℕ)
    → 0 < pages
    → pages ≤ 2048
    → let i = page2page_idx_floor pooled pages in
      (i < 40)
      × (page_idx2size pooled i ≤ pages * 8192)
      × ((i ≡ 39) ⊎ (pages * 8192 < page_idx2size pooled (i + 1)))
page2page_idx_floor-fits pages pos hi =
    down_case-fits pages pos (all_below_sound 2048 down_case (pages - 1) down_table (omega arith))
