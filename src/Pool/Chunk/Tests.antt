-- ===== src/Pool/Chunk/Tests.antt =====
-- The theorems on a chunk at concrete inputs.
use duo_duo.Base.{
  ℕ, ◌-◌, ◌*◌, ◌/◌, ◌^◌, ◌≤◌, ◌<◌, ◌≡◌, ◌⊎◌, inl, inr, refl, [], ◌∷◌, ◌++◌, none, some, ◌==◌, ◌||◌,
  if◌then◌else◌, arith,
}
use duo_duo.Pool.Handle.{to_run_handle}
use duo_duo.Pool.SizeClass.{pooled, size_idx2size, page2page_idx, page2page_idx_floor}
use duo_duo.Pool.Chunk.{
  ArenaSizes, Chunk, new_chunk, insert_avail_run, allocate_run, free_run, subpage_run_size,
}
use duo_duo.Pool.Chunk.Layout.{
  used, free, Layout, pages, free_pages, IsTiled, IsMerged, edge, filed,
}
use duo_duo.Pool.Chunk.Split.{IsValid, to_run_handle-Names}
use duo_duo.Pool.Chunk.AllocateRun.{Allocated, IsShort, allocate_run-takes}
use duo_duo.Pool.Chunk.FreeRun.{Freed, free_run-returns}
use duo_duo.Pool.Chunk.Collapse.{Spans}
use duo_duo.Pool.Handle.Fields.{to_run_handle-fields, to_run_handle-sum}
use duo_duo.Pool.Chunk.New.{new_chunk-IsValid}
use duo_duo.Pool.Chunk.GivesBack.{free-allocate_run}
use duo_duo.Pool.Chunk.Pooled.{pooled_sizes, pooled_sizes-IsPaged}
use duo_duo.Pool.Chunk.RunSize.{subpage_run_size-exact}

-- The allocator's chunk, as it is made.
abbrev whole : Layout
whole = free 2048 (2048 * 2 ^ 34) ∷ []

abbrev pub made : Chunk
made = new_chunk pooled_sizes 8192 13 (2048 * 2 ^ 13) 0

new_chunk-IsValid_example : IsValid pooled_sizes whole made
new_chunk-IsValid_example =
    new_chunk-IsValid pooled_sizes 8192 13 2048 0 (omega arith) (omega arith) (omega arith)

made-IsValid : IsValid pooled_sizes whole made
made-IsValid =
    new_chunk-IsValid pooled_sizes 8192 13 2048 0 (omega arith) (omega arith) (omega arith)

allocate_run-takes_example :
    Allocated pooled_sizes whole made 3 (3 * 2 ^ made.page_shifts)
    ⊎ ((allocate_run pooled_sizes (3 * 2 ^ made.page_shifts) made ≡ some (none, made))
        × IsShort pooled_sizes.page2page_idx_floor (pooled_sizes.page2page_idx 3) whole)
unfolding pages
allocate_run-takes_example =
    allocate_run-takes pooled_sizes whole made 3 pooled_sizes-IsPaged made-IsValid (omega arith)
      (omega arith)

-- A chunk of five pages, the first three of them in use.
abbrev pub rest : ℕ
rest = to_run_handle 3 2 0

abbrev pub by_pages : ArenaSizes
by_pages = record {
  n_p_sizes = 5;
  small_max_size_idx = 0;
  page2page_idx = λ n. n - 1;
  page2page_idx_floor = λ n. n - 1;
  size_idx2size = λ i. i;
  size2size_idx = λ n. n;
}

abbrev pub part : Chunk
part = record made {
  chunk_size = 5 * 2 ^ 13;
  free_bytes = 2 * 2 ^ 13;
  runs_avail = λ i. if i == 1 then rest ∷ [] else [];
  runs_avail_map = λ k. if (k == 3) || (k == 4) then some rest else none;
}

pub part-IsValid : IsValid by_pages ([] ++ used 3 ∷ free 2 rest ∷ []) part
unfolding IsTiled IsMerged pages free_pages edge filed new_chunk insert_avail_run
part-IsValid = record {
  laid = record {
    tiled = (omega arith, (omega arith, to_run_handle-Names 3 2 (omega arith) (omega arith), tt));
    edges = λ k. ground arith;
    queues = λ i h. ground arith;
  };
  merged = (refl, tt);
  bytes = refl;
  whole = refl;
  small = omega arith;
  limit = omega arith;
}

pub front-Spans : Spans (to_run_handle 0 3 1) 0 3
front-Spans =
    let f = to_run_handle-fields 0 3 1 (omega arith) (omega arith) (omega arith) in
    record {
      offset = f.0;
      pages = f.1;
      positive = omega (arith, to_run_handle-sum 0 3 1 (omega arith) (omega arith) (omega arith));
    }

free_run-returns_example :
    Freed by_pages [] 3 (free 2 rest ∷ []) (to_run_handle 0 3 1) (some 7) part
unfolding pages
free_run-returns_example =
    free_run-returns by_pages [] (free 2 rest ∷ []) 3 (to_run_handle 0 3 1) (some 7) part
      part-IsValid front-Spans

got : Allocated pooled_sizes whole made 3 (3 * 2 ^ made.page_shifts)
unfolding pages IsShort pooled_sizes pooled page2page_idx page2page_idx_floor
got =
    elim (allocate_run-takes pooled_sizes whole made 3 pooled_sizes-IsPaged made-IsValid
      (omega arith) (omega arith)) [
        | inl a ↦ a
        | inr (e, s) ↦ absurd (let k : 39 < 2 = s.0 in omega arith)
      ]

free-allocate_run_example :
    (d : Chunk) × (g : ℕ) × (free_run pooled_sizes got.handle none got.left ≡ some d)
    × IsValid pooled_sizes (got.before ++ free got.length_ g ∷ got.after) d
    × (d.subpages ≡ got.left.subpages)
free-allocate_run_example =
    free-allocate_run pooled_sizes whole made 3 (3 * 2 ^ made.page_shifts) made-IsValid got none

subpage_run_size-exact_example :
    let e = size_idx2size pooled 2 in
    (r : ℕ) × (subpage_run_size pooled_sizes 2 made ≡ some r)
    × (r / 8192 * 8192 ≡ r)
    × (r / e * e ≡ r)
    × (r / e ≤ 512)
    × (r ≤ 16777216)
    × (0 < r)
unfolding new_chunk insert_avail_run
subpage_run_size-exact_example = subpage_run_size-exact made 2 refl refl refl (omega arith)
