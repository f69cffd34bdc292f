-- ===== src/Pool/Chunk/GivesPlace.antt =====
-- The place that an allocation of whole pages gives a buffer.
use duo_duo.Base.{ℕ, ◌+◌, ◌*◌, ◌^◌, ◌≤◌, ◌≡◌, ◌++◌, some}
use duo_duo.Pool.Subpage.{Pool}
use duo_duo.Pool.Chunk.{ArenaSizes, Chunk, Place, allocate}
use duo_duo.Pool.Chunk.Layout.{Layout, pages}
use duo_duo.Pool.Chunk.Split.{IsValid}
use duo_duo.Pool.Chunk.Carve.{carve}
use duo_duo.Pool.Chunk.AllocateRun.{Allocated}

-- The pages that a buffer got: they follow those of a part of the layout, were available, and are
-- the chunk's.
pub record Got (sizes : ArenaSizes) (L : Layout) (c : Chunk) (need number req_capacity size_idx : ℕ)
    (heads : ℕ → Pool) : Type 0 where
  pub run : Allocated sizes L c need (need * 2 ^ c.page_shifts)
  pub place : Place
  pub left : Chunk
  pub result : allocate sizes number req_capacity size_idx c heads ≡ some (some place, left, heads)
  pub valid : IsValid sizes (run.before ++ carve (pages run.before) need run.length_ run.after) left
  pub handle : place.handle ≡ run.handle
  pub start : place.offset ≡ pages run.before * 2 ^ c.page_shifts
  pub length_ : place.length_ ≡ req_capacity
  pub room : place.max_length ≡ need * 2 ^ c.page_shifts
  pub inside : place.offset + place.max_length ≤ c.chunk_size
