-- ===== src/Pool/Chunk/FreeRun.antt =====
-- Giving a run of pages back (free, from "free run" on).
use duo_duo.Base.{
  ℕ, ◌+◌, ◌*◌, ◌^◌, ◌/◌, ◌≡◌, inl, inr, refl, ap, ◌∙◌, true, false, [], ◌∷◌, ◌++◌, Option, none,
  some, ltb, arith, length, Bool-cases,
}
use duo_duo.Pool.Handle.{calculate_run_pages, clear_flags}
use duo_duo.Pool.Handle.Flags.{clear_flags-fields}
use duo_duo.Pool.Chunk.{ArenaSizes, Chunk, insert_avail_run, collapse_runs, cache_buffer, free_run}
use duo_duo.Pool.Chunk.Layout.{
  used, free, Layout, pages, free_pages, Names, IsMerged, ends_free, IsMerged-split,
  IsMerged-append, pages-append, free_pages-append,
}
use duo_duo.Pool.Chunk.Laid.{IsLaid, insert-IsLaid}
use duo_duo.Pool.Chunk.Split.{IsValid}
use duo_duo.Pool.Chunk.Carve.{IsKept, insert_avail_run-IsKept}
use duo_duo.Pool.Chunk.Collapse.{Spans}
use duo_duo.Pool.Chunk.Collapse.Prev.{Joined, alone, joined, prev-joined}
use duo_duo.Pool.Chunk.Collapse.Next.{JoinedAfter, next-joined}
use native.Mathlib.Nat.{add-mul}

-- A run that came back: with what was available beside it, it is one available run, and the
-- chunk is valid.
pub record Freed (sizes : ArenaSizes) (B : Layout) (n : ℕ) (A : Layout) (h : ℕ) (buffer : Option ℕ)
    (c : Chunk) : Type 0 where
  pub before : Layout
  pub after : Layout
  pub left : ℕ
  pub right : ℕ
  pub joins : Joined B before left
  pub joins_after : JoinedAfter A after right
  pub run : ℕ
  pub given : Chunk
  pub result : free_run sizes h buffer c ≡ some given
  pub valid : IsValid sizes (before ++ free (left + n + right) run ∷ after) given
  pub subpages : given.subpages ≡ c.subpages
  pub size : given.chunk_size ≡ c.chunk_size
  pub more : given.free_bytes ≡ c.free_bytes + n * 2 ^ c.page_shifts

joined-free : {B B' : Layout} {m : ℕ} → Joined B B' m → free_pages B ≡ free_pages B' + m
unfolding free_pages
joined-free (alone e z) = omega (arith, ap free_pages e)
joined-free {B' = B'} {m = m} (joined g e) =
    omega (arith, ap free_pages e, free_pages-append B' (free m g ∷ []))

joined_after-free : {A A' : Layout} {m : ℕ} → JoinedAfter A A' m → free_pages A ≡ m + free_pages A'
unfolding free_pages
joined_after-free (JoinedAfter.alone e z) = omega (arith, ap free_pages e)
joined_after-free (JoinedAfter.joined g e) = ap free_pages e

-- A buffer that is kept, or not, does not matter to the runs.
cache_buffer-IsValid :
    (sizes : ArenaSizes) (L : Layout) (b : Option ℕ) (c : Chunk)
    → IsValid sizes L c
    → IsValid sizes L (cache_buffer b c)
cache_buffer-IsValid sizes L none c v = v
cache_buffer-IsValid sizes L (some b) c v = elim (Bool-cases (ltb (length c.cached_buffers) 1023)) [
  | inl t ↦ rw t (record {
    laid = record { tiled = v.laid.tiled; edges = v.laid.edges; queues = v.laid.queues };
    merged = v.merged;
    bytes = v.bytes;
    whole = v.whole;
    small = v.small;
    limit = v.limit;
  })
  | inr t ↦ rw t v
]

cache_buffer-sizes :
    (b : Option ℕ) (c : Chunk)
    → ((cache_buffer b c).chunk_size ≡ c.chunk_size)
      × ((cache_buffer b c).free_bytes ≡ c.free_bytes)
cache_buffer-sizes none c = (refl, refl)
cache_buffer-sizes (some b) c = (ground arith, ground arith)

cache_buffer-subpages : (b : Option ℕ) (c : Chunk) → (cache_buffer b c).subpages ≡ c.subpages
cache_buffer-subpages none c = refl
cache_buffer-subpages (some b) c = ground arith

module _ (sizes : ArenaSizes) (B A : Layout) (n h : ℕ) (buffer : Option ℕ) (c : Chunk)
    (v : IsValid sizes (B ++ used n ∷ A) c) (s : Spans h (pages B) n) where
  -- What follows when the runs are collapsed.
  inserted :
      (B' A' : Layout) (l r h' : ℕ) (c' : Chunk)
      → collapse_runs sizes h c ≡ some (h', c')
      → Joined B B' l
      → JoinedAfter A A' r
      → pages B ≡ pages B' + l
      → pages A ≡ r + pages A'
      → IsLaid sizes (B' ++ used (l + n + r) ∷ A') c'
      → Spans h' (pages B') (l + n + r)
      → IsMerged false B'
      → ends_free false B' ≡ false
      → IsMerged true A'
      → IsKept c c'
      → c'.free_bytes ≡ c.free_bytes
      → Freed sizes B n A h buffer c
  unfolding free_run pages free_pages IsMerged
  inserted B' A' l r h' c' e j1 j2 p1 p2 w t mb f ma k b =
      let N = l + n + r in
      let run = clear_flags h' in
      let q = clear_flags-fields h' t.positive in
      let names : Names run (pages B') N = record {
        offset = q.0 ∙ t.offset;
        pages = q.1 ∙ t.pages;
        unused = q.2;
        whole = q.3;
        positive = q.4;
      } in
      let d = insert_avail_run sizes (pages B') N run c' in
      let (kd, bd) = insert_avail_run-IsKept sizes (pages B') N run c' in
      let laid = insert-IsLaid sizes B' N run A' c' w names in
      let L = B ++ used n ∷ A in
      let L' = B' ++ free N run ∷ A' in
      let shifts : d.page_shifts ≡ c.page_shifts = kd.shifts ∙ k.shifts in
      let P = 2 ^ c.page_shifts in
      let g = record d { free_bytes = d.free_bytes + calculate_run_pages h * 2 ^ d.page_shifts } in
      let pages_same : pages L' ≡ pages L =
        omega (arith, pages-append B (used n ∷ A), p1, p2, pages-append B' (free N run ∷ A')) in
      let more : free_pages L' ≡ free_pages L + n = omega (
        arith,
        free_pages-append B' (free N run ∷ A'),
        free_pages-append B (used n ∷ A),
        joined-free j1,
        joined_after-free j2,
      ) in
      let scaled = ap (λ k. k * P) more ∙ add-mul (free_pages L) n P in
      let valid : IsValid sizes L' g = record {
        laid = record { tiled = laid.tiled; edges = laid.edges; queues = laid.queues };
        merged = IsMerged-append false B' (free N run ∷ A') mb (f, ma);
        bytes = omega (
          arith,
          bd,
          b,
          v.bytes,
          scaled,
          ap (λ k. k * 2 ^ d.page_shifts) s.pages,
          ap (λ t. n * 2 ^ t) shifts,
          ap (λ t. free_pages L' * 2 ^ t) shifts,
        );
        whole = omega (
          arith,
          kd.chunk,
          k.chunk,
          v.whole,
          ap (λ k. k * P) pages_same,
          ap (λ t. pages L' * 2 ^ t) shifts,
        );
        small = omega (arith, pages_same, v.small);
        limit = omega (arith, kd.chunk, k.chunk, v.limit);
      } in
      record {
        before = B';
        after = A';
        left = l;
        right = r;
        joins = j1;
        joins_after = j2;
        run = run;
        given = cache_buffer buffer g;
        result = rw (free_run, e, names.offset, names.pages) refl;
        valid = cache_buffer-IsValid sizes L' buffer g valid;
        subpages = cache_buffer-subpages buffer g ∙ kd.subpages ∙ k.subpages;
        size = (cache_buffer-sizes buffer g).0 ∙ kd.chunk ∙ k.chunk;
        more = omega (
          arith,
          (cache_buffer-sizes buffer g).1,
          bd,
          b,
          ap (λ k. k * 2 ^ d.page_shifts) s.pages,
          ap (λ t. n * 2 ^ t) shifts,
        );
      }

  -- Giving back a run that is in use, in a valid chunk, never fails. It becomes an available run,
  -- together with the available run that ends where it starts and the one that starts where it
  -- ends, if there are such, and the chunk is valid again: the pages of the run are free, no two
  -- available runs are neighbours, and the subpages are as before.
  pub free_run-returns : Freed sizes B n A h buffer c
  unfolding collapse_runs pages IsMerged
  free_run-returns =
      let all = pages-append B (used n ∷ A) in
      let rounds = c.chunk_size / 2 ^ c.page_shifts in
      let (mb, ma) = IsMerged-split false B (used n ∷ A) v.merged in
      let (B', l, h1, c1, e1, j1, w1, s1, mb', f1, k1, b1, p1) =
        prev-joined sizes A rounds B n h c v.laid s mb (omega (arith, all, v.small)) in
      let (A', r, h2, c2, e2, j2, w2, s2, ma', k2, b2, p2) =
        next-joined sizes B' rounds A (l + n) h1 c1 w1 s1 ma (omega (arith, all, v.small, p1)) in
      inserted B' A' l r h2 c2 (rw (collapse_runs, e1, e2) refl) j1 j2 p1 p2 w2 s2 mb' f1 ma'
        (record {
          shifts = k2.shifts ∙ k1.shifts;
          chunk = k2.chunk ∙ k1.chunk;
          subpages = k2.subpages ∙ k1.subpages;
          cached = k2.cached ∙ k1.cached;
        })
        (b2 ∙ b1)
