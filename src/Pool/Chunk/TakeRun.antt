-- ===== src/Pool/Chunk/TakeRun.antt =====
-- Taking a run from the front of a queue (allocateRun).
use duo_duo.Base.{
  ℕ, ◌+◌, ◌-◌, ◌*◌, ◌^◌, ◌≤◌, ◌<◌, ◌≡◌, inl, inr, refl, ap, ◌∙◌, sym, subst, false, ◌∷◌, ◌++◌, some,
  ◌==◌, arith, Bool-cases,
}
use duo_duo.Pool.Handle.{calculate_run_size, calculate_run_pages}
use duo_duo.Pool.BestFitQueue.{top, pop, remove}
use duo_duo.Pool.BestFitQueue.Count.{count-remove}
use duo_duo.Pool.Chunk.{ArenaSizes, Chunk, update, remove_from, take_run}
use duo_duo.Pool.Chunk.Layout.{
  used, free, Layout, pages, free_pages, IsTiled, IsMerged, filed, filed-append, IsTiled-split,
  pages-append, free_pages-append, IsMerged-append, IsMerged-split,
}
use duo_duo.Pool.Chunk.Laid.{IsLaid, remove-IsTiled, remove-edges, filed-absent, middle_Names}
use duo_duo.Pool.Chunk.Split.{IsValid}
use duo_duo.Pool.Chunk.Carve.{
  IsKept, remove_from-IsKept, carve, carve-pages, carve-free, carve-IsMerged, IsTaken, split-carves,
}
use native.Mathlib.Nat.{add-mul, mul-le-mul_right}

module _ (sizes : ArenaSizes) (B A : Layout) (n h : ℕ) (c : Chunk) where
  abbrev popped : ℕ → Chunk
  popped i = record c { runs_avail = update c.runs_avail i (pop (c.runs_avail i)) }

  -- `pop` takes the handle out of its queue, and `removeAvailRun` finds it no more.
  popped-IsLaid :
      IsLaid sizes (B ++ free n h ∷ A) c
      → pop (c.runs_avail (sizes.page2page_idx_floor n))
        ≡ remove h (c.runs_avail (sizes.page2page_idx_floor n))
      → let i = sizes.page2page_idx_floor n in
        IsLaid sizes (B ++ used n ∷ A) (remove_from i h (popped i))
  unfolding remove_from filed IsTiled
  popped-IsLaid v taken =
      let f = sizes.page2page_idx_floor in
      let i = f n in
      let q = c.runs_avail i in
      let (pos, m) = middle_Names B n h A v.tiled in
      let (tb, (_, _, ta)) = IsTiled-split 0 B (free n h ∷ A) v.tiled in
      let gone : filed f B i h ≡ 0 = filed-absent f 0 B i h tb (inr (omega (arith, m.offset))) in
      let gone' : filed f A i h ≡ 0 =
        filed-absent f (0 + pages B + n) A i h ta (inl (omega (arith, m.offset, pos))) in
      let same : (popped i).runs_avail i ≡ remove h q = ground (arith, taken) in
      record {
        tiled = remove-IsTiled sizes B n h A c v.tiled;
        edges = remove-edges sizes B n h A (popped i) v.tiled v.edges i;
        queues = λ j g.
            rw (m.offset, m.pages, remove_from)
              (elim (Bool-cases (g == h)) [
                | inl t ↦
                    let e : g ≡ h = ground arith in
                    rw e (
                      ground (
                        arith,
                        same,
                        v.queues j h,
                        count-remove h h (remove h q),
                        count-remove h h q,
                        gone,
                        gone',
                        filed-append f B (used n ∷ A) j h,
                        filed-append f B (free n h ∷ A) j h,
                      ))
                | inr t ↦ ground (
                  arith,
                  t,
                  same,
                  v.queues j g,
                  count-remove g h (remove h q),
                  count-remove g h q,
                  filed-append f B (used n ∷ A) j g,
                  filed-append f B (free n h ∷ A) j g,
                )
              ]);
      }

-- A run of the chunk in bytes, which an int holds.
pub run_bytes :
    (sizes : ArenaSizes) (L : Layout) (c : Chunk)
    → IsValid sizes L c
    → (h n : ℕ) → calculate_run_pages h ≡ n
    → n ≤ pages L
    → calculate_run_size c.page_shifts h ≡ n * 2 ^ c.page_shifts
unfolding calculate_run_size
run_bytes sizes L c v h n e le =
    let scaled = mul-le-mul_right (2 ^ c.page_shifts) le in
    rw (e, calculate_run_size) (omega (arith, scaled, v.whole, v.limit))

module _ (sizes : ArenaSizes) (B A : Layout) (n h need : ℕ) (c : Chunk) (pos : 0 < need)
    (fits : need ≤ n) where
  pub take-takes :
      IsValid sizes (B ++ free n h ∷ A) c
      → let i = sizes.page2page_idx_floor n in
        top (c.runs_avail i) ≡ some h
        → pop (c.runs_avail i) ≡ remove h (c.runs_avail i)
        → (g : ℕ) × (d : Chunk) × (take_run sizes need i c ≡ some (g, d))
          × IsValid sizes (B ++ carve (pages B) need n A) d
          × IsTaken g (pages B) need
          × IsKept c d
  unfolding take_run pages free_pages IsMerged
  take-takes v te pe =
      let i = sizes.page2page_idx_floor n in
      let L = B ++ free n h ∷ A in
      let M = B ++ carve (pages B) need n A in
      let (_, m) = middle_Names B n h A v.laid.tiled in
      let r = remove_from i h (popped sizes B A n h c i) in
      let (kr, fr) = remove_from-IsKept i h (popped sizes B A n h c i) in
      let all : pages L ≡ pages B + (n + pages A) = pages-append B (free n h ∷ A) in
      let (g, d, e, laid, taken, kd, fd) =
        split-carves sizes B A need n pos fits h r m (omega (arith, v.small, all))
          (popped-IsLaid sizes B A n h c v.laid pe) in
      let shifts : d.page_shifts ≡ c.page_shifts = kd.shifts ∙ kr.shifts in
      let P = 2 ^ c.page_shifts in
      let pages_same : pages M ≡ pages L = omega (
        arith,
        all,
        pages-append B (carve (pages B) need n A),
        carve-pages sizes B A need n pos fits,
      ) in
      let free_same : free_pages L ≡ free_pages M + need = omega (
        arith,
        free_pages-append B (free n h ∷ A),
        free_pages-append B (carve (pages B) need n A),
        carve-free sizes B A need n pos fits,
      ) in
      let size : calculate_run_size d.page_shifts g ≡ need * P =
        ap (λ s. calculate_run_size s g) shifts
        ∙ run_bytes sizes L c v g need taken.pages (omega (arith, all, fits)) in
      let bytes : c.free_bytes ≡ free_pages M * P + need * P =
        v.bytes ∙ ap (λ k. k * P) free_same ∙ add-mul (free_pages M) need P in
      let (mb, ma) = IsMerged-split false B (free n h ∷ A) v.merged in
      (
        g,
        record d { free_bytes = d.free_bytes - calculate_run_size d.page_shifts g },
        rw (te, take_run, m.unused, e) refl,
        record {
          laid = record { tiled = laid.tiled; edges = laid.edges; queues = laid.queues };
          merged = IsMerged-append false B (carve (pages B) need n A) mb (
              subst (λ b. IsMerged b (carve (pages B) need n A)) (sym (ma.0))
                (carve-IsMerged sizes B A need n pos fits (ma.1)));
          bytes = omega (arith, fd, fr, bytes, size, ap (λ s. free_pages M * 2 ^ s) shifts);
          whole = omega (
            arith,
            kd.chunk,
            kr.chunk,
            v.whole,
            ap (λ k. k * P) pages_same,
            ap (λ s. pages M * 2 ^ s) shifts,
          );
          small = omega (arith, pages_same, v.small);
          limit = omega (arith, kd.chunk, kr.chunk, v.limit);
        },
        taken,
        record {
          shifts = shifts;
          chunk = kd.chunk ∙ kr.chunk;
          subpages = kd.subpages ∙ kr.subpages;
          cached = kd.cached ∙ kr.cached;
        },
      )
