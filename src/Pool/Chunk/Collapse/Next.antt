-- ===== src/Pool/Chunk/Collapse/Next.antt =====
-- Joining a run that is given back with an available run after it (collapseNext).
use duo_duo.Base.{
  ℕ, suc, ◌+◌, ◌^◌, ◌<◌, ◌≡◌, inl, inr, refl, ap, ◌∙◌, subst, true, false, [], ◌∷◌, ◌++◌, none,
  some, ltb, ◌==◌, arith, Bool-cases,
}
use duo_duo.Pool.Handle.{to_run_handle, calculate_run_offset, calculate_run_pages}
use duo_duo.Pool.Chunk.{ArenaSizes, Chunk, remove_avail_run, collapse_next}
use duo_duo.Pool.Chunk.Layout.{
  used, free, Layout, pages, IsTiled, IsMerged, edge, edge-middle, IsTiled-split,
}
use duo_duo.Pool.Chunk.Laid.{IsLaid}
use duo_duo.Pool.Chunk.Split.{join-IsLaid, remove_after-IsLaid}
use duo_duo.Pool.Chunk.Carve.{IsKept, remove_from-IsKept}
use duo_duo.Pool.Chunk.Collapse.{Spans, to_run_handle-Spans, edge-start}

-- What of the layout after a run it is joined with.
pub data JoinedAfter (A A' : Layout) (m : ℕ) : Type 0 where
  alone : A ≡ A' → m ≡ 0 → JoinedAfter A A' m
  joined : (g : ℕ) → A ≡ free m g ∷ A' → JoinedAfter A A' m

module _ (sizes : ArenaSizes) (B : Layout) where
  -- Nothing to join after the run.
  next-stops :
      (left : ℕ) (A : Layout) (n h : ℕ) (c : Chunk)
      → IsLaid sizes (B ++ used n ∷ A) c
      → Spans h (pages B) n
      → IsMerged true A
      → collapse_next sizes (suc left) h c ≡ some (h, c)
  unfolding collapse_next IsTiled
  next-stops left A n h c v m f =
      let k = pages B + n in
      let (_, (_, ta)) = IsTiled-split 0 B (used n ∷ A) v.tiled in
      let q : ltb k (pages B) ≡ false = ground arith in
      let r : ltb k (pages B + n) ≡ false = ground arith in
      let none_ : c.runs_avail_map k ≡ none =
        v.edges k
        ∙ edge-middle B (used n) A k
        ∙ rw (q, r) (edge-start k A (subst (λ o. IsTiled o A) (omega arith) ta) f) in
      rw (m.offset, m.pages, collapse_next, none_) refl

  next-joins :
      (left : ℕ) (A : Layout) (m g n h : ℕ) (c : Chunk)
      → IsLaid sizes (B ++ used n ∷ free m g ∷ A) c
      → Spans h (pages B) n
      → pages B + n + m < 2 ^ 14
      → let c' = remove_avail_run sizes g c in
        let h' = to_run_handle (pages B) (m + n) 0 in
        IsLaid sizes (B ++ used (n + m) ∷ A) c'
        × Spans h' (pages B) (n + m)
        × (collapse_next sizes (suc left) h c ≡ collapse_next sizes left h' c')
  unfolding collapse_next IsTiled edge
  next-joins left A m g n h c v s small =
      let k = pages B + n in
      let (_, (np, (mp, nm, _))) = IsTiled-split 0 B (used n ∷ free m g ∷ A) v.tiled in
      let found : c.runs_avail_map k ≡ some g =
        v.edges k ∙ edge-middle B (used n) (free m g ∷ A) k ∙ ground (arith, mp) in
      let other : (g == h) ≡ false = (elim (Bool-cases (g == h)) [
        | inr t ↦ t
        | inl t ↦ absurd (
            let e : g ≡ h = ground arith in
            omega (arith, nm.offset, s.offset, ap calculate_run_offset e, np))
      ]) in
      let offset : calculate_run_offset g ≡ k = omega (arith, nm.offset) in
      let meets : (n + pages B == pages B + n) ≡ true = ground arith in
      (
        join-IsLaid B n m A sizes _ (remove_after-IsLaid B (used n) sizes m g A c v),
        subst (λ j. Spans (to_run_handle (pages B) (m + n) 0) (pages B) j) (omega arith)
            (to_run_handle-Spans (pages B) (m + n) (omega arith) (omega arith)),
        rw
            (
              s.offset, s.pages, collapse_next, found, other, s.pages, s.offset, offset, meets,
              nm.pages, s.offset, s.pages,
            )
            refl,
      )

  -- What is after the run is joined, once at most.
  pub next-joined :
      (left : ℕ) (A : Layout) (n h : ℕ) (c : Chunk)
      → IsLaid sizes (B ++ used n ∷ A) c
      → Spans h (pages B) n
      → IsMerged false A
      → pages B + (n + pages A) < 2 ^ 14
      → (A' : Layout) × (m : ℕ) × (h' : ℕ) × (c' : Chunk) × (collapse_next sizes
            (suc (suc left))
            h
            c
          ≡ some (h', c'))
        × JoinedAfter A A' m
        × IsLaid sizes (B ++ used (n + m) ∷ A') c'
        × Spans h' (pages B) (n + m)
        × IsMerged true A'
        × IsKept c c'
        × (c'.free_bytes ≡ c.free_bytes)
        × (pages A ≡ m + pages A')
  unfolding IsMerged pages
  next-joined left [] n h c v s mg small =
      let z : n ≡ n + 0 = omega arith in
      (
        [],
        0,
        h,
        c,
        next-stops (suc left) [] n h c v s tt,
        JoinedAfter.alone refl refl,
        subst (λ k. IsLaid sizes (B ++ used k ∷ []) c) z v,
        subst (λ k. Spans h (pages B) k) z s,
        tt,
        record { shifts = refl; chunk = refl; subpages = refl; cached = refl },
        refl,
        omega arith,
      )
  next-joined left (used m ∷ A) n h c v s mg small =
      let z : n ≡ n + 0 = omega arith in
      (
        used m ∷ A,
        0,
        h,
        c,
        next-stops (suc left) (used m ∷ A) n h c v s mg,
        JoinedAfter.alone refl refl,
        subst (λ k. IsLaid sizes (B ++ used k ∷ used m ∷ A) c) z v,
        subst (λ k. Spans h (pages B) k) z s,
        mg,
        record { shifts = refl; chunk = refl; subpages = refl; cached = refl },
        refl,
        omega arith,
      )
  next-joined left (free m g ∷ A) n h c v s (_, mg) small =
      let (w, t, q) = next-joins (suc left) A m g n h c v s (omega (arith, small)) in
      let (k, kb) = remove_from-IsKept (sizes.page2page_idx_floor (calculate_run_pages g)) g c in
      (
        A,
        m,
        to_run_handle (pages B) (m + n) 0,
        remove_avail_run sizes g c,
        q ∙ next-stops left A (n + m) _ _ w t mg,
        JoinedAfter.joined g refl,
        w,
        t,
        mg,
        k,
        kb,
        refl,
      )
