-- ===== src/Pool/Chunk/Collapse/Prev.antt =====
-- Joining a run that is given back with an available run before it (collapsePrev).
use duo_duo.Base.{
  ℕ, zero, suc, ◌+◌, ◌-◌, ◌^◌, ◌<◌, ◌≡◌, inl, inr, refl, ap, ◌∙◌, sym, subst, true, false, [], ◌∷◌,
  ◌++◌, none, some, ltb, ◌==◌, arith, Bool-cases, append_assoc,
}
use duo_duo.Pool.Handle.{to_run_handle, calculate_run_offset, calculate_run_pages}
use duo_duo.Pool.Chunk.{ArenaSizes, Chunk, get_prev_run, remove_avail_run, collapse_prev}
use duo_duo.Pool.Chunk.Layout.{
  used, free, Layout, pages, IsMerged, ends_free, ends_free-last, edge-middle, IsTiled-split,
  IsMerged-split, pages-append,
}
use duo_duo.Pool.Chunk.Laid.{IsLaid, middle_Names, remove-IsLaid}
use duo_duo.Pool.Chunk.Split.{join-IsLaid}
use duo_duo.Pool.Chunk.Carve.{IsKept, remove_from-IsKept}
use duo_duo.Pool.Chunk.Collapse.{Spans, to_run_handle-Spans, edge-end}

-- What of the layout on one side a run is joined with: nothing, or the run next to it.
pub data Joined (B B' : Layout) (m : ℕ) : Type 0 where
  alone : B ≡ B' → m ≡ 0 → Joined B B' m
  joined : (g : ℕ) → B ≡ B' ++ free m g ∷ [] → Joined B B' m

module _ (sizes : ArenaSizes) (A : Layout) where
  prev-none :
      (B : Layout) (n : ℕ) (c : Chunk)
      → IsLaid sizes (B ++ used n ∷ A) c
      → ends_free false B ≡ false
      → get_prev_run (pages B) c ≡ none
  prev-none B n c v f = go (pages B) refl
    where
      go : (k : ℕ) → pages B ≡ k → get_prev_run k c ≡ none
      go zero e = refl
      go (suc k) e =
          let t : ltb k (pages B) ≡ true = ground (arith, e) in
          let (tb, _) = IsTiled-split 0 B (used n ∷ A) v.tiled in
          v.edges k
          ∙ edge-middle B (used n) A k
          ∙ rw t (edge-end 0 false B k (omega (arith, e)) tb f)

  -- Nothing to join before the run.
  prev-stops :
      (left : ℕ) (B : Layout) (n h : ℕ) (c : Chunk)
      → IsLaid sizes (B ++ used n ∷ A) c
      → Spans h (pages B) n
      → ends_free false B ≡ false
      → collapse_prev sizes (suc left) h c ≡ some (h, c)
  unfolding collapse_prev
  prev-stops left B n h c v m f = rw (m.offset, collapse_prev, prev-none B n c v f) refl

  prev-joins :
      (left : ℕ) (B : Layout) (m g n h : ℕ) (c : Chunk)
      → IsLaid sizes (B ++ free m g ∷ used n ∷ A) c
      → Spans h (pages B + m) n
      → pages B + m + n < 2 ^ 14
      → let c' = remove_avail_run sizes g c in
        let h' = to_run_handle (pages B) (m + n) 0 in
        IsLaid sizes (B ++ used (m + n) ∷ A) c'
        × Spans h' (pages B) (m + n)
        × (collapse_prev sizes (suc left) h c ≡ collapse_prev sizes left h' c')
  unfolding collapse_prev
  prev-joins left B m g n h c v s small =
      let (pos, nm) = middle_Names B m g (used n ∷ A) v.tiled in
      let found : c.runs_avail_map (pages B + m - 1) ≡ some g =
        v.edges (pages B + m - 1)
        ∙ edge-middle B (free m g) (used n ∷ A) (pages B + m - 1)
        ∙ ground (arith, pos) in
      let prev : get_prev_run (pages B + m) c ≡ some g =
        (let e : pages B + m ≡ suc (pages B + m - 1) = omega (arith, pos) in
          subst (λ k. get_prev_run k c ≡ some g) (sym e) found) in
      let other : (g == h) ≡ false = (elim (Bool-cases (g == h)) [
        | inr t ↦ t
        | inl t ↦ absurd (
            let e : g ≡ h = ground arith in
            omega (arith, nm.offset, s.offset, ap calculate_run_offset e, pos))
      ]) in
      let meets : (m + pages B == pages B + m) ≡ true = ground arith in
      (
        join-IsLaid B m n A sizes _ (remove-IsLaid sizes B m g (used n ∷ A) c v),
        to_run_handle-Spans (pages B) (m + n) (omega arith) (omega arith),
        rw
            (
              s.offset, collapse_prev, prev, nm.offset, nm.pages, other, s.offset, meets, nm.offset,
              nm.pages, s.pages,
            )
            refl,
      )

  -- What is before the run is joined, once at most.
  pub prev-joined :
      (left : ℕ) (B : Layout) (n h : ℕ) (c : Chunk)
      → IsLaid sizes (B ++ used n ∷ A) c
      → Spans h (pages B) n
      → IsMerged false B
      → pages B + n < 2 ^ 14
      → (B' : Layout) × (m : ℕ) × (h' : ℕ) × (c' : Chunk) × (collapse_prev sizes
            (suc (suc left))
            h
            c
          ≡ some (h', c'))
        × Joined B B' m
        × IsLaid sizes (B' ++ used (m + n) ∷ A) c'
        × Spans h' (pages B') (m + n)
        × IsMerged false B'
        × (ends_free false B' ≡ false)
        × IsKept c c'
        × (c'.free_bytes ≡ c.free_bytes)
        × (pages B ≡ pages B' + m)
  unfolding ends_free IsMerged pages
  prev-joined left B n h c v s mg small = elim (Bool-cases (ends_free false B)) [
    | inr f ↦
        let z : n ≡ 0 + n = omega arith in
        (
          B,
          0,
          h,
          c,
          prev-stops (suc left) B n h c v s f,
          alone refl refl,
          subst (λ k. IsLaid sizes (B ++ used k ∷ A) c) z v,
          subst (λ k. Spans h (pages B) k) z s,
          mg,
          f,
          record { shifts = refl; chunk = refl; subpages = refl; cached = refl },
          refl,
          omega arith,
        )
    | inl f ↦ elim (ends_free-last false B f) [
      | inl (w, _) ↦ absurd (cc)
      | inr (B', m, g, e) ↦
          let size_ : pages B ≡ pages B' + m =
            omega (arith, ap pages e, pages-append B' (free m g ∷ [])) in
          let (mg', mf) = IsMerged-split false B' (free m g ∷ []) (subst (IsMerged false) e mg) in
          let v' : IsLaid sizes (B' ++ free m g ∷ used n ∷ A) c =
            subst (λ K. IsLaid sizes K c)
              (ap (λ K. K ++ used n ∷ A) e ∙ append_assoc B' (free m g ∷ []) (used n ∷ A)) v in
          let (w, t, q) =
            prev-joins (suc left) B' m g n h c v' (subst (λ o. Spans h o n) size_ s)
              (omega (arith, small, size_)) in
          let (k, kb) =
            remove_from-IsKept (sizes.page2page_idx_floor (calculate_run_pages g)) g c in
          (
            B',
            m,
            to_run_handle (pages B') (m + n) 0,
            remove_avail_run sizes g c,
            q ∙ prev-stops left B' (m + n) _ _ w t (mf.0),
            joined g e,
            w,
            t,
            mg',
            mf.0,
            k,
            kb,
            size_,
          )
    ]
  ]
