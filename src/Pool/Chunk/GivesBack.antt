-- ===== src/Pool/Chunk/GivesBack.antt =====
-- A run that is allocated and given back.
use duo_duo.Base.{
  ℕ, ◌+◌, ◌-◌, ◌≡◌, inl, inr, ap, ◌∙◌, sym, subst, true, false, [], ◌∷◌, ◌++◌, Option, some, arith,
  ltb, Bool-cases, ltb→lt, if◌then◌else◌,
}
use duo_duo.Pool.Handle.{to_run_handle, calculate_run_offset}
use duo_duo.Pool.Chunk.{ArenaSizes, Chunk, free_run}
use duo_duo.Pool.Chunk.Layout.{
  used, free, Layout, pages, pages-append, IsMerged, ends_free, ends_free-append, IsMerged-split,
}
use duo_duo.Pool.Chunk.Split.{IsValid}
use duo_duo.Pool.Chunk.Carve.{carve}
use duo_duo.Pool.Chunk.AllocateRun.{Allocated}
use duo_duo.Pool.Chunk.Collapse.{Spans}
use duo_duo.Pool.Chunk.Collapse.Prev.{Joined}
use duo_duo.Pool.Chunk.Collapse.Next.{JoinedAfter}
use duo_duo.Pool.Chunk.FreeRun.{Freed, free_run-returns}

-- Beside a run in use nothing is joined.
joined-none :
    (B B' : Layout) (m : ℕ) → Joined B B' m → ends_free false B ≡ false → (B ≡ B') × (m ≡ 0)
unfolding ends_free
joined-none B B' m (Joined.alone e z) f = (e, z)
joined-none B B' m (Joined.joined g e) f = absurd (
    let t : ends_free false B ≡ true =
      ap (ends_free false) e ∙ ends_free-append false B' (free m g ∷ []) in
    cc)

joined_after-none :
    (A A' : Layout) (m : ℕ) → JoinedAfter A A' m → IsMerged true A → (A ≡ A') × (m ≡ 0)
unfolding IsMerged
joined_after-none A A' m (JoinedAfter.alone e z) f = (e, z)
joined_after-none A A' m (JoinedAfter.joined g e) f =
    absurd (let t = subst (IsMerged true) e f in let u : true ≡ false = t.0 in cc)

joined_after-some :
    (A A' : Layout) (n g m : ℕ)
    → JoinedAfter (free n g ∷ A) A' m
    → IsMerged true A'
    → (A ≡ A') × (n ≡ m)
unfolding IsMerged
joined_after-some A A' n g m (JoinedAfter.alone e z) f =
    absurd (let t = subst (IsMerged true) (sym e) f in let u : true ≡ false = t.0 in cc)
joined_after-some A A' n g m (JoinedAfter.joined k e) f = (ground arith, ground arith)

module _ (sizes : ArenaSizes) (L : Layout) (c : Chunk) (need run_size : ℕ) (v : IsValid sizes L c)
    (a : Allocated sizes L c need run_size) (buffer : Option ℕ) where
  spans : Spans a.handle (pages a.before) need
  unfolding calculate_run_offset pages
  spans =
      let all = ap pages a.found ∙ pages-append a.before (free a.length_ a.taken ∷ a.after) in
      record {
        offset = a.names.offset;
        pages = a.names.pages;
        positive = omega (arith, a.names.offset, all, v.small);
      }

  -- The layout is as before, but for the handle of the available run.
  restored :
      (A : Layout)
      → IsValid sizes (a.before ++ used need ∷ A) a.left
      → ((F : Freed sizes a.before need A a.handle buffer a.left)
          → IsMerged true F.after
          → (F.after ≡ a.after) × (need + F.right ≡ a.length_))
      → (d : Chunk) × (g : ℕ) × (free_run sizes a.handle buffer a.left ≡ some d)
        × IsValid sizes (a.before ++ free a.length_ g ∷ a.after) d
        × (d.subpages ≡ a.left.subpages)
  unfolding IsMerged
  restored A w f =
      let F = free_run-returns sizes a.before A need a.handle buffer a.left w spans in
      let (_, m) =
        IsMerged-split false a.before (free a.length_ a.taken ∷ a.after)
          (subst (IsMerged false) a.found v.merged) in
      let (_, mf) =
        IsMerged-split false F.before (free (F.left + need + F.right) F.run ∷ F.after)
          F.valid.merged in
      let (eb, zl) = joined-none a.before F.before F.left F.joins (m.0) in
      let (ea, er) = f F (mf.1) in
      let len : F.left + need + F.right ≡ a.length_ = omega (arith, zl, er) in
      (
        F.given,
        F.run,
        F.result,
        subst (λ B. IsValid sizes (B ++ free a.length_ F.run ∷ a.after) F.given) (sym eb)
            (subst (λ K. IsValid sizes (F.before ++ free a.length_ F.run ∷ K) F.given) ea
              (subst (λ k. IsValid sizes (F.before ++ free k F.run ∷ F.after) F.given) len
                F.valid)),
        F.subpages,
      )

  -- A run that was allocated from a valid chunk and is given back at once: nothing fails, and the
  -- chunk is valid with the same runs in the same places as before the allocation.
  pub free-allocate_run :
      (d : Chunk) × (g : ℕ) × (free_run sizes a.handle buffer a.left ≡ some d)
      × IsValid sizes (a.before ++ free a.length_ g ∷ a.after) d
      × (d.subpages ≡ a.left.subpages)
  unfolding carve IsMerged
  free-allocate_run = elim (Bool-cases (ltb need a.length_)) [
    | inl t ↦
        let less = ltb→lt need a.length_ t in
        let r = a.length_ - need in
        let g = to_run_handle (pages a.before + need) r 0 in
        let w : IsValid sizes (a.before ++ used need ∷ free r g ∷ a.after) a.left =
          subst
            (λ b.
              IsValid sizes
                (a.before ++ (if b then used need ∷ free r g ∷ a.after else used need ∷ a.after))
                a.left)
            t a.valid in
        restored (free r g ∷ a.after) w (λ F m.
          let (e, z) = joined_after-some a.after F.after r g F.right F.joins_after m in
          (sym e, omega (arith, z, less)))
    | inr t ↦
        let same : need ≡ a.length_ = ground (arith, t, a.fits) in
        let g = to_run_handle (pages a.before + need) (a.length_ - need) 0 in
        let w : IsValid sizes (a.before ++ used need ∷ a.after) a.left =
          subst
            (λ b.
              IsValid sizes
                (a.before
                  ++ (if b
                      then used need ∷ free (a.length_ - need) g ∷ a.after
                      else used need ∷ a.after))
                a.left)
            t a.valid in
        let (_, m) =
          IsMerged-split false a.before (free a.length_ a.taken ∷ a.after)
            (subst (IsMerged false) a.found v.merged) in
        restored a.after w (λ F _.
          let (e, z) = joined_after-none a.after F.after F.right F.joins_after (m.1) in
          (sym e, omega (arith, z, same)))
  ]
