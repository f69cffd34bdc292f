-- ===== src/Pool/Chunk/Carve.antt =====
-- Cutting a run that is to be used off an available one (splitLargeRun).
use duo_duo.Base.{
  ℕ, ◌+◌, ◌-◌, ◌^◌, ◌≤◌, ◌<◌, ◌≡◌, inl, inr, refl, ◌∙◌, sym, subst, true, false, ◌∷◌, ◌++◌, some,
  ltb, ◌==◌, if◌then◌else◌, arith, Bool-cases, ltb→lt,
}
use duo_duo.Pool.Handle.{
  to_run_handle, calculate_run_offset, calculate_run_pages, is_used, is_subpage, mark_used,
}
use duo_duo.Pool.Handle.Fields.{to_run_handle-fields}
use duo_duo.Pool.Handle.Flags.{mark_used-fields}
use duo_duo.Pool.Chunk.{ArenaSizes, Chunk, insert_avail_run, remove_from, split_large_run}
use duo_duo.Pool.Chunk.Layout.{
  used, free, Layout, pages, free_pages, Names, IsMerged, IsMerged-false,
}
use duo_duo.Pool.Chunk.Laid.{IsLaid}
use duo_duo.Pool.Chunk.Split.{split-IsLaid, insert_after-IsLaid, to_run_handle-Names}

-- What the operations on the map and the queues leave as it is.
pub record IsKept (c d : Chunk) : Type 0 where
  pub shifts : d.page_shifts ≡ c.page_shifts
  pub chunk : d.chunk_size ≡ c.chunk_size
  pub subpages : d.subpages ≡ c.subpages
  pub cached : d.cached_buffers ≡ c.cached_buffers

pub insert_avail_run-IsKept :
    (sizes : ArenaSizes) (o n h : ℕ) (c : Chunk)
    → let d = insert_avail_run sizes o n h c in IsKept c d × (d.free_bytes ≡ c.free_bytes)
unfolding insert_avail_run
insert_avail_run-IsKept sizes o n h c = (
  record {
    shifts = ground arith;
    chunk = ground arith;
    subpages = ground arith;
    cached = ground arith;
  },
  ground arith,
)

pub remove_from-IsKept :
    (i h : ℕ) (c : Chunk) → let d = remove_from i h c in IsKept c d × (d.free_bytes ≡ c.free_bytes)
unfolding remove_from
remove_from-IsKept i h c = (
  record {
    shifts = ground arith;
    chunk = ground arith;
    subpages = ground arith;
    cached = ground arith;
  },
  ground arith,
)

-- What is left of an available run: the rest is available, if there is any.
unfoldable pub carve : ℕ → ℕ → ℕ → Layout → Layout
carve o need n after =
    if ltb need n
    then used need ∷ free (n - need) (to_run_handle (o + need) (n - need) 0) ∷ after
    else used need ∷ after

-- The handle of a run that is in use, at its first page and with its pages.
pub record IsTaken (h o n : ℕ) : Type 0 where
  pub offset : calculate_run_offset h ≡ o
  pub pages : calculate_run_pages h ≡ n
  pub in_use : is_used h ≡ true
  pub whole : is_subpage h ≡ false

module _ (sizes : ArenaSizes) (B A : Layout) (need n : ℕ) (pos : 0 < need) (fits : need ≤ n) where
  -- The run is out of the map and the queues; what is left of it comes back.
  pub split-carves :
      (h : ℕ) (c : Chunk)
      → Names h (pages B) n
      → pages B + n < 2 ^ 14
      → IsLaid sizes (B ++ used n ∷ A) c
      → (g : ℕ) × (d : Chunk) × (split_large_run sizes h need c ≡ some (g, d))
        × IsLaid sizes (B ++ carve (pages B) need n A) d
        × IsTaken g (pages B) need
        × IsKept c d
        × (d.free_bytes ≡ c.free_bytes)
  unfolding split_large_run carve pages
  split-carves h c m small v = elim (Bool-cases (ltb need n)) [
    | inl t ↦
        let r = n - need in
        let less : need < n = ltb→lt need n t in
        let o = pages B in
        let g = to_run_handle (o + need) r 0 in
        let f = to_run_handle-fields o need 1 (omega arith) (omega arith) (omega arith) in
        let e : need + r ≡ n = omega arith in
        let q : (need == 0) ≡ false = ground arith in
        let s : ltb n need ≡ false = ground arith in
        let z : ltb 0 r ≡ true = ground arith in
        let two =
          split-IsLaid B need r A sizes c (subst (λ k. IsLaid sizes (B ++ used k ∷ A) c) (sym e) v)
            pos (omega arith) in
        let k = insert_avail_run-IsKept sizes (o + need) r g c in
        (
          to_run_handle o need 1,
          insert_avail_run sizes (o + need) r g c,
          rw (m.offset, m.pages, split_large_run, q, s, z) refl,
          rw (t, carve)
              (insert_after-IsLaid B (used need) sizes r g A c two
                (to_run_handle-Names (o + need) r (omega arith) (omega arith))),
          record { offset = f.0; pages = f.1; in_use = f.2; whole = f.3 },
          k.0,
          k.1,
        )
    | inr t ↦
        let e : n ≡ need = ground (arith, t, fits) in
        let q : (need == 0) ≡ false = ground arith in
        let s : ltb n need ≡ false = ground arith in
        let z : ltb 0 (n - need) ≡ false = ground arith in
        let f = mark_used-fields h m.positive in
        (
          mark_used h,
          c,
          rw (m.offset, m.pages, split_large_run, q, s, z) refl,
          rw (t, carve) (subst (λ k. IsLaid sizes (B ++ used k ∷ A) c) e v),
          record {
            offset = f.0 ∙ m.offset;
            pages = f.1 ∙ m.pages ∙ e;
            in_use = f.2;
            whole = f.3 ∙ m.whole;
          },
          record { shifts = refl; chunk = refl; subpages = refl; cached = refl },
          refl,
        )
  ]

  pub carve-pages : pages (carve (pages B) need n A) ≡ n + pages A
  unfolding pages carve
  carve-pages = elim (Bool-cases (ltb need n)) [
    | inl t ↦ rw (t, carve) (ground (arith, t))
    | inr t ↦ rw (t, carve) (ground (arith, t, fits))
  ]

  pub carve-free : free_pages (carve (pages B) need n A) + need ≡ n + free_pages A
  unfolding free_pages carve
  carve-free = elim (Bool-cases (ltb need n)) [
    | inl t ↦ rw (t, carve) (ground (arith, t))
    | inr t ↦ rw (t, carve) (ground (arith, t, fits))
  ]

  pub carve-IsMerged : IsMerged true A → IsMerged false (carve (pages B) need n A)
  unfolding IsMerged carve
  carve-IsMerged m = elim (Bool-cases (ltb need n)) [
    | inl t ↦ rw (t, carve) (refl, m)
    | inr t ↦ rw (t, carve) (IsMerged-false true A m)
  ]
