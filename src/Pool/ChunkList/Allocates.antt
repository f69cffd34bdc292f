-- ===== src/Pool/ChunkList/Allocates.antt =====
-- Allocating from a chunk moves it towards the lists of chunks that are more in use (allocate, add).
use duo_duo.Base.{
  ℕ, zero, suc, ◌+◌, ◌≤◌, ◌≡◌, inl, inr, refl, ap, sym, subst, false, Option, none, some, arith,
  Bool-cases, Option-cases,
}
use mathlib.Core.Option.{some-injective}
use duo_duo.Pool.Chunk.{Chunk, update}
use duo_duo.Pool.ChunkList.{
  Level, q_init, q00, q25, q50, q75, q100, rank, next_list, is_full, is_idle, Lists, add0, remove,
  add, promote,
}
use duo_duo.Pool.ChunkList.Thresholds.{IsBetween, full_step}
use duo_duo.Pool.ChunkList.Placed.{
  IsPlaced, with_chunk, removed, added, kept, update-update, update_same,
}

next-rank : (q p : Level) → next_list q ≡ some p → rank p ≡ suc (rank q)
next-rank q_init p e = sym (ap rank (some-injective _ _ e))
next-rank q00 p e = sym (ap rank (some-injective _ _ e))
next-rank q25 p e = sym (ap rank (some-injective _ _ e))
next-rank q50 p e = sym (ap rank (some-injective _ _ e))
next-rank q75 p e = sym (ap rank (some-injective _ _ e))
next-rank q100 p e = absurd (cc)

-- The last list is full for no chunk.
last_not_full : (n : ℕ) (q : Level) (f : ℕ) → next_list q ≡ none → is_full n q f ≡ false
unfolding is_full
last_not_full n q_init f e = absurd (cc)
last_not_full n q00 f e = absurd (cc)
last_not_full n q25 f e = absurd (cc)
last_not_full n q50 f e = absurd (cc)
last_not_full n q75 f e = absurd (cc)
last_not_full n q100 f e = refl

-- What is free only shrinks, so that where there was not too much there is not now.
not_idle_mono :
    (n : ℕ) (q : Level) (f g : ℕ) → g ≤ f → is_idle n q f ≡ false → is_idle n q g ≡ false
unfolding is_idle
not_idle_mono n q f g h e = ground arith

rank-le : (q : Level) → rank q ≤ 5
rank-le q_init = omega arith
rank-le q00 = omega arith
rank-le q25 = omega arith
rank-le q50 = omega arith
rank-le q75 = omega arith
rank-le q100 = omega arith

module _ (size : ℕ) (s : Lists) (n : ℕ) where
  -- `add` ends in a list for which the chunk is right.
  add-lands :
      (left : ℕ) (p : Level)
      → 6 ≤ left + rank p
      → is_idle size p (s.chunks n).free_bytes ≡ false
      → (r : Level) × (add size left p n s ≡ some (add0 r n s))
        × IsBetween size r (s.chunks n).free_bytes
  unfolding add
  add-lands zero p h f = absurd (omega (arith, h, rank-le p))
  add-lands (suc left) p h f = elim (Bool-cases (is_full size p (s.chunks n).free_bytes)) [
    | inr t ↦ (p, rw (add, t) refl, record { not_idle = f; not_full = t })
    | inl t ↦ elim (Option-cases (next_list p)) [
      | inl e ↦ absurd (let g = last_not_full size p (s.chunks n).free_bytes e in cc)
      | inr (r, e) ↦
          let (k, m, b) =
            add-lands left r (omega (arith, h, next-rank p r e))
              (full_step size p r (s.chunks n).free_bytes t e) in
          (k, rw (add, t, e) m, b)
    ]
  ]

-- In lists that place every chunk, a chunk of one of them has given away some bytes: the recursion
-- ends, no list is missing, and the chunk is afterwards in exactly one list, the one its free
-- bytes lie in the bounds of. Every other chunk stays in its list.
pub promote-places :
    (size : ℕ) (home : ℕ → Option Level) (s : Lists) (n : ℕ) (q : Level) (d : Chunk)
    → IsPlaced size home s
    → home n ≡ some q
    → d.free_bytes ≤ (s.chunks n).free_bytes
    → let t = with_chunk size home s n d in
      (p : Level) × (u : Lists) × (promote size q n t ≡ some u)
      × IsPlaced size (update home n (some p)) u
      × (u.chunks ≡ t.chunks)
unfolding promote
promote-places size home s n q d v e less =
    let t = with_chunk size home s n d in
    let same : t.chunks n ≡ d = ground arith in
    let free_ : (t.chunks n).free_bytes ≤ (s.chunks n).free_bytes =
      omega (arith, ap (λ (k : Chunk). k.free_bytes) same, less) in
    let calm : is_idle size q (t.chunks n).free_bytes ≡ false =
      not_idle_mono size q (s.chunks n).free_bytes _ free_ ((v.between n q e).not_idle) in
    elim (Bool-cases (is_full size q (t.chunks n).free_bytes)) [
      | inr i ↦
          let b : IsBetween size q d.free_bytes =
            subst (λ k. IsBetween size q k.free_bytes) same
              (record { not_idle = calm; not_full = i }) in
          (
            q,
            t,
            rw (promote, i) refl,
            subst (λ h. IsPlaced size h t) (sym (update_same home n (some q) e))
                (kept size home s n q d v e b),
            refl,
          )
      | inl i ↦
          let r = remove q n t in
          elim (Option-cases (next_list q)) [
            | inl f ↦ absurd (let g = last_not_full size q (t.chunks n).free_bytes f in cc)
            | inr (p, f) ↦
                let (k, m, b) =
                  add-lands size r n 6 p (omega arith)
                    (full_step size q p (t.chunks n).free_bytes i f) in
                (
                  k,
                  add0 k n r,
                  rw (promote, i, f) m,
                  subst (λ h. IsPlaced size h (add0 k n r)) (update-update home n none (some k))
                      (added size (update home n none) r n k (removed size home s n q d v e)
                        (ground arith) b),
                  refl,
                )
          ]
    ]
