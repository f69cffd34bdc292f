-- ===== src/Pool/ChunkList/Moves.antt =====
-- Giving a run back moves a chunk towards the lists of chunks that are less in use (free, move).
use duo_duo.Base.{
  ℕ, zero, suc, ◌≤◌, ◌<◌, ◌≡◌, ◌⊎◌, inl, inr, refl, ap, ◌∙◌, sym, subst, true, false, Option, none,
  some, arith, Bool-cases, Option-cases,
}
use duo_duo.Pool.Chunk.{Chunk, update}
use duo_duo.Pool.ChunkList.{
  Level, q_init, q00, q25, q50, q75, q100, rank, prev_list, is_full, is_idle, Lists, add0, remove,
  move, move0, settle,
}
use duo_duo.Pool.ChunkList.Thresholds.{IsBetween, IsSized, Fits, idle_step, idle_last}
use duo_duo.Pool.ChunkList.Placed.{
  IsPlaced, with_chunk, removed, added, kept, update-update, update_same,
}

rank-lt : (q : Level) → rank q < 6
rank-lt q_init = omega arith
rank-lt q00 = omega arith
rank-lt q25 = omega arith
rank-lt q50 = omega arith
rank-lt q75 = omega arith
rank-lt q100 = omega arith

-- What is free only grows, so that a list that was not full is not full now.
not_full_mono :
    (n : ℕ) (q : Level) (f g : ℕ) → f ≤ g → is_full n q f ≡ false → is_full n q g ≡ false
unfolding is_full
not_full_mono n q_init f g h e = ground arith
not_full_mono n q00 f g h e = ground arith
not_full_mono n q25 f g h e = ground arith
not_full_mono n q50 f g h e = ground arith
not_full_mono n q75 f g h e = ground arith
not_full_mono n q100 f g h e = refl

module _ (size : ℕ) (s : Lists) (n : ℕ) (sized : IsSized size (s.chunks n)) where
  -- `move` ends: in a list for which the chunk is right, or with a chunk that is all free.
  lands :
      (left : ℕ) (q p : Level)
      → rank p < left
      → Fits size (s.chunks n) q p
      → ((r : Level) × (move size left p n s ≡ some (true, add0 r n s))
          × IsBetween size r (s.chunks n).free_bytes)
        ⊎ ((move size left p n s ≡ some (false, s)) × ((s.chunks n).free_bytes ≡ size))
  unfolding move
  lands zero q p h f = absurd (omega arith)
  lands (suc left) q p h (full, used, _) =
      elim (Bool-cases (is_idle size p (s.chunks n).free_bytes)) [
        | inr t ↦ inl (p, rw (move, used, t) refl, record { not_idle = t; not_full = full })
        | inl t ↦ elim (Option-cases (prev_list p)) [
          | inl e ↦
              let (z, all) = idle_last size p (s.chunks n) sized t e in
              inr (rw (move, used, t, e, z) refl, all)
          | inr (r, e) ↦
              let fits = idle_step size p r (s.chunks n) sized t e in
              elim (lands left p r (omega (arith, fits.2, h)) fits) [
                | inl (k, m, b) ↦ inl (k, rw (move, used, t, e) m, b)
                | inr (m, all) ↦ inr (rw (move, used, t, e) m, all)
              ]
        ]
      ]

-- The chunk is in one list again, or it is free and in none.
pub data Settled (size : ℕ) (home : ℕ → Option Level) (q : Level) (n : ℕ) (s : Lists) : Type 0 where
  keeps :
      (p : Level) (t : Lists)
      → settle size q n s ≡ some (true, t)
      → IsPlaced size (update home n (some p)) t
      → t.chunks ≡ s.chunks
      → Settled size home q n s
  drops :
      (t : Lists)
      → settle size q n s ≡ some (false, t)
      → (s.chunks n).free_bytes ≡ size
      → IsPlaced size (update home n none) t
      → t.chunks ≡ s.chunks
      → Settled size home q n s

-- In lists that place every chunk, a chunk of one of them has got back some bytes: no assertion
-- fails and the recursion ends. Either the chunk is afterwards in exactly one list, the one its
-- free bytes lie in the bounds of, or it is all free, stands in no list and is to be destroyed.
-- Every other chunk stays in its list.
pub settle-places :
    (size : ℕ) (home : ℕ → Option Level) (s : Lists) (n : ℕ) (q : Level) (d : Chunk)
    → IsPlaced size home s
    → home n ≡ some q
    → IsSized size d
    → (s.chunks n).free_bytes ≤ d.free_bytes
    → Settled size home q n (with_chunk size home s n d)
unfolding settle
settle-places size home s n q d v e sized more =
    let t = with_chunk size home s n d in
    let same : t.chunks n ≡ d = ground arith in
    let sized' : IsSized size (t.chunks n) = subst (IsSized size) (sym same) sized in
    elim (Bool-cases (is_idle size q (t.chunks n).free_bytes)) [
      | inr i ↦
          let b : IsBetween size q d.free_bytes = record {
            not_idle = ap (λ k. is_idle size q k.free_bytes) (sym same) ∙ i;
            not_full =
                not_full_mono size q (s.chunks n).free_bytes d.free_bytes more
                  ((v.between n q e).not_full);
          } in
          keeps q t (rw (settle, i) refl)
            (subst (λ h. IsPlaced size h t) (sym (update_same home n (some q) e))
              (kept size home s n q d v e b))
            refl
      | inl i ↦
          let r = remove q n t in
          let gone = removed size home s n q d v e in
          let back : (p : Level)
              → IsBetween size p (r.chunks n).free_bytes
              → IsPlaced size (update home n (some p)) (add0 p n r) =
            λ p b.
              subst (λ h. IsPlaced size h (add0 p n r)) (update-update home n none (some p))
                (added size (update home n none) r n p gone (ground arith) b) in
          elim (Option-cases (prev_list q)) [
            | inl f ↦
                let (z, all) = idle_last size q (t.chunks n) sized' i f in
                drops r (rw (settle, i, move0, f, z) refl) all gone refl
            | inr (p, f) ↦
                let fits = idle_step size q p (t.chunks n) sized' i f in
                elim (lands size r n sized' 6 q p (omega (arith, fits.2, rank-lt q)) fits) [
                  | inl (k, m, b) ↦
                      keeps k (add0 k n r) (rw (settle, i, move0, f) m) (back k b) refl
                  | inr (m, all) ↦ drops r (rw (settle, i, move0, f) m) all gone refl
                ]
          ]
    ]
