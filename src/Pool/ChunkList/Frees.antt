-- ===== src/Pool/ChunkList/Frees.antt =====
-- Giving a run back to its chunk and the chunk to its list (free).
use duo_duo.Base.{
  ℕ, ◌^◌, ◌≤◌, ◌<◌, ◌≡◌, ◌⊎◌, inl, inr, refl, ap, ◌∙◌, sym, true, false, ◌∷◌, ◌++◌, Option, none,
  some, arith,
}
use native.Mathlib.Nat.{mul-le-mul_right}
use duo_duo.Pool.Handle.{is_subpage}
use duo_duo.Pool.Subpage.{Pool}
use duo_duo.Pool.Chunk
use duo_duo.Pool.Chunk.{ArenaSizes, Chunk, update}
use duo_duo.Pool.Chunk.Layout.{Layout, used, pages, free-le-pages}
use duo_duo.Pool.Chunk.Split.{IsValid}
use duo_duo.Pool.Chunk.Collapse.{Spans}
use duo_duo.Pool.Chunk.FreeRun.{Freed, free_run-returns}
use duo_duo.Pool.ChunkList.{Level, Lists, free}
use duo_duo.Pool.ChunkList.Thresholds.{IsSized}
use duo_duo.Pool.ChunkList.Placed.{IsPlaced, with_chunk}
use duo_duo.Pool.ChunkList.Moves.{keeps, drops, settle-places}

free-within :
    (sizes : ArenaSizes) (L : Layout) (c : Chunk) → IsValid sizes L c → c.free_bytes ≤ c.chunk_size
free-within sizes L c v =
    omega (arith, v.bytes, v.whole, mul-le-mul_right (2 ^ c.page_shifts) (free-le-pages L))

-- A run of a valid chunk in placed lists is given back. Nothing fails. The chunk has the run as an
-- available one, joined with those beside it. Then it is in exactly one list, whose bounds its
-- free bytes lie in; or all of it is free, it is in no list, and the answer says that it goes.
pub free-places :
    (size : ℕ) (sizes : ArenaSizes) (home : ℕ → Option Level) (s : Lists) (heads : ℕ → Pool) (n : ℕ)
    (q : Level) (B : Layout) (m : ℕ) (A : Layout) (h norm_capacity : ℕ) (buffer : Option ℕ)
    → IsPlaced size home s
    → home n ≡ some q
    → 0 < size
    → (s.chunks n).chunk_size ≡ size
    → IsValid sizes (B ++ used m ∷ A) (s.chunks n)
    → Spans h (pages B) m
    → is_subpage h ≡ false
    → (F : Freed sizes B m A h buffer (s.chunks n)) × (((p : Level) × (t : Lists) × (free size sizes
              q n h norm_capacity buffer s heads
            ≡ some (true, t, heads))
          × IsPlaced size (update home n (some p)) t
          × (t.chunks ≡ update s.chunks n F.given))
        ⊎ ((t : Lists) × (free size sizes q n h norm_capacity buffer s heads
              ≡ some (false, t, heads))
            × IsPlaced size (update home n none) t
            × (F.given.free_bytes ≡ size)))
unfolding free Chunk.free
free-places size sizes home s heads n q B m A h norm_capacity buffer v e pos same w span run =
    let F = free_run-returns sizes B A m h buffer (s.chunks n) w span in
    let sized : IsSized size F.given = record {
      size = F.size ∙ same;
      positive = pos;
      limit = omega (arith, same, w.limit);
      within = omega (arith, free-within sizes _ F.given F.valid, F.size, same);
    } in
    let t = with_chunk size home s n F.given in
    (
      F,
      elim (settle-places size home s n q F.given v e sized (omega (arith, F.more))) [
        | keeps p u eq placed chunks ↦
            inl (p, u, rw (run, free, Chunk.free, F.result, eq) refl, placed, chunks)
        | drops u eq all placed chunks ↦ inr (
          u,
          rw (run, free, Chunk.free, F.result, eq) refl,
          placed,
          (let k : t.chunks n ≡ F.given = ground arith in
              sym (ap (λ (c : Chunk). c.free_bytes) k) ∙ all),
        )
      ],
    )
