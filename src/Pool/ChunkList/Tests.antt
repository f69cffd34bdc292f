-- ===== src/Pool/ChunkList/Tests.antt =====
-- The theorems on the lists of chunks at concrete inputs.
use duo_duo.Base.{
  ℕ, ◌*◌, ◌^◌, ◌≡◌, ◌⊎◌, refl, subst, true, false, [], ◌∷◌, Option, none, some, ◌==◌, if◌then◌else◌,
  arith,
}
use duo_duo.Pool.Handle.{to_run_handle}
use duo_duo.Pool.Handle.Fields.{to_run_handle-fields}
use duo_duo.Pool.Chunk.{Chunk, update}
use duo_duo.Pool.Chunk.Layout.{used, pages}
use duo_duo.Pool.Chunk.Layout
use duo_duo.Pool.Chunk.FreeRun.{Freed}
use duo_duo.Pool.Chunk.Tests.{rest, by_pages, part, part-IsValid, front-Spans}
use duo_duo.Pool.ChunkList.{Level, q50, same, Lists, free, promote, is_idle, is_full}
use duo_duo.Pool.ChunkList.Thresholds.{IsBetween}
use duo_duo.Pool.ChunkList.Placed.{IsPlaced, with_chunk}
use duo_duo.Pool.ChunkList.Frees.{free-places}
use duo_duo.Pool.ChunkList.Allocates.{promote-places}

-- One chunk, of which two pages of five are free, in the list for a half.
abbrev home : ℕ → Option Level
home n = if n == 0 then some q50 else none

abbrev alone : Lists
alone = record {
  lists = λ q. if same q q50 then 0 ∷ [] else [];
  parent = λ n. q50;
  chunks = λ n. part;
}

alone-IsPlaced : IsPlaced 40960 home alone
unfolding is_idle is_full
alone-IsPlaced = record {
  once = λ q m. ground arith;
  told = λ m q h. ground arith;
  between = λ m q h.
      subst (λ k. IsBetween 40960 k (2 * 2 ^ 13)) (let e : q50 ≡ q = ground arith in e)
        (record { not_idle = refl; not_full = refl });
}

free-places_example :
    (F : Freed by_pages [] 3 (Layout.free 2 rest ∷ []) (to_run_handle 0 3 1) none part)
    × (((p : Level) × (t : Lists) × (free 40960 by_pages q50 0
              (to_run_handle 0 3 1)
              24576
              none
              alone
              (λ i. [])
            ≡ some (true, t, λ i. []))
          × IsPlaced 40960 (update home 0 (some p)) t
          × (t.chunks ≡ update alone.chunks 0 F.given))
        ⊎ ((t : Lists) × (free 40960 by_pages q50 0 (to_run_handle 0 3 1) 24576 none alone (λ i. [])
              ≡ some (false, t, λ i. []))
            × IsPlaced 40960 (update home 0 none) t
            × (F.given.free_bytes ≡ 40960)))
unfolding pages
free-places_example =
    free-places 40960 by_pages home alone (λ i. []) 0 q50 [] 3 (Layout.free 2 rest ∷ [])
      (to_run_handle 0 3 1) 24576 none alone-IsPlaced refl (omega arith) refl part-IsValid
      front-Spans ((to_run_handle-fields 0 3 1 (omega arith) (omega arith) (omega arith)).3)

abbrev spent : Chunk
spent = record part { free_bytes = 0 }

promote-places_example :
    let t = with_chunk 40960 home alone 0 spent in
    (p : Level) × (u : Lists) × (promote 40960 q50 0 t ≡ some u)
    × IsPlaced 40960 (update home 0 (some p)) u
    × (u.chunks ≡ t.chunks)
promote-places_example =
    promote-places 40960 home alone 0 q50 spent alone-IsPlaced refl (omega arith)
