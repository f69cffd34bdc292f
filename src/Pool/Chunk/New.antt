-- ===== src/Pool/Chunk/New.antt =====
-- A new chunk, all of whose pages are one available run.
use duo_duo.Base.{
  ℕ, ◌+◌, ◌*◌, ◌/◌, ◌%◌, ◌^◌, ◌<◌, ◌≡◌, refl, ap, ◌∙◌, sym, subst, [], ◌∷◌, none, ◌==◌, arith,
}
use duo_duo.Base.Pow.{two_pow_pos}
use duo_duo.Pool.Handle.{calculate_run_offset}
use duo_duo.Pool.Handle.Fields.{calculate_run_pages-eq, is_used-eq, is_subpage-eq}
use duo_duo.Pool.Chunk.{ArenaSizes, Chunk, insert_avail_run, new_chunk}
use duo_duo.Pool.Chunk.Layout.{used, free, pages, free_pages, Names, IsTiled, IsMerged, edge, filed}
use duo_duo.Pool.Chunk.Laid.{IsLaid, insert-IsLaid}
use duo_duo.Pool.Chunk.Split.{IsValid}
use duo_duo.Pool.Chunk.Carve.{insert_avail_run-IsKept}
use native.Mathlib.Nat.{mul-div_cancel}

initial_handle-Names : (n : ℕ) → n < 2 ^ 14 → Names (n * 2 ^ 34) 0 n
unfolding calculate_run_offset
initial_handle-Names n small = record {
  offset = omega arith;
  pages = omega (arith, calculate_run_pages-eq (n * 2 ^ 34));
  unused =
      is_used-eq (n * 2 ^ 34)
      ∙ ap (λ b. b == 1) (let e : n * 2 ^ 34 / 2 ^ 33 % 2 ≡ 0 = omega arith in e);
  whole =
      is_subpage-eq (n * 2 ^ 34)
      ∙ ap (λ b. b == 1) (let e : n * 2 ^ 34 / 2 ^ 32 % 2 ≡ 0 = omega arith in e);
  positive = omega arith;
}

-- A new chunk of less than 2 ^ 14 pages and 2 ^ 31 bytes is valid: one available run is all.
pub new_chunk-IsValid :
    (sizes : ArenaSizes) (page_size page_shifts n offset : ℕ)
    → 0 < n
    → n < 2 ^ 14
    → n * 2 ^ page_shifts < 2 ^ 31
    → IsValid sizes
        (free n (n * 2 ^ 34) ∷ [])
        (new_chunk sizes page_size page_shifts (n * 2 ^ page_shifts) offset)
unfolding new_chunk IsTiled IsMerged pages free_pages edge filed
new_chunk-IsValid sizes page_size page_shifts n offset pos small limit =
    let P = 2 ^ page_shifts in
    let blank : Chunk = record {
      page_size = page_size;
      page_shifts = page_shifts;
      chunk_size = n * P;
      offset = offset;
      free_bytes = n * P;
      runs_avail = λ i. [];
      runs_avail_map = λ k. none;
      subpages = λ k. none;
      cached_buffers = [];
    } in
    let whole : n * P / P ≡ n = mul-div_cancel n (two_pow_pos page_shifts) in
    let laid : IsLaid sizes (used n ∷ []) blank = record {
      tiled = (pos, tt);
      edges = λ k. ground arith;
      queues = λ i h. refl;
    } in
    let got = insert-IsLaid sizes [] n (n * 2 ^ 34) [] blank laid (initial_handle-Names n small) in
    let (k, b) = insert_avail_run-IsKept sizes 0 n (n * 2 ^ 34) blank in
    let same : insert_avail_run sizes 0 n (n * 2 ^ 34) blank
        ≡ new_chunk sizes page_size page_shifts (n * P) offset =
      ap (λ m. insert_avail_run sizes 0 m (m * 2 ^ 34) blank) (sym whole) in
    subst (IsValid sizes (free n (n * 2 ^ 34) ∷ [])) same (record {
      laid = got;
      merged = (refl, tt);
      bytes = omega (
        arith,
        b,
        ap (λ s. (n + 0) * 2 ^ s) k.shifts,
        ap (λ m. m * P) (let z : n + 0 ≡ n = omega arith in z),
      );
      whole = omega (
        arith,
        k.chunk,
        ap (λ s. (n + 0) * 2 ^ s) k.shifts,
        ap (λ m. m * P) (let z : n + 0 ≡ n = omega arith in z),
      );
      small = omega arith;
      limit = omega (arith, k.chunk);
    })
