-- ===== src/Pool/Chunk/Collapse.antt =====
-- The handle of a run that is given back, and the pages beside it.
pub mod Prev
pub mod Next
use duo_duo.Base.{
  ℕ, zero, suc, ◌+◌, ◌-◌, ◌*◌, ◌^◌, ◌/◌, ◌≤◌, ◌<◌, ◌≡◌, ◌⊎◌, inl, inr, refl, ap, ◌∙◌, sym, subst,
  Bool, true, false, not, ◌&&◌, List, [], ◌∷◌, ◌++◌, Option, none, some, ltb, ◌==◌, if◌then◌else◌,
  arith, Bool-cases, append_assoc,
}
use duo_duo.Pool.Handle.{to_run_handle, calculate_run_offset, calculate_run_pages}
use duo_duo.Pool.Handle.Fields.{to_run_handle-fields, to_run_handle-sum}
use duo_duo.Pool.Chunk.{
  ArenaSizes, Chunk, get_prev_run, get_avail_run_by_offset, remove_avail_run, collapse_prev,
  collapse_next,
}
use duo_duo.Pool.Chunk.Layout.{
  Run, used, free, Layout, size, pages, Names, IsTiled, IsMerged, ends_free, ends_free-last, edge,
  edge-middle, run_edge, IsTiled-split, IsMerged-split, ends_free-append, pages-append,
}
use duo_duo.Pool.Chunk.Laid.{IsLaid, middle_Names, remove-IsLaid}
use duo_duo.Pool.Chunk.Split.{join-IsLaid, remove_after-IsLaid}
use duo_duo.Pool.Chunk.Carve.{IsKept, remove_from-IsKept}

-- A handle with the offset and the pages of a run, whatever its flags.
pub record Spans (h o n : ℕ) : Type 0 where
  pub offset : calculate_run_offset h ≡ o
  pub pages : calculate_run_pages h ≡ n
  pub positive : h < 2 ^ 63

pub to_run_handle-Spans : (o n : ℕ) → o < 2 ^ 14 → n < 2 ^ 15 → Spans (to_run_handle o n 0) o n
to_run_handle-Spans o n ho hn =
    let (f, p, _, _) = to_run_handle-fields o n 0 ho hn (omega arith) in
    record {
      offset = f;
      pages = p;
      positive = omega (arith, to_run_handle-sum o n 0 ho hn (omega arith));
    }

pub Names-Spans : {h o n : ℕ} → Names h o n → Spans h o n
Names-Spans m = record { offset = m.offset; pages = m.pages; positive = m.positive }

-- The last page of a layout that ends with a run in use is in no entry.
pub edge-end :
    (o : ℕ) (b : Bool) (L : Layout) (k : ℕ)
    → suc k ≡ o + pages L
    → IsTiled o L
    → ends_free b L ≡ false
    → edge o L k ≡ none
unfolding edge pages IsTiled ends_free
edge-end o b [] k e t f = refl
edge-end o b (used n ∷ L) k e (p, t) f = elim (Bool-cases (ltb k (o + n))) [
  | inl q ↦ rw q refl
  | inr q ↦ rw q (edge-end (o + n) false L k (omega (arith, e)) t f)
]
edge-end o b (free n h ∷ []) k e t f = absurd (cc)
edge-end o b (free n h ∷ used m ∷ L) k e (p, q, (r, t)) f =
    let s : ltb k (o + n) ≡ false = ground (arith, e, r) in
    rw s (edge-end (o + n) true (used m ∷ L) k (omega (arith, e)) (r, t) f)
edge-end o b (free n h ∷ free m g ∷ L) k e (p, q, (r, v, t)) f =
    let s : ltb k (o + n) ≡ false = ground (arith, e, r) in
    rw s (edge-end (o + n) true (free m g ∷ L) k (omega (arith, e)) (r, v, t) f)

-- So is the first page of a layout that does not start with an available run.
pub edge-start : (o : ℕ) (L : Layout) → IsTiled o L → IsMerged true L → edge o L o ≡ none
unfolding edge IsTiled IsMerged
edge-start o [] t m = refl
edge-start o (used n ∷ L) (p, t) m = let q : ltb o (o + n) ≡ true = ground (arith, p) in rw q refl
edge-start o (free n h ∷ L) t (f, m) = absurd (cc)
