-- ===== src/Pool/Chunk/RunSize.antt =====
-- The size of the run that is cut into the elements of a size (calculateRunSize).
use duo_duo.Base.{
  ℕ, ◌*◌, ◌/◌, ◌≤◌, ◌<◌, ◌≡◌, ◌∙◌, refl, ap, Bool, true, false, ◌&&◌, Option, none, some, ltb, leb,
  ◌==◌, arith, all_below, all_below_sound,
}
use duo_duo.Pool.SizeClass.{pooled}
use duo_duo.Pool.SizeClass.{size_idx2size}
use duo_duo.Pool.Chunk.{Chunk, widen, narrow, subpage_run_size}
use duo_duo.Pool.Chunk.Pooled.{pooled_sizes}

-- Whole pages, exactly full of elements, of which there are no more than a bitmap has bits for.
abbrev exact : ℕ → ℕ → Bool
exact r e =
    (r / 8192 * 8192 == r) && (r / e * e == r) && leb (r / e) 512 && leb r 16777216 && ltb 0 r

abbrev good : Option ℕ → ℕ → Bool
good none e = false
good (some r) e = exact r e

abbrev at : Chunk → ℕ → ℕ → ℕ → Chunk
at c p s n = record c { page_size = p; page_shifts = s; chunk_size = n }

-- The lookup sees of a chunk only its sizes.
run_size_table :
    (c : Chunk)
    → all_below 39 (λ i.
      good (subpage_run_size pooled_sizes i (at c 8192 13 16777216)) (size_idx2size pooled i))
      ≡ true
unfolding pooled pooled_sizes size_idx2size subpage_run_size widen narrow all_below
run_size_table c = refl

good-parts :
    (o : Option ℕ) (e : ℕ)
    → good o e ≡ true
    → (r : ℕ) × (o ≡ some r)
      × (r / 8192 * 8192 ≡ r)
      × (r / e * e ≡ r)
      × (r / e ≤ 512)
      × (r ≤ 16777216)
      × (0 < r)
good-parts none e h = absurd (cc)
good-parts (some r) e h = (
  r,
  refl,
  ground (arith, h),
  ground (arith, h),
  ground (arith, h),
  ground (arith, h),
  ground (arith, h),
)

-- In a chunk of 16 MiB and pages of 8 KiB, each size of a subpage gets a run: both loops end, it
-- is made of whole pages of the chunk, elements fill it exactly, and there are at most 512.
pub subpage_run_size-exact :
    (c : Chunk) (i : ℕ)
    → c.page_size ≡ 8192
    → c.page_shifts ≡ 13
    → c.chunk_size ≡ 16777216
    → i < 39
    → let e = size_idx2size pooled i in
      (r : ℕ) × (subpage_run_size pooled_sizes i c ≡ some r)
      × (r / 8192 * 8192 ≡ r)
      × (r / e * e ≡ r)
      × (r / e ≤ 512)
      × (r ≤ 16777216)
      × (0 < r)
subpage_run_size-exact c i p s n h =
    let same : subpage_run_size pooled_sizes i c
        ≡ subpage_run_size pooled_sizes i (at c 8192 13 16777216) =
      ap (λ k. subpage_run_size pooled_sizes i (at c k c.page_shifts c.chunk_size)) p
      ∙ ap (λ k. subpage_run_size pooled_sizes i (at c 8192 k c.chunk_size)) s
      ∙ ap (λ k. subpage_run_size pooled_sizes i (at c 8192 13 k)) n in
    good-parts (subpage_run_size pooled_sizes i c) (size_idx2size pooled i)
      (ap (λ o. good o (size_idx2size pooled i)) same ∙ all_below_sound 39 _ i (run_size_table c) h)
