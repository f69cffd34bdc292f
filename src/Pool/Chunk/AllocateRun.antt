-- ===== src/Pool/Chunk/AllocateRun.antt =====
-- Finding and allocating a run of pages (runBestFit, allocateRun).
use duo_duo.Base.{
  ℕ, zero, suc, ◌+◌, ◌-◌, ◌*◌, ◌^◌, ◌/◌, ◌≤◌, ◌<◌, ◌≡◌, ◌⊎◌, inl, inr, refl, ap, ◌∙◌, sym, subst,
  Bool, true, false, [], ◌∷◌, ◌++◌, none, some, ◌==◌, arith, Bool-cases, append_assoc, dec_lt,
}
use duo_duo.Base.Pow.{two_pow_pos}
use duo_duo.Pool.BestFitQueue.{empty, top, pop, remove}
use duo_duo.Pool.BestFitQueue.Count.{top-count, empty-count}
use duo_duo.Pool.Chunk.{ArenaSizes, Chunk, first_filled, run_best_fit, take_run, allocate_run}
use duo_duo.Pool.Chunk.Layout.{
  used, free, Layout, pages, free_pages, free-le-pages, IsTiled, IsMerged, filed, filed-append,
  filed-found, pages-append,
}
use duo_duo.Pool.Chunk.Laid.{middle_Names}
use duo_duo.Pool.Chunk.Split.{IsValid, IsPaged}
use duo_duo.Pool.Chunk.Carve.{IsKept, carve, IsTaken}
use duo_duo.Pool.Chunk.TakeRun.{take-takes}
use native.Mathlib.Nat.{eq_of_mul-eq-mul_right, mul-div_cancel}

first_filled-cases :
    (left i : ℕ) (c : Chunk)
    → ((j : ℕ) → i ≤ j → j < i + left → empty (c.runs_avail j) ≡ true)
        × (first_filled left i c ≡ none)
      ⊎ ((j : ℕ) × (first_filled left i c ≡ some j) × (i ≤ j) × (empty (c.runs_avail j) ≡ false))
first_filled-cases zero i c = inl ((λ j a b. absurd (omega arith)), refl)
first_filled-cases (suc left) i c = elim (Bool-cases (empty (c.runs_avail i))) [
  | inr t ↦ inr (i, rw t refl, omega arith, t)
  | inl t ↦ elim (first_filled-cases left (suc i) c) [
    | inl (f, e) ↦ inl (
      (λ j a b. elim (dec_lt i j) [
        | yes p ↦ f j (omega arith) (omega arith)
        | no p ↦ let same : i ≡ j = omega arith in subst (λ k. empty (c.runs_avail k) ≡ true) same t
      ]),
      rw t e,
    )
    | inr (j, e, a, b) ↦ inr (j, rw t e, omega arith, b)
  ]
]

-- If all pages are available they are one run.
all_free :
    (o : ℕ) (b : Bool) (L : Layout)
    → IsTiled o L
    → IsMerged b L
    → free_pages L ≡ pages L
    → (L ≡ []) ⊎ ((b ≡ false) × (n : ℕ) × (h : ℕ) × (L ≡ free n h ∷ []))
unfolding IsTiled IsMerged free_pages pages
all_free o b [] t m e = inl refl
all_free o b (used n ∷ L) (p, t) m e = absurd (omega (arith, free-le-pages L, p))
all_free o b (free n h ∷ L) (p, q, t) (f, m) e = elim (all_free (o + n) true L t m (omega arith)) [
  | inl z ↦ inr (f, n, h, ap (λ K. free n h ∷ K) z)
  | inr (w, _, _, _) ↦ absurd (cc)
]

-- No available run is of a class that serves a request of that class.
unfoldable pub IsShort : (ℕ → ℕ) → ℕ → Layout → Type 0
IsShort class_ i [] = Unit {0}
IsShort class_ i (used n ∷ L) = IsShort class_ i L
IsShort class_ i (free n h ∷ L) = (class_ n < i) × IsShort class_ i L

only_run : (B A : Layout) (n h m g : ℕ) → B ++ free n h ∷ A ≡ free m g ∷ [] → n ≡ m
only_run [] A n h m g e = ground arith
only_run (r ∷ []) A n h m g e = absurd (cc)
only_run (r ∷ s ∷ B) A n h m g e = absurd (cc)

-- An allocated run: the layout with an available run that is long enough, the handle, and the
-- chunk that is left, where that run is carved and all else as before.
pub record Allocated (sizes : ArenaSizes) (L : Layout) (c : Chunk) (need run_size : ℕ)
    : Type 0 where
  pub before : Layout
  pub length_ : ℕ
  pub taken : ℕ
  pub after : Layout
  pub found : L ≡ before ++ free length_ taken ∷ after
  pub fits : need ≤ length_
  pub handle : ℕ
  pub left : Chunk
  pub result : allocate_run sizes run_size c ≡ some (some handle, left)
  pub valid : IsValid sizes (before ++ carve (pages before) need length_ after) left
  pub names : IsTaken handle (pages before) need
  pub kept : IsKept c left

module _ (sizes : ArenaSizes) (L : Layout) (c : Chunk) (need : ℕ) (paged : IsPaged sizes (pages L))
    (v : IsValid sizes L c) (pos : 0 < need) (fits : need ≤ pages L) where
  -- A run in a queue, at the front of it.
  front :
      (i : ℕ)
      → empty (c.runs_avail i) ≡ false
      → (B : Layout) × (n : ℕ) × (h : ℕ) × (A : Layout) × (L ≡ B ++ free n h ∷ A)
        × (sizes.page2page_idx_floor n ≡ i)
        × (top (c.runs_avail i) ≡ some h)
        × (pop (c.runs_avail i) ≡ remove h (c.runs_avail i))
  front i e =
      let (h, t, p, q) = top-count (c.runs_avail i) e in
      let (B, n, A, s, f) =
        filed-found sizes.page2page_idx_floor L i h (omega (arith, v.laid.queues i h, q)) in
      (B, n, h, A, s, f, t, p)

  -- The search ends at a queue with a run that is large enough, or there is no class left.
  short :
      (B M : Layout)
      → L ≡ B ++ M
      → ((j : ℕ)
          → sizes.page2page_idx need ≤ j
          → j < sizes.page2page_idx need + (sizes.n_p_sizes - sizes.page2page_idx need)
          → empty (c.runs_avail j) ≡ true)
      → IsShort sizes.page2page_idx_floor (sizes.page2page_idx need) M
  unfolding IsShort filed pages
  short B [] e f = tt
  short B (used n ∷ M) e f = short (B ++ used n ∷ []) M (e ∙ sym (append_assoc B (used n ∷ []) M)) f
  short B (free n h ∷ M) e f = (
    elim (dec_lt (sizes.page2page_idx_floor n) (sizes.page2page_idx need)) [
      | yes p ↦ p
      | no p ↦
          let i = sizes.page2page_idx_floor n in
          let (np, _) = middle_Names B n h M (subst (IsTiled 0) e v.laid.tiled) in
          let small : n ≤ pages L = omega (arith, ap pages e, pages-append B (free n h ∷ M)) in
          let one : 0 < filed sizes.page2page_idx_floor (B ++ free n h ∷ M) i h =
            ground (arith, filed-append sizes.page2page_idx_floor B (free n h ∷ M) i h) in
          let none_ =
            empty-count (c.runs_avail i)
              (f i (omega arith) (omega (arith, paged.some_class n np small))) h in
          absurd (
            omega (
              arith,
              none_,
              one,
              v.laid.queues i h,
              ap (λ K. filed sizes.page2page_idx_floor K i h) e,
            ))
    ],
    short (B ++ free n h ∷ []) M (e ∙ sym (append_assoc B (free n h ∷ []) M)) f,
  )

  -- A queue that the search ends at.
  taking :
      (i : ℕ)
      → run_best_fit sizes (sizes.page2page_idx need) c ≡ some i
      → empty (c.runs_avail i) ≡ false
      → ((B A : Layout) (n h : ℕ)
          → L ≡ B ++ free n h ∷ A
          → sizes.page2page_idx_floor n ≡ i
          → need ≤ n)
      → Allocated sizes L c need (need * 2 ^ c.page_shifts)
  unfolding allocate_run
  taking i e q large =
      let (B, n, h, A, s, f, t, p) = front i q in
      let fit = large B A n h s f in
      let same : c.runs_avail i ≡ c.runs_avail (sizes.page2page_idx_floor n) =
        ap c.runs_avail (sym f) in
      let (g, d, r, w, k, u) =
        take-takes sizes B A n h need c pos fit (subst (λ K. IsValid sizes K c) s v)
          (ap top (sym same) ∙ t) (ap pop (sym same) ∙ p ∙ ap (remove h) same) in
      let whole : need * 2 ^ c.page_shifts / 2 ^ c.page_shifts ≡ need =
        mul-div_cancel need (two_pow_pos c.page_shifts) in
      let r' : take_run sizes need i c ≡ some (g, d) =
        subst (λ j. take_run sizes need j c ≡ some (g, d)) f r in
      record {
        before = B;
        length_ = n;
        taken = h;
        after = A;
        found = s;
        fits = fit;
        handle = g;
        left = d;
        result = rw (whole, allocate_run, e, whole, r') refl;
        valid = w;
        names = k;
        kept = u;
      }

  -- From a valid chunk, a request for pages either gets a run: the first part of an available run
  -- that is long enough, its handle has the run's offset and pages and is in use, what is left of
  -- the run is available and the chunk valid. Or it gets -1, the chunk is as before, and no
  -- available run has a page class as large as that of the request. No assertion fails.
  pub allocate_run-takes :
      Allocated sizes L c need (need * 2 ^ c.page_shifts)
      ⊎ ((allocate_run sizes (need * 2 ^ c.page_shifts) c ≡ some (none, c))
          × IsShort sizes.page2page_idx_floor (sizes.page2page_idx need) L)
  unfolding allocate_run run_best_fit pages filed
  allocate_run-takes = elim (Bool-cases (c.free_bytes == c.chunk_size)) [
    | inl t ↦
        let equal : free_pages L ≡ pages L =
          eq_of_mul-eq-mul_right (2 ^ c.page_shifts) (two_pow_pos c.page_shifts) (free_pages L)
            (pages L) (sym v.bytes ∙ ground (arith, t) ∙ v.whole) in
        elim (all_free 0 false L v.laid.tiled v.merged equal) [
          | inl z ↦ absurd (omega (arith, ap pages z))
          | inr (_, n, h, e) ↦
              let i = sizes.n_p_sizes - 1 in
              let all : pages L ≡ n = omega (arith, ap pages e) in
              let class_ : sizes.page2page_idx_floor n ≡ i =
                ap sizes.page2page_idx_floor (sym all) ∙ paged.last_class in
              let one : filed sizes.page2page_idx_floor L i h ≡ 1 = rw e (ground (arith, class_)) in
              inl (
                taking i (rw (run_best_fit, t) refl)
                  (elim (Bool-cases (empty (c.runs_avail i))) [
                    | inl q ↦
                        absurd
                          (omega (arith, v.laid.queues i h, empty-count (c.runs_avail i) q h, one))
                    | inr q ↦ q
                  ])
                  (λ B A m g s f. omega (arith, only_run B A m g n h (sym s ∙ e), all)))
        ]
    | inr t ↦
        elim (first_filled-cases (sizes.n_p_sizes - sizes.page2page_idx need)
          (sizes.page2page_idx need) c) [
            | inl (f, e) ↦
                let whole : need * 2 ^ c.page_shifts / 2 ^ c.page_shifts ≡ need =
                  mul-div_cancel need (two_pow_pos c.page_shifts) in
                inr (rw (whole, allocate_run, run_best_fit, t, e) refl, short [] L refl f)
            | inr (i, e, le, q) ↦ inl (
                taking i (rw (run_best_fit, t, e) refl) q (λ B A m g s f.
                  let small : m ≤ pages L =
                    omega (arith, ap pages s, pages-append B (free m g ∷ A)) in
                  let (mp, _) = middle_Names B m g A (subst (IsTiled 0) s v.laid.tiled) in
                  paged.serves need m pos mp fits small (omega (arith, le, f))))
          ]
  ]
