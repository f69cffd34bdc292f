-- ===== src/Pool/SizeClass/Fit.antt =====
-- The allocator's size classes fit every request: the theorems about buffer/SizeClass.cpp.
use duo_duo.Base.{
  ℕ, zero, suc, ◌+◌, ◌-◌, ◌*◌, ◌^◌, ◌≤◌, ◌<◌, ◌≡◌, refl, sym, ap, ◌∙◌, Bool, true, false, ◌&&◌,
  ◌||◌, Option, none, some, ltb, leb, ltb→lt, ◌⊎◌, inl, inr, and_left, and_right, ◌==◌, ==_iff,
  arith, dec_lt, all_below, all_below_sound,
}
use native.Mathlib.Nat.{le_refl, pow-le-pow_right}
use duo_duo.Pool.MathUtils.{log2, number_of_leading_zeros, narrow}
use duo_duo.Pool.SizeClass.Rows.{pooled}
use duo_duo.Pool.SizeClass.Lookup.{
  size2size_idx, size2size_idx_compute, size_idx2size, size_idx2size_compute, normalize_size,
  normalize_size_compute,
}
use duo_duo.Pool.SizeClass.Spread.{spread}
use duo_duo.Pool.SizeClass.Compute.{size2size_idx_compute-fits, normalize_size_compute-eq}
use duo_duo.Pool.SizeClass.Tables.{counts, sizes_table}

-- The table of sizes and the closed formula agree on every class of the allocator's object.
pub size_idx2size-compute : (i : ℕ) → i < 76 → size_idx2size pooled i ≡ size_idx2size_compute i
size_idx2size-compute i h = (==_iff _ _).0 (all_below_sound 76 _ i sizes_table h)

abbrev fits : ℕ → ℕ → Bool
fits size i =
    ltb i 76
    && leb size (size_idx2size pooled i)
    && ((i == 0) || ltb (size_idx2size pooled (i - 1)) size)

is_some_eq : Option ℕ → ℕ → Bool
is_some_eq none n = false
is_some_eq (some m) n = m == n

is_some_eq→eq : (o : Option ℕ) (n : ℕ) → is_some_eq o n ≡ true → o ≡ some n
unfolding is_some_eq
is_some_eq→eq none n h = cc
is_some_eq→eq (some m) n h = ap some ((==_iff m n).0 h)

abbrev small_case : ℕ → Bool
small_case n =
    fits (n + 1) (size2size_idx pooled (n + 1))
    && is_some_eq (normalize_size pooled (n + 1))
        (size_idx2size pooled (size2size_idx pooled (n + 1)))

small_table : all_below 4096 small_case ≡ true
unfolding pooled size_idx2size size2size_idx all_below is_some_eq normalize_size
    normalize_size_compute log2 number_of_leading_zeros narrow
small_table = refl

rising_table :
    all_below 75 (λ i. ltb (size_idx2size pooled i) (size_idx2size pooled (i + 1))) ≡ true
unfolding pooled size_idx2size all_below
rising_table = refl

size_idx2size-rising : (i : ℕ) → i < 75 → size_idx2size pooled i < size_idx2size pooled (i + 1)
size_idx2size-rising i h = ltb→lt _ _ (all_below_sound 75 _ i rising_table h)

size_idx2size_mono : (k i : ℕ) → i + k < 76 → size_idx2size pooled i ≤ size_idx2size pooled (i + k)
size_idx2size_mono zero i h = let e : i + 0 ≡ i = omega arith in rw e (le_refl _)
size_idx2size_mono (suc k) i h =
    let e : i + suc k ≡ i + k + 1 = omega arith in
    rw e (
      omega
        (arith, size_idx2size-rising (i + k) (omega arith), size_idx2size_mono k i (omega arith)))

-- A class fits a size: it exists, it has room, and the class below it has not.
abbrev Fits : ℕ → ℕ → Type 0
Fits size i =
    (i < 76) × (size ≤ size_idx2size pooled i) × ((i ≡ 0) ⊎ (size_idx2size pooled (i - 1) < size))

fits-Fits : (size i : ℕ) → fits size i ≡ true → Fits size i
fits-Fits size i h = ground (arith, h)

small-case : (size : ℕ) → 0 < size → size ≤ 4096 → small_case (size - 1) ≡ true
small-case size pos h = all_below_sound 4096 small_case (size - 1) small_table (omega arith)

large_idx :
    (size : ℕ)
    → 4096 < size
    → size ≤ 2 ^ 24
    → size2size_idx pooled size ≡ size2size_idx_compute size
unfolding size2size_idx
large_idx size lo hi =
    let (c0, c1, c2, c3, search, chunk) = counts in
    let z : (size == 0) ≡ false = ground arith in
    let c : ltb (2 ^ 24) size ≡ false = ground arith in
    let s : leb size 4096 ≡ false = ground arith in rw (z, chunk, c, search, s)

step_lower : (size d : ℕ) → 4096 < size → size ≤ 8 * 2 ^ d → 5 ≤ d
step_lower size d lo hi = elim (dec_lt d 5) [
  | yes l ↦
      let p : 2 ^ d ≤ 2 ^ 5 = pow-le-pow_right {n = 2} (omega arith) {j = 5} (omega arith) in
      absurd (omega arith)
  | no g ↦ omega arith
]

large-Fits : (size : ℕ) → 4096 < size → size ≤ 2 ^ 24 → Fits size (size2size_idx pooled size)
large-Fits size lo hi =
    let (d, s) = spread size (omega arith) hi in
    let i = size2size_idx_compute size in
    let (room, tight, top, bottom) = size2size_idx_compute-fits (step_lower size d lo s.high) s in
    let small : i < 76 = omega (arith, top, s.most) in
    rw (large_idx size lo hi) (
      small,
      rw (size_idx2size-compute i small) room,
      inr (rw (size_idx2size-compute (i - 1) (omega (arith, small))) tight),
    )

idx-Fits : (size : ℕ) → 0 < size → size ≤ 2 ^ 24 → Fits size (size2size_idx pooled size)
idx-Fits size pos hi = elim (dec_lt 4096 size) [
  | yes large ↦ large-Fits size large hi
  | no small ↦
      let e : size - 1 + 1 ≡ size = omega arith in
      fits-Fits size (size2size_idx pooled size)
        (and_left _ _ (rw e at (small-case size pos (omega arith))))
]

below-lt :
    (size i j : ℕ)
    → i < 76
    → j < i
    → (i ≡ 0) ⊎ (size_idx2size pooled (i - 1) < size)
    → size_idx2size pooled j < size
below-lt size i j small below (inl z) = absurd (omega arith)
below-lt size i j small below (inr t) =
    let e : j + (i - 1 - j) ≡ i - 1 = omega (arith, below) in
    let m = rw e at (size_idx2size_mono (i - 1 - j) j (omega (arith, below, small, e))) in
    omega (arith, m, t)

-- Every request up to a chunk gets the smallest class that holds it: the class has room, and
-- every class below is smaller than the request.
pub size2size_idx-fits :
    (size : ℕ)
    → 0 < size
    → size ≤ 2 ^ 24
    → let i = size2size_idx pooled size in
      (i < 76) × (size ≤ size_idx2size pooled i) × ((j : ℕ) → j < i → size_idx2size pooled j < size)
size2size_idx-fits size pos hi =
    let (small, room, tight) = idx-Fits size pos hi in
    (small, room, λ j below. below-lt size _ j small below tight)

large_normalize :
    (size : ℕ) → 4096 < size → normalize_size pooled size ≡ some (normalize_size_compute size)
unfolding normalize_size
large_normalize size lo =
    let (c0, c1, c2, c3, search, chunk) = counts in
    let z : (size == 0) ≡ false = ground arith in
    let l : leb size 4096 ≡ false = ground arith in rw (z, search, l)

-- `normalizeSize` never fails its assertion, and rounds a request up to the size of its class.
pub normalize_size-eq :
    (size : ℕ)
    → 0 < size
    → size ≤ 2 ^ 24
    → normalize_size pooled size ≡ some (size_idx2size pooled (size2size_idx pooled size))
normalize_size-eq size pos hi = elim (dec_lt 4096 size) [
  | yes large ↦
      let (d, s) = spread size (omega arith) hi in
      let i = size2size_idx_compute size in
      let (room, tight, top, bottom) =
        size2size_idx_compute-fits (step_lower size d large s.high) s in
      rw (large_normalize size large, large_idx size large hi)
        (ap some (
          normalize_size_compute-eq s ∙ sym (size_idx2size-compute i (omega (arith, top, s.most)))))
  | no small ↦
      let e : size - 1 + 1 ≡ size = omega arith in
      is_some_eq→eq _ _ (and_right _ _ (rw e at (small-case size pos (omega arith))))
]

-- A request above a chunk is answered with the number of classes, which the arena takes as huge.
pub size2size_idx-huge : (size : ℕ) → 2 ^ 24 < size → size2size_idx pooled size ≡ pooled.n_sizes
unfolding size2size_idx
size2size_idx-huge size h =
    let (c0, c1, c2, c3, search, chunk) = counts in
    let z : (size == 0) ≡ false = ground arith in
    let c : ltb (2 ^ 24) size ≡ true = ground arith in rw (z, chunk, c)
