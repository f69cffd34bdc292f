-- ===== src/Pool/Subpage/Valid.antt =====
-- What holds of a subpage that still hands out elements, and of the list that it is in.
use duo_duo.Base.{
  ℕ, zero, suc, dec_lt, ◌+◌, ◌*◌, ◌/◌, ◌%◌, ◌^◌, ◌≤◌, ◌<◌, ◌≡◌, ◌≢◌, refl, sym, ap, true, false,
  not, List, [], ◌∷◌, some, ◌==◌, get_or, set, length, length-set, arith, get_or-set_cases,
  get_or-replicate, length-replicate, replicate, inl, inr,
}
use duo_duo.Pool.Subpage.{Subpage, Pool, contains, unlink, bit, set_bit, flip_bit, fresh, init}
use duo_duo.Pool.Subpage.Bitmap.{count_free}
use native.Mathlib.Nat.{div-add-mod, mod-lt, mul-div-le, mul-le-mul_right}
use duo_duo.Base.Pow.{two_pow-lt}
use duo_duo.Base.Bits.{bit_or-lt, bit_xor-lt, bit_and-low}

-- No number stands in the list twice.
abbrev pub IsDistinct : Pool → Type 0
IsDistinct [] = Unit {0}
IsDistinct (m ∷ p) = (contains m p ≡ false) × IsDistinct p

pub record IsValid (s : Subpage) (p : Pool) : Type 0 where
  pub elements : 0 < s.max_num_elems
  pub sized : s.elem_size ≢ 0
  pub covers : s.max_num_elems ≤ s.bitmap_length * 64
  pub stored : s.bitmap_length ≤ length s.bitmap
  pub words : (q : ℕ) → get_or s.bitmap q 0 < 2 ^ 64
  pub counted : s.num_avail ≡ count_free s.bitmap s.max_num_elems
  pub hint : (i : ℕ) → s.next_avail ≡ some i → (i < s.max_num_elems) × (bit s.bitmap i ≡ 0)
  pub live : s.dont_release ≡ true
  pub linked : contains s.number p ≡ not (s.num_avail == 0)
  pub distinct : IsDistinct p

pub contains-unlink : (n : ℕ) (p : Pool) → IsDistinct p → contains n (unlink n p) ≡ false
contains-unlink n [] d = refl
contains-unlink n (m ∷ p) d =
    ground (arith, contains-unlink n p d.1, d.0, ap (λ k. contains k p) {x = n} {y = m})

contains-unlink_other :
    (m n : ℕ) (p : Pool) → contains m p ≡ false → contains m (unlink n p) ≡ false
contains-unlink_other m n [] h = refl
contains-unlink_other m n (k ∷ p) h = ground (arith, contains-unlink_other m n p)

pub unlink-IsDistinct : (n : ℕ) (p : Pool) → IsDistinct p → IsDistinct (unlink n p)
unlink-IsDistinct n [] d = tt
unlink-IsDistinct n (m ∷ p) d =
    ground (arith, unlink-IsDistinct n p d.1, contains-unlink_other m n p d.0)

set-words :
    (bm : List ℕ) (i w : ℕ)
    → w < 2 ^ 64
    → ((q : ℕ) → get_or bm q 0 < 2 ^ 64)
    → (q : ℕ) → get_or (set bm i w) q 0 < 2 ^ 64
set-words bm i w h fits q = elim (get_or-set_cases bm i q w 0) [
  | inl e ↦ rw e h
  | inr e ↦ rw e (fits q)
]

module _ (bm : List ℕ) (i : ℕ) (fits : (q : ℕ) → get_or bm q 0 < 2 ^ 64) where
  mask : 2 ^ (i % 64) < 2 ^ 64
  mask = two_pow-lt (i % 64) 64 (omega arith)

  pub set_bit-words : (q : ℕ) → get_or (set_bit bm i) q 0 < 2 ^ 64
  unfolding set_bit
  set_bit-words =
      set-words bm (i / 2 ^ 6) _
        (bit_or-lt 64 (get_or bm (i / 2 ^ 6) 0) (2 ^ (i % 64)) (fits (i / 2 ^ 6)) mask) fits

  pub flip_bit-words : (q : ℕ) → get_or (flip_bit bm i) q 0 < 2 ^ 64
  unfolding flip_bit
  flip_bit-words =
      set-words bm (i / 2 ^ 6) _
        (bit_xor-lt 64 (get_or bm (i / 2 ^ 6) 0) (2 ^ (i % 64)) (fits (i / 2 ^ 6)) mask) fits

pub length-set_bit : (bm : List ℕ) (i : ℕ) → length (set_bit bm i) ≡ length bm
unfolding set_bit
length-set_bit bm i = length-set bm (i / 2 ^ 6) _

pub length-flip_bit : (bm : List ℕ) (i : ℕ) → length (flip_bit bm i) ≡ length bm
unfolding flip_bit
length-flip_bit bm i = length-set bm (i / 2 ^ 6) _

zero_bit : (n i : ℕ) → bit (replicate n 0) i ≡ 0
unfolding bit
zero_bit n i = rw (get_or-replicate {A = ℕ} n (i / 2 ^ 6) 0) (omega arith)

count_free-replicate : (n m : ℕ) → count_free (replicate n 0) m ≡ m
unfolding count_free
count_free-replicate n zero = refl
count_free-replicate n (suc m) = omega (arith, count_free-replicate n m, zero_bit n m)

some_element : (r e : ℕ) → 0 < e → e ≤ r → 0 < r / e
some_element r e pos h =
    let split = div-add-mod r e in
    let rest = mod-lt r pos in elim (dec_lt 0 (r / e)) [ yes q ↦ q | no z ↦ absurd (grind arith) ]

element_bound : (r e : ℕ) → 16 ≤ e → r / e ≤ r / 16
element_bound r e h =
    let split = mul-div-le r e in
    let scaled : 16 * (r / e) ≤ e * (r / e) = mul-le-mul_right (r / e) h in omega arith

-- A new subpage over whole kilobytes, cut into elements of 16 bytes or more, is valid and all
-- free, and no element fails to fit the bitmap.
pub init-IsValid :
    (number : ℕ) (p : Pool) (page_shifts run_offset run_size elem_size : ℕ)
    → 16 ≤ elem_size
    → elem_size ≤ run_size
    → run_size % 1024 ≡ 0
    → IsDistinct p
    → contains number p ≡ false
    → (s : Subpage) × (p' : Pool) × (init number p page_shifts run_offset run_size elem_size
        ≡ some (s, p'))
      × IsValid s p'
      × (s.num_avail ≡ run_size / elem_size)
unfolding init
init-IsValid number p page_shifts run_offset run_size elem_size h16 hle hk d out = (
  fresh number page_shifts run_offset run_size elem_size,
  number ∷ p,
  rw (out, init) refl,
  record {
    elements = some_element run_size elem_size (omega (arith, h16)) hle;
    sized = omega (arith, h16);
    covers = ground (arith, bit_and-low 6 (run_size / elem_size));
    stored = rw (length-replicate {A = ℕ} (run_size / 2 ^ (6 + 4)) 0) (
        ground (arith, bit_and-low 6 (run_size / elem_size), element_bound run_size elem_size h16));
    words = λ q. rw (get_or-replicate {A = ℕ} (run_size / 2 ^ (6 + 4)) q 0) (omega arith);
    counted = sym (count_free-replicate (run_size / 2 ^ (6 + 4)) (run_size / elem_size));
    hint = λ i e.
        (ground (arith, some_element run_size elem_size (omega (arith, h16)) hle), zero_bit _ i);
    live = refl;
    linked = ground (arith, some_element run_size elem_size (omega (arith, h16)) hle);
    distinct = (out, d);
  },
  refl,
)
