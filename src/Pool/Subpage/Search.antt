-- ===== src/Pool/Subpage/Search.antt =====
-- The search of buffer/PoolSubpage.cpp for a clear bit: `findNextAvail0` and `findNextAvail`.
use duo_duo.Base.{
  ℕ, zero, suc, ◌+◌, ◌-◌, ◌*◌, ◌/◌, ◌%◌, ◌^◌, ◌≤◌, ◌<◌, ◌≡◌, ◌≢◌, refl, ap, ◌∙◌, true, false, List,
  Option, none, some, bit_and, ltb, ◌==◌, get_or, arith, all_below, all_below_sound, ==_iff, dec_lt,
  ℕ_discrete,
}
use duo_duo.Base.Bits.{bit_at, bit_and-low, all_ones}
use duo_duo.Pool.Subpage.{bit, find_next_avail0, find_next_avail}
use duo_duo.Pool.Subpage.Bitmap.{bit-eq}

-- What the search in one word finds, from bit `j` on: the first clear bit, or no bit below `max`.
pub data Found0 (left j limit base bits : ℕ) (r : Option ℕ) : Type 0 where
  clear :
      (k : ℕ)
      → k < left
      → bit_at bits k ≡ 0
      → base + j + k < limit
      → r ≡ some (base + j + k)
      → Found0 left j limit base bits r
  beyond :
      (k : ℕ)
      → k < left
      → limit ≤ base + j + k
      → ((m : ℕ) → m < k → bit_at bits m ≡ 1)
      → r ≡ none
      → Found0 left j limit base bits r
  full : ((m : ℕ) → m < left → bit_at bits m ≡ 1) → r ≡ none → Found0 left j limit base bits r

ones_shift :
    (k bits : ℕ)
    → bit_at bits 0 ≡ 1
    → ((m : ℕ) → m < k → bit_at (bits / 2) m ≡ 1)
    → (m : ℕ) → m < suc k
    → bit_at bits m ≡ 1
unfolding bit_at
ones_shift k bits one h zero hm = one
ones_shift k bits one h (suc m) hm = h m (omega arith)

-- A used bit in front is passed over.
Found0-suc :
    {left j limit base bits : ℕ} {r : Option ℕ}
    → bit_at bits 0 ≡ 1
    → Found0 left (j + 1) limit base (bits / 2) r
    → Found0 (suc left) j limit base bits r
unfolding bit_at
Found0-suc {left} {j} {limit} {base} {bits} one (clear k hk z lt e) =
    clear (suc k) (omega arith) z (omega (arith, lt)) (e ∙ ap some (omega arith))
Found0-suc {left} {j} {limit} {base} {bits} one (beyond k hk past ones e) =
    beyond (suc k) (omega arith) (omega (arith, past)) (ones_shift k bits one ones) e
Found0-suc {left} {j} {limit} {base} {bits} one (full ones e) =
    full (ones_shift left bits one ones) e

find_next_avail0-Found0 :
    (left j limit base bits : ℕ)
    → Found0 left j limit base bits (find_next_avail0 left j limit base bits)
unfolding find_next_avail0 bit_at
find_next_avail0-Found0 zero j limit base bits = full (λ m h. elim h [ ]) refl
find_next_avail0-Found0 (suc left) j limit base bits = elim (dec_lt 0 (bits % 2)) [
  | yes odd ↦
      let f : (bit_and bits 1 == 0) ≡ false = ground (arith, bit_and-low 1 bits) in
      rw f (Found0-suc (omega arith) (find_next_avail0-Found0 left (j + 1) limit base (bits / 2)))
  | no even ↦
      let t : (bit_and bits 1 == 0) ≡ true = ground (arith, bit_and-low 1 bits) in
      rw t (elim (dec_lt (base + j) limit) [
        | yes l ↦
            let c : ltb (base + j) limit ≡ true = ground arith in
            rw c (clear 0 (omega arith) (omega arith) (omega arith) (ap some (omega arith)))
        | no g ↦
            let c : ltb (base + j) limit ≡ false = ground arith in
            rw c (beyond 0 (omega arith) (omega arith) (λ m h. elim h [ ]) refl)
      ])
]

-- What the search in all words finds: a clear bit below `limit`, or none is left from word `i` on.
pub data Found (left i limit : ℕ) (bm : List ℕ) (r : Option ℕ) : Type 0 where
  clear : (n : ℕ) → n < limit → bit bm n ≡ 0 → r ≡ some n → Found left i limit bm r
  full :
      ((n : ℕ) → i * 64 ≤ n → n < (i + left) * 64 → n < limit → bit bm n ≡ 1)
      → r ≡ none
      → Found left i limit bm r

-- One word's bits are the bitmap's.
word_bit : (bm : List ℕ) (i k : ℕ) → k < 64 → bit bm (i * 64 + k) ≡ bit_at (get_or bm i 0) k
word_bit bm i k h =
    let q : (i * 64 + k) / 2 ^ 6 ≡ i = omega arith in
    let r : (i * 64 + k) % 64 ≡ k = omega arith in rw (bit-eq bm (i * 64 + k), q, r)

word_used :
    (bm : List ℕ) (i m : ℕ)
    → ((k : ℕ) → k < m → bit_at (get_or bm i 0) k ≡ 1)
    → m ≤ 64
    → (n : ℕ) → i * 64 ≤ n
    → n < i * 64 + m
    → bit bm n ≡ 1
word_used bm i m ones hm n lo hi =
    let e : i * 64 + (n - i * 64) ≡ n = omega arith in
    let used : bit bm (i * 64 + (n - i * 64)) ≡ 1 =
      word_bit bm i (n - i * 64) (omega arith) ∙ ones (n - i * 64) (omega arith) in
    rw e at used

full_words : all_below 64 (λ k. bit_at (2 ^ 64 - 1) k == 1) ≡ true
unfolding all_below bit_at
full_words = refl

full_word : (k : ℕ) → k < 64 → bit_at (2 ^ 64 - 1) k ≡ 1
full_word k h = (==_iff _ _).0 (all_below_sound 64 _ k full_words h)

-- A full word in front is passed over.
Found-suc :
    {left i limit : ℕ} {bm : List ℕ} {r : Option ℕ}
    → get_or bm i 0 ≡ 2 ^ 64 - 1
    → Found left (i + 1) limit bm r
    → Found (suc left) i limit bm r
Found-suc e (clear n lt z r) = clear n lt z r
Found-suc {left} {i} {limit} {bm} e (full ones r) =
    full
      (λ n lo hi lt. elim (dec_lt n (i * 64 + 64)) [
        | yes here ↦ word_used bm i 64 (λ k hk. rw e (full_word k hk)) (omega arith) n lo here
        | no later ↦ ones n (omega arith) (omega arith) lt
      ])
      r

-- The first word with a clear bit decides.
Found-word :
    {left i limit : ℕ} {bm : List ℕ} {r : Option ℕ}
    → get_or bm i 0 < 2 ^ 64
    → get_or bm i 0 ≢ 2 ^ 64 - 1
    → Found0 64 0 limit (i * 2 ^ 6) (get_or bm i 0) r
    → Found (suc left) i limit bm r
Found-word {i} {bm} fits ne (clear k hk z lt r) =
    clear (i * 64 + k) (omega (arith, lt)) (word_bit bm i k hk ∙ z) (r ∙ ap some (omega arith))
Found-word {i} {limit} {bm} fits ne (beyond k hk past ones r) =
    full (λ n lo hi lt. word_used bm i k ones (omega arith) n lo (omega (arith, lt, past))) r
Found-word {i} {bm} fits ne (full ones r) = absurd (ne (all_ones 64 (get_or bm i 0) fits ones))

pub find_next_avail-Found :
    (left i limit : ℕ) (bm : List ℕ)
    → ((q : ℕ) → get_or bm q 0 < 2 ^ 64)
    → Found left i limit bm (find_next_avail left i limit bm)
unfolding find_next_avail
find_next_avail-Found zero i limit bm fits = full (λ n lo hi lt. absurd (omega arith)) refl
find_next_avail-Found (suc left) i limit bm fits = elim (ℕ_discrete (get_or bm i 0) (2 ^ 64 - 1)) [
  | yes e ↦
      let t : (get_or bm i 0 == 2 ^ 64 - 1) ≡ true = (==_iff _ _).1 e in
      rw t (Found-suc e (find_next_avail-Found left (i + 1) limit bm fits))
  | no ne ↦
      let f : (get_or bm i 0 == 2 ^ 64 - 1) ≡ false = ground arith in
      rw f (Found-word (fits i) ne (find_next_avail0-Found0 64 0 limit (i * 2 ^ 6) (get_or bm i 0)))
]
