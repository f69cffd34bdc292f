-- ===== src/Pool/Subpage/Bitmap.antt =====
-- The bitmap of a subpage: one bit after a write, and the number of clear bits.
use duo_duo.Base.{
  ℕ, zero, suc, ◌+◌, ◌-◌, ◌/◌, ◌%◌, ◌^◌, ◌≤◌, ◌<◌, ◌≡◌, ◌≢◌, refl, sym, ap, true, false, List,
  bit_or, bit_xor, ltb, ◌==◌, if◌then◌else◌, get_or, set, length, arith, ==_iff, ℕ_discrete,
  get_or-set_self, get_or-set_ne,
}
use duo_duo.Base.Bits.{
  bit_at, bit_at-lt, shift-bit_at, bit_at-bit_or, bit_at-bit_xor, bit_at-pow_self, bit_at-pow_ne,
}
use duo_duo.Pool.Subpage.{bit, set_bit, flip_bit}

pub bit-eq : (bm : List ℕ) (i : ℕ) → bit bm i ≡ bit_at (get_or bm (i / 2 ^ 6) 0) (i % 64)
unfolding bit
bit-eq bm i = shift-bit_at _ (i % 64)

pub bit-lt : (bm : List ℕ) (i : ℕ) → bit bm i < 2
unfolding bit
bit-lt bm i = omega arith

-- Writing a bit leaves the others alone.
other_bit :
    (bm : List ℕ) (i j w : ℕ)
    → i ≢ j
    → i / 2 ^ 6 < length bm
    → ((k : ℕ) → k ≢ i % 64 → bit_at w k ≡ bit_at (get_or bm (i / 2 ^ 6) 0) k)
    → bit (set bm (i / 2 ^ 6) w) j ≡ bit bm j
other_bit bm i j w ne room same =
    rw (bit-eq bm j, bit-eq (set bm (i / 2 ^ 6) w) j)
      (elim (ℕ_discrete (i / 2 ^ 6) (j / 2 ^ 6)) [
        | yes e ↦
            rw (← e, get_or-set_self bm (i / 2 ^ 6) w 0 room)
              (same (j % 64) (λ f. ne (omega (arith, e, f))))
        | no n ↦ rw (get_or-set_ne bm (i / 2 ^ 6) (j / 2 ^ 6) w 0 n)
      ])

written :
    (bm : List ℕ) (i w : ℕ)
    → i / 2 ^ 6 < length bm
    → bit (set bm (i / 2 ^ 6) w) i ≡ bit_at w (i % 64)
written bm i w room = rw (bit-eq (set bm (i / 2 ^ 6) w) i, get_or-set_self bm (i / 2 ^ 6) w 0 room)

pub bit-set_bit :
    (bm : List ℕ) (i j : ℕ)
    → i / 2 ^ 6 < length bm
    → bit (set_bit bm i) j ≡ (if i == j then 1 else bit bm j)
unfolding set_bit
bit-set_bit bm i j room = elim (ℕ_discrete i j) [
  | yes e ↦
      let t : (i == j) ≡ true = (==_iff i j).1 e in
      rw (t, ← e, written bm i (bit_or (get_or bm (i / 2 ^ 6) 0) (2 ^ (i % 64))) room)
        (omega (
          arith,
          bit_at-bit_or (get_or bm (i / 2 ^ 6) 0) (2 ^ (i % 64)) (i % 64),
          bit_at-pow_self (i % 64),
          bit_at-lt (get_or bm (i / 2 ^ 6) 0) (i % 64),
        ))
  | no n ↦
      let f : (i == j) ≡ false = ground arith in
      rw f (
        other_bit bm i j (bit_or (get_or bm (i / 2 ^ 6) 0) (2 ^ (i % 64))) n room λ k ne. omega (
          arith,
          bit_at-bit_or (get_or bm (i / 2 ^ 6) 0) (2 ^ (i % 64)) k,
          bit_at-pow_ne (i % 64) k (λ q. ne (sym q)),
        ))
]

pub bit-flip_bit :
    (bm : List ℕ) (i j : ℕ)
    → i / 2 ^ 6 < length bm
    → bit bm i ≡ 1
    → bit (flip_bit bm i) j ≡ (if i == j then 0 else bit bm j)
unfolding flip_bit
bit-flip_bit bm i j room used = elim (ℕ_discrete i j) [
  | yes e ↦
      let t : (i == j) ≡ true = (==_iff i j).1 e in
      rw (t, ← e, written bm i (bit_xor (get_or bm (i / 2 ^ 6) 0) (2 ^ (i % 64))) room)
        (omega (
          arith,
          bit_at-bit_xor (get_or bm (i / 2 ^ 6) 0) (2 ^ (i % 64)) (i % 64),
          bit_at-pow_self (i % 64),
          bit-eq bm i,
        ))
  | no n ↦
      let f : (i == j) ≡ false = ground arith in
      rw f (
        other_bit bm i j (bit_xor (get_or bm (i / 2 ^ 6) 0) (2 ^ (i % 64))) n room λ k ne. omega (
          arith,
          bit_at-bit_xor (get_or bm (i / 2 ^ 6) 0) (2 ^ (i % 64)) k,
          bit_at-pow_ne (i % 64) k (λ q. ne (sym q)),
          bit_at-lt (get_or bm (i / 2 ^ 6) 0) k,
        ))
]

-- The clear bits below `n`.
unfoldable pub count_free : List ℕ → ℕ → ℕ
count_free bm zero = 0
count_free bm (suc n) = count_free bm n + (1 - bit bm n)

pub count_free-le : (bm : List ℕ) (n : ℕ) → count_free bm n ≤ n
unfolding count_free
count_free-le bm zero = omega arith
count_free-le bm (suc n) = omega (arith, count_free-le bm n)

-- A bit that differs in one place below `n` changes the count by one; one above changes nothing.
pub count_free-set :
    (bm bm' : List ℕ) (i n : ℕ)
    → bit bm i ≡ 0
    → ((j : ℕ) → bit bm' j ≡ (if i == j then 1 else bit bm j))
    → count_free bm' n + (if ltb i n then 1 else 0) ≡ count_free bm n
unfolding count_free
count_free-set bm bm' i zero clear h = ground arith
count_free-set bm bm' i (suc n) clear h =
    ground (arith, count_free-set bm bm' i n clear h, h n, ap (bit bm) {x = i} {y = n})

pub count_free-all_used :
    (bm : List ℕ) (n : ℕ) → ((i : ℕ) → i < n → bit bm i ≡ 1) → count_free bm n ≡ 0
unfolding count_free
count_free-all_used bm zero h = refl
count_free-all_used bm (suc n) h =
    omega (arith, count_free-all_used bm n (λ i hi. h i (omega arith)), h n (omega arith))
