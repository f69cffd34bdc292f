-- ===== src/Pool/ChunkList/Thresholds.antt =====
-- The bounds between which the free bytes of a chunk lie, list by list, and how they overlap.
use duo_duo.Base.{
  ℕ, ◌-◌, ◌*◌, ◌/◌, ◌^◌, subst, ◌≤◌, ◌<◌, ◌≡◌, inl, inr, true, false, none, some, ltb, ◌==◌, arith,
  Bool-cases, lt→ltb, ltb→lt,
}
use duo_duo.Pool.Chunk.{Chunk, usage}
use duo_duo.Pool.ChunkList.{
  Level, q_init, q00, q25, q50, q75, q100, rank, next_list, prev_list, max_usage, is_full, is_idle,
}
use native.Mathlib.Nat.{le-div_iff_mul-le, mul-pos}
use mathlib.Core.Option.{some-injective}

-- Neither too many bytes are free for a list nor too few.
pub record IsBetween (chunk_size : ℕ) (q : Level) (free_bytes : ℕ) : Type 0 where
  pub not_idle : is_idle chunk_size q free_bytes ≡ false
  pub not_full : is_full chunk_size q free_bytes ≡ false

-- A chunk of the size that the lists are for.
pub record IsSized (chunk_size : ℕ) (c : Chunk) : Type 0 where
  pub size : c.chunk_size ≡ chunk_size
  pub positive : 0 < chunk_size
  pub limit : chunk_size < 2 ^ 31
  pub within : c.free_bytes ≤ chunk_size

percentage : (k n f : ℕ) → 0 < n → k * n ≤ f * 100 → k ≤ f * 100 / n
percentage k n f pos h = (le-div_iff_mul-le pos).1 h

-- With so many percent free, at most the others are in use.
usage-le :
    (n k : ℕ) (c : Chunk) → IsSized n c → 0 < k → k * n ≤ c.free_bytes * 100 → usage c ≤ 100 - k
unfolding usage
usage-le n k c v pos h =
    let p = percentage k n c.free_bytes v.positive h in
    let f : (c.free_bytes == 0) ≡ false = (elim (Bool-cases (c.free_bytes == 0)) [
      | inr t ↦ t
      | inl t ↦ absurd (
          let z : c.free_bytes ≡ 0 = ground (arith, t) in
          let w : 0 < k * n = mul-pos pos v.positive in omega (arith, z, w, h))
    ]) in
    rw (f, usage, v.size) (ground (arith, p, pos))

usage-lt : (n : ℕ) (c : Chunk) → IsSized n c → 0 < c.free_bytes → usage c < 100
unfolding usage
usage-lt n c v pos = ground arith

-- A chunk can go from one list to another: it is not full there, and less in use than that list
-- allows.
abbrev pub Fits : ℕ → Chunk → Level → Level → Type 0
Fits n c q p =
    (is_full n p c.free_bytes ≡ false) × (ltb (usage c) (max_usage p) ≡ true) × (rank p < rank q)

-- From a list where too much is free it can go to the one before.
pub idle_step :
    (n : ℕ) (q p : Level) (c : Chunk)
    → IsSized n c
    → is_idle n q c.free_bytes ≡ true
    → prev_list q ≡ some p
    → Fits n c q p
unfolding is_idle is_full
idle_step n q_init p c v h e = absurd (let k = ltb→lt _ _ h in omega (arith, k, v.within))
idle_step n q00 p c v h e = absurd (cc)
idle_step n q25 p c v h e =
    let k = ltb→lt _ _ h in
    subst (Fits n c q25) (some-injective _ _ e) (
      ground (arith, k, v.within),
      lt→ltb _ _ (omega (arith, usage-le n 75 c v (omega arith) (omega (arith, k)))),
      omega arith,
    )
idle_step n q50 p c v h e =
    let k = ltb→lt _ _ h in
    subst (Fits n c q50) (some-injective _ _ e) (
      ground (arith, k, v.within),
      lt→ltb _ _ (omega (arith, usage-le n 50 c v (omega arith) (omega (arith, k)))),
      omega arith,
    )
idle_step n q75 p c v h e =
    let k = ltb→lt _ _ h in
    subst (Fits n c q75) (some-injective _ _ e) (
      ground (arith, k, v.within),
      lt→ltb _ _ (omega (arith, usage-le n 25 c v (omega arith) (omega (arith, k)))),
      omega arith,
    )
idle_step n q100 p c v h e =
    let k = ltb→lt _ _ h in
    subst (Fits n c q100) (some-injective _ _ e)
      (ground (arith, k, v.within), lt→ltb _ _ (usage-lt n c v (omega (arith, k))), omega arith)

-- Where too much is free and no list is before, all is.
pub idle_last :
    (n : ℕ) (q : Level) (c : Chunk)
    → IsSized n c
    → is_idle n q c.free_bytes ≡ true
    → prev_list q ≡ none
    → ((usage c == 0) ≡ true) × (c.free_bytes ≡ n)
unfolding is_idle usage
idle_last n q_init c v h e = absurd (cc)
idle_last n q25 c v h e = absurd (cc)
idle_last n q50 c v h e = absurd (cc)
idle_last n q75 c v h e = absurd (cc)
idle_last n q100 c v h e = absurd (cc)
idle_last n q00 c v h e =
    let k = ltb→lt _ _ h in
    let all : c.free_bytes ≡ n = omega (arith, k, v.within, v.limit) in
    let p = percentage 100 n c.free_bytes v.positive (omega (arith, all)) in
    let f : (c.free_bytes == 0) ≡ false = ground (arith, all, v.positive) in
    (rw (f, usage, v.size) (ground (arith, p)), all)

-- In the list after one that is full there is not too much free.
pub full_step :
    (n : ℕ) (q p : Level) (f : ℕ)
    → is_full n q f ≡ true
    → next_list q ≡ some p
    → is_idle n p f ≡ false
unfolding is_idle is_full
full_step n q_init p f h e =
    subst (λ k. is_idle n k f ≡ false) (some-injective _ _ e) (ground (arith, h))
full_step n q00 p f h e =
    subst (λ k. is_idle n k f ≡ false) (some-injective _ _ e) (ground (arith, h))
full_step n q25 p f h e =
    subst (λ k. is_idle n k f ≡ false) (some-injective _ _ e) (ground (arith, h))
full_step n q50 p f h e =
    subst (λ k. is_idle n k f ≡ false) (some-injective _ _ e) (ground (arith, h))
full_step n q75 p f h e =
    subst (λ k. is_idle n k f ≡ false) (some-injective _ _ e) (ground (arith, h))
full_step n q100 p f h e = absurd (cc)
