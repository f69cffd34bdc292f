-- ===== src/Net/LoopPool/Rounds.antt =====
-- EventLoopThreadPool.cpp: the loops are taken in turn.
use duo_duo.Base.{
  ℕ, zero, suc, ◌+◌, ◌%◌, ◌<◌, ◌≡◌, sym, ap, ◌∙◌, none, length, get_elem?, ltb, leb, if◌then◌else◌,
  arith, dec_le, true, false,
}
use native.Mathlib.Nat.{mod-lt, mod-eq_of_lt, mod_self, suc-mod, add-mod_right, add-zero, add-suc}
use duo_duo.Net.LoopPool.{LoopPool, next_index, get_next_loop, get_loop, after}

next_index-mod : (n i : ℕ) → i < n → next_index n i ≡ suc i % n
next_index-mod n i h = elim (dec_le n (suc i)) [
  | yes p ↦
      let e : suc i ≡ n = omega arith in
      let t : leb n (suc i) ≡ true = ground arith in rw t (sym (ap (λ k. k % n) e ∙ mod_self n))
  | no p ↦ let t : leb n (suc i) ≡ false = ground arith in rw t (sym (mod-eq_of_lt (omega arith)))
]

module _ {ℓ} {L : Type ℓ} where
  one_call :
      (p : LoopPool L)
      → p.loop_index < length (p.loops)
      → (get_next_loop p ≡ (
        get_loop p (p.loop_index),
        record p { loop_index = suc (p.loop_index) % length (p.loops) },
      ))
  unfolding get_next_loop get_loop
  one_call p h =
      let t : ltb 0 (length (p.loops)) ≡ true = ground arith in
      let u : ltb (p.loop_index) (length (p.loops)) ≡ true = ground arith in
      ap
        (λ b.
          if b
          then (
            get_elem? (p.loops) (p.loop_index),
            record p { loop_index = next_index (length (p.loops)) (p.loop_index) },
          )
          else (none, p))
        t
      ∙ ap (λ i. (get_elem? (p.loops) (p.loop_index), record p { loop_index = i }))
          (next_index-mod _ _ h)
      ∙ ap
          (λ b. (
            (if b then get_elem? (p.loops) (p.loop_index) else none),
            record p { loop_index = suc (p.loop_index) % length (p.loops) },
          ))
          (sym u)

  calls :
      (p : LoopPool L)
      → p.loop_index < length (p.loops)
      → (k : ℕ) → after k p ≡ record p { loop_index = (p.loop_index + k) % length (p.loops) }
  unfolding after
  calls p h zero =
      ap (λ i. record p { loop_index = i })
        (sym (ap (λ i. i % length (p.loops)) (add-zero (p.loop_index)) ∙ mod-eq_of_lt h))
  calls p h (suc k) =
      let n = length (p.loops) in
      let q = record p { loop_index = (p.loop_index + k) % n } in
      ap (λ r. (get_next_loop r).1) (calls p h k)
      ∙ ap (λ r. r.1) (one_call q (mod-lt _ (omega arith)))
      ∙ ap (λ i. record p { loop_index = i })
          (sym (ap (λ i. i % n) (add-suc (p.loop_index) k) ∙ suc-mod (p.loop_index + k) n))

-- In a pool whose index is in range, the call of `getNextLoop` that follows `k` others gives the
-- loop at the index plus `k`, modulo the number of loops, and a whole round of calls, one for
-- each loop, leaves the pool as it was.
pub get_next_loop-rounds {ℓ} :
    {L : Type ℓ} (p : LoopPool L) (k : ℕ)
    → p.loop_index < length (p.loops)
    → ((get_next_loop (after k p)).0 ≡ get_loop p ((p.loop_index + k) % length (p.loops)))
      × (after (length (p.loops)) p ≡ p)
unfolding get_loop
get_next_loop-rounds p k h =
    let n = length (p.loops) in
    let q = record p { loop_index = (p.loop_index + k) % n } in
    (
      ap (λ r. (get_next_loop r).0) (calls p h k)
          ∙ ap (λ r. r.0) (one_call q (mod-lt _ (omega arith))),
      calls p h n
          ∙ ap (λ i. record p { loop_index = i }) (add-mod_right (p.loop_index) n ∙ mod-eq_of_lt h),
    )
