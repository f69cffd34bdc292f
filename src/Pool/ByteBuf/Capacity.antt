-- ===== src/Pool/ByteBuf/Capacity.antt =====
-- How much a buffer grows by.
use duo_duo.Base.{
  ℕ, zero, suc, ◌+◌, ◌-◌, ◌*◌, ◌/◌, ◌≤◌, ◌<◌, ◌≡◌, refl, false, some, arith, min, ltb, ◌==◌,
  Bool-cases, inl, inr,
}
use duo_duo.Pool.ByteBuf.{threshold, grow, calculate_new_capacity}

-- Enough rounds reach the bytes that are wanted.
grow-enough : (fuel cap n : ℕ) → 0 < cap → n ≤ cap + fuel → n ≤ grow fuel cap n
unfolding grow
grow-enough zero cap n pos h = omega (arith, h)
grow-enough (suc fuel) cap n pos h = elim (Bool-cases (ltb cap n)) [
  | inl more ↦
      rw (grow, more) (grow-enough fuel (cap * 2) n (omega (arith, pos)) (omega (arith, pos, h)))
  | inr done ↦ rw (grow, done) (ground arith)
]

-- Any capacity up to the maximum is given, and no more than the maximum.
pub calculate_new_capacity-bounds :
    (n max_capacity : ℕ)
    → n ≤ max_capacity
    → (r : ℕ) × (calculate_new_capacity n max_capacity ≡ some r) × (n ≤ r) × (r ≤ max_capacity)
unfolding calculate_new_capacity
calculate_new_capacity-bounds n max_capacity h =
    let fits : ltb max_capacity n ≡ false = ground arith in
    elim (Bool-cases (n == threshold)) [
      | inl same ↦ (threshold, rw (fits, same) refl, ground arith, ground arith)
      | inr other ↦ elim (Bool-cases (ltb threshold n)) [
        | inl large ↦
            elim (Bool-cases (ltb (max_capacity - threshold) (n / threshold * threshold))) [
              | inl last ↦ (max_capacity, rw (fits, other, large, last) refl, h, omega arith)
              | inr room ↦ (
                n / threshold * threshold + threshold,
                rw (fits, other, large, room) refl,
                omega arith,
                ground arith,
              )
            ]
        | inr small ↦
            let enough = grow-enough n 64 n (omega arith) (omega arith) in
            (min (grow n 64 n) max_capacity, rw (fits, other, small) refl, omega arith, omega arith)
      ]
    ]
