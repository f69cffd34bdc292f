-- ===== src/Timer/Wheel/Placed.antt =====
-- Where a wheel puts an entry that is due within its interval.
use duo_duo.Base.{ℕ, ◌+◌, ◌*◌, ◌/◌, ◌≤◌, ◌<◌, ◌≡◌, arith, dec_lt}
use native.Mathlib.Nat.{mod-add-div', mod-lt, mul-le-mul_right, mul_comm}
use duo_duo.Timer.Time.{Time, total, divide, times}
use duo_duo.Timer.Time.Arithmetic.{total-of_total}
use duo_duo.Timer.Wheel.{Level, bucket_of, bucket_expiration}

-- The current time is a whole number of ticks, and the interval has as many ticks as the wheel
-- has buckets.
pub record IsAligned (l : Level) : Type 0 where
  pub ticks : 0 < total l.tick
  pub buckets : 0 < l.wheel_size
  pub whole : total l.current ≡ total l.current / total l.tick * total l.tick
  pub spans : total l.interval ≡ l.wheel_size * total l.tick

-- Due after the current tick, and before the interval ends: the branch of `add` that fills a bucket.
pub record IsWithin (l : Level) (e : Time) : Type 0 where
  pub later : total l.current + total l.tick ≤ total e
  pub sooner : total e < total l.current + total l.interval

-- The quotient by the tick lies among those of one turn.
quotient_low : (c t e : ℕ) → 0 < t → c * t + t ≤ e → c < e / t
quotient_low c t e pos h = elim (dec_lt c (e / t)) [
  | yes p ↦ p
  | no p ↦
      let split = mod-add-div' e t in
      let small = mod-lt e pos in
      let scaled : e / t * t ≤ c * t = mul-le-mul_right t (let q : e / t ≤ c = omega arith in q) in
      absurd (omega (arith, split, small, scaled, h))
]

next_turn : (p q n : ℕ) → p < q → p * n + n ≤ q * n
next_turn p q n h =
    let scaled : (p + 1) * n ≤ q * n = mul-le-mul_right n (let k : p + 1 ≤ q = omega arith in k) in
    grind (arith, scaled)

-- A bucket is due within a tick before each of its entries, and after the current time.
pub bucket-brackets :
    (l : Level) (e : Time)
    → IsAligned l
    → IsWithin l e
    → (total (bucket_expiration l e) ≤ total e)
      × (total e < total (bucket_expiration l e) + total l.tick)
      × (total l.current < total (bucket_expiration l e))
      × (bucket_of l e < l.wheel_size)
unfolding bucket_expiration bucket_of times divide
bucket-brackets l e a w =
    let q = total e / total l.tick in
    let same : total (bucket_expiration l e) ≡ total l.tick * q =
      total-of_total (total l.tick * q) in
    let swap = mul_comm (total l.tick) q in
    let split = mod-add-div' (total e) (total l.tick) in
    let small = mod-lt (total e) a.ticks in
    let c = total l.current / total l.tick in
    let after =
      next_turn c q (total l.tick)
        (quotient_low c (total l.tick) (total e) a.ticks (omega (arith, a.whole, w.later))) in
    (
      omega (arith, same, swap, split),
      omega (arith, same, swap, split, small),
      omega (arith, same, swap, after, a.whole, a.ticks),
      mod-lt q a.buckets,
    )
