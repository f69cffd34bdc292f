-- ===== src/Timer/Time/Arithmetic.antt =====
-- Times add up, and are cut to ticks, as their microseconds are.
use duo_duo.Base.{
  ℕ, ◌+◌, ◌-◌, ◌*◌, ◌%◌, ◌≤◌, ◌<◌, ◌≡◌, refl, ap, ◌∙◌, false, none, some, ltb, arith, if◌then◌else◌,
}
use native.Mathlib.Nat.{mod-add-div', mod-lt, mod-le}
use duo_duo.Timer.Time.{Time, total, of_total, minus, plus, modulo, times, divide, align}

pub total-of_total : (n : ℕ) → total (of_total n) ≡ n
total-of_total n = omega arith

taken :
    (s b a : ℕ)
    → s ≡ a + b
    → (if ltb s b then none else some (of_total (s - b))) ≡ some (of_total a)
taken s b a e =
    let ok : ltb s b ≡ false = ground arith in
    rw ok (ap (λ n. some (of_total n)) (omega (arith, e)))

-- Sums, multiples and remainders are those of the microseconds, with less than a second of them
-- beside the seconds; and what is taken off again gives back the rest.
pub time_arithmetic :
    (a b : Time) (n : ℕ)
    → (total (plus a b) ≡ total a + total b)
      × ((plus a b).usec < 1000000)
      × (total (times a n) ≡ total a * n)
      × (total (modulo a b) ≡ total a % total b)
      × (minus (plus a b) b ≡ some (of_total (total a)))
unfolding plus times modulo minus
time_arithmetic a b n = (
  total-of_total (total a + total b),
  omega arith,
  total-of_total (total a * n),
  total-of_total (total a % total b),
  taken (total (of_total (total a + total b))) (total b) (total a)
      (total-of_total (total a + total b)),
)

-- A time cut to ticks is a whole number of them, and less than a tick earlier.
pub align-floor :
    (time tick : Time)
    → 0 < total tick
    → (t : Time) × (align time tick ≡ some t)
      × (total t ≡ divide time tick * total tick)
      × (total t ≤ total time)
      × (total time < total t + total tick)
unfolding align minus modulo divide
align-floor time tick pos =
    let m = total time % total tick in
    let small : m < total tick = mod-lt (total time) pos in
    let split = mod-add-div' (total time) (total tick) in
    let e : total (of_total m) ≡ m = total-of_total m in
    let less : m ≤ total time = mod-le (total time) (total tick) in
    let ok : ltb (total time) (total (of_total m)) ≡ false = ground (arith, e, less) in
    let t = of_total (total time - total (of_total m)) in
    let same : total t ≡ total time - m =
      total-of_total (total time - total (of_total m)) ∙ ap (λ k. total time - k) e in
    (
      t,
      rw (align, modulo, minus, ok) refl,
      omega (arith, same, split),
      omega (arith, same),
      omega (arith, same, small, less),
    )
