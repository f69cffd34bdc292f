-- ===== src/Timer/Time.antt =====
-- timer/delay_queue/TimeEntry.h: a `timeval` with arithmetic. The values here are not negative;
-- `none` is the time {-1, -1} that a difference below 0 gives.
pub mod Arithmetic
use duo_duo.Base.{
  ℕ, ◌+◌, ◌-◌, ◌*◌, ◌/◌, ◌%◌, Bool, not, Option, none, some, ltb, leb, ◌==◌, if◌then◌else◌,
}

pub record Time : Type 0 where
  pub sec : ℕ
  pub usec : ℕ

-- `tv_sec*1000000 + tv_usec`
abbrev pub total : Time → ℕ
total t = t.sec * 1000000 + t.usec

abbrev pub of_total : ℕ → Time
of_total n = record { sec = n / 1000000; usec = n % 1000000 }

unfoldable pub minus : Time → Time → Option Time
minus a b = if ltb (total a) (total b) then none else some (of_total (total a - total b))

unfoldable pub plus : Time → Time → Time
plus a b = of_total (total a + total b)

unfoldable pub modulo : Time → Time → Time
modulo a b = of_total (total a % total b)

unfoldable pub times : Time → ℕ → Time
times a n = of_total (total a * n)

unfoldable pub divide : Time → Time → ℕ
divide a b = total a / total b

unfoldable pub before : Time → Time → Bool
before a b = ltb (total a) (total b)

unfoldable pub not_before : Time → Time → Bool
not_before a b = leb (total b) (total a)

unfoldable pub differs : Time → Time → Bool
differs a b = not (total a == total b)

-- `time - (time % tick)`
unfoldable pub align : Time → Time → Option Time
align time tick = minus time (modulo time tick)
