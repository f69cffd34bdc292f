-- ===== src/Timer/Tests.antt =====
-- The theorems on timing wheels at concrete inputs.
use duo_duo.Base.{ℕ, List, ◌≡◌, refl, true, [], ◌∷◌, none, arith}
use duo_duo.Timer.DelayQueue
use duo_duo.Timer.DelayQueue.{poll_all}
use duo_duo.Timer.DelayQueue.Polls.{IsSplit, IsFrom, poll_all-IsSplit}
use duo_duo.Timer.Time.{Time, total, plus, before}
use duo_duo.Timer.Wheel.{Level, flush_loop}
use duo_duo.Timer.Wheel.Spins.{all_bounded, some_waits, flush_loop-never_ends}

-- Ticks of a second, at time 100, in a wheel of 20 buckets.
abbrev at : ℕ → Time
at n = record { sec = n; usec = 0 }

abbrev seconds : Level
seconds = record {
  tick = at 1;
  wheel_size = 20;
  interval = at 20;
  current = at 100;
  expirations = [];
  entries =
      (5, record { number = 1; expiration = at 105 })
      ∷ (15, record { number = 2; expiration = at 115 })
      ∷ [];
}

half : Time
half = record { sec = 105; usec = 500000 }

all_soon : all_bounded (plus seconds.current seconds.interval) seconds.entries ≡ true
unfolding plus before
all_soon = refl

one_waits : some_waits (plus seconds.current seconds.tick) seconds.entries ≡ true
unfolding plus before
one_waits = refl

flush_loop-never_ends_example : flush_loop 1000 3 5 seconds [] ≡ none
flush_loop-never_ends_example = flush_loop-never_ends 1000 2 5 seconds [] all_soon one_waits

-- Three buckets, due after one, three and two seconds.
abbrev three : List DelayQueue.Entry
three =
    record { expiration = at 1; appendix = 7 }
    ∷ record { expiration = at 3; appendix = 8 }
    ∷ record { expiration = at 2; appendix = 9 }
    ∷ []

poll_all-IsSplit_example : IsSplit 1 (total (at 2)) three (poll_all 3 (at 2) three)
unfolding IsFrom
poll_all-IsSplit_example =
    poll_all-IsSplit 3 (at 2) 1 three (omega arith) (omega arith, (omega arith, (omega arith, tt)))
