-- ===== src/Timer/DelayQueue.antt =====
-- timer/delay_queue/DelayQueue.h: the buckets that wait to become due, the earliest first. The
-- heap is the list of its entries; which of several earliest ones is in front is up to the heap,
-- and is the first here. The time of day is an argument.
pub mod Polls
use duo_duo.Base.{
  ℕ, zero, suc, Bool, true, false, List, [], ◌∷◌, Option, none, some, ltb, if◌then◌else◌,
}
use duo_duo.Timer.Time.{Time, total, minus}

-- `appendix` is the bucket.
pub record Entry : Type 0 where
  pub expiration : Time
  pub appendix : ℕ

-- `operator>`
abbrev pub later : Entry → Entry → Bool
later a b = ltb (total b.expiration) (total a.expiration)

-- `top` and what `pop` leaves, for a queue that is not empty.
unfoldable pub extract : Entry → List Entry → Entry × List Entry
extract x [] = (x, [])
extract x (y ∷ q) = let (m, r) = extract y q in if later x m then (m, x ∷ r) else (x, y ∷ q)

-- `getDelay`: whether the entry is not due yet. The difference {-1, -1} is not above 0.
unfoldable pub get_delay : Entry → Time → Bool
get_delay e now = elim (minus e.expiration now) [ none ↦ false | some d ↦ ltb 0 (total d) ]

unfoldable pub offer : ℕ → Time → List Entry → List Entry
offer bucket expiration q = record { expiration = expiration; appendix = bucket } ∷ q

-- `poll`: the entry, for its appendix, if the first one is due.
unfoldable pub poll : Time → List Entry → Option Entry × List Entry
poll now [] = (none, [])
poll now (x ∷ q) =
    let (m, r) = extract x q in if get_delay m now then (none, x ∷ q) else (some m, r)

-- As many calls of `poll` at one time as there are rounds, until one gives nothing.
unfoldable pub poll_all : ℕ → Time → List Entry → List Entry × List Entry
poll_all zero now q = ([], q)
poll_all (suc n) now q =
    let (o, r) = poll now q in
    elim o [ none ↦ ([], r) | some e ↦ (let (es, rest) = poll_all n now r in (e ∷ es, rest)) ]
