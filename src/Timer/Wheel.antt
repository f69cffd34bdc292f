-- ===== src/Timer/Wheel.antt =====
-- timer/TimingWheel.h, timer/TimingWheel.cc and the lists of timer/TimerTaskList.cc. A wheel and
-- its overflow wheels are a list, the finest first. The buckets of a wheel are copies of one list
-- object and share its root, so a wheel has one list of entries, each with the bucket whose `list`
-- pointer it has; every bucket has an expiration of its own.
pub mod Placed
pub mod Spins
use duo_duo.Base.{
  ℕ, zero, suc, ◌+◌, ◌%◌, Bool, true, false, not, ◌&&◌, List, [], ◌∷◌, ◌++◌, Option, none, some,
  get_or, set, replicate, ◌==◌, if◌then◌else◌,
}
use duo_duo.Timer.Time.{Time, total, plus, times, divide, before, not_before, differs, align}

pub record Entry : Type 0 where
  pub number : ℕ
  pub expiration : Time

pub record Level : Type 0 where
  pub tick : Time
  pub wheel_size : ℕ
  pub interval : Time
  pub current : Time
  pub expirations : List (Option Time)
  pub entries : List (ℕ × Entry)

abbrev pub at_least_zero : Option Time → Time
at_least_zero none = record { sec = 0; usec = 0 }
at_least_zero (some t) = t

-- The constructor; the difference in it is never negative.
unfoldable pub new_level : Time → ℕ → Time → Level
new_level tick wheel_size start = record {
  tick = tick;
  wheel_size = wheel_size;
  interval = times tick wheel_size;
  current = at_least_zero (align start tick);
  expirations = replicate wheel_size none;
  entries = [];
}

-- `TimerTaskList::remove`, for the entry of one bucket, and `TimerTaskEntry::remove` for that of any.
abbrev pub remove_entry : ℕ → List (ℕ × Entry) → List (ℕ × Entry)
remove_entry number [] = []
remove_entry number ((b, e) ∷ es) =
    if e.number == number then es else (b, e) ∷ remove_entry number es

-- `TimerTaskList::add`, of an entry that is in no other wheel.
abbrev pub add_entry : ℕ → Entry → Level → Level
add_entry b e l = record l { entries = remove_entry e.number l.entries ++ (b, e) ∷ [] }

abbrev pub expiration_differs : Time → Option Time → Bool
expiration_differs t none = true
expiration_differs t (some u) = differs t u

-- What `add` returns, which is undefined where it has no `return`; the wheels; and whether the
-- delay queue was offered the bucket.
pub record Added : Type 0 where
  pub result : Option Bool
  pub levels : List Level
  pub offered : Bool

-- The bucket of a level for an expiration, and the expiration that the bucket gets.
unfoldable pub bucket_of : Level → Time → ℕ
bucket_of l e = divide e l.tick % l.wheel_size

unfoldable pub bucket_expiration : Level → Time → Time
bucket_expiration l e = times l.tick (divide e l.tick)

unfoldable pub place : Entry → Level → Level
place e l =
    let b = bucket_of l e.expiration in
    add_entry b e
      (record l { expirations = set l.expirations b (some (bucket_expiration l e.expiration)) })

-- `add`, with the wheels that may yet be passed; a missing overflow wheel is made.
unfoldable pub add : ℕ → Bool → Entry → Level → List Level → Added
add zero cancelled e l ls = record { result = none; levels = l ∷ ls; offered = false }
add (suc fuel) cancelled e l ls =
    let next : Level × List Level = elim ls [
      | [] ↦ (new_level l.interval l.wheel_size l.current, [])
      | m ∷ ms ↦ (m, ms)
    ] in
    let above = add fuel cancelled e next.0 next.1 in
    if cancelled
    then record { result = some false; levels = l ∷ ls; offered = false }
    else if before e.expiration (plus l.current l.tick)
    then record { result = some false; levels = l ∷ ls; offered = false }
    else if before e.expiration (plus l.current l.interval)
    then record {
      result = some true;
      levels = place e l ∷ ls;
      offered =
          expiration_differs (bucket_expiration l e.expiration)
            (get_or l.expirations (bucket_of l e.expiration) none);
    }
    else record {
      result = none;
      levels = record l { entries = remove_entry e.number l.entries } ∷ above.levels;
      offered = above.offered;
    }

unfoldable pub advance_clock : Time → List Level → List Level
advance_clock time [] = []
advance_clock time (l ∷ ls) =
    let current = at_least_zero (align time l.tick) in
    let above = advance_clock current ls in
    if not_before time (plus l.current l.tick)
    then record l { current = current } ∷ above
    else l ∷ ls

abbrev pub is_false : Option Bool → Bool
is_false (some false) = true
is_false _ = false

-- The loop of `TimerTaskList::flush` for bucket `b` of the finest wheel, with the rounds left and
-- the wheels that `add` may pass. `remove` does nothing for the head of another bucket, and the
-- timer adds the head again. `none` when the loop has not ended, and where the timer deletes an
-- entry that is still linked.
unfoldable pub flush_loop : ℕ → ℕ → ℕ → Level → List Level → Option (List Level)
flush_loop zero depth b l ls = none
flush_loop (suc fuel) depth b l ls = elim l.entries [
  | [] ↦ some (l ∷ ls)
  | (home, e) ∷ es ↦
      let kept : Level = if home == b then record l { entries = es } else l in
      let added = add depth false e kept ls in
      let gone = flush_loop fuel depth b kept ls in
      let again : Option (List Level) = elim added.levels [
        | [] ↦ none
        | k ∷ ks ↦ flush_loop fuel depth b k ks
      ] in
      if is_false added.result then (if home == b then gone else none) else again
]
