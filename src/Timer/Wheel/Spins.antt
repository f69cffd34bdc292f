-- ===== src/Timer/Wheel/Spins.antt =====
-- What the shared list of a wheel does to the flush of a bucket.
use duo_duo.Base.{
  ℕ, zero, suc, ◌≡◌, refl, Bool, true, false, not, ◌&&◌, ◌||◌, List, [], ◌∷◌, ◌++◌, none, arith,
  ◌==◌, Bool-cases, inl, inr, and_left, and_right,
}
use duo_duo.Timer.Time.{Time, plus, before}
use duo_duo.Timer.Wheel.{Entry, Level, remove_entry, place, bucket_of, add, flush_loop}

-- Every entry is due before the limit.
abbrev pub all_bounded : Time → List (ℕ × Entry) → Bool
all_bounded limit [] = true
all_bounded limit ((b, e) ∷ es) = before e.expiration limit && all_bounded limit es

-- Some entry is not due before the next tick.
abbrev pub some_waits : Time → List (ℕ × Entry) → Bool
some_waits tick [] = false
some_waits tick ((b, e) ∷ es) = not (before e.expiration tick) || some_waits tick es

waits-append :
    (t : Time) (xs : List (ℕ × Entry)) (b : ℕ) (e : Entry)
    → before e.expiration t ≡ false
    → some_waits t (xs ++ (b, e) ∷ []) ≡ true
waits-append t [] b e h = ground arith
waits-append t ((c, d) ∷ xs) b e h = ground (arith, waits-append t xs b e h)

bounded-append :
    (t : Time) (xs : List (ℕ × Entry)) (b : ℕ) (e : Entry)
    → all_bounded t xs ≡ true
    → before e.expiration t ≡ true
    → all_bounded t (xs ++ (b, e) ∷ []) ≡ true
bounded-append t [] b e h g = ground arith
bounded-append t ((c, d) ∷ xs) b e h g = ground (arith, bounded-append t xs b e)

bounded-remove :
    (t : Time) (xs : List (ℕ × Entry)) (n : ℕ)
    → all_bounded t xs ≡ true
    → all_bounded t (remove_entry n xs) ≡ true
bounded-remove t [] n h = refl
bounded-remove t ((c, d) ∷ xs) n h = ground (arith, bounded-remove t xs n)

never :
    (fuel depth b : ℕ) (l : Level) (es : List (ℕ × Entry)) (ls : List Level)
    → all_bounded (plus l.current l.interval) es ≡ true
    → some_waits (plus l.current l.tick) es ≡ true
    → flush_loop fuel (suc depth) b (record l { entries = es }) ls ≡ none
unfolding flush_loop add place bucket_of
never zero depth b l es ls h w = refl
never (suc fuel) depth b l [] ls h w = cc
never (suc fuel) depth b l ((home, x) ∷ es) ls h w =
    let s3 : before x.expiration (plus l.current l.interval) ≡ true =
      and_left _ (all_bounded (plus l.current l.interval) es) h in
    let hs : all_bounded (plus l.current l.interval) es ≡ true =
      and_right (before x.expiration (plus l.current l.interval)) _ h in
    let placed = bucket_of l x.expiration in
    elim (Bool-cases (home == b)) [
      | inl s1 ↦ elim (Bool-cases (before x.expiration (plus l.current l.tick))) [
        | inl s2 ↦ rw (flush_loop, add, s1, s2) (never fuel depth b l es ls hs (ground arith))
        | inr s2 ↦
            rw (flush_loop, add, s1, s2, s3)
              (never fuel depth b (place x (record l { entries = es }))
                (remove_entry x.number es ++ (placed, x) ∷ []) ls
                (bounded-append _ (remove_entry x.number es) placed x
                  (bounded-remove _ es x.number hs) s3)
                (waits-append _ (remove_entry x.number es) placed x s2))
      ]
      | inr s1 ↦ elim (Bool-cases (before x.expiration (plus l.current l.tick))) [
        | inl s2 ↦ rw (flush_loop, add, s1, s2) refl
        | inr s2 ↦
            let all : List (ℕ × Entry) = (home, x) ∷ es in
            rw (flush_loop, add, s1, s2, s3)
              (never fuel depth b (place x (record l { entries = all }))
                (remove_entry x.number all ++ (placed, x) ∷ []) ls
                (bounded-append _ (remove_entry x.number all) placed x
                  (bounded-remove _ all x.number h) s3)
                (waits-append _ (remove_entry x.number all) placed x s2))
      ]
    ]

-- When a wheel holds an entry that is not due, and all are due before its interval ends, flushing
-- any bucket of it never comes back, however many rounds the loop has, or deletes an entry that is
-- still linked.
pub flush_loop-never_ends :
    (fuel depth b : ℕ) (l : Level) (ls : List Level)
    → all_bounded (plus l.current l.interval) l.entries ≡ true
    → some_waits (plus l.current l.tick) l.entries ≡ true
    → flush_loop fuel (suc depth) b l ls ≡ none
flush_loop-never_ends fuel depth b l ls h w = never fuel depth b l l.entries ls h w
