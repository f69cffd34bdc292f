-- ===== src/Net/LoopPool.antt =====
-- EventLoopThreadPool.h and EventLoopThreadPool.cpp: the loops of a pool, one for each thread, and
-- the round robin over them. Threads and what a loop runs are not modelled: a loop is a value of
-- any type. `none` is the null pointer, and a read beyond the end of the vector.
pub mod Rounds
use duo_duo.Base.{
  ℕ, zero, suc, List, map, Option, none, some, length, get_elem?, ltb, leb, if◌then◌else◌,
}

pub record LoopPool {ℓ} (L : Type ℓ) : Type ℓ where
  pub loops : List L
  pub loop_index : ℕ

-- `++loopIndex_`, and back to 0 at the end.
abbrev pub next_index : ℕ → ℕ → ℕ
next_index n i = if leb n (suc i) then 0 else suc i

module _ {ℓ} {L : Type ℓ} where
  abbrev pub new_loop_pool : List L → LoopPool L
  new_loop_pool ls = record { loops = ls; loop_index = 0 }

  unfoldable pub get_next_loop : LoopPool L → Option L × LoopPool L
  get_next_loop p =
      if ltb 0 (length (p.loops))
      then (
        get_elem? (p.loops) (p.loop_index),
        record p { loop_index = next_index (length (p.loops)) (p.loop_index) },
      )
      else (none, p)

  unfoldable pub get_loop : LoopPool L → ℕ → Option L
  get_loop p id = if ltb id (length (p.loops)) then get_elem? (p.loops) id else none

  unfoldable pub get_loops : LoopPool L → List L
  get_loops p = p.loops

  -- The pool after some calls of `getNextLoop`.
  unfoldable pub after : ℕ → LoopPool L → LoopPool L
  after zero p = p
  after (suc k) p = (get_next_loop (after k p)).1
