-- ===== src/Net/EventLoop.antt =====
-- EventLoop.cpp: the functions that wait for a loop's thread, and the descriptor that wakes it. A
-- function is a number. The loop's thread and the others take steps in any order; what another
-- thread does in `queueInLoop` is two steps. `none` is a step that cannot happen.
mod Awake
mod Phases
pub mod Wakes
use duo_duo.Base.{
  ℕ, zero, suc, ◌+◌, Bool, true, false, not, ◌||◌, List, [], ◌∷◌, ◌++◌, Option, none, some, ltb,
  if◌then◌else◌,
}

-- Where the loop's thread is: not in `loop`, in `poll`, at the events, in `doPendingFuncs`, and
-- there after it has found the queue empty.
pub data Phase : Type 0 where
  idle : Phase
  polling : Phase
  handling : Phase
  pending : Phase
  leaving : Phase

-- `wakeups` is the counter of the wake-up descriptor; `writers` are the other threads that have yet to call
-- `wakeup`. The last two are all functions queued and all that ran, in order.
pub record EventLoop : Type 0 where
  pub phase : Phase
  pub funcs : List ℕ
  pub calling_pending_funcs : Bool
  pub quit : Bool
  pub wakeups : ℕ
  pub writers : ℕ
  pub submitted : List ℕ
  pub executed : List ℕ

-- The constructor gives `callingPendingFuncs_` no value: the argument is what it happens to be.
abbrev pub new_loop : Bool → EventLoop
new_loop calling = record {
  phase = idle;
  funcs = [];
  calling_pending_funcs = calling;
  quit = false;
  wakeups = 0;
  writers = 0;
  submitted = [];
  executed = [];
}

abbrev pub enqueue : ℕ → EventLoop → EventLoop
enqueue f l = record l { funcs = l.funcs ++ f ∷ []; submitted = l.submitted ++ f ∷ [] }

abbrev pub wakeup : EventLoop → EventLoop
wakeup l = record l { wakeups = l.wakeups + 1 }

-- `handleRead`: a read of the descriptor sets its counter back.
abbrev pub handle_read : EventLoop → EventLoop
handle_read l = record l { wakeups = 0 }

abbrev pub queue_in_loop : Bool → ℕ → EventLoop → EventLoop
queue_in_loop in_loop_thread f l = elim (not in_loop_thread || not l.calling_pending_funcs) [
  | true ↦ wakeup (enqueue f l)
  | false ↦ enqueue f l
]

-- What a callback queues from the loop's thread.
abbrev pub queue_all : List ℕ → EventLoop → EventLoop
queue_all [] l = l
queue_all (f ∷ fs) l = queue_all fs (queue_in_loop true f l)

-- `enqueued`, `woken` and `quit_elsewhere` are steps of other threads, all else of the loop's own.
pub data Step : Type 0 where
  enqueued : ℕ → Step
  woken : Step
  quit_elsewhere : Step
  quit_here : Step
  queued : List ℕ → Step
  looped : Step
  polled : Step
  wake_event : Step
  event : List ℕ → Step
  began : Step
  ran : List ℕ → Step
  found_empty : Step
  ended : Step

-- `ran` takes a function from the queue and calls it; it queues others.
abbrev pub run_first : List ℕ → List ℕ → EventLoop → Option EventLoop
run_first fs [] l = none
run_first fs (f ∷ rest) l =
    some (queue_all fs (record l { funcs = rest; executed = l.executed ++ f ∷ [] }))

abbrev pub no_funcs : List ℕ → Bool
no_funcs [] = true
no_funcs (f ∷ fs) = false

abbrev pub step_idle : Step → EventLoop → Option EventLoop
step_idle (queued fs) l = some (queue_all fs l)
step_idle looped l = some (record l { phase = polling; quit = false })
step_idle _ l = none

abbrev pub step_polling : Step → EventLoop → Option EventLoop
step_polling polled l = some (record l { phase = handling })
step_polling _ l = none

abbrev pub step_handling : Step → EventLoop → Option EventLoop
step_handling wake_event l = some (handle_read l)
step_handling (event fs) l = some (queue_all fs l)
step_handling began l = some (record l { phase = pending; calling_pending_funcs = true })
step_handling _ l = none

-- The queue, that of Net.MpscQueue, may be found empty while a producer is in the middle of
-- `enqueue`, and so before its `wakeup`.
abbrev pub step_pending : Step → EventLoop → Option EventLoop
step_pending (ran fs) l = run_first fs l.funcs l
step_pending found_empty l =
    if no_funcs l.funcs || ltb 0 l.writers then some (record l { phase = leaving }) else none
step_pending _ l = none

abbrev pub step_leaving : Step → EventLoop → Option EventLoop
step_leaving ended l =
    some (record l { phase = if l.quit then idle else polling; calling_pending_funcs = false })
step_leaving _ l = none

-- A step of the loop's thread, by where it is.
abbrev pub own : Phase → Step → EventLoop → Option EventLoop
own idle s l = step_idle s l
own polling s l = step_polling s l
own handling s l = step_handling s l
own pending s l = step_pending s l
own leaving s l = step_leaving s l

-- The second half of `queueInLoop` or `quit` in another thread.
abbrev pub write_wakeup : ℕ → EventLoop → Option EventLoop
write_wakeup zero l = none
write_wakeup (suc w) l = some (wakeup (record l { writers = w }))

unfoldable pub step : Step → EventLoop → Option EventLoop
step (enqueued f) l = some (record (enqueue f l) { writers = suc l.writers })
step woken l = write_wakeup l.writers l
step quit_elsewhere l = some (record l { quit = true; writers = suc l.writers })
step quit_here l = some (record l { quit = true })
step s l = own l.phase s l

unfoldable pub run : List Step → EventLoop → Option EventLoop
run [] l = some l
run (s ∷ ss) l = elim (step s l) [ none ↦ none | some k ↦ run ss k ]
