-- ===== src/Net/EventLoop/Awake.antt =====
-- What holds of an event loop between two steps, and what the functions that its thread queues keep
-- of it.
use duo_duo.Base.{
  ℕ, suc, ◌+◌, ◌≤◌, ◌<◌, ◌≡◌, ◌⊎◌, not, ◌||◌, inl, inr, refl, ap, ◌∙◌, sym, subst, true, false,
  List, [], ◌∷◌, ◌++◌, append_assoc, Option, none, some, arith,
}
use duo_duo.Net.EventLoop.{
  Phase, idle, polling, handling, pending, leaving, EventLoop, enqueue, wakeup, queue_all,
}

-- Nothing waits, or a wake-up is there or on its way.
abbrev pub IsCalled : EventLoop → Type 0
IsCalled l = (l.funcs ≡ []) ⊎ (0 < l.wakeups + l.writers)

-- The flag for the calls is set just while the queue is worked off, and after that either nothing
-- waits or a wake-up is there or on its way.
unfoldable pub IsAwake : Phase → EventLoop → Type 0
IsAwake idle l = (l.calling_pending_funcs ≡ false) × IsCalled l
IsAwake polling l = (l.calling_pending_funcs ≡ false) × IsCalled l
IsAwake handling l = l.calling_pending_funcs ≡ false
IsAwake pending l = l.calling_pending_funcs ≡ true
IsAwake leaving l = (l.calling_pending_funcs ≡ true) × IsCalled l

-- What ran and then what waits is what was queued, in that order.
pub record IsOrderly (l : EventLoop) : Type 0 where
  pub order : l.executed ++ l.funcs ≡ l.submitted
  pub awake : IsAwake l.phase l

-- What the loop's thread queues itself changes neither the order nor where the loop is.
abbrev pub Keeps : EventLoop → EventLoop → Type 0
Keeps l k =
    (k.executed ++ k.funcs ≡ k.submitted)
    × (k.phase ≡ l.phase)
    × (k.calling_pending_funcs ≡ l.calling_pending_funcs)

pub queue_all-Keeps :
    (fs : List ℕ) (l : EventLoop) → l.executed ++ l.funcs ≡ l.submitted → Keeps l (queue_all fs l)
queue_all-Keeps [] l e = (e, refl, refl)
queue_all-Keeps (f ∷ fs) l e =
    let o : l.executed ++ (l.funcs ++ f ∷ []) ≡ l.submitted ++ f ∷ [] =
      sym (append_assoc l.executed l.funcs (f ∷ [])) ∙ ap (λ q. q ++ f ∷ []) e in
    elim (l.calling_pending_funcs)
      as (λ b. Keeps l (
        queue_all fs (elim (not true || not b) as (λ _. EventLoop) [
          | true ↦ wakeup (enqueue f l)
          | false ↦ enqueue f l
        ]))) [
          | true ↦ queue_all-Keeps fs (enqueue f l) o
          | false ↦ queue_all-Keeps fs (wakeup (enqueue f l)) o
        ]

-- What the thread queues while it is not at the functions that wait wakes it.
pub queue_all-wakes :
    (fs : List ℕ) (l : EventLoop)
    → l.calling_pending_funcs ≡ false
    → IsCalled l
    → IsCalled (queue_all fs l)
queue_all-wakes [] l a w = w
queue_all-wakes (f ∷ fs) l a w =
    let e : queue_all (f ∷ fs) l ≡ queue_all fs (wakeup (enqueue f l)) =
      ap
        (λ b. queue_all fs (elim (not true || not b) as (λ _. EventLoop) [
          | true ↦ wakeup (enqueue f l)
          | false ↦ enqueue f l
        ]))
        a in
    subst IsCalled (sym e) (queue_all-wakes fs (wakeup (enqueue f l)) a (inr (omega arith)))

-- A step that cannot happen leaves nothing to show.
abbrev pub OnSome : Option EventLoop → Type 0
OnSome none = Unit {0}
OnSome (some l) = IsOrderly l

-- A function more and a writer more.
pub more-IsAwake :
    (p : Phase) (f : ℕ) (l : EventLoop)
    → IsAwake p l
    → IsAwake p (record (enqueue f l) { writers = suc l.writers })
unfolding IsAwake
more-IsAwake idle f l a = (a.0, inr (omega arith))
more-IsAwake polling f l a = (a.0, inr (omega arith))
more-IsAwake handling f l a = a
more-IsAwake pending f l a = a
more-IsAwake leaving f l a = (a.0, inr (omega arith))

more_wakes :
    (l k : EventLoop)
    → k.funcs ≡ l.funcs
    → l.wakeups + l.writers ≤ k.wakeups + k.writers
    → IsCalled l
    → IsCalled k
more_wakes l k f h (inl e) = inl (f ∙ e)
more_wakes l k f h (inr w) = inr (omega (arith, h, w))

-- Other steps take no wake-up away.
pub kept-IsAwake :
    (p : Phase) (l k : EventLoop)
    → k.calling_pending_funcs ≡ l.calling_pending_funcs
    → k.funcs ≡ l.funcs
    → l.wakeups + l.writers ≤ k.wakeups + k.writers
    → IsAwake p l
    → IsAwake p k
unfolding IsAwake
kept-IsAwake idle l k e f h (a, w) = (e ∙ a, more_wakes l k f h w)
kept-IsAwake polling l k e f h (a, w) = (e ∙ a, more_wakes l k f h w)
kept-IsAwake handling l k e f h a = e ∙ a
kept-IsAwake pending l k e f h a = e ∙ a
kept-IsAwake leaving l k e f h (a, w) = (e ∙ a, more_wakes l k f h w)
