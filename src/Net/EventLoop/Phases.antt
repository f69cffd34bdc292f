-- ===== src/Net/EventLoop/Phases.antt =====
-- The steps of the loop's own thread, by where it is.
use duo_duo.Base.{
  ℕ, Bool, ◌≡◌, inl, inr, arith, refl, ap, ◌∙◌, sym, subst, true, false, List, [], ◌∷◌, ◌++◌,
  append_assoc, none, some, if◌then◌else◌, ◌||◌, ltb, Bool-cases,
}
use duo_duo.Net.EventLoop.{
  Phase, idle, polling, handling, pending, leaving, EventLoop, run_first, no_funcs, step_polling,
  step_handling, step_pending, step_leaving, own, queue_all, Step, enqueued, woken, quit_elsewhere,
  quit_here, queued, looped, step_idle, polled, wake_event, event, began, ran, found_empty, ended,
}
use duo_duo.Net.EventLoop.Awake.{IsCalled, IsAwake, queue_all-Keeps, queue_all-wakes, OnSome}

ran_first :
    (fs q : List ℕ) (l : EventLoop)
    → l.funcs ≡ q
    → l.executed ++ l.funcs ≡ l.submitted
    → l.phase ≡ pending
    → l.calling_pending_funcs ≡ true
    → OnSome (run_first fs q l)
unfolding IsAwake
ran_first fs [] l e v h a = tt
ran_first fs (f ∷ rest) l e v h a =
    let m : EventLoop = record l { funcs = rest; executed = l.executed ++ f ∷ [] } in
    let o : m.executed ++ m.funcs ≡ m.submitted =
      append_assoc l.executed (f ∷ []) rest ∙ ap (λ q. l.executed ++ q) (sym e) ∙ v in
    let (x, p, c) = queue_all-Keeps fs m o in
    record { order = x; awake = subst (λ q. IsAwake q (queue_all fs m)) (sym (p ∙ h)) (c ∙ a) }

emptied :
    (q : List ℕ) (l : EventLoop)
    → l.funcs ≡ q
    → l.executed ++ l.funcs ≡ l.submitted
    → l.calling_pending_funcs ≡ true
    → OnSome (if no_funcs q || ltb 0 l.writers then some (record l { phase = leaving }) else none)
unfolding IsAwake
emptied [] l e v a = record { order = v; awake = (a, inl e) }
emptied (f ∷ q) l e v a = elim (Bool-cases (ltb 0 l.writers)) [
  | inl t ↦ rw t (record { order = v; awake = (a, inr (ground (arith, t))) })
  | inr t ↦ rw t tt
]

at_idle :
    (s : Step) (l : EventLoop)
    → l.executed ++ l.funcs ≡ l.submitted
    → l.phase ≡ idle
    → IsAwake idle l
    → OnSome (step_idle s l)
unfolding IsAwake
at_idle (queued fs) l v h a =
    let (o, p, c) = queue_all-Keeps fs l v in
    record {
      order = o;
      awake =
          subst (λ q. IsAwake q (queue_all fs l)) (sym (p ∙ h))
            (c ∙ a.0, queue_all-wakes fs l (a.0) (a.1));
    }
at_idle looped l v h a = record { order = v; awake = a }
at_idle (enqueued f) l v h a = tt
at_idle woken l v h a = tt
at_idle quit_elsewhere l v h a = tt
at_idle quit_here l v h a = tt
at_idle polled l v h a = tt
at_idle wake_event l v h a = tt
at_idle (event fs) l v h a = tt
at_idle began l v h a = tt
at_idle (ran fs) l v h a = tt
at_idle found_empty l v h a = tt
at_idle ended l v h a = tt

at_polling :
    (s : Step) (l : EventLoop)
    → l.executed ++ l.funcs ≡ l.submitted
    → l.phase ≡ polling
    → IsAwake polling l
    → OnSome (step_polling s l)
unfolding IsAwake
at_polling (enqueued f) l v h a = tt
at_polling woken l v h a = tt
at_polling quit_elsewhere l v h a = tt
at_polling quit_here l v h a = tt
at_polling (queued fs) l v h a = tt
at_polling looped l v h a = tt
at_polling polled l v h a = record { order = v; awake = a.0 }
at_polling wake_event l v h a = tt
at_polling (event fs) l v h a = tt
at_polling began l v h a = tt
at_polling (ran fs) l v h a = tt
at_polling found_empty l v h a = tt
at_polling ended l v h a = tt

at_handling :
    (s : Step) (l : EventLoop)
    → l.executed ++ l.funcs ≡ l.submitted
    → l.phase ≡ handling
    → IsAwake handling l
    → OnSome (step_handling s l)
unfolding IsAwake
at_handling (enqueued f) l v h a = tt
at_handling woken l v h a = tt
at_handling quit_elsewhere l v h a = tt
at_handling quit_here l v h a = tt
at_handling (queued fs) l v h a = tt
at_handling looped l v h a = tt
at_handling polled l v h a = tt
at_handling wake_event l v h a = record { order = v; awake = rw h a }
at_handling (event fs) l v h a =
    let (o, p, c) = queue_all-Keeps fs l v in
    record { order = o; awake = subst (λ q. IsAwake q (queue_all fs l)) (sym (p ∙ h)) (c ∙ a) }
at_handling began l v h a = record { order = v; awake = refl }
at_handling (ran fs) l v h a = tt
at_handling found_empty l v h a = tt
at_handling ended l v h a = tt

at_pending :
    (s : Step) (l : EventLoop)
    → l.executed ++ l.funcs ≡ l.submitted
    → l.phase ≡ pending
    → IsAwake pending l
    → OnSome (step_pending s l)
unfolding IsAwake
at_pending (enqueued f) l v h a = tt
at_pending woken l v h a = tt
at_pending quit_elsewhere l v h a = tt
at_pending quit_here l v h a = tt
at_pending (queued fs) l v h a = tt
at_pending looped l v h a = tt
at_pending polled l v h a = tt
at_pending wake_event l v h a = tt
at_pending (event fs) l v h a = tt
at_pending began l v h a = tt
at_pending (ran fs) l v h a = ran_first fs l.funcs l refl v h a
at_pending found_empty l v h a = emptied l.funcs l refl v a
at_pending ended l v h a = tt

rested :
    (b : Bool) (l : EventLoop)
    → l.calling_pending_funcs ≡ false
    → IsCalled l
    → IsAwake (if b then idle else polling) l
unfolding IsAwake
rested true l a w = (a, w)
rested false l a w = (a, w)

pub at_leaving :
    (s : Step) (l : EventLoop)
    → l.executed ++ l.funcs ≡ l.submitted
    → l.phase ≡ leaving
    → IsAwake leaving l
    → OnSome (step_leaving s l)
unfolding IsAwake
at_leaving (enqueued f) l v h a = tt
at_leaving woken l v h a = tt
at_leaving quit_elsewhere l v h a = tt
at_leaving quit_here l v h a = tt
at_leaving (queued fs) l v h a = tt
at_leaving looped l v h a = tt
at_leaving polled l v h a = tt
at_leaving wake_event l v h a = tt
at_leaving (event fs) l v h a = tt
at_leaving began l v h a = tt
at_leaving (ran fs) l v h a = tt
at_leaving found_empty l v h a = tt
at_leaving ended l v h a = record { order = v; awake = rested l.quit _ refl (a.1) }

pub own-IsOrderly :
    (p : Phase) (s : Step) (l : EventLoop)
    → l.executed ++ l.funcs ≡ l.submitted
    → l.phase ≡ p
    → IsAwake p l
    → OnSome (own p s l)
own-IsOrderly idle = at_idle
own-IsOrderly polling = at_polling
own-IsOrderly handling = at_handling
own-IsOrderly pending = at_pending
own-IsOrderly leaving = at_leaving
