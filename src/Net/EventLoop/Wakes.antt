-- ===== src/Net/EventLoop/Wakes.antt =====
-- EventLoop.cpp: no function that was queued is forgotten.
use duo_duo.Base.{
  ℕ, zero, suc, ◌+◌, ◌<◌, ◌≡◌, ◌⊎◌, inl, inr, refl, ap, ◌∙◌, sym, subst, false, List, [], ◌∷◌, ◌++◌,
  append_assoc, Option, none, some, arith,
}
use mathlib.Core.Option.{some-injective}
use duo_duo.Net.EventLoop.{
  Phase, idle, polling, handling, pending, leaving, EventLoop, new_loop, write_wakeup, Step,
  enqueued, woken, quit_elsewhere, quit_here, queued, looped, polled, wake_event, event, began, ran,
  found_empty, ended, step, run,
}
use duo_duo.Net.EventLoop.Awake.{IsAwake, IsOrderly, OnSome, more-IsAwake, kept-IsAwake}
use duo_duo.Net.EventLoop.Phases.{own-IsOrderly}

wrote : (w : ℕ) (l : EventLoop) → l.writers ≡ w → IsOrderly l → OnSome (write_wakeup w l)
wrote zero l e v = tt
wrote (suc w) l e v = record {
  order = v.order;
  awake = kept-IsAwake l.phase l _ refl refl (omega (arith, e)) v.awake;
}

step-IsOrderly : (s : Step) (l : EventLoop) → IsOrderly l → OnSome (step s l)
unfolding step
step-IsOrderly (enqueued f) l v = record {
  order = sym (append_assoc l.executed l.funcs (f ∷ [])) ∙ ap (λ q. q ++ f ∷ []) v.order;
  awake = more-IsAwake l.phase f l v.awake;
}
step-IsOrderly woken l v = wrote l.writers l refl v
step-IsOrderly quit_elsewhere l v = record {
  order = v.order;
  awake = kept-IsAwake l.phase l _ refl refl (omega arith) v.awake;
}
step-IsOrderly quit_here l v = record {
  order = v.order;
  awake = kept-IsAwake l.phase l _ refl refl (omega arith) v.awake;
}
step-IsOrderly (queued fs) l v = own-IsOrderly l.phase (queued fs) l v.order refl v.awake
step-IsOrderly looped l v = own-IsOrderly l.phase looped l v.order refl v.awake
step-IsOrderly polled l v = own-IsOrderly l.phase polled l v.order refl v.awake
step-IsOrderly wake_event l v = own-IsOrderly l.phase wake_event l v.order refl v.awake
step-IsOrderly (event fs) l v = own-IsOrderly l.phase (event fs) l v.order refl v.awake
step-IsOrderly began l v = own-IsOrderly l.phase began l v.order refl v.awake
step-IsOrderly (ran fs) l v = own-IsOrderly l.phase (ran fs) l v.order refl v.awake
step-IsOrderly found_empty l v = own-IsOrderly l.phase found_empty l v.order refl v.awake
step-IsOrderly ended l v = own-IsOrderly l.phase ended l v.order refl v.awake

run-steps : (ss : List Step) (l k : EventLoop) → IsOrderly l → run ss l ≡ some k → IsOrderly k
unfolding run
run-steps [] l k v e = subst IsOrderly (some-injective _ _ e) v
run-steps (s ∷ ss) l k v e =
    next (step s l) (λ m w f. run-steps ss m k w f) (step-IsOrderly s l v) e
  where
    next :
        (o : Option EventLoop)
        → ((m : EventLoop) → IsOrderly m → run ss m ≡ some k → IsOrderly k)
        → OnSome o
        → elim o as (λ _. Option EventLoop) [ none ↦ none | some m ↦ run ss m ] ≡ some k
        → IsOrderly k
    next none go w f = absurd (cc)
    next (some m) go w f = go m w f

-- From a new loop that is not said to be at its functions, through any steps of its thread and of
-- others in any order: the functions that ran, in their order, and then those that wait are the
-- functions that were queued, in the order in which they were. And when the loop is about to wait
-- in `poll`, or has not begun, and a function waits, a wake-up was written that it has not read, or
-- a thread is about to write one: no function is forgotten.
pub run-IsOrderly :
    (ss : List Step) (k : EventLoop)
    → run ss (new_loop false) ≡ some k
    → (k.executed ++ k.funcs ≡ k.submitted)
      × ((k.phase ≡ polling) ⊎ (k.phase ≡ idle) → (k.funcs ≡ []) ⊎ (0 < k.wakeups + k.writers))
unfolding IsAwake
run-IsOrderly ss k e =
    let v = run-steps ss (new_loop false) k (record { order = refl; awake = (refl, inl refl) }) e in
    (v.order, sleeping k.phase refl v.awake)
  where
    sleeping :
        (p : Phase)
        → k.phase ≡ p
        → IsAwake p k
        → (k.phase ≡ polling) ⊎ (k.phase ≡ idle)
        → (k.funcs ≡ []) ⊎ (0 < k.wakeups + k.writers)
    sleeping idle e a h = a.1
    sleeping polling e a h = a.1
    sleeping handling e a h = absurd (elim h [ inl t ↦ cc | inr t ↦ cc ])
    sleeping pending e a h = absurd (elim h [ inl t ↦ cc | inr t ↦ cc ])
    sleeping leaving e a h = absurd (elim h [ inl t ↦ cc | inr t ↦ cc ])
