-- ===== src/Pool/Allocator/LeastUsed.antt =====
-- PoolByteBufAllocator::leastUsedArena finds the first of the arenas with the fewest thread caches.
use duo_duo.Base.{
  ℕ, suc, ◌+◌, ◌≤◌, ◌<◌, ◌≡◌, inl, inr, refl, ◌∙◌, sym, ap, subst, List, [], ◌∷◌, some, arith, ltb,
  Bool-cases, get_or, length,
}
use duo_duo.Pool.Allocator.{least_loop, least_used_arena}

-- The counts from a place on.
abbrev Agrees : (ℕ → ℕ) → List ℕ → ℕ → Type 0
Agrees all cs i = (j : ℕ) → j < length cs → get_or cs j 0 ≡ all (i + j)

least_loop-least :
    (all : ℕ → ℕ) (cs : List ℕ) (i m : ℕ)
    → Agrees all cs i
    → m < i + length cs
    → ((j : ℕ) → j < i → all m ≤ all j)
    → let r = least_loop cs i m (all m) in
      (r < i + length cs) × ((j : ℕ) → j < i + length cs → all r ≤ all j)
unfolding least_loop
least_loop-least all [] i m a h f = (h, λ j l. f j (omega (arith, l)))
least_loop-least all (c ∷ cs) i m a h f =
    let here : c ≡ all i = a 0 (omega arith) ∙ ap all (omega arith) in
    let rest : Agrees all cs (suc i) = λ j l. a (suc j) (omega (arith, l)) ∙ ap all (omega arith) in
    let end : suc i + length cs ≡ i + suc (length cs) = omega arith in
    let Q : ℕ → ℕ → Type 0 = λ r e. (r < e) × ((j : ℕ) → j < e → all r ≤ all j) in
    elim (Bool-cases (ltb c (all m))) [
      | inl t ↦
          let less : all i < all m = ground (arith, t, here) in
          let now : (j : ℕ) → j < suc i → all i ≤ all j = λ j l. elim (Bool-cases (ltb j i)) [
            | inl u ↦ omega (arith, less, f j (ground (arith, u)))
            | inr u ↦ (let e : j ≡ i = ground (arith, u, l) in omega (arith, ap all e))
          ] in
          let ih = least_loop-least all cs (suc i) i rest (omega arith) now in
          rw t (
            subst (Q (least_loop cs (suc i) i c)) end
              (subst (λ v. Q (least_loop cs (suc i) i v) (suc i + length cs)) (sym here) ih))
      | inr t ↦
          let most : all m ≤ all i = ground (arith, t, here) in
          let now : (j : ℕ) → j < suc i → all m ≤ all j = λ j l. elim (Bool-cases (ltb j i)) [
            | inl u ↦ f j (ground (arith, u))
            | inr u ↦ (let e : j ≡ i = ground (arith, u, l) in omega (arith, most, ap all e))
          ] in
          rw t (
            subst (Q (least_loop cs (suc i) m (all m))) end
              (least_loop-least all cs (suc i) m rest (omega (arith, h)) now))
    ]

-- With an arena at all, the one that a thread is given is one of them, and none has fewer thread
-- caches.
pub least_used_arena-least :
    (c : ℕ) (cs : List ℕ)
    → (r : ℕ) × (least_used_arena (c ∷ cs) ≡ some r)
      × (r < length (c ∷ cs))
      × ((j : ℕ) → j < length (c ∷ cs) → get_or (c ∷ cs) r 0 ≤ get_or (c ∷ cs) j 0)
unfolding least_used_arena
least_used_arena-least c cs =
    let all = λ (j : ℕ). get_or (c ∷ cs) j 0 in
    let agrees : Agrees all (c ∷ cs) 0 = λ j l. ap all (omega arith) in
    let (a, b) =
      least_loop-least all (c ∷ cs) 0 0 agrees (omega arith) (λ j l. absurd (omega (arith, l))) in
    (_, refl, omega (arith, a), λ j l. b j (omega (arith, l)))
