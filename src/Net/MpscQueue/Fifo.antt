-- ===== src/Net/MpscQueue/Fifo.antt =====
-- MpscQueue: what comes out is what went in, in the order of the exchanges.
use duo_duo.Base.{
  ℕ, suc, ◌-◌, ◌<◌, ◌≡◌, ◌≢◌, ◌⊎◌, inl, inr, refl, sym, ap, ◌∙◌, subst, true, List, [], ◌∷◌, ◌++◌,
  append_assoc, append-nil, none, some, arith, Bool-cases, Option-cases, ltb,
}
use mathlib.Core.Option.{some-injective}
use duo_duo.Net.MpscQueue.{
  Queue, new_queue, exchange, link, dequeue, Step, exchanged, linked, dequeued, step, run,
}
use duo_duo.Net.MpscQueue.Linked.{
  values, IsLinked, assign_ne, exchange-IsLinked, Follows, link-Follows,
}

-- Where the tail has a next node, it is the one after it.
next_node :
    (q : Queue) (m : ℕ) → IsLinked q → q.next q.tail ≡ some m → (q.tail < q.head) × (suc q.tail ≡ m)
next_node q m w e = elim (Bool-cases (ltb q.tail q.head)) [
  | inr t ↦ absurd (let z = w.ends q.tail (ground (arith, t)) in cc)
  | inl t ↦
      let lt : q.tail < q.head = ground (arith, t) in
      (
        lt,
        elim (w.chain q.tail (omega arith) lt) [
          | inl f ↦ some-injective _ _ (sym f ∙ e)
          | inr f ↦ absurd (let z = (w.producers (suc q.tail) q.tail f).3 in cc)
        ],
      )
]

dequeue-Follows : (q : Queue) → IsLinked q → Follows q.submitted (step dequeued q)
unfolding step dequeue values
dequeue-Follows q w =
    let here = w.alive q.tail (omega arith) in
    elim (Option-cases (q.next q.tail)) [
      | inl e ↦ rw (step, dequeue, here, e) (q, refl, w, refl)
      | inr (m, e) ↦
          let (lt, after) = next_node q m w e in
          let fresh = w.alive m (omega (arith, after)) in
          let n = q.head - m in
          rw (step, dequeue, here, e, fresh)
            (
              _,
              refl,
              record {
                order = omega (arith, lt, after);
                alive = λ k h.
                    assign_ne q.deleted q.tail k true (λ s. absurd (omega (arith, s, h, after)))
                    ∙ w.alive k (omega (arith, h, after));
                producers = λ k p f.
                    let (a, b, c, d) = w.producers k p f in
                    let ne : p ≢ q.tail = λ s. absurd (let z = sym (ap q.next s) ∙ d in cc) in
                    (a, omega (arith, b, ne, after), c, d);
                chain = λ k h l. w.chain k (omega (arith, h, after)) l;
                ends = w.ends;
                fifo =
                    append_assoc q.delivered (q.data_ m ∷ []) (values q.data_ m n)
                    ∙ ap (λ j. q.delivered ++ q.data_ j ∷ values q.data_ j n) (sym after)
                    ∙ ap (λ k. q.delivered ++ values q.data_ q.tail k)
                        (let g : suc n ≡ q.head - q.tail = omega (arith, lt, after) in g)
                    ∙ w.fifo;
              },
              refl,
            )
    ]

-- The values of the exchanges of some steps.
unfoldable pub came : List Step → List ℕ
came [] = []
came (exchanged v ∷ xs) = v ∷ came xs
came (linked node ∷ xs) = came xs
came (dequeued ∷ xs) = came xs

step-Follows :
    (x : Step) (q : Queue) → IsLinked q → Follows (q.submitted ++ came (x ∷ [])) (step x q)
unfolding step came
step-Follows (exchanged v) q w = (exchange v q, refl, exchange-IsLinked v q w, refl)
step-Follows (linked node) q w =
    subst (λ t. Follows t (link node q)) (sym (append-nil q.submitted)) (link-Follows node q w)
step-Follows dequeued q w =
    subst (λ t. Follows t (step dequeued q)) (sym (append-nil q.submitted)) (dequeue-Follows q w)

came-cons : (x : Step) (xs : List Step) → came (x ∷ xs) ≡ came (x ∷ []) ++ came xs
unfolding came
came-cons (exchanged v) xs = refl
came-cons (linked node) xs = refl
came-cons dequeued xs = refl

run-Follows :
    (xs : List Step) (q : Queue) → IsLinked q → Follows (q.submitted ++ came xs) (run xs q)
unfolding run came
run-Follows [] q w = (q, refl, w, sym (append-nil q.submitted))
run-Follows (x ∷ xs) q w =
    let (r, e, v, s) = step-Follows x q w in
    let (t, f, u, z) = run-Follows xs r v in
    let all : t.submitted ≡ q.submitted ++ came (x ∷ xs) =
      z
      ∙ ap (λ l. l ++ came xs) s
      ∙ append_assoc q.submitted (came (x ∷ [])) (came xs)
      ∙ ap (λ l. q.submitted ++ l) (sym (came-cons x xs)) in
    (t, rw (run, e) f, u, all)

new_queue-IsLinked : IsLinked new_queue
unfolding values
new_queue-IsLinked = record {
  order = omega arith;
  alive = λ k h. refl;
  producers = λ n p e. absurd (cc);
  chain = λ k h l. absurd (omega (arith, l));
  ends = λ k h. refl;
  fifo = refl;
}

-- From an empty queue, any steps of producers and of the consumer, in any order, touch no node that
-- was deleted. What came out, in that order, and then the values from the tail to the head are the
-- values of the exchanges, in their order. And where the consumer finds nothing, the queue is
-- empty or the producer of the next node is between its exchange and its store.
pub run-fifo :
    (xs : List Step)
    → (q : Queue) × (run xs new_queue ≡ some q)
      × (q.delivered ++ values q.data_ q.tail (q.head - q.tail) ≡ came xs)
      × (q.next q.tail ≡ none → (q.tail ≡ q.head) ⊎ (q.previous (suc q.tail) ≡ some q.tail))
run-fifo xs =
    let (q, e, w, s) = run-Follows xs new_queue new_queue-IsLinked in
    (q, e, w.fifo ∙ s, λ h. stopped q w h)
  where
    stopped :
        (q : Queue)
        → IsLinked q
        → q.next q.tail ≡ none
        → (q.tail ≡ q.head) ⊎ (q.previous (suc q.tail) ≡ some q.tail)
    stopped q w h = elim (Bool-cases (ltb q.tail q.head)) [
      | inr t ↦ inl (let o = w.order in ground (arith, t, o))
      | inl t ↦ elim (w.chain q.tail (omega arith) (ground (arith, t))) [
        | inl e ↦ absurd (cc)
        | inr e ↦ inr e
      ]
    ]
