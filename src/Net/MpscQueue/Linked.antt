-- ===== src/Net/MpscQueue/Linked.antt =====
-- MpscQueue: how its nodes hang together, and that its producers touch no deleted node.
use duo_duo.Base.{
  ℕ, zero, suc, ◌+◌, ◌-◌, ◌≤◌, ◌<◌, ◌≡◌, ◌≢◌, ◌⊎◌, inl, inr, refl, sym, ap, ◌∙◌, subst, true, false,
  List, [], ◌∷◌, ◌++◌, append_assoc, Option, none, some, arith, ◌==◌, if◌then◌else◌, Bool-cases,
  Option-cases,
}
use mathlib.Core.Option.{some-injective}
use duo_duo.Net.MpscQueue.{Queue, assign, exchange, link}

-- The values of so many nodes after a node.
unfoldable pub values : (ℕ → ℕ) → ℕ → ℕ → List ℕ
values data_ k zero = []
values data_ k (suc n) = data_ (suc k) ∷ values data_ (suc k) n

-- The nodes from the tail to the head follow each other; where a link is missing, the producer that
-- is to write it has the node before.
pub record IsLinked (q : Queue) : Type 0 where
  pub order : q.tail ≤ q.head
  pub alive : (k : ℕ) → q.tail ≤ k → q.deleted k ≡ false
  pub producers :
      (n p : ℕ)
      → q.previous n ≡ some p
      → (suc p ≡ n) × (q.tail ≤ p) × (p < q.head) × (q.next p ≡ none)
  pub chain :
      (k : ℕ) → q.tail ≤ k → k < q.head → (q.next k ≡ some (suc k)) ⊎ (q.previous (suc k) ≡ some k)
  pub ends : (k : ℕ) → q.head ≤ k → q.next k ≡ none
  pub fifo : q.delivered ++ values q.data_ q.tail (q.head - q.tail) ≡ q.submitted

pub assign_self {ℓ} : {A : Type ℓ} (f : ℕ → A) (k : ℕ) (v : A) → assign f k v k ≡ v
assign_self f k v = ap (λ b. if b then v else f k) (let e : (k == k) ≡ true = ground arith in e)

pub assign_ne {ℓ} : {A : Type ℓ} (f : ℕ → A) (k j : ℕ) (v : A) → j ≢ k → assign f k v j ≡ f j
assign_ne f k j v h =
    ap (λ b. if b then v else f j) (let e : (j == k) ≡ false = ground (arith, h) in e)

values-assign : (f : ℕ → ℕ) (m v k n : ℕ) → k + n < m → values (assign f m v) k n ≡ values f k n
unfolding values
values-assign f m v k zero h = refl
values-assign f m v k (suc n) h =
    rw
      (
        assign_ne f m (suc k) v (λ e. absurd (omega (arith, h, e))),
        values-assign f m v (suc k) n (omega (arith, h)),
      )
      refl

values_last : (f : ℕ → ℕ) (k n : ℕ) → values f k (suc n) ≡ values f k n ++ f (suc (k + n)) ∷ []
unfolding values
values_last f k zero = ap (λ j. f (suc j) ∷ []) (omega arith)
values_last f k (suc n) =
    ap (λ t. f (suc k) ∷ t) (values_last f (suc k) n)
    ∙ ap (λ j. f (suc k) ∷ (values f (suc k) n ++ f (suc j) ∷ [])) (omega arith)

pub exchange-IsLinked : (v : ℕ) (q : Queue) → IsLinked q → IsLinked (exchange v q)
exchange-IsLinked v q w =
    let node = suc q.head in
    let back = assign q.previous node (some q.head) in
    let data_ = assign q.data_ node v in
    let n = q.head - q.tail in
    record {
      order = omega (arith, w.order);
      alive = w.alive;
      producers = λ m p e. elim (Bool-cases (m == node)) [
        | inl t ↦
            let same : m ≡ node = ground (arith, t) in
            let old : q.head ≡ p =
              some-injective _ _
                (sym (assign_self q.previous node (some q.head)) ∙ ap back (sym same) ∙ e) in
            (
              omega (arith, same, old),
              omega (arith, w.order, old),
              omega (arith, old),
              w.ends p (omega (arith, old)),
            )
        | inr t ↦
            let ne : m ≢ node = ground (arith, t) in
            let (a, b, c, d) =
              w.producers m p (sym (assign_ne q.previous node m (some q.head) ne) ∙ e) in
            (a, b, omega (arith, c), d)
      ];
      chain = λ k h l. elim (Bool-cases (k == q.head)) [
        | inl t ↦
            let same : q.head ≡ k = ground (arith, t) in
            inr
              (subst (λ j. back (suc j) ≡ some j) same (assign_self q.previous node (some q.head)))
        | inr t ↦
            let ne : suc k ≢ node = ground (arith, t) in
            elim (w.chain k h (ground (arith, t, l))) [
              | inl e ↦ inl e
              | inr e ↦ inr (assign_ne q.previous node (suc k) (some q.head) ne ∙ e)
            ]
      ];
      ends = λ k h. w.ends k (omega (arith, h));
      fifo =
          ap (λ m. q.delivered ++ values data_ q.tail m)
            (let e : suc q.head - q.tail ≡ suc n = omega (arith, w.order) in e)
          ∙ ap (λ t. q.delivered ++ t) (values_last data_ q.tail n)
          ∙ sym (append_assoc q.delivered (values data_ q.tail n) _)
          ∙ ap (λ t. (q.delivered ++ t) ++ data_ (suc (q.tail + n)) ∷ [])
              (values-assign q.data_ node v q.tail n (omega (arith, w.order)))
          ∙ ap (λ t. t ++ data_ (suc (q.tail + n)) ∷ []) w.fifo
          ∙ ap (λ j. q.submitted ++ data_ j ∷ [])
              (let e : suc (q.tail + n) ≡ node = omega (arith, w.order) in e)
          ∙ ap (λ x. q.submitted ++ x ∷ []) (assign_self q.data_ node v);
    }

-- A step that touches no deleted node, and what is submitted after it.
abbrev pub Follows : List ℕ → Option Queue → Type 0
Follows submitted o = (r : Queue) × (o ≡ some r) × IsLinked r × (r.submitted ≡ submitted)

pub link-Follows : (node : ℕ) (q : Queue) → IsLinked q → Follows q.submitted (link node q)
unfolding link
link-Follows node q w = elim (Option-cases (q.previous node)) [
  | inl e ↦ rw (link, e) (q, refl, w, refl)
  | inr (p, e) ↦
      let (next_, low, high, open_) = w.producers node p e in
      let other : (m k : ℕ) → m ≢ node → suc k ≡ m → k ≢ p =
        λ m k ne s t. ne (omega (arith, s, t, next_)) in
      rw (link, e, w.alive p low)
        (
          _,
          refl,
          record {
            order = w.order;
            alive = w.alive;
            producers = λ m k f. elim (Bool-cases (m == node)) [
              | inl t ↦
                  let same : m ≡ node = ground (arith, t) in
                  absurd (
                    let z : none ≡ some k =
                      sym (assign_self q.previous node none)
                      ∙ ap (assign q.previous node none) (sym same)
                      ∙ f in
                    cc)
              | inr t ↦
                  let ne : m ≢ node = ground (arith, t) in
                  let (a, b, c, d) =
                    w.producers m k (sym (assign_ne q.previous node m none ne) ∙ f) in
                  (a, b, c, assign_ne q.next p k (some node) (other m k ne a) ∙ d)
            ];
            chain = λ k h l. elim (Bool-cases (k == p)) [
              | inl t ↦
                  let same : p ≡ k = ground (arith, t) in
                  inl (
                    subst (λ j. assign q.next p (some node) j ≡ some (suc j)) same
                      (assign_self q.next p (some node) ∙ ap some (sym next_)))
              | inr t ↦
                  let ne : k ≢ p = ground (arith, t) in
                  elim (w.chain k h l) [
                    | inl f ↦ inl (assign_ne q.next p k (some node) ne ∙ f)
                    | inr f ↦ inr (
                        assign_ne q.previous node (suc k) none (λ s. ne (omega (arith, s, next_)))
                        ∙ f)
                  ]
            ];
            ends = λ k h.
                assign_ne q.next p k (some node) (λ s. absurd (omega (arith, s, h, high)))
                ∙ w.ends k h;
            fifo = w.fifo;
          },
          refl,
        )
]
