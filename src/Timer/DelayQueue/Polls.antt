-- ===== src/Timer/DelayQueue/Polls.antt =====
-- DelayQueue::poll gives the entries that are due, in the order of their times.
use duo_duo.Base.{
  ℕ, zero, suc, ◌-◌, ◌≤◌, ◌<◌, ◌≡◌, ◌⊎◌, inl, inr, refl, ap, sym, subst, true, false, List, [], ◌∷◌,
  ◌++◌, Option, none, some, ltb, ltb→lt, if◌then◌else◌, arith, length, Bool-cases,
}
use mathlib.Core.List.{Perm}
use mathlib.Core.List.Perm
use duo_duo.Timer.Time.{Time, total, of_total, minus}
use duo_duo.Timer.Time.Arithmetic.{total-of_total}
use duo_duo.Timer.DelayQueue.{Entry, later, extract, get_delay, poll, poll_all}

abbrev pub at : Entry → ℕ
at e = total e.expiration

-- No entry is before a time.
unfoldable pub IsFrom : ℕ → List Entry → Type 0
IsFrom b [] = Unit {0}
IsFrom b (e ∷ q) = (b ≤ at e) × IsFrom b q

-- The entries are in the order of their times, and none is before a time.
unfoldable pub IsRising : ℕ → List Entry → Type 0
IsRising b [] = Unit {0}
IsRising b (e ∷ q) = (b ≤ at e) × IsRising (at e) q

-- Every entry is due.
unfoldable pub IsDue : ℕ → List Entry → Type 0
IsDue now [] = Unit {0}
IsDue now (e ∷ q) = (at e ≤ now) × IsDue now q

IsFrom-mono : (b c : ℕ) (q : List Entry) → c ≤ b → IsFrom b q → IsFrom c q
unfolding IsFrom
IsFrom-mono b c [] h t = tt
IsFrom-mono b c (e ∷ q) h (p, t) = (omega arith, IsFrom-mono b c q h t)

-- What is first is an entry of the queue, no other is before it, and the others stay.
abbrev Least : Entry → List Entry → Entry × List Entry → Type 0
Least x q t =
    Perm (t.0 ∷ t.1) (x ∷ q)
    × IsFrom (at t.0) (x ∷ q)
    × IsFrom (at t.0) t.1
    × (length t.1 ≡ length q)

extract-Least : (x : Entry) (q : List Entry) → Least x q (extract x q)
unfolding extract IsFrom
extract-Least x [] = (Perm.refl _, (omega arith, tt), tt, refl)
extract-Least x (y ∷ q) =
    let (p, f, g, l) = extract-Least y q in
    let m = (extract y q).0 in
    let r = (extract y q).1 in
    elim (Bool-cases (later x m)) [
      | inl t ↦
          let k = ltb→lt _ _ t in
          let e : extract x (y ∷ q) ≡ (m, x ∷ r) =
            ap (λ b. if b then (m, x ∷ r) else (x, y ∷ q)) t in
          subst (Least x (y ∷ q)) (sym e) (
            Perm.trans (Perm.swap _ _ _) (Perm.cons x p),
            (omega (arith, k), f),
            (omega (arith, k), g),
            ap suc l,
          )
      | inr t ↦
          let low : at x ≤ at m = ground (arith, t) in
          let e : extract x (y ∷ q) ≡ (x, y ∷ q) =
            ap (λ b. if b then (m, x ∷ r) else (x, y ∷ q)) t in
          subst (Least x (y ∷ q)) (sym e) (
            Perm.refl _,
            (omega arith, IsFrom-mono (at m) (at x) (y ∷ q) low f),
            IsFrom-mono (at m) (at x) (y ∷ q) low f,
            refl,
          )
    ]

extract-from : (b : ℕ) (x : Entry) (q : List Entry) → IsFrom b (x ∷ q) → b ≤ at (extract x q).0
unfolding extract IsFrom
extract-from b x [] f = f.0
extract-from b x (y ∷ q) f =
    let ih = extract-from b y q (f.1) in
    let m = (extract y q).0 in
    let r = (extract y q).1 in
    elim (later x m)
      as (λ t.
        b ≤ at (let w : Entry × List Entry = (if t then (m, x ∷ r) else (x, y ∷ q)) in w.0)) [
          | true ↦ ih
          | false ↦ f.0
        ]

-- What is not due is after the time, what is due is not.
get_delay-at :
    (e : Entry) (now : Time)
    → (get_delay e now ≡ true) × (total now < at e)
      ⊎ ((get_delay e now ≡ false) × (at e ≤ total now))
unfolding get_delay minus
get_delay-at e now = elim (Bool-cases (ltb (at e) (total now))) [
  | inl t ↦ inr (rw (t, get_delay, minus) refl, ground (arith, t))
  | inr t ↦
      let d : total (of_total (at e - total now)) ≡ at e - total now =
        total-of_total (at e - total now) in
      elim (Bool-cases (ltb 0 (at e - total now))) [
        | inl u ↦ inl (rw (t, get_delay, minus, d, u) refl, ground (arith, u))
        | inr u ↦ inr (rw (t, get_delay, minus, d, u) refl, ground (arith, u, t))
      ]
]

-- Of a queue, what was given and what is left.
abbrev pub IsSplit : ℕ → ℕ → List Entry → List Entry × List Entry → Type 0
IsSplit b now q t = IsRising b t.0 × IsDue now t.0 × IsFrom (suc now) t.1 × Perm (t.0 ++ t.1) q

-- As many calls as there are entries give all that are due at that time and leave all that are
-- not: together they are the entries of the queue, and those given come in the order of their
-- times.
pub poll_all-IsSplit :
    (n : ℕ) (now : Time) (b : ℕ) (q : List Entry)
    → length q ≤ n
    → IsFrom b q
    → IsSplit b (total now) q (poll_all n now q)
unfolding poll_all poll IsFrom IsRising IsDue
poll_all-IsSplit zero now b [] h f = (tt, tt, tt, Perm.refl _)
poll_all-IsSplit zero now b (x ∷ q) h f = absurd (omega (arith, h))
poll_all-IsSplit (suc n) now b [] h f = (tt, tt, tt, Perm.refl _)
poll_all-IsSplit (suc n) now b (x ∷ q) h f =
    let (p, low, g, l) = extract-Least x q in
    let m = (extract x q).0 in
    let r = (extract x q).1 in
    let next = λ (t : Option Entry × List Entry). elim (t.0) as (λ _. List Entry × List Entry) [
      | none ↦ ([], t.1)
      | some e ↦ (e ∷ (poll_all n now (t.1)).0, (poll_all n now (t.1)).1)
    ] in
    elim (get_delay-at m now) [
      | inl (t, late) ↦
          let e : poll now (x ∷ q) ≡ (none, x ∷ q) =
            ap (λ d. if d then (none, x ∷ q) else (some m, r)) t in
          subst (IsSplit b (total now) (x ∷ q)) (sym (ap next e))
            (tt, tt, IsFrom-mono (at m) (suc (total now)) (x ∷ q) (omega arith) low, Perm.refl _)
      | inr (t, due) ↦
          let e : poll now (x ∷ q) ≡ (some m, r) =
            ap (λ d. if d then (none, x ∷ q) else (some m, r)) t in
          let (rise, dues, rest, same) = poll_all-IsSplit n now (at m) r (omega (arith, h, l)) g in
          subst (IsSplit b (total now) (x ∷ q)) (sym (ap next e))
            ((extract-from b x q f, rise), (due, dues), rest, Perm.trans (Perm.cons m same) p)
    ]
