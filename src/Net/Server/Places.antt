-- ===== src/Net/Server/Places.antt =====
-- Where a connection of a server is: in the set, in the loop that is to establish it, and among the
-- removals.
use duo_duo.Base.{
  ℕ, ◌+◌, ◌≤◌, ◌<◌, ◌≡◌, ◌≢◌, ◌⊎◌, inl, inr, refl, ap, ◌∙◌, subst, true, false, not, ◌&&◌, List, [],
  ◌∷◌, ◌++◌, arith, length, Option, some, ◌==◌, if◌then◌else◌, Bool-cases, ltb,
}
use duo_duo.Net.Connection.{State, Connection, is_connecting, is_disconnected}
use duo_duo.Net.Connection.States.{IsConsistent, rank}
use duo_duo.Net.Server.{Server, put, without, contains}
use duo_duo.Net.Server.Moves.{is_live}

abbrev pub count : ℕ → List ℕ → ℕ
count n [] = 0
count n (m ∷ ms) = (if n == m then 1 else 0) + count n ms

pub count-cons_self : (n : ℕ) (ms : List ℕ) → count n (n ∷ ms) ≡ count n ms + 1
count-cons_self n ms = ground arith

pub count-cons_ne : (j n : ℕ) (ms : List ℕ) → j ≢ n → count j (n ∷ ms) ≡ count j ms
count-cons_ne j n ms h = ground (arith, h)

pub count-without_self : (n : ℕ) (ms : List ℕ) → count n (without n ms) ≡ 0
count-without_self n [] = refl
count-without_self n (m ∷ ms) = ground (arith, count-without_self n ms)

pub count-without_ne : (j n : ℕ) (ms : List ℕ) → j ≢ n → count j (without n ms) ≡ count j ms
count-without_ne j n [] h = refl
count-without_ne j n (m ∷ ms) h = ground (arith, h, count-without_ne j n ms h)

pub count-append_self : (n : ℕ) (ms : List ℕ) → count n (ms ++ n ∷ []) ≡ count n ms + 1
count-append_self n [] = ground arith
count-append_self n (m ∷ ms) = omega (arith, count-append_self n ms)

pub count-append_ne : (j n : ℕ) (ms : List ℕ) → j ≢ n → count j (ms ++ n ∷ []) ≡ count j ms
count-append_ne j n [] h = ground (arith, h)
count-append_ne j n (m ∷ ms) h = omega (arith, count-append_ne j n ms h)

pub count-contains : (n : ℕ) (ms : List ℕ) → 0 < count n ms → contains n ms ≡ true
count-contains n [] h = absurd (omega (arith, h))
count-contains n (m ∷ ms) h = ground (arith, h, count-contains n ms)

pub put_self {ℓ} : {A : Type ℓ} (f : ℕ → A) (k : ℕ) (v : A) → put f k v k ≡ v
put_self f k v = ap (λ b. if b then v else f k) (let e : (k == k) ≡ true = ground arith in e)

pub put_ne {ℓ} : {A : Type ℓ} (f : ℕ → A) (k j : ℕ) (v : A) → j ≢ k → put f k v j ≡ f j
put_ne f k j v h =
    ap (λ b. if b then v else f j) (let e : (j == k) ≡ false = ground (arith, h) in e)

-- How often a connection of a state is in the set, waits to be established, and waits to be
-- removed.
abbrev pub Placed : State → ℕ → ℕ → ℕ → Type 0
Placed State.connecting inside waits leaves = (inside ≡ 1) × (waits ≡ 1) × (leaves ≡ 0)
Placed State.connected inside waits leaves = (inside ≡ 1) × (waits ≡ 0) × (leaves ≡ 0)
Placed State.disconnecting inside waits leaves = (inside ≡ 1) × (waits ≡ 0) × (leaves ≡ 0)
Placed State.disconnected inside waits leaves = (inside ≡ leaves) × (waits ≡ 0) × (leaves ≤ 1)

pub Placed-live :
    {a b c : ℕ} (p : State) → is_live p ≡ true → Placed p a b c → (a ≡ 1) × (b ≡ 0) × (c ≡ 0)
Placed-live State.connecting h q = absurd (cc)
Placed-live State.connected h q = q
Placed-live State.disconnecting h q = q
Placed-live State.disconnected h q = absurd (cc)

pub Placed-gone :
    {a b c : ℕ} (p : State)
    → is_disconnected p ≡ true
    → (a ≡ c) × (b ≡ 0) × (c ≤ 1)
    → Placed p a b c
Placed-gone State.connecting h q = absurd (cc)
Placed-gone State.connected h q = absurd (cc)
Placed-gone State.disconnecting h q = absurd (cc)
Placed-gone State.disconnected h q = q

-- Who waits to be removed is in the set, once, and in no other place.
pub Placed-leaves :
    {a b c : ℕ} (p : State)
    → 0 < c
    → Placed p a b c
    → (is_disconnected p ≡ true) × (a ≡ 1) × (b ≡ 0) × (c ≡ 1)
Placed-leaves State.connecting h q = absurd (omega (arith, q, h))
Placed-leaves State.connected h q = absurd (omega (arith, q, h))
Placed-leaves State.disconnecting h q = absurd (omega (arith, q, h))
Placed-leaves State.disconnected h q = (refl, omega (arith, q, h), q.1, omega (arith, q, h))

-- Who waits to be established is new.
pub Placed-waits :
    {a b c : ℕ} (p : State)
    → 0 < b
    → Placed p a b c
    → (is_connecting p ≡ true) × (a ≡ 1) × (b ≡ 1) × (c ≡ 0)
Placed-waits State.connecting h (x, y, z) = (refl, x, y, z)
Placed-waits State.connected h q = absurd (omega (arith, q, h))
Placed-waits State.disconnecting h q = absurd (omega (arith, q, h))
Placed-waits State.disconnected h q = absurd (omega (arith, q, h))

-- A handler that does not close its connection leaves it where it is.
pub Placed-move :
    (a b c : ℕ) (p q : State)
    → is_connecting q ≡ is_connecting p
    → rank p ≤ rank q
    → (is_disconnected q && not (is_disconnected p)) ≡ false
    → Placed p a b c
    → Placed q a b c
Placed-move a b c State.connecting State.connecting e h f v = v
Placed-move a b c State.connecting State.connected e h f v = absurd (cc)
Placed-move a b c State.connecting State.disconnecting e h f v = absurd (cc)
Placed-move a b c State.connecting State.disconnected e h f v = absurd (cc)
Placed-move a b c State.connected State.connecting e h f v = absurd (cc)
Placed-move a b c State.connected State.connected e h f v = v
Placed-move a b c State.connected State.disconnecting e h f v = v
Placed-move a b c State.connected State.disconnected e h f v = absurd (cc)
Placed-move a b c State.disconnecting State.connecting e h f v = absurd (cc)
Placed-move a b c State.disconnecting State.connected e h f v = v
Placed-move a b c State.disconnecting State.disconnecting e h f v = v
Placed-move a b c State.disconnecting State.disconnected e h f v = absurd (cc)
Placed-move a b c State.disconnected State.connecting e h f v = absurd (cc)
Placed-move a b c State.disconnected State.connected e h f v = absurd (omega (arith, h))
Placed-move a b c State.disconnected State.disconnecting e h f v = absurd (omega (arith, h))
Placed-move a b c State.disconnected State.disconnected e h f v = v

-- A connection of a server, between two steps.
pub record IsHeld (c : Connection) : Type 0 where
  pub consistent : IsConsistent c
  pub deaf : is_connecting c.state ≡ true → c.reading ≡ false
  pub polled : is_live c.state ≡ true → c.in_poller ≡ true

-- The server between two steps: the numbers that are not given yet are nowhere, and every
-- connection is where its state says.
pub record IsServed (s : Server) : Type 0 where
  pub turn : (length s.pool.loops ≡ 0) ⊎ (s.pool.loop_index < length s.pool.loops)
  pub absent :
      (n : ℕ)
      → s.next ≤ n
      → (count n s.conn_set ≡ 0) × (count n s.establishing ≡ 0) × (count n s.erasures ≡ 0)
  pub placed :
      (n : ℕ)
      → n < s.next
      → Placed
          (s.connections n).state
          (count n s.conn_set)
          (count n s.establishing)
          (count n s.erasures)
  pub held : (n : ℕ) → n < s.next → IsHeld (s.connections n)

-- All but one connection are where they were, as they were.
abbrev pub Same : ℕ → Server → Server → Type 0
Same k s t =
    (j : ℕ)
    → j ≢ k
    → (t.connections j ≡ s.connections j)
      × (count j t.conn_set ≡ count j s.conn_set)
      × (count j t.establishing ≡ count j s.establishing)
      × (count j t.erasures ≡ count j s.erasures)

-- A change at one connection only has to be looked at there.
pub Same-IsServed :
    (k : ℕ) (s t : Server)
    → IsServed s
    → Same k s t
    → (length t.pool.loops ≡ 0) ⊎ (t.pool.loop_index < length t.pool.loops)
    → k < t.next
    → s.next ≤ t.next
    → ((j : ℕ) → j ≢ k → j < t.next → j < s.next)
    → Placed
        (t.connections k).state
        (count k t.conn_set)
        (count k t.establishing)
        (count k t.erasures)
    → IsHeld (t.connections k)
    → IsServed t
Same-IsServed k s t v same turn inside grown old p h = record {
  turn = turn;
  absent = λ n late.
      let ne : n ≢ k = λ e. absurd (omega (arith, e, late, inside)) in
      let (_, a, b, c) = same n ne in
      let (x, y, z) = v.absent n (omega (arith, grown, late)) in (a ∙ x, b ∙ y, c ∙ z);
  placed = λ n early. elim (Bool-cases (n == k)) [
    | inl e ↦
        let q : k ≡ n = ground (arith, e) in
        subst
          (λ m.
            Placed (t.connections m).state (count m t.conn_set) (count m t.establishing)
              (count m t.erasures))
          q p
    | inr e ↦
        let ne : n ≢ k = ground (arith, e) in
        let (x, a, b, c) = same n ne in rw (x, a, b, c) (v.placed n (old n ne early))
  ];
  held = λ n early. elim (Bool-cases (n == k)) [
    | inl e ↦ subst (λ m. IsHeld (t.connections m)) (let q : k ≡ n = ground (arith, e) in q) h
    | inr e ↦ let ne : n ≢ k = ground (arith, e) in rw ((same n ne).0) (v.held n (old n ne early))
  ];
}

-- A result that is there, and a server between two steps.
abbrev pub Serves : Option Server → Type 0
Serves o = (t : Server) × (o ≡ some t) × IsServed t

pub inside :
    (n : ℕ) (s : Server) → IsServed s → 0 < count n s.erasures + count n s.establishing → n < s.next
inside n s v h = elim (Bool-cases (ltb n s.next)) [
  | inl early ↦ ground (arith, early)
  | inr late ↦ absurd (let (a, b, c) = v.absent n (ground (arith, late)) in omega (arith, h, b, c))
]

-- What is known of a connection that was put at a number.
pub put-Placed :
    (a b c : ℕ) (f : ℕ → Connection) (n : ℕ) (d : Connection) (p : State)
    → d.state ≡ p
    → Placed p a b c
    → Placed (put f n d n).state a b c
put-Placed a b c f n d p e q = rw (put_self f n d, e) q
