-- ===== src/Net/Server/Establish.antt =====
-- TcpServer::newConnection, and the connection that its loop establishes.
use duo_duo.Base.{
  ℕ, zero, suc, ◌<◌, ◌≡◌, ◌≢◌, ◌⊎◌, inl, inr, refl, sym, ◌∙◌, subst, true, false, List, [], ◌∷◌,
  some, arith, length, ◌==◌, Bool-cases, ltb, get_elem?,
}
use duo_duo.Net.LoopPool.{LoopPool, get_next_loop, next_index}
use duo_duo.Net.Connection
use duo_duo.Net.Connection.{
  State, Connection, fresh, connect_established, connect_destroyed, is_connected, is_connecting,
  is_disconnected, is_disconnecting,
}
use duo_duo.Net.Connection.States.{step-IsStep}
use duo_duo.Net.Server.{Server, put, without, choose_loop, establish, new_connection}
use duo_duo.Net.Server.Places.{
  count, count-cons_self, count-cons_ne, count-without_self, count-without_ne, count-append_self,
  count-append_ne, put_self, put_ne, Placed-waits, IsHeld, IsServed, Same-IsServed, Serves, inside,
  put-Placed,
}

get_elem?-inside : (xs : List ℕ) (i : ℕ) → i < length xs → (x : ℕ) × (get_elem? xs i ≡ some x)
get_elem?-inside [] i h = absurd (omega (arith, h))
get_elem?-inside (x ∷ xs) zero h = (x, refl)
get_elem?-inside (x ∷ xs) (suc i) h = get_elem?-inside xs i (omega (arith, h))

choose_loop-turn :
    (s : Server)
    → (length s.pool.loops ≡ 0) ⊎ (s.pool.loop_index < length s.pool.loops)
    → (i : ℕ) × (p : LoopPool ℕ) × (choose_loop s ≡ some (i, p))
      × ((length p.loops ≡ 0) ⊎ (p.loop_index < length p.loops))
unfolding choose_loop get_next_loop
choose_loop-turn s (inl e) =
    let t : ltb 0 (length s.pool.loops) ≡ false = ground (arith, e) in
    (s.base_loop, s.pool, rw (choose_loop, t) refl, inl e)
choose_loop-turn s (inr h) =
    let t : ltb 0 (length s.pool.loops) ≡ true = ground (arith, h) in
    let (i, e) = get_elem?-inside s.pool.loops s.pool.loop_index h in
    let n = length s.pool.loops in
    (
      i,
      record s.pool { loop_index = next_index n s.pool.loop_index },
      rw (choose_loop, t, e, get_next_loop, t) refl,
      inr (ground (arith, h)),
    )

connects :
    (on_message : List ℕ → List ℕ) (c : Connection)
    → IsHeld c
    → is_connecting c.state ≡ true
    → (d : Connection) × (connect_established c ≡ some d) × (d.state ≡ State.connected) × IsHeld d
unfolding connect_established Connection.step
connects on_message c v h =
    let d : Connection = record c {
      state = State.connected;
      reading = true;
      in_poller = true;
      notes = Connection.Note.connection State.connected ∷ c.notes;
    } in
    let e : connect_established c ≡ some d = rw (connect_established, h) refl in
    let i = step-IsStep on_message Connection.Step.establish c d v.consistent e in
    (d, e, refl, record { consistent = i.consistent; deaf = λ h. absurd (cc); polled = λ h. refl })

establish-found :
    (n : ℕ) (t : Server) (c d : Connection)
    → t.connections n ≡ c
    → connect_established c ≡ some d
    → establish n t ≡ some (record t { connections = put t.connections n d })
unfolding establish
establish-found n t c d e f = rw (establish, e, f) refl

pub established-Serves :
    (on_message : List ℕ → List ℕ) (n : ℕ) (s : Server)
    → IsServed s
    → 0 < count n s.establishing
    → Serves (establish n (record s { establishing = without n s.establishing }))
established-Serves on_message n s v h =
    let lt = inside n s v (omega (arith, h)) in
    let (new, one, _, none_) = Placed-waits (s.connections n).state h (v.placed n lt) in
    let (d, e, st, w) = connects on_message (s.connections n) (v.held n lt) new in
    (
      _,
      establish-found n (record s { establishing = without n s.establishing }) (s.connections n) d
          refl e,
      Same-IsServed n s _ v
          (λ j ne.
            (put_ne s.connections n j d ne, refl, count-without_ne j n s.establishing ne, refl))
          v.turn lt (omega arith) (λ j ne h. h)
          (put-Placed _ _ _ s.connections n d State.connected st
            (one, count-without_self n s.establishing, none_))
          (subst IsHeld (sym (put_self s.connections n d)) w),
    )

fresh-IsHeld : IsHeld fresh
fresh-IsHeld = record {
  consistent = record { queue = λ h. refl; silent = λ h. absurd (cc) };
  deaf = λ h. refl;
  polled = λ h. absurd (cc);
}

pub new_connection-Serves :
    (on_message : List ℕ → List ℕ) (s : Server) → IsServed s → Serves (new_connection s)
unfolding new_connection
new_connection-Serves on_message s v =
    let (i, p, e, turn) = choose_loop-turn s v.turn in
    let n = s.next in
    let (a, b, c) = v.absent n (omega arith) in
    let f = put s.connections n fresh in
    let t : Server = record s {
      pool = p;
      next = suc n;
      connections = f;
      loop_of = put s.loop_of n i;
      conn_set = n ∷ s.conn_set;
    } in
    let set : count n (n ∷ s.conn_set) ≡ 1 = omega (arith, a, count-cons_self n s.conn_set) in
    let old : (j : ℕ) → j ≢ n → j < suc n → j < n = λ j ne h. omega (arith, ne, h) in
    elim (Bool-cases (i == s.base_loop)) [
      | inl here ↦
          let (d, g, st, w) = connects on_message fresh fresh-IsHeld refl in
          let q = establish-found n t fresh d (put_self s.connections n fresh) g in
          rw (new_connection, e, here, q)
            (
              _,
              refl,
              Same-IsServed n s _ v
                  (λ j ne. (
                    put_ne f n j d ne ∙ put_ne s.connections n j fresh ne,
                    count-cons_ne j n s.conn_set ne,
                    refl,
                    refl,
                  ))
                  turn (omega arith) (omega arith) old
                  (put-Placed _ _ _ f n d State.connected st (set, b, c))
                  (subst IsHeld (sym (put_self f n d)) w),
            )
      | inr there ↦
          rw (new_connection, e, there)
            (
              _,
              refl,
              Same-IsServed n s _ v
                  (λ j ne. (
                    put_ne s.connections n j fresh ne,
                    count-cons_ne j n s.conn_set ne,
                    count-append_ne j n s.establishing ne,
                    refl,
                  ))
                  turn (omega arith) (omega arith) old
                  (put-Placed _ _ _ s.connections n fresh State.connecting refl
                    (set, omega (arith, b, count-append_self n s.establishing), c))
                  (subst IsHeld (sym (put_self s.connections n fresh)) fresh-IsHeld),
            )
    ]
