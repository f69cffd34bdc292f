-- ===== src/Net/Server/Close.antt =====
-- TcpServer::connectionClosed, and the handlers of a connection that lead to it.
use duo_duo.Base.{
  ℕ, ◌≤◌, ◌<◌, ◌≡◌, ◌≢◌, inl, inr, refl, sym, ap, ◌∙◌, subst, true, false, not, ◌&&◌, List, [], ◌∷◌,
  ◌++◌, some, arith, ◌==◌, Bool-cases, and_left, and_right,
}
use duo_duo.Net.Connection
use duo_duo.Net.Connection.{
  State, Connection, fresh, connect_established, connect_destroyed, is_connected, is_connecting,
  is_disconnected, is_disconnecting,
}
use duo_duo.Net.Connection.States.{IsConsistent, rank, step-IsStep}
use duo_duo.Net.Server.{
  Server, put, without, erase, run_erase, connection_closed, has_closed, handle,
}
use duo_duo.Net.Server.Moves.{is_live, IsEvent, step-Runs}
use duo_duo.Net.Server.Places.{
  count, count-cons_self, count-cons_ne, count-without_self, count-without_ne, count-append_self,
  count-append_ne, count-contains, put_self, put_ne, Placed-live, Placed-gone, Placed-leaves,
  Placed-move, IsHeld, IsServed, Same-IsServed, Serves, inside, put-Placed,
}

pub erase-found :
    (n : ℕ) (t : Server)
    → count n t.conn_set ≡ 1
    → erase n t ≡ some (record t { conn_set = without n t.conn_set })
unfolding erase
erase-found n t h = rw (erase, count-contains n t.conn_set (omega (arith, h))) refl

-- The removal that waits longest runs.
pub erase-Serves :
    (n : ℕ) (s : Server) (ns : List ℕ)
    → IsServed s
    → s.erasures ≡ n ∷ ns
    → Serves (erase n (record s { erasures = ns }))
erase-Serves n s ns v e =
    let all : (j : ℕ) → count j s.erasures ≡ count j (n ∷ ns) = λ j. ap (λ l. count j l) e in
    let waits : 0 < count n s.erasures = omega (arith, all n, count-cons_self n ns) in
    let lt = inside n s v (omega (arith, waits)) in
    let (gone, one, idle, once) = Placed-leaves (s.connections n).state waits (v.placed n lt) in
    let rest : count n ns ≡ 0 = omega (arith, once, all n, count-cons_self n ns) in
    (
      _,
      erase-found n (record s { erasures = ns }) one,
      Same-IsServed n s _ v
          (λ j ne.
            (refl, count-without_ne j n s.conn_set ne, refl, sym (all j ∙ count-cons_ne j n ns ne)))
          v.turn lt (omega arith) (λ j ne h. h)
          (Placed-gone (s.connections n).state gone
            (count-without_self n s.conn_set ∙ sym rest, idle, omega (arith, rest)))
          (v.held n lt),
    )

gone-connected : (p : State) → is_disconnected p ≡ true → is_connected p ≡ false
gone-connected State.disconnected h = refl
gone-connected State.connected h = absurd (cc)
gone-connected State.connecting h = refl
gone-connected State.disconnecting h = refl

gone-live : (p : State) → is_disconnected p ≡ true → is_live p ≡ true → ⊥
gone-live State.disconnected h l = cc
gone-live State.connected h l = cc
gone-live State.connecting h l = cc
gone-live State.disconnecting h l = cc

-- How a live connection closes.
live-before :
    (p q : State)
    → is_connecting q ≡ is_connecting p
    → rank p ≤ rank q
    → is_live q ≡ true
    → is_live p ≡ true
live-before State.connected q e h l = refl
live-before State.disconnecting q e h l = refl
live-before State.connecting State.connected e h l = absurd (cc)
live-before State.connecting State.disconnecting e h l = absurd (cc)
live-before State.connecting State.connecting e h l = absurd (cc)
live-before State.connecting State.disconnected e h l = absurd (cc)
live-before State.disconnected State.connected e h l = absurd (omega (arith, h))
live-before State.disconnected State.disconnecting e h l = absurd (omega (arith, h))
live-before State.disconnected State.connecting e h l = absurd (cc)
live-before State.disconnected State.disconnected e h l = absurd (cc)

closes-live :
    (p q : State)
    → is_connecting q ≡ is_connecting p
    → (is_disconnected q && not (is_disconnected p)) ≡ true
    → (is_live p ≡ true) × (is_disconnected q ≡ true)
closes-live State.connected q e h = (refl, and_left _ _ h)
closes-live State.disconnecting q e h = (refl, and_left _ _ h)
closes-live State.connecting State.connected e h = absurd (cc)
closes-live State.connecting State.disconnecting e h = absurd (cc)
closes-live State.connecting State.connecting e h = absurd (cc)
closes-live State.connecting State.disconnected e h = absurd (cc)
closes-live State.disconnected q e h =
    absurd (let z : false ≡ true = and_right (is_disconnected q) false h in cc)

hears :
    (p : State) (c : Connection)
    → c.state ≡ p
    → IsHeld c
    → c.reading ≡ true
    → is_live c.state ≡ true
hears State.connected c e v h = ap is_live e
hears State.disconnecting c e v h = ap is_live e
hears State.connecting c e v h = absurd (let z = v.deaf (ap is_connecting e) in cc)
hears State.disconnected c e v h =
    absurd (let z = (v.consistent.silent (ap is_disconnected e)).1 in cc)

-- The destruction of a connection that is disconnected and in the poller.
destroys :
    (on_message : List ℕ → List ℕ) (d : Connection)
    → is_disconnected d.state ≡ true
    → d.in_poller ≡ true
    → IsConsistent d
    → (e : Connection) × (connect_destroyed d ≡ some e) × (e.state ≡ d.state) × IsHeld e
unfolding connect_destroyed Connection.step
destroys on_message d gone polled v =
    let (w, r) = v.silent gone in
    let e : Connection = record d { in_poller = false } in
    let off : is_connected d.state ≡ false = gone-connected d.state gone in
    let q : connect_destroyed d ≡ some e = rw (connect_destroyed, off, r, w, polled) refl in
    let i = step-IsStep on_message Connection.Step.destroy d e v q in
    (
      e,
      q,
      refl,
      record {
        consistent = i.consistent;
        deaf = λ h. r;
        polled = λ h. absurd (gone-live d.state gone h);
      },
    )

closed-found :
    (n : ℕ) (t u : Server) (d e : Connection)
    → run_erase n t ≡ some u
    → u.connections n ≡ d
    → connect_destroyed d ≡ some e
    → connection_closed n t ≡ some (record u { connections = put u.connections n e })
unfolding connection_closed
closed-found n t u d e a b c = rw (connection_closed, a, b, c) refl

connection_closed-Serves :
    (on_message : List ℕ → List ℕ) (n : ℕ) (d : Connection) (s : Server)
    → IsServed s
    → n < s.next
    → is_live (s.connections n).state ≡ true
    → is_disconnected d.state ≡ true
    → d.in_poller ≡ true
    → IsConsistent d
    → Serves (connection_closed n (record s { connections = put s.connections n d }))
connection_closed-Serves on_message n d s v lt live gone polled w =
    let (one, idle, none_) = Placed-live (s.connections n).state live (v.placed n lt) in
    let (e, q, st, x) = destroys on_message d gone polled w in
    let f = put s.connections n d in
    let t : Server = record s { connections = f } in
    let moved : (j : ℕ) → j ≢ n → put f n e j ≡ s.connections j =
      λ j ne. put_ne f n j e ne ∙ put_ne s.connections n j d ne in
    let after : IsHeld (put f n e n) = subst IsHeld (sym (put_self f n e)) x in
    let off : is_disconnected (put f n e n).state ≡ true =
      ap (λ c. is_disconnected c.state) (put_self f n e) ∙ ap is_disconnected st ∙ gone in
    elim (Bool-cases (s.loop_of n == s.base_loop)) [
      | inl here ↦
          let u : Server = record t { conn_set = without n s.conn_set } in
          let ran : run_erase n t ≡ some u = rw (run_erase, here) (erase-found n t one) in
          (
            _,
            closed-found n t u d e ran (put_self s.connections n d) q,
            Same-IsServed n s _ v
                (λ j ne. (moved j ne, count-without_ne j n s.conn_set ne, refl, refl)) v.turn lt
                (omega arith) (λ j ne h. h)
                (Placed-gone (put f n e n).state off
                  (count-without_self n s.conn_set ∙ sym none_, idle, omega (arith, none_)))
                after,
          )
      | inr there ↦
          let u : Server = record t { erasures = s.erasures ++ n ∷ [] } in
          let ran : run_erase n t ≡ some u = rw (run_erase, there) refl in
          let more = count-append_self n s.erasures in
          (
            _,
            closed-found n t u d e ran (put_self s.connections n d) q,
            Same-IsServed n s _ v
                (λ j ne. (moved j ne, refl, refl, count-append_ne j n s.erasures ne)) v.turn lt
                (omega arith) (λ j ne h. h)
                (Placed-gone (put f n e n).state off
                  (omega (arith, one, none_, more), idle, omega (arith, none_, more)))
                after,
          )
    ]

pub handle-Serves :
    (on_message : List ℕ → List ℕ) (n : ℕ) (x : Connection.Step) (s : Server)
    → IsServed s
    → n < s.next
    → IsEvent x (s.connections n)
    → Serves (handle on_message n x s)
unfolding handle
handle-Serves on_message n x s v lt ev =
    let c = s.connections n in
    let h = v.held n lt in
    let (d, e, m) = step-Runs c on_message x (hears c.state c refl h) ev in
    let i = step-IsStep on_message x c d h.consistent e in
    elim (Bool-cases (has_closed c d)) [
      | inl shut ↦
          let (live, gone) = closes-live c.state d.state m.connecting shut in
          rw (handle, e, shut)
            (connection_closed-Serves on_message n d s v lt live gone (m.polled (h.polled live))
              i.consistent)
      | inr open_ ↦
          rw (handle, e, open_)
            (
              _,
              refl,
              Same-IsServed n s _ v (λ j ne. (put_ne s.connections n j d ne, refl, refl, refl))
                  v.turn lt (omega arith) (λ j ne h. h)
                  (put-Placed _ _ _ s.connections n d d.state refl (
                    Placed-move _ _ _ c.state d.state m.connecting i.forward open_ (v.placed n lt)))
                  (subst IsHeld (sym (put_self s.connections n d)) (record {
                    consistent = i.consistent;
                    deaf = λ new. let old = sym m.connecting ∙ new in m.deaf old ∙ h.deaf old;
                    polled = λ live.
                        m.polled
                          (h.polled (live-before c.state d.state m.connecting i.forward live));
                  })),
            )
    ]
