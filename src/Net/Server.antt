-- ===== src/Net/Server.antt =====
-- TcpServer.h and TcpServer.cpp: the set of a server's connections, by interleavings of the
-- server's loop with the loops of the connections. A connection is the number that it was made
-- with, and its state is that of Net.Connection. A function that is queued for another loop is a
-- step that comes later. `none` is a failed assertion, or a read beyond the vector of loops.
pub mod Places
pub mod Moves
mod Establish
mod Close
pub mod Accepts
mod Tests
use duo_duo.Base.{
  ℕ, zero, suc, ◌+◌, ◌<◌, ◌≤◌, ◌≡◌, Bool, true, false, not, ◌&&◌, List, [], ◌∷◌, ◌++◌, Option, none,
  some, length, ltb, ◌==◌, if◌then◌else◌,
}
use duo_duo.Net.LoopPool.{LoopPool, new_loop_pool, get_next_loop}
use duo_duo.Net.Connection
use duo_duo.Net.Connection.{
  Connection, fresh, connect_established, connect_destroyed, is_disconnected,
}

-- `conn_set` is `connSet_`; `establishing` are the connections whose `connectEstablished` waits in
-- their loop, `erasures` those whose removal waits in the server's. A pool that was not made is
-- one without loops.
pub record Server : Type 0 where
  pub base_loop : ℕ
  pub pool : LoopPool ℕ
  pub next : ℕ
  pub connections : ℕ → Connection
  pub loop_of : ℕ → ℕ
  pub conn_set : List ℕ
  pub establishing : List ℕ
  pub erasures : List ℕ

-- The constructor, with the loops that the pool has when it is set.
abbrev pub new_server : ℕ → List ℕ → Server
new_server base_loop loops = record {
  base_loop = base_loop;
  pool = new_loop_pool loops;
  next = 0;
  connections = λ n. fresh;
  loop_of = λ n. base_loop;
  conn_set = [];
  establishing = [];
  erasures = [];
}

abbrev pub put {ℓ} : {A : Type ℓ} → (ℕ → A) → ℕ → A → ℕ → A
put f k v j = if j == k then v else f j

abbrev pub without : ℕ → List ℕ → List ℕ
without n [] = []
without n (m ∷ ms) = if n == m then without n ms else m ∷ without n ms

abbrev pub contains : ℕ → List ℕ → Bool
contains n [] = false
contains n (m ∷ ms) = if n == m then true else contains n ms

-- `if (loopPoolPtr_ && loopPoolPtr_->size() > 0)`, and the server's own loop otherwise.
unfoldable pub choose_loop : Server → Option (ℕ × LoopPool ℕ)
choose_loop s =
    if ltb 0 (length s.pool.loops)
    then (let (l, p) = get_next_loop s.pool in elim l [ none ↦ none | some i ↦ some (i, p) ])
    else some (s.base_loop, s.pool)

unfoldable pub establish : ℕ → Server → Option Server
establish n s = elim (connect_established (s.connections n)) [
  | none ↦ none
  | some c ↦ some (record s { connections = put s.connections n c })
]

-- `runInLoop` calls in the loop's own thread, and queues in any other.
unfoldable pub new_connection : Server → Option Server
new_connection s = elim (choose_loop s) [
  | none ↦ none
  | some (io_loop, p) ↦
      let n = s.next in
      let t : Server = record s {
        pool = p;
        next = suc n;
        connections = put s.connections n fresh;
        loop_of = put s.loop_of n io_loop;
        conn_set = n ∷ s.conn_set;
      } in
      elim (io_loop == s.base_loop) [
        | true ↦ establish n t
        | false ↦ some (record t { establishing = s.establishing ++ n ∷ [] })
      ]
]

-- What `connectionClosed` runs in the server's loop.
unfoldable pub erase : ℕ → Server → Option Server
erase n s = elim (contains n s.conn_set) [
  | true ↦ some (record s { conn_set = without n s.conn_set })
  | false ↦ none
]

abbrev pub run_erase : ℕ → Server → Option Server
run_erase n s = elim (s.loop_of n == s.base_loop) [
  | true ↦ erase n s
  | false ↦ some (record s { erasures = s.erasures ++ n ∷ [] })
]

unfoldable pub connection_closed : ℕ → Server → Option Server
connection_closed n s = elim (run_erase n s) [
  | none ↦ none
  | some t ↦ elim (connect_destroyed (t.connections n)) [
    | none ↦ none
    | some c ↦ some (record t { connections = put t.connections n c })
  ]
]

-- The last call of `handleClose` is the one of `connectionClosed`, and no other handler of a
-- connection makes it disconnected.
abbrev pub has_closed : Connection → Connection → Bool
has_closed c d = is_disconnected d.state && not (is_disconnected c.state)

-- `accepted` is a call of the acceptor; `established` and `erased` run a function that was queued,
-- `handled` a handler of a connection or a call of its owner in its loop.
pub data Step : Type 0 where
  accepted : Step
  established : ℕ → Step
  handled : ℕ → Connection.Step → Step
  erased : Step

module _ (on_message : List ℕ → List ℕ) where
  unfoldable pub handle : ℕ → Connection.Step → Server → Option Server
  handle n x s = elim (Connection.step on_message x (s.connections n)) [
    | none ↦ none
    | some d ↦
        let t : Server = record s { connections = put s.connections n d } in
        elim (has_closed (s.connections n) d) [ true ↦ connection_closed n t | false ↦ some t ]
  ]

  unfoldable pub step : Step → Server → Option Server
  step accepted s = new_connection s
  step (established n) s = establish n (record s { establishing = without n s.establishing })
  step (handled n x) s = handle n x s
  step erased s = elim s.erasures [ [] ↦ some s | n ∷ ns ↦ erase n (record s { erasures = ns }) ]
