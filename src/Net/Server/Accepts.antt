-- ===== src/Net/Server/Accepts.antt =====
-- TcpServer: no assertion on the set of connections fails, whatever the order of the loops.
use duo_duo.Base.{ℕ, ◌<◌, ◌≡◌, List, Option, some}
use duo_duo.Net.Server.{Server, new_server, Step, accepted, established, handled, erased, step}
use duo_duo.Net.Server.Moves.{IsEvent}
use duo_duo.Net.Server.Places.{count}

-- Which steps can come: a function that is queued runs, and events are those of connections.
abbrev pub IsPossible : Step → Server → Type 0
IsPossible accepted s = Unit {0}
IsPossible (established n) s = 0 < count n s.establishing
IsPossible (handled n x) s = (n < s.next) × IsEvent x (s.connections n)
IsPossible erased s = Unit {0}

-- The servers that a new one can become, in any order of the steps that can come.
pub data Reached (on_message : List ℕ → List ℕ) : Server → Type 0 where
  start : (base_loop : ℕ) (loops : List ℕ) → Reached on_message (new_server base_loop loops)
  next :
      {s t : Server} (x : Step)
      → Reached on_message s
      → IsPossible x s
      → step on_message x s ≡ some t
      → Reached on_message t
