-- ===== src/Net/Server/Tests.antt =====
-- The theorem on a server at a concrete input: a connection in another loop, that its peer closes.
use duo_duo.Base.{true, [], ◌∷◌}
use duo_duo.Net.Connection
use duo_duo.Net.Connection.{Connection, fresh}
use duo_duo.Net.Server.{Server, new_server, put}
use duo_duo.Net.Server.Accepts.{next}

-- Connection 0, in loop 7 of a server in loop 1, before and after it is established.
abbrev waiting : Server
waiting = record (new_server 1 (7 ∷ [])) {
  next = 1;
  connections = put (λ n. fresh) 0 fresh;
  loop_of = put (λ n. 1) 0 7;
  conn_set = 0 ∷ [];
  establishing = 0 ∷ [];
}

abbrev open_ : Connection
open_ = record fresh {
  state = Connection.State.connected;
  reading = true;
  in_poller = true;
  notes = Connection.Note.connection Connection.State.connected ∷ [];
}

abbrev serving : Server
serving = record waiting { connections = put waiting.connections 0 open_; establishing = [] }
