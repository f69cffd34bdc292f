-- ===== src/Net/Connection.antt =====
-- TcpConnection.h and TcpConnection.cpp, in the loop's thread: the state machine, the output that
-- waits for the socket, and the bytes that went into it. What the system calls return is given
-- with each step. The application's callbacks are notes, the last one first, but for what the
-- message callback leaves of the input, a parameter; their own calls are steps that follow, since
-- a callback is the last thing that a handler runs. `none` is a failed assertion.
pub mod Stream
pub mod States
pub mod Drain
use duo_duo.Base.{
  ℕ, ◌+◌, ◌*◌, Bool, true, false, not, ◌&&◌, ◌||◌, List, [], ◌∷◌, ◌++◌, Option, none, some, length,
  take, drop, ltb, leb, ◌==◌, if◌then◌else◌,
}

pub data State : Type 0 where
  disconnected : State
  connecting : State
  connected : State
  disconnecting : State

-- What `write` gives: a count, or an error, that breaks the connection or does not.
pub data Write : Type 0 where
  wrote : ℕ → Write
  would_block : Write
  broken : Write
  failed : Write

pub data Note : Type 0 where
  connection : State → Note
  message : Note
  write_complete : Note
  high_water : ℕ → Note
  closed : Note
  close_write : Note

-- `reading` and `writing` are the channel's two events; `in_poller` that it was not removed. The
-- callbacks for a complete write and for the high water mark may be unset.
pub record Connection : Type 0 where
  pub state : State
  pub reading : Bool
  pub writing : Bool
  pub in_poller : Bool
  pub input : List ℕ
  pub output : List ℕ
  pub wire : List ℕ
  pub high_water_mark : ℕ
  pub on_write_complete : Bool
  pub on_high_water : Bool
  pub notes : List Note

abbrev pub fresh : Connection
fresh = record {
  state = State.connecting;
  reading = false;
  writing = false;
  in_poller = false;
  input = [];
  output = [];
  wire = [];
  high_water_mark = 64 * 1024 * 1024;
  on_write_complete = true;
  on_high_water = true;
  notes = [];
}

abbrev pub is_connected : State → Bool
is_connected State.connected = true
is_connected _ = false

abbrev pub is_disconnected : State → Bool
is_disconnected State.disconnected = true
is_disconnected _ = false

abbrev pub is_disconnecting : State → Bool
is_disconnecting State.disconnecting = true
is_disconnecting _ = false

abbrev pub is_connecting : State → Bool
is_connecting State.connecting = true
is_connecting _ = false

abbrev pub is_empty : List ℕ → Bool
is_empty [] = true
is_empty (x ∷ xs) = false

abbrev pub note : Note → Connection → Connection
note n c = record c { notes = n ∷ c.notes }

abbrev pub note_if : Bool → Note → Connection → Connection
note_if b n c = record c { notes = if b then n ∷ c.notes else c.notes }

-- The part of `sendInLoop` after the direct write, for the bytes that remain.
unfoldable pub enqueue : List ℕ → Connection → Connection
enqueue remaining c =
    if is_empty remaining
    then c
    else (let old_len = length c.output in
        let new_len = old_len + length remaining in
        let marked =
          note_if
            (leb c.high_water_mark new_len && ltb old_len c.high_water_mark && c.on_high_water)
            (Note.high_water new_len) c in
        record marked { output = c.output ++ remaining; writing = true; in_poller = true })

-- The direct write of `sendInLoop`; a count above the length fails its assertion.
unfoldable pub direct_write : List ℕ → Write → Connection → Option Connection
direct_write bytes Write.would_block c = some (enqueue bytes c)
direct_write bytes Write.failed c = some (enqueue bytes c)
direct_write bytes Write.broken c = some c
direct_write bytes (Write.wrote n) c =
    if ltb (length bytes) n
    then none
    else (let sent : Connection = record c { wire = c.wire ++ take n bytes } in
        some (
          enqueue (drop n bytes)
            (note_if (is_empty (drop n bytes) && c.on_write_complete) Note.write_complete sent)))

unfoldable pub send_in_loop : List ℕ → Write → Connection → Option Connection
send_in_loop bytes w c =
    if is_disconnected c.state
    then some c
    else if not c.writing && is_empty c.output
    then direct_write bytes w c
    else some (enqueue bytes c)

-- `send`, called in the loop's thread.
unfoldable pub send : List ℕ → Write → Connection → Option Connection
send bytes w c = if is_connected c.state then send_in_loop bytes w c else some c

abbrev pub close_write_unless_writing : Connection → Connection
close_write_unless_writing c = note_if (not c.writing) Note.close_write c

unfoldable pub shutdown : Connection → Connection
shutdown c =
    if is_connected c.state
    then close_write_unless_writing (record c { state = State.disconnecting })
    else c

unfoldable pub handle_close : Connection → Option Connection
handle_close c =
    if is_connected c.state || is_disconnecting c.state
    then some (record c {
      state = State.disconnected;
      reading = false;
      writing = false;
      in_poller = true;
      notes = Note.closed ∷ Note.connection State.disconnected ∷ c.notes;
    })
    else none

unfoldable pub force_close : Connection → Option Connection
force_close c =
    if is_connected c.state || is_disconnecting c.state
    then handle_close (record c { state = State.disconnecting })
    else some c

unfoldable pub connect_established : Connection → Option Connection
connect_established c =
    if is_connecting c.state
    then some (record c {
      state = State.connected;
      reading = true;
      in_poller = true;
      notes = Note.connection State.connected ∷ c.notes;
    })
    else none

-- `channel_->remove()` asserts that no event is asked for and that the poller has the channel.
unfoldable pub connect_destroyed : Connection → Option Connection
connect_destroyed c =
    let d : Connection =
      if is_connected c.state
      then (record c {
        state = State.disconnected;
        reading = false;
        writing = false;
        in_poller = true;
        notes = Note.connection State.disconnected ∷ c.notes;
      })
      else c in
    if not d.reading && not d.writing && d.in_poller
    then some (record d { in_poller = false })
    else none

-- What `readFd` gives: bytes, the end of the stream for none, or an error.
pub data Read : Type 0 where
  got : List ℕ → Read
  error : Read

unfoldable pub handle_read : (List ℕ → List ℕ) → Read → Connection → Option Connection
handle_read on_message Read.error c = some c
handle_read on_message (Read.got []) c = handle_close c
handle_read on_message (Read.got (x ∷ xs)) c =
    some (note Note.message (record c { input = on_message (c.input ++ x ∷ xs) }))

-- After the write of `handleWrite`; `retrieve` stops at the end of the output.
unfoldable pub written : ℕ → Connection → Connection
written n c =
    let left = drop n c.output in
    let d : Connection = record c { output = left; wire = c.wire ++ take n c.output } in
    if is_empty left
    then (let done =
          note_if c.on_write_complete Note.write_complete (record d { writing = false }) in
        if is_disconnecting c.state then close_write_unless_writing done else done)
    else d

unfoldable pub handle_write : Write → Connection → Connection
handle_write (Write.wrote n) c = if c.writing && ltb 0 n then written n c else c
handle_write _ c = c

-- A step of the loop. `queued` is a `sendInLoop` that another thread has asked for.
pub data Step : Type 0 where
  establish : Step
  send_now : List ℕ → Write → Step
  queued : List ℕ → Write → Step
  shut : Step
  force : Step
  readable : Read → Step
  writable : Write → Step
  destroy : Step

unfoldable pub step : (List ℕ → List ℕ) → Step → Connection → Option Connection
step on_message Step.establish c = connect_established c
step on_message (Step.send_now bytes w) c = send bytes w c
step on_message (Step.queued bytes w) c = send_in_loop bytes w c
step on_message Step.shut c = some (shutdown c)
step on_message Step.force c = force_close c
step on_message (Step.readable r) c = handle_read on_message r c
step on_message (Step.writable w) c = some (handle_write w c)
step on_message Step.destroy c = connect_destroyed c
