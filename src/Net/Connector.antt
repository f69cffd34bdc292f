-- ===== src/Net/Connector.antt =====
-- Connector.h and Connector.cpp, in the loop's thread: the attempts to connect, and the delays
-- between them. What the system calls give stands with each step: the descriptor of a new socket,
-- the class of the error of `connect`, the error of a socket that became writable and whether it
-- is connected to itself. Calls that leave the connector are notes, the last one first. `none` is
-- a failed assertion or a missing channel.
pub mod Sockets
pub mod Attempts
pub mod Accounts
use duo_duo.Base.{ℕ, zero, suc, ◌+◌, ◌*◌, Bool, true, false, List, [], ◌∷◌, Option, none, some, ltb}

pub data Status : Type 0 where
  disconnected : Status
  connecting_ : Status
  connected : Status

-- The classes of errors in the switch of `connect`: none or one that leaves the attempt going,
-- one after which another attempt may help, and all others.
pub data Attempt : Type 0 where
  going : Attempt
  retriable : Attempt
  hopeless : Attempt

pub data Note : Type 0 where
  opened : ℕ → Note
  closed : ℕ → Note
  new_connection : ℕ → Note
  connection_error : Note
  run_after : ℕ → Note

-- `channel` is the channel's descriptor, `writing` its write event, and `resets` the functions
-- that wait in the loop to drop it.
pub record Connector : Type 0 where
  pub status : Status
  pub channel : Option ℕ
  pub writing : Bool
  pub resets : ℕ
  pub connect_ : Bool
  pub retry_ : Bool
  pub retry_interval : ℕ
  pub max_retry_interval : ℕ
  pub error_callback : Bool
  pub notes : List Note

-- A new connector, for `retry` and for whether an error callback is set.
abbrev pub new_connector : Bool → Bool → Connector
new_connector r e = record {
  status = Status.disconnected;
  channel = none;
  writing = false;
  resets = 0;
  connect_ = false;
  retry_ = r;
  retry_interval = 500;
  max_retry_interval = 30 * 1000;
  error_callback = e;
  notes = [];
}

abbrev pub note : Note → Connector → Connector
note n c = record c { notes = n ∷ c.notes }

-- `if (errorCallback_) errorCallback_();`
abbrev pub call_error : Connector → Connector
call_error c = elim (c.error_callback) [ false ↦ c | true ↦ note Note.connection_error c ]

abbrev pub capped : ℕ → ℕ → ℕ
capped d m = elim (ltb m d) [ true ↦ m | false ↦ d ]

-- The part of `retry` under `connect_`: the delay is in microseconds, the interval in
-- milliseconds.
abbrev pub schedule : Connector → Connector
schedule c = elim (c.connect_) [
  | false ↦ c
  | true ↦ record c {
    notes = Note.run_after (c.retry_interval * 1000) ∷ c.notes;
    retry_interval = capped (c.retry_interval * 2) (c.max_retry_interval);
  }
]

abbrev pub retry : ℕ → Connector → Option Connector
retry fd c = elim (c.retry_) [
  | false ↦ none
  | true ↦ some (schedule (record c { notes = Note.closed fd ∷ c.notes; status = disconnected }))
]

abbrev pub connecting : ℕ → Connector → Option Connector
connecting fd c = elim (c.channel) [
  | some fd' ↦ none
  | none ↦ some (record c { status = connecting_; channel = some fd; writing = true })
]

-- `connect`: the socket is made first. A retriable error without `retry_` leaves it open.
abbrev pub connect : Attempt → ℕ → Connector → Option Connector
connect going fd c = connecting fd (note (opened fd) c)
connect retriable fd c = elim (c.retry_) [
  | false ↦ some (note (opened fd) c)
  | true ↦ retry fd (note (opened fd) c)
]
connect hopeless fd c = some (call_error (note (closed fd) (note (opened fd) c)))

abbrev pub start_in_loop : Attempt → ℕ → Connector → Option Connector
start_in_loop a fd c = elim (c.status) [
  | disconnected ↦ elim (c.connect_) [ false ↦ some c | true ↦ connect a fd c ]
  | connecting_ ↦ none
  | connected ↦ none
]

abbrev pub start : Attempt → ℕ → Connector → Option Connector
start a fd c = start_in_loop a fd (record c { connect_ = true })

-- `removeAndResetChannel`, but for the descriptor that it returns.
abbrev pub remove_and_reset_channel : Connector → Connector
remove_and_reset_channel c = record c { writing = false; resets = suc (c.resets) }

-- The function that `removeAndResetChannel` queues.
abbrev pub reset_channel : Connector → Connector
reset_channel c = record c { channel = none }

-- `if (retry_) retry(sockfd); else ::close(sockfd);`, then the error callback.
abbrev pub map_option : (Connector → Connector) → Option Connector → Option Connector
map_option f none = none
map_option f (some c) = some (f c)

abbrev pub give_up : ℕ → Connector → Option Connector
give_up fd c = elim (c.retry_) [
  | false ↦ some (call_error (note (Note.closed fd) c))
  | true ↦ map_option call_error (retry fd c)
]

-- The last branch of `handleWrite`.
abbrev pub hand_over : ℕ → Connector → Connector
hand_over fd c = elim (c.connect_) [
  | true ↦ note (new_connection fd) (record c { status = connected })
  | false ↦ note (closed fd) (record c { status = connected })
]

abbrev pub written : Bool → Bool → ℕ → Connector → Option Connector
written true self fd c = give_up fd c
written false true fd c = give_up fd c
written false false fd c = some (hand_over fd c)

-- `handleWrite`, with whether the socket has an error and whether it is connected to itself.
abbrev pub handle_write : Bool → Bool → Connector → Option Connector
handle_write err self c = elim (c.status) [
  | connecting_ ↦ elim (c.channel) [
    | none ↦ none
    | some fd ↦ written err self fd (remove_and_reset_channel c)
  ]
  | disconnected ↦ some c
  | connected ↦ none
]

abbrev pub handle_error : Connector → Option Connector
handle_error c = elim (c.status) [
  | connecting_ ↦ elim (c.channel) [
    | none ↦ none
    | some fd ↦ give_up fd (remove_and_reset_channel (record c { status = disconnected }))
  ]
  | disconnected ↦ some c
  | connected ↦ some c
]

pub data Step : Type 0 where
  started : Attempt → ℕ → Step
  timed : Attempt → ℕ → Step
  writable : Bool → Bool → Step
  in_error : Step
  queued : Step

-- `queued` is the loop running one of the functions that wait in it.
abbrev pub run_queued : ℕ → Connector → Connector
run_queued zero c = c
run_queued (suc n) c = reset_channel (record c { resets = n })

unfoldable pub step : Step → Connector → Option Connector
step (started a fd) c = start a fd c
step (timed a fd) c = start_in_loop a fd c
step (writable err self) c = handle_write err self c
step in_error c = handle_error c
step queued c = some (run_queued (c.resets) c)
