-- ===== src/Net/Channel.antt =====
-- Channel.h and Channel.cpp: the events that a descriptor asks for, and which callbacks run for
-- those that occur. Bits are those of poll(2).
use duo_duo.Base.{ℕ, Bool, not, ◌&&◌, List, [], ◌∷◌, ◌++◌, bit_and, ◌==◌, if◌then◌else◌}

abbrev pub pollin : ℕ
pollin = 1

abbrev pub pollpri : ℕ
pollpri = 2

abbrev pub pollout : ℕ
pollout = 4

abbrev pub pollerr : ℕ
pollerr = 8

abbrev pub pollhup : ℕ
pollhup = 16

abbrev pub pollnval : ℕ
pollnval = 32

abbrev pub pollrdhup : ℕ
pollrdhup = 8192

abbrev pub read_event : ℕ
read_event = 3

abbrev pub write_event : ℕ
write_event = 4

pub data Callback : Type 0 where
  on_close : Callback
  on_error : Callback
  on_read : Callback
  on_write : Callback

-- `revents_ & mask`, as a condition.
abbrev pub has : ℕ → ℕ → Bool
has revents mask = not (bit_and revents mask == 0)

abbrev pub call_if : Bool → Callback → List Callback
call_if b c = if b then c ∷ [] else []

-- `handleEventWithGuard`: the callbacks that it runs, each one if it is set.
unfoldable pub handle_event_with_guard : ℕ → List Callback
handle_event_with_guard revents =
    call_if (has revents pollhup && not (has revents pollin)) Callback.on_close
    ++ (call_if (has revents 40) Callback.on_error
        ++ (call_if (has revents 8195) Callback.on_read
            ++ call_if (has revents pollout) Callback.on_write))

-- `handleEvent`, for a channel that may be tied to an owner that may be alive.
unfoldable pub handle_event : Bool → Bool → ℕ → List Callback
handle_event tied alive revents =
    if tied
    then (if alive then handle_event_with_guard revents else [])
    else handle_event_with_guard revents
