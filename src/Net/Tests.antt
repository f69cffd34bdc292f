-- ===== src/Net/Tests.antt =====
-- The theorems on the event loop's side of a connection at concrete inputs.
use duo_duo.Base.{
  ℕ, ◌≡◌, ◌⊎◌, ◌<◌, ◌+◌, refl, true, false, List, [], ◌∷◌, ◌++◌, none, some, ◌==◌, if◌then◌else◌,
}
use duo_duo.Net.Poller.{Index, Call, Poller}
use duo_duo.Net.Connection.{
  State, Write, Note, Connection, Step, fresh, step, handle_close, send, send_in_loop, direct_write,
  enqueue,
}
use duo_duo.Net.Connector
use duo_duo.Net.Connector.{Connector, connecting_, opened}
use duo_duo.Net.EventLoop
use duo_duo.Net.EventLoop.{EventLoop}
use duo_duo.Net.EventLoop.Wakes.{run-IsOrderly}
use duo_duo.Net.Connection.Stream.{stream, accepted_all, run, run-stream}
use duo_duo.Net.Connection.States.{IsConsistent, IsStep, step-IsStep}

-- Channel `n` is for descriptor `n`, and none is in the poller.
abbrev idle : Poller
idle = record {
  objects = λ n. record { fd = n; events = 0; index = Index.new };
  channels = λ fd. none;
  calls = [];
}

abbrev three : ℕ
three = 3

-- Channel 5 has been in the poller, and asks for nothing.
abbrev quiet : Poller
quiet = record {
  objects = λ n.
      if n == 5
      then record { fd = 5; events = 0; index = Index.deleted }
      else record { fd = n; events = 0; index = Index.new };
  channels = λ fd. if fd == 5 then some 5 else none;
  calls = Call.delete 5 ∷ Call.add 5 3 ∷ [];
}

-- A connection that waits to send two of three bytes, and is shutting down.
abbrev closing : Connection
closing = record fresh {
  state = State.disconnecting;
  reading = true;
  writing = true;
  in_poller = true;
  output = 2 ∷ 3 ∷ [];
  wire = 1 ∷ [];
}

keep : List ℕ → List ℕ
keep input = input

abbrev open_ : Connection
open_ = record fresh { state = State.connected; reading = true; in_poller = true }

abbrev sent : Connection
sent = record open_ { writing = true; output = 2 ∷ 3 ∷ []; wire = 1 ∷ [] }

sends : step keep (Step.send_now (1 ∷ 2 ∷ 3 ∷ []) (Write.wrote 1)) open_ ≡ some sent
unfolding step send send_in_loop direct_write enqueue
sends = refl

abbrev one_send : List Step
one_send = Step.send_now (1 ∷ 2 ∷ 3 ∷ []) (Write.wrote 1) ∷ []

runs : run keep one_send open_ ≡ some sent
unfolding run step send send_in_loop direct_write enqueue
runs = refl

run-stream_example : stream sent ≡ stream open_ ++ accepted_all keep one_send open_
run-stream_example = run-stream keep one_send open_ sent runs

open_-IsConsistent : IsConsistent open_
open_-IsConsistent = record { queue = λ h. refl; silent = λ h. absurd (cc) }

step-IsStep_example : IsStep open_ sent
step-IsStep_example =
    step-IsStep keep (Step.send_now (1 ∷ 2 ∷ 3 ∷ []) (Write.wrote 1)) open_ sent open_-IsConsistent
      sends

abbrev closed : Connection
closed = record closing {
  state = State.disconnected;
  reading = false;
  writing = false;
  notes = Note.closed ∷ Note.connection State.disconnected ∷ [];
}

closes : handle_close closing ≡ some closed
unfolding handle_close
closes = refl

-- A connector that was started once, whose attempt is under way on descriptor 7.
abbrev under_way_7 : Connector
under_way_7 = record {
  status = connecting_;
  channel = some 7;
  writing = true;
  resets = 0;
  connect_ = true;
  retry_ = true;
  retry_interval = 20000;
  max_retry_interval = 30000;
  error_callback = true;
  notes = opened 7 ∷ [];
}

-- Another thread queues a function while the loop sleeps; that function queues one more.
-- A thread queues 1, a callback 2, and a thread 3 when the loop has found its queue empty.
abbrev awaking : List EventLoop.Step
awaking =
    EventLoop.queued []
    ∷ EventLoop.looped
    ∷ EventLoop.enqueued 1
    ∷ EventLoop.woken
    ∷ EventLoop.polled
    ∷ EventLoop.wake_event
    ∷ EventLoop.began
    ∷ EventLoop.ran (2 ∷ [])
    ∷ EventLoop.ran []
    ∷ EventLoop.found_empty
    ∷ EventLoop.enqueued 3
    ∷ EventLoop.ended
    ∷ []

abbrev asleep : EventLoop
asleep = record {
  phase = EventLoop.polling;
  funcs = 3 ∷ [];
  calling_pending_funcs = false;
  quit = false;
  wakeups = 0;
  writers = 1;
  submitted = 1 ∷ 2 ∷ 3 ∷ [];
  executed = 1 ∷ 2 ∷ [];
}

awaking-runs : EventLoop.run awaking (EventLoop.new_loop false) ≡ some asleep
unfolding EventLoop.run EventLoop.step
awaking-runs = refl

run-IsOrderly_example :
    (asleep.executed ++ asleep.funcs ≡ asleep.submitted)
    × ((asleep.phase ≡ EventLoop.polling) ⊎ (asleep.phase ≡ EventLoop.idle)
        → (asleep.funcs ≡ []) ⊎ (0 < asleep.wakeups + asleep.writers))
run-IsOrderly_example = run-IsOrderly awaking asleep awaking-runs
