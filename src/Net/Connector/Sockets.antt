-- ===== src/Net/Connector/Sockets.antt =====
-- Connector.cpp: what becomes of the sockets that a connector makes, how long it waits, and that a
-- failed attempt keeps to it.
use duo_duo.Base.{
  ℕ, suc, ◌+◌, ◌*◌, ◌≤◌, ◌≡◌, ◌≢◌, ap, ◌∙◌, Bool, true, false, List, [], ◌∷◌, Option, none, some,
  arith,
}
use duo_duo.Net.Connector.{
  Status, disconnected, connecting_, connected, Note, opened, closed, new_connection,
  connection_error, run_after, Connector, Step, started, timed, writable, in_error, queued, give_up,
  call_error, note, retry, schedule, capped, map_option,
}

-- The sockets that were made, and those closed or given to the new connection callback.
unfoldable pub made : List Note → ℕ
made [] = 0
made (opened fd ∷ ns) = suc (made ns)
made (closed fd ∷ ns) = made ns
made (new_connection fd ∷ ns) = made ns
made (connection_error ∷ ns) = made ns
made (run_after d ∷ ns) = made ns

unfoldable pub gone : List Note → ℕ
gone [] = 0
gone (opened fd ∷ ns) = gone ns
gone (closed fd ∷ ns) = suc (gone ns)
gone (new_connection fd ∷ ns) = suc (gone ns)
gone (connection_error ∷ ns) = gone ns
gone (run_after d ∷ ns) = gone ns

-- The socket that the connector itself has.
unfoldable pub held : Status → ℕ
held disconnected = 0
held connecting_ = 1
held connected = 0

-- Every delay is from half a second to half a minute, in microseconds.
unfoldable pub IsPatient : List Note → Type 0
IsPatient [] = Unit {0}
IsPatient (opened fd ∷ ns) = IsPatient ns
IsPatient (closed fd ∷ ns) = IsPatient ns
IsPatient (new_connection fd ∷ ns) = IsPatient ns
IsPatient (connection_error ∷ ns) = IsPatient ns
IsPatient (run_after d ∷ ns) = (500000 ≤ d) × (d ≤ 30000000) × IsPatient ns

-- That a connector retries, the largest interval between attempts and the next one.
pub record IsTimely (r : Bool) (m i : ℕ) : Type 0 where
  pub retries : r ≡ true
  pub limit : m ≡ 30000
  pub low : 500 ≤ i
  pub high : i ≤ 30000

-- Each socket is closed, handed over or watched by the channel of the attempt that goes on.
pub record IsSound (c : Connector) : Type 0 where
  pub timely : IsTimely (c.retry_) (c.max_retry_interval) (c.retry_interval)
  pub patient : IsPatient (c.notes)
  pub balance : made (c.notes) ≡ gone (c.notes) + held (c.status)
  pub watched :
      c.status ≡ connecting_
      → (fd : ℕ) × (c.channel ≡ some fd) × (c.writing ≡ true) × (c.resets ≡ 0)
  pub quiet : c.status ≢ connecting_ → c.writing ≡ false
  pub dropped : c.status ≢ connecting_ → c.resets ≡ 0 → c.channel ≡ none

-- When a step can occur: an attempt starts while none goes on, none has succeeded and the channel
-- of the last one is dropped; a connected connector has no channel that could become writable.
unfoldable pub IsReady : Step → Connector → Type 0
IsReady (started a fd) c = (c.status ≡ disconnected) × (c.resets ≡ 0)
IsReady (timed a fd) c = (c.status ≡ disconnected) × (c.resets ≡ 0)
IsReady (writable err self) c = c.status ≢ connected
IsReady in_error c = Unit {0}
IsReady queued c = Unit {0}

-- A connector between the removal of its channel and the end of the handler.
pub record IsLeaving (c : Connector) : Type 0 where
  pub timely : IsTimely (c.retry_) (c.max_retry_interval) (c.retry_interval)
  pub patient : IsPatient (c.notes)
  pub balance : made (c.notes) ≡ suc (gone (c.notes))
  pub quiet : c.writing ≡ false
  pub dropped : c.resets ≡ 0 → c.channel ≡ none

pub call_error-IsSound : (c : Connector) → IsSound c → IsSound (call_error c)
unfolding made gone held IsPatient
call_error-IsSound c h =
    elim (c.error_callback)
      as (λ b. IsSound (elim b [ false ↦ c | true ↦ note connection_error c ])) [
        | false ↦ h
        | true ↦ record {
          timely = h.timely;
          patient = h.patient;
          balance = h.balance;
          watched = h.watched;
          quiet = h.quiet;
          dropped = h.dropped;
        }
      ]

capped_bounds :
    (i m : ℕ) → m ≡ 30000 → 500 ≤ i → (500 ≤ capped (i * 2) m) × (capped (i * 2) m ≤ 30000)
capped_bounds i m e lo = ground arith

schedule-IsSound : (c : Connector) → IsSound c → IsSound (schedule c)
unfolding made gone held IsPatient
schedule-IsSound c h =
    elim (c.connect_)
      as (λ b. IsSound (elim b [
        | false ↦ c
        | true ↦ record c {
          notes = run_after (c.retry_interval * 1000) ∷ c.notes;
          retry_interval = capped (c.retry_interval * 2) (c.max_retry_interval);
        }
      ])) [
        | false ↦ h
        | true ↦
            let b =
              capped_bounds (c.retry_interval) (c.max_retry_interval) (h.timely.limit)
                (h.timely.low) in
            record {
              timely = record {
                retries = h.timely.retries;
                limit = h.timely.limit;
                low = b.0;
                high = b.1;
              };
              patient = (omega (arith, h.timely.low), omega (arith, h.timely.high), h.patient);
              balance = h.balance;
              watched = h.watched;
              quiet = h.quiet;
              dropped = h.dropped;
            }
      ]

-- The state right after the socket of a failed attempt is closed.
pub given_up :
    (fd : ℕ) (c : Connector)
    → IsLeaving c
    → IsSound (record c { notes = closed fd ∷ c.notes; status = disconnected })
unfolding made gone held IsPatient
given_up fd c h = record {
  timely = h.timely;
  patient = h.patient;
  balance = omega (arith, h.balance);
  watched = λ e. absurd (cc);
  quiet = λ n. h.quiet;
  dropped = λ n. h.dropped;
}

abbrev pub Gives : Option Connector → Type 0
Gives o = (c' : Connector) × (o ≡ some c') × IsSound c'

pub retry-IsSound : (fd : ℕ) (c : Connector) → IsLeaving c → Gives (retry fd c)
retry-IsSound fd c h =
    let d = record c { notes = closed fd ∷ c.notes; status = disconnected } in
    (
      schedule d,
      ap (λ b. elim b as (λ _. Option Connector) [ false ↦ none | true ↦ some (schedule d) ])
          (h.timely.retries),
      schedule-IsSound _ (given_up fd c h),
    )

pub give_up-IsSound : (fd : ℕ) (c : Connector) → IsLeaving c → Gives (give_up fd c)
give_up-IsSound fd c h =
    let r = retry-IsSound fd c h in
    (
      call_error (r.0),
      ap
            (λ b. elim b as (λ _. Option Connector) [
              | false ↦ some (call_error (note (closed fd) c))
              | true ↦ map_option call_error (retry fd c)
            ])
            (h.timely.retries)
          ∙ ap (map_option call_error) (r.1),
      call_error-IsSound _ (r.2),
    )

pub noted :
    (fd : ℕ) (c : Connector)
    → IsSound c
    → c.status ≡ disconnected
    → c.resets ≡ 0
    → IsLeaving (note (opened fd) c)
unfolding made gone held IsPatient
noted fd c h e z = record {
  timely = h.timely;
  patient = h.patient;
  balance = omega (arith, h.balance, ap held e);
  quiet = h.quiet (cc);
  dropped = λ _. h.dropped (cc) z;
}
