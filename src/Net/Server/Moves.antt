-- ===== src/Net/Server/Moves.antt =====
-- What a handler of a connection does, as far as the server sees it.
use duo_duo.Base.{
  ℕ, ◌≤◌, ◌≡◌, refl, sym, ap, ◌∙◌, Bool, true, false, not, ◌&&◌, ◌||◌, List, [], ◌∷◌, Option, some,
  arith, length, drop, ltb, Bool-cases, inl, inr,
}
use duo_duo.Net.Connection
use duo_duo.Net.Connection.{
  State, Write, Read, Connection, is_connected, is_connecting, is_disconnected, is_disconnecting,
  is_empty, enqueue, direct_write, send_in_loop, send, shutdown, handle_close, force_close,
  handle_read, written, handle_write,
}

-- A handler never takes a connection out of the poller or into the state of a new one, nor out of
-- it.
pub record Moves (c d : Connection) : Type 0 where
  pub polled : c.in_poller ≡ true → d.in_poller ≡ true
  pub connecting : is_connecting d.state ≡ is_connecting c.state
  pub deaf : is_connecting c.state ≡ true → d.reading ≡ c.reading

-- A handler runs to its end.
abbrev pub Runs : Connection → Option Connection → Type 0
Runs c o = (d : Connection) × (o ≡ some d) × Moves c d

-- What `write` reports is at most what it was given.
abbrev pub Fits : List ℕ → Write → Type 0
Fits bytes (Write.wrote n) = n ≤ length bytes
Fits bytes Write.would_block = Unit {0}
Fits bytes Write.broken = Unit {0}
Fits bytes Write.failed = Unit {0}

-- Which steps of a connection can come: the poller reports only what the channel asks for, and
-- `send` queues nothing for a connection that is not yet connected.
abbrev pub IsEvent : Connection.Step → Connection → Type 0
IsEvent Connection.Step.establish c = ⊥
IsEvent (Connection.Step.send_now bytes w) c = Fits bytes w
IsEvent (Connection.Step.queued bytes w) c = (is_connecting c.state ≡ false) × Fits bytes w
IsEvent Connection.Step.shut c = Unit {0}
IsEvent Connection.Step.force c = Unit {0}
IsEvent (Connection.Step.readable r) c = c.reading ≡ true
IsEvent (Connection.Step.writable w) c = Unit {0}
IsEvent Connection.Step.destroy c = ⊥

abbrev pub is_live : State → Bool
is_live s = is_connected s || is_disconnecting s

live-connecting : (s : State) → is_live s ≡ true → is_connecting s ≡ false
live-connecting State.connected h = refl
live-connecting State.disconnecting h = refl
live-connecting State.connecting h = absurd (cc)
live-connecting State.disconnected h = absurd (cc)

connected-live : (s : State) → is_connected s ≡ true → is_live s ≡ true
connected-live s h = ap (λ b. b || is_disconnecting s) h

module _ (c : Connection) where
  stays : Moves c c
  stays = record { polled = λ h. h; connecting = refl; deaf = λ h. refl }

  enqueue-Moves : (bytes : List ℕ) (d : Connection) → Moves c d → Moves c (enqueue bytes d)
  unfolding enqueue
  enqueue-Moves [] d m = m
  enqueue-Moves (x ∷ xs) d m = record {
    polled = λ h. refl;
    connecting = m.connecting;
    deaf = m.deaf;
  }

  direct_write-Runs : (bytes : List ℕ) (w : Write) → Fits bytes w → Runs c (direct_write bytes w c)
  unfolding direct_write
  direct_write-Runs bytes Write.would_block f = (_, refl, enqueue-Moves bytes c stays)
  direct_write-Runs bytes Write.failed f = (_, refl, enqueue-Moves bytes c stays)
  direct_write-Runs bytes Write.broken f = (_, refl, stays)
  direct_write-Runs bytes (Write.wrote n) f =
      let fits : ltb (length bytes) n ≡ false = ground (arith, f) in
      rw fits (
        _,
        refl,
        enqueue-Moves (drop n bytes) _
            (record { polled = λ h. h; connecting = refl; deaf = λ h. refl }),
      )

  send_in_loop-Runs : (bytes : List ℕ) (w : Write) → Fits bytes w → Runs c (send_in_loop bytes w c)
  unfolding send_in_loop
  send_in_loop-Runs bytes w f = elim (Bool-cases (is_disconnected c.state)) [
    | inl gone ↦ rw gone (_, refl, stays)
    | inr live ↦ elim (Bool-cases (not c.writing && is_empty c.output)) [
      | inl idle ↦ rw (live, idle) (direct_write-Runs bytes w f)
      | inr busy ↦ rw (live, busy) (_, refl, enqueue-Moves bytes c stays)
    ]
  ]

  send-Runs : (bytes : List ℕ) (w : Write) → Fits bytes w → Runs c (send bytes w c)
  unfolding send
  send-Runs bytes w f = elim (Bool-cases (is_connected c.state)) [
    | inl here ↦ rw here (send_in_loop-Runs bytes w f)
    | inr away ↦ rw away (_, refl, stays)
  ]

  -- From a live connection to a state of which it is known that it is not that of a new one.
  leaves :
      (d : Connection)
      → is_live c.state ≡ true
      → (c.in_poller ≡ true → d.in_poller ≡ true)
      → is_connecting d.state ≡ false
      → Moves c d
  leaves d live p e = record {
    polled = p;
    connecting = e ∙ sym (live-connecting c.state live);
    deaf = λ h. absurd (let q = live-connecting c.state live in cc);
  }

  shutdown-Moves : Moves c (shutdown c)
  unfolding shutdown
  shutdown-Moves = elim (Bool-cases (is_connected c.state)) [
    | inl here ↦ rw here (leaves _ (connected-live c.state here) (λ h. h) refl)
    | inr away ↦ rw away stays
  ]

  handle_close-Runs : is_live c.state ≡ true → Runs c (handle_close c)
  unfolding handle_close
  handle_close-Runs live = rw live (_, refl, leaves _ live (λ h. refl) refl)

  force_close-Runs : Runs c (force_close c)
  unfolding force_close handle_close
  force_close-Runs = elim (Bool-cases (is_live c.state)) [
    | inl live ↦ rw live (_, refl, leaves _ live (λ h. refl) refl)
    | inr gone ↦ rw gone (_, refl, stays)
  ]

  written-Moves : (n : ℕ) → Moves c (written n c)
  unfolding written
  written-Moves n = elim (Bool-cases (is_empty (drop n c.output))) [
    | inl done ↦ elim (Bool-cases (is_disconnecting c.state)) [
      | inl closing ↦
          rw (done, closing) (record { polled = λ h. h; connecting = refl; deaf = λ h. refl })
      | inr open_ ↦
          rw (done, open_) (record { polled = λ h. h; connecting = refl; deaf = λ h. refl })
    ]
    | inr more ↦ rw more (record { polled = λ h. h; connecting = refl; deaf = λ h. refl })
  ]

  handle_write-Moves : (w : Write) → Moves c (handle_write w c)
  unfolding handle_write
  handle_write-Moves (Write.wrote n) = elim (Bool-cases (c.writing && ltb 0 n)) [
    | inl asked ↦ rw asked (written-Moves n)
    | inr idle ↦ rw idle stays
  ]
  handle_write-Moves Write.would_block = stays
  handle_write-Moves Write.broken = stays
  handle_write-Moves Write.failed = stays

  handle_read-Runs :
      (on_message : List ℕ → List ℕ) (r : Read)
      → is_live c.state ≡ true
      → Runs c (handle_read on_message r c)
  unfolding handle_read
  handle_read-Runs on_message Read.error live = (_, refl, stays)
  handle_read-Runs on_message (Read.got []) live = handle_close-Runs live
  handle_read-Runs on_message (Read.got (x ∷ xs)) live =
      (_, refl, record { polled = λ h. h; connecting = refl; deaf = λ h. refl })

  -- Each step that can come runs to its end, on a connection that reads only while it is live.
  pub step-Runs :
      (on_message : List ℕ → List ℕ) (x : Connection.Step)
      → (c.reading ≡ true → is_live c.state ≡ true)
      → IsEvent x c
      → Runs c (Connection.step on_message x c)
  unfolding Connection.step
  step-Runs on_message Connection.Step.establish l e = absurd e
  step-Runs on_message (Connection.Step.send_now bytes w) l e = send-Runs bytes w e
  step-Runs on_message (Connection.Step.queued bytes w) l e = send_in_loop-Runs bytes w (e.1)
  step-Runs on_message Connection.Step.shut l e = (_, refl, shutdown-Moves)
  step-Runs on_message Connection.Step.force l e = force_close-Runs
  step-Runs on_message (Connection.Step.readable r) l e = handle_read-Runs on_message r (l e)
  step-Runs on_message (Connection.Step.writable w) l e = (_, refl, handle_write-Moves w)
  step-Runs on_message Connection.Step.destroy l e = absurd e
