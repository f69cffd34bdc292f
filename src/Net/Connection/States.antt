-- ===== src/Net/Connection/States.antt =====
-- The states of a connection, its interest in writing, and the end of its output.
use duo_duo.Base.{
  ℕ, ◌≤◌, ◌≡◌, refl, sym, ap, true, false, not, ◌&&◌, ◌||◌, List, [], ◌∷◌, ◌++◌, Option, some,
  arith, length, drop, ltb, Bool-cases, inl, inr, and_left,
}
use duo_duo.Net.Connection.{
  State, Write, Read, Connection, Step, is_connected, is_connecting, is_disconnected,
  is_disconnecting, is_empty, enqueue, direct_write, send_in_loop, send, shutdown, handle_close,
  force_close, connect_established, connect_destroyed, handle_read, written, handle_write, step,
}
use duo_duo.Net.Connection.Stream.{OnSome, OnSome-use}

-- How far a connection is: it never goes back.
abbrev pub rank : State → ℕ
rank State.connecting = 0
rank State.connected = 1
rank State.disconnecting = 2
rank State.disconnected = 3

-- While it is not disconnected, a connection asks for writing just when output waits; once it is
-- disconnected, it asks for nothing.
pub record IsConsistent (c : Connection) : Type 0 where
  pub queue : is_disconnected c.state ≡ false → c.writing ≡ not (is_empty c.output)
  pub silent : is_disconnected c.state ≡ true → (c.writing ≡ false) × (c.reading ≡ false)

-- What a step keeps.
pub record IsStep (c c' : Connection) : Type 0 where
  pub forward : rank c.state ≤ rank c'.state
  pub consistent : IsConsistent c'

abbrev Kept : Connection → Option Connection → Type 0
Kept c = OnSome (IsStep c)

is_empty-append : (xs : List ℕ) (y : ℕ) (ys : List ℕ) → is_empty (xs ++ y ∷ ys) ≡ false
is_empty-append [] y ys = refl
is_empty-append (x ∷ xs) y ys = refl

module _ (c : Connection) where
  same : IsConsistent c → IsStep c c
  same v = record { forward = omega arith; consistent = v }

  -- Output is queued on a live connection whose interest may yet be missing.
  queued :
      (bytes : List ℕ) (d : Connection)
      → d.state ≡ c.state
      → is_disconnected c.state ≡ false
      → d.writing ≡ not (is_empty d.output)
      → IsStep c (enqueue bytes d)
  unfolding enqueue
  queued [] d e live q = record {
    forward = rw e (omega arith);
    consistent = record { queue = λ h. q; silent = λ h. absurd (cc) };
  }
  queued (x ∷ xs) d e live q = record {
    forward = rw e (omega arith);
    consistent = record {
      queue = λ h. ap not (sym (is_empty-append d.output x xs));
      silent = λ h. absurd (cc);
    };
  }

  direct :
      (bytes : List ℕ) (w : Write)
      → IsConsistent c
      → is_disconnected c.state ≡ false
      → Kept c (direct_write bytes w c)
  unfolding direct_write
  direct bytes Write.would_block v live = queued bytes c refl live (v.queue live)
  direct bytes Write.failed v live = queued bytes c refl live (v.queue live)
  direct bytes Write.broken v live = same v
  direct bytes (Write.wrote n) v live = elim (Bool-cases (ltb (length bytes) n)) [
    | inl over ↦ rw over tt
    | inr fits ↦ rw fits (queued (drop n bytes) _ refl live (v.queue live))
  ]

  in_loop : (bytes : List ℕ) (w : Write) → IsConsistent c → Kept c (send_in_loop bytes w c)
  unfolding send_in_loop
  in_loop bytes w v = elim (Bool-cases (is_disconnected c.state)) [
    | inl gone ↦ rw gone (same v)
    | inr live ↦ elim (Bool-cases (not c.writing && is_empty c.output)) [
      | inl d ↦ rw (live, d) (direct bytes w v live)
      | inr q ↦ rw (live, q) (queued bytes c refl live (v.queue live))
    ]
  ]

  sending : (bytes : List ℕ) (w : Write) → IsConsistent c → Kept c (send bytes w c)
  unfolding send
  sending bytes w v = elim (Bool-cases (is_connected c.state)) [
    | inl here ↦ rw here (in_loop bytes w v)
    | inr gone ↦ rw gone (same v)
  ]

rank_most : (s : State) → rank s ≤ 3
rank_most State.connecting = omega arith
rank_most State.connected = omega arith
rank_most State.disconnecting = omega arith
rank_most State.disconnected = omega arith

rank_connected : (s : State) → is_connected s ≡ true → rank s ≡ 1
rank_connected State.connected h = refl
rank_connected State.disconnected h = cc
rank_connected State.connecting h = cc
rank_connected State.disconnecting h = cc

rank_connecting : (s : State) → is_connecting s ≡ true → rank s ≡ 0
rank_connecting State.connecting h = refl
rank_connecting State.disconnected h = cc
rank_connecting State.connected h = cc
rank_connecting State.disconnecting h = cc

live_connected : (s : State) → is_connected s ≡ true → is_disconnected s ≡ false
live_connected State.connected h = refl
live_connected State.disconnected h = cc
live_connected State.connecting h = cc
live_connected State.disconnecting h = cc

live_connecting : (s : State) → is_connecting s ≡ true → is_disconnected s ≡ false
live_connecting State.connecting h = refl
live_connecting State.disconnected h = cc
live_connecting State.connected h = cc
live_connecting State.disconnecting h = cc

module _ (c : Connection) where
  closing : Kept c (handle_close c)
  unfolding handle_close
  closing = elim (Bool-cases (is_connected c.state || is_disconnecting c.state)) [
    | inl e ↦ rw e (record {
      forward = rank_most c.state;
      consistent = record { queue = λ h. absurd (cc); silent = λ h. (refl, refl) };
    })
    | inr e ↦ rw e tt
  ]

  forcing : IsConsistent c → Kept c (force_close c)
  unfolding force_close handle_close
  forcing v = elim (Bool-cases (is_connected c.state || is_disconnecting c.state)) [
    | inl e ↦ rw e (record {
      forward = rank_most c.state;
      consistent = record { queue = λ h. absurd (cc); silent = λ h. (refl, refl) };
    })
    | inr e ↦ rw e (same c v)
  ]

  shutting : IsConsistent c → IsStep c (shutdown c)
  unfolding shutdown
  shutting v = elim (Bool-cases (is_connected c.state)) [
    | inl e ↦ rw e (record {
      forward = omega (arith, rank_connected c.state e);
      consistent = record {
        queue = λ h. v.queue (live_connected c.state e);
        silent = λ h. absurd (cc);
      };
    })
    | inr e ↦ rw e (same c v)
  ]

  establishing : IsConsistent c → Kept c (connect_established c)
  unfolding connect_established
  establishing v = elim (Bool-cases (is_connecting c.state)) [
    | inl e ↦ rw e (record {
      forward = omega (arith, rank_connecting c.state e);
      consistent = record {
        queue = λ h. v.queue (live_connecting c.state e);
        silent = λ h. absurd (cc);
      };
    })
    | inr e ↦ rw e tt
  ]

  destroying : IsConsistent c → Kept c (connect_destroyed c)
  unfolding connect_destroyed
  destroying v = elim (Bool-cases (is_connected c.state)) [
    | inl e ↦ rw e (record {
      forward = rank_most c.state;
      consistent = record { queue = λ h. absurd (cc); silent = λ h. (refl, refl) };
    })
    | inr e ↦ elim (Bool-cases (not c.reading && not c.writing && c.in_poller)) [
      | inl ok ↦
          rw (e, ok)
            (record {
              forward = omega arith;
              consistent = record { queue = v.queue; silent = v.silent };
            })
      | inr bad ↦ rw (e, bad) tt
    ]
  ]

  reading_ :
      (on_message : List ℕ → List ℕ) (r : Read)
      → IsConsistent c
      → Kept c (handle_read on_message r c)
  unfolding handle_read
  reading_ on_message Read.error v = same c v
  reading_ on_message (Read.got []) v = closing
  reading_ on_message (Read.got (x ∷ xs)) v = record {
    forward = omega arith;
    consistent = record { queue = v.queue; silent = v.silent };
  }

  writing_ : (n : ℕ) → IsConsistent c → c.writing ≡ true → IsStep c (written n c)
  unfolding written
  writing_ n v h = elim (Bool-cases (is_empty (drop n c.output))) [
    | inl done ↦ elim (Bool-cases (is_disconnecting c.state)) [
      | inl d ↦
          rw (done, d)
            (record {
              forward = omega arith;
              consistent = record {
                queue = λ l. rw done refl;
                silent = λ g. (refl, (v.silent g).1);
              };
            })
      | inr d ↦
          rw (done, d)
            (record {
              forward = omega arith;
              consistent = record {
                queue = λ l. rw done refl;
                silent = λ g. (refl, (v.silent g).1);
              };
            })
    ]
    | inr more ↦ rw more (record {
      forward = omega arith;
      consistent = record { queue = λ l. rw more h; silent = v.silent };
    })
  ]

written_or_not : (c : Connection) (w : Write) → IsConsistent c → IsStep c (handle_write w c)
unfolding handle_write
written_or_not c Write.would_block v = same c v
written_or_not c Write.failed v = same c v
written_or_not c Write.broken v = same c v
written_or_not c (Write.wrote n) v = elim (Bool-cases (c.writing && ltb 0 n)) [
  | inl e ↦ rw e (writing_ c n v (and_left c.writing (ltb 0 n) e))
  | inr e ↦ rw e (same c v)
]

-- A step that succeeds never takes the connection back in its states, and keeps it consistent: a
-- connection that is not disconnected asks for writing just when output waits.
pub step-IsStep :
    (on_message : List ℕ → List ℕ) (s : Step) (c c' : Connection)
    → IsConsistent c
    → step on_message s c ≡ some c'
    → IsStep c c'
unfolding step
step-IsStep on_message s c c' v h = OnSome-use (IsStep c) (kept s) h
  where
    kept : (s : Step) → Kept c (step on_message s c)
    kept (Step.send_now bytes w) = sending c bytes w v
    kept (Step.queued bytes w) = in_loop c bytes w v
    kept (Step.readable r) = reading_ c on_message r v
    kept Step.establish = establishing c v
    kept Step.shut = shutting c v
    kept Step.force = forcing c v
    kept (Step.writable w) = written_or_not c w v
    kept Step.destroy = destroying c v
