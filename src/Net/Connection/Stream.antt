-- ===== src/Net/Connection/Stream.antt =====
-- The bytes that a connection takes go out in order, and none is lost while the socket works.
use duo_duo.Base.{
  ℕ, ◌≡◌, refl, sym, ap, subst, ◌∙◌, Bool, true, false, not, ◌&&◌, ◌||◌, List, [], ◌∷◌, ◌++◌,
  append_assoc, Option, none, some, arith, length, take, drop, take-append-drop, ltb, if◌then◌else◌,
  Bool-cases, Option-cases, inl, inr, and_right,
}
use duo_duo.Net.Connection.{
  State, Write, Read, Connection, Step, is_connected, is_disconnected, is_disconnecting, is_empty,
  enqueue, direct_write, send_in_loop, send, shutdown, handle_close, force_close,
  connect_established, connect_destroyed, handle_read, is_connecting, written, handle_write, step,
}

-- The bytes that the connection answers for: those in the socket and those that wait.
abbrev pub stream : Connection → List ℕ
stream c = c.wire ++ c.output

abbrev pub breaks : Write → Connection → Bool
breaks Write.broken c = not c.writing && is_empty c.output
breaks _ c = false

-- What a step adds to them: a message is taken unless the connection is not in the state for it,
-- or the direct write of it finds the connection broken.
abbrev pub accepted : Step → Connection → List ℕ
accepted (Step.send_now bytes w) c = if is_connected c.state && not (breaks w c) then bytes else []
accepted (Step.queued bytes w) c =
    if not (is_disconnected c.state) && not (breaks w c) then bytes else []
accepted _ c = []

nil_right : (xs : List ℕ) → xs ++ [] ≡ xs
nil_right [] = refl
nil_right (x ∷ xs) = ap (λ ys. x ∷ ys) (nil_right xs)

pub is_empty-nil : (xs : List ℕ) → is_empty xs ≡ true → xs ≡ []
is_empty-nil [] h = refl
is_empty-nil (x ∷ xs) h = cc

-- What holds of the result, if there is one.
abbrev pub OnSome {ℓ} : {A : Type ℓ} → (A → Type 0) → Option A → Type 0
OnSome P none = Unit {0}
OnSome P (some a) = P a

pub OnSome-use :
    (P : Connection → Type 0) {o : Option Connection} {c : Connection}
    → OnSome P o
    → o ≡ some c
    → P c
OnSome-use P h e = subst (OnSome P) e h

enqueue-stream : (bytes : List ℕ) (c : Connection) → stream (enqueue bytes c) ≡ stream c ++ bytes
unfolding enqueue
enqueue-stream [] c = sym (nil_right (stream c))
enqueue-stream (x ∷ xs) c = sym (append_assoc c.wire c.output (x ∷ xs))

direct_write-stream :
    (bytes : List ℕ) (w : Write) (c : Connection)
    → c.writing ≡ false
    → c.output ≡ []
    → OnSome
        (λ c'. stream c' ≡ stream c ++ (if not (breaks w c) then bytes else []))
        (direct_write bytes w c)
unfolding direct_write
direct_write-stream bytes Write.would_block c hw ho = enqueue-stream bytes c
direct_write-stream bytes Write.failed c hw ho = enqueue-stream bytes c
direct_write-stream bytes Write.broken c hw ho = rw (hw, ho) (sym (nil_right (c.wire ++ [])))
direct_write-stream bytes (Write.wrote n) c hw ho = elim (Bool-cases (ltb (length bytes) n)) [
  | inl over ↦ rw over tt
  | inr fits ↦ rw fits (
      enqueue-stream (drop n bytes) _
      ∙ rw ho (split c.wire (take n bytes) (drop n bytes) bytes (take-append-drop n bytes)))
]
  where
    split : (w xs ys zs : List ℕ) → xs ++ ys ≡ zs → ((w ++ xs) ++ []) ++ ys ≡ (w ++ []) ++ zs
    split w xs ys zs e = rw (nil_right (w ++ xs), nil_right w, append_assoc w xs ys, e) refl

send_in_loop-stream :
    (bytes : List ℕ) (w : Write) (c : Connection)
    → OnSome
        (λ c'.
          stream c'
          ≡ stream c ++ (if not (is_disconnected c.state) && not (breaks w c) then bytes else []))
        (send_in_loop bytes w c)
unfolding send_in_loop
send_in_loop-stream bytes w c = elim (Bool-cases (is_disconnected c.state)) [
  | inl gone ↦ rw gone (sym (nil_right (stream c)))
  | inr here ↦ elim (Bool-cases (not c.writing && is_empty c.output)) [
    | inl direct ↦ rw (here, direct) (direct_write-stream bytes w c (idle direct) (nothing direct))
    | inr waits ↦ rw (here, waits, breaks-waits w waits) (enqueue-stream bytes c)
  ]
]
  where
    idle : not c.writing && is_empty c.output ≡ true → c.writing ≡ false
    idle h = ground arith

    nothing : not c.writing && is_empty c.output ≡ true → c.output ≡ []
    nothing h = is_empty-nil c.output (and_right (not c.writing) (is_empty c.output) h)

    breaks-waits : (w : Write) → not c.writing && is_empty c.output ≡ false → breaks w c ≡ false
    breaks-waits (Write.wrote n) h = refl
    breaks-waits Write.would_block h = refl
    breaks-waits Write.broken h = h
    breaks-waits Write.failed h = refl

send-stream :
    (bytes : List ℕ) (w : Write) (c : Connection)
    → OnSome
        (λ c'.
          stream c' ≡ stream c ++ (if is_connected c.state && not (breaks w c) then bytes else []))
        (send bytes w c)
unfolding send
send-stream bytes w c = elim (Bool-cases (is_connected c.state)) [
  | inl here ↦ rw here (
      subst
        (λ b.
          OnSome (λ c'. stream c' ≡ stream c ++ (if not b && not (breaks w c) then bytes else []))
            (send_in_loop bytes w c))
        (alive c.state here) (send_in_loop-stream bytes w c))
  | inr gone ↦ rw gone (sym (nil_right (stream c)))
]
  where
    alive : (s : State) → is_connected s ≡ true → is_disconnected s ≡ false
    alive State.connected h = refl
    alive State.disconnected h = cc
    alive State.connecting h = cc
    alive State.disconnecting h = cc

pub written-fields :
    (n : ℕ) (c : Connection)
    → ((written n c).wire ≡ c.wire ++ take n c.output) × ((written n c).output ≡ drop n c.output)
unfolding written
written-fields n c = elim (Bool-cases (is_empty (drop n c.output))) [
  | inl done ↦ elim (Bool-cases (is_disconnecting c.state)) [
    | inl d ↦ rw (done, d) (refl, refl)
    | inr d ↦ rw (done, d) (refl, refl)
  ]
  | inr more ↦ rw more (refl, refl)
]

written-stream : (n : ℕ) (c : Connection) → stream (written n c) ≡ stream c
written-stream n c =
    rw ((written-fields n c).0, (written-fields n c).1)
      (append_assoc c.wire (take n c.output) (drop n c.output)
        ∙ ap (λ xs. c.wire ++ xs) (take-append-drop n c.output))

handle_close-stream : (c : Connection) → OnSome (λ c'. stream c' ≡ stream c) (handle_close c)
unfolding handle_close
handle_close-stream c = elim (Bool-cases (is_connected c.state || is_disconnecting c.state)) [
  | inl open_ ↦ rw open_ refl
  | inr shut ↦ rw shut tt
]

handle_write-stream : (w : Write) (c : Connection) → stream (handle_write w c) ≡ stream c
unfolding handle_write
handle_write-stream Write.would_block c = refl
handle_write-stream Write.failed c = refl
handle_write-stream Write.broken c = refl
handle_write-stream (Write.wrote n) c = elim (Bool-cases (c.writing && ltb 0 n)) [
  | inl some_ ↦ rw some_ (written-stream n c)
  | inr none_ ↦ rw none_ refl
]

quiet :
    (c : Connection) {c' : Connection} {o : Option Connection}
    → OnSome (λ d. stream d ≡ stream c) o
    → o ≡ some c'
    → stream c' ≡ stream c ++ []
quiet c h e = OnSome-use (λ d. stream d ≡ stream c) h e ∙ sym (nil_right (stream c))

connect_established-stream :
    (c : Connection) → OnSome (λ d. stream d ≡ stream c) (connect_established c)
unfolding connect_established
connect_established-stream c = elim (Bool-cases (is_connecting c.state)) [
  | inl e ↦ rw e refl
  | inr e ↦ rw e tt
]

shutdown-stream : (c : Connection) → stream (shutdown c) ≡ stream c
unfolding shutdown
shutdown-stream c = elim (Bool-cases (is_connected c.state)) [
  | inl e ↦ rw e refl
  | inr e ↦ rw e refl
]

force_close-stream : (c : Connection) → OnSome (λ d. stream d ≡ stream c) (force_close c)
unfolding force_close
force_close-stream c = elim (Bool-cases (is_connected c.state || is_disconnecting c.state)) [
  | inl e ↦ rw e (handle_close-stream _)
  | inr e ↦ rw e refl
]

handle_read-stream :
    (on_message : List ℕ → List ℕ) (r : Read) (c : Connection)
    → OnSome (λ d. stream d ≡ stream c) (handle_read on_message r c)
unfolding handle_read
handle_read-stream on_message Read.error c = refl
handle_read-stream on_message (Read.got []) c = handle_close-stream c
handle_read-stream on_message (Read.got (x ∷ xs)) c = refl

connect_destroyed-stream :
    (c : Connection) → OnSome (λ d. stream d ≡ stream c) (connect_destroyed c)
unfolding connect_destroyed
connect_destroyed-stream c = elim (Bool-cases (is_connected c.state)) [
  | inl e ↦ rw e refl
  | inr e ↦ elim (Bool-cases (not c.reading && not c.writing && c.in_poller)) [
    | inl ok ↦ rw (e, ok) refl
    | inr bad ↦ rw (e, bad) tt
  ]
]

-- A step that succeeds leaves what is in the socket and what waits for it as they were, followed
-- by the message that the step takes, if it takes one.
pub step-stream :
    (on_message : List ℕ → List ℕ) (s : Step) (c c' : Connection)
    → step on_message s c ≡ some c'
    → stream c' ≡ stream c ++ accepted s c
unfolding step
step-stream on_message (Step.send_now bytes w) c c' h = OnSome-use _ (send-stream bytes w c) h
step-stream on_message (Step.queued bytes w) c c' h = OnSome-use _ (send_in_loop-stream bytes w c) h
step-stream on_message (Step.readable r) c c' h = quiet c (handle_read-stream on_message r c) h
step-stream on_message Step.establish c c' h = quiet c (connect_established-stream c) h
step-stream on_message Step.shut c c' h = quiet c {o = some (shutdown c)} (shutdown-stream c) h
step-stream on_message Step.force c c' h = quiet c (force_close-stream c) h
step-stream on_message (Step.writable w) c c' h =
    quiet c {o = some (handle_write w c)} (handle_write-stream w c) h
step-stream on_message Step.destroy c c' h = quiet c (connect_destroyed-stream c) h

-- Steps one after the other.
unfoldable pub run : (List ℕ → List ℕ) → List Step → Connection → Option Connection
run on_message [] c = some c
run on_message (s ∷ ss) c = elim (step on_message s c) [
  | none ↦ none
  | some d ↦ run on_message ss d
]

-- The messages that they take, in order.
unfoldable pub accepted_all : (List ℕ → List ℕ) → List Step → Connection → List ℕ
accepted_all on_message [] c = []
accepted_all on_message (s ∷ ss) c =
    accepted s c
    ++ (elim (step on_message s c) [ none ↦ [] | some d ↦ accepted_all on_message ss d ])

-- After any steps, what is in the socket and then what waits for it are the messages taken, one
-- after the other: nothing is lost, repeated or reordered.
pub run-stream :
    (on_message : List ℕ → List ℕ) (ss : List Step) (c c' : Connection)
    → run on_message ss c ≡ some c'
    → stream c' ≡ stream c ++ accepted_all on_message ss c
unfolding run accepted_all
run-stream on_message [] c c' h =
    OnSome-use (λ d. stream d ≡ stream c ++ []) {o = some c} (sym (nil_right (stream c))) h
run-stream on_message (s ∷ ss) c c' h = elim (Option-cases (step on_message s c)) [
  | inl e ↦ absurd (cc (rw (e, run) at h))
  | inr (d, e) ↦
      rw (e, accepted_all)
        (run-stream on_message ss d c' (rw (e, run) at h)
          ∙ ap (λ xs. xs ++ accepted_all on_message ss d) (step-stream on_message s c d e)
          ∙ append_assoc (stream c) (accepted s c) (accepted_all on_message ss d))
]
