-- ===== src/Net/Connector/Attempts.antt =====
-- Connector.cpp: an attempt to connect and its outcomes (connect, startInLoop).
use duo_duo.Base.{ℕ, ◌≡◌, refl, ap, ◌∙◌, true, false, ◌∷◌, Option, none, some, arith}
use duo_duo.Net.Connector.{
  disconnected, connecting_, connected, Attempt, going, retriable, hopeless, opened, closed,
  Connector, connect, start_in_loop, call_error, note, retry,
}
use duo_duo.Net.Connector.Sockets.{
  made, gone, held, IsPatient, IsSound, Gives, call_error-IsSound, retry-IsSound, noted,
}

connect-IsSound :
    (a : Attempt) (fd : ℕ) (c : Connector)
    → IsSound c
    → c.status ≡ disconnected
    → c.resets ≡ 0
    → Gives (connect a fd c)
unfolding made gone held IsPatient
connect-IsSound going fd c h e z =
    let n = noted fd c h e z in
    let d = record c {
      notes = opened fd ∷ c.notes;
      status = connecting_;
      channel = some fd;
      writing = true;
    } in
    (
      d,
      ap (λ o. elim o as (λ _. Option Connector) [ some fd' ↦ none | none ↦ some d ])
          (h.dropped (cc) z),
      record {
        timely = h.timely;
        patient = h.patient;
        balance = omega (arith, n.balance);
        watched = λ _. (fd, refl, refl, z);
        quiet = λ k. absurd (k refl);
        dropped = λ k. absurd (k refl);
      },
    )
connect-IsSound retriable fd c h e z =
    let r = retry-IsSound fd (note (opened fd) c) (noted fd c h e z) in
    (
      r.0,
      ap
            (λ b. elim b as (λ _. Option Connector) [
              | false ↦ some (note (opened fd) c)
              | true ↦ retry fd (note (opened fd) c)
            ])
            (h.timely.retries)
          ∙ r.1,
      r.2,
    )
connect-IsSound hopeless fd c h e z = (
  call_error (note (closed fd) (note (opened fd) c)),
  refl,
  call_error-IsSound _ (record {
    timely = h.timely;
    patient = h.patient;
    balance = omega (arith, h.balance);
    watched = λ k. absurd (cc);
    quiet = h.quiet;
    dropped = h.dropped;
  }),
)

pub start_in_loop-IsSound :
    (a : Attempt) (fd : ℕ) (c : Connector)
    → IsSound c
    → c.status ≡ disconnected
    → c.resets ≡ 0
    → Gives (start_in_loop a fd c)
start_in_loop-IsSound a fd c h e z =
    let r = elim (c.connect_) as (λ b. Gives (elim b [ false ↦ some c | true ↦ connect a fd c ])) [
      | false ↦ (c, refl, h)
      | true ↦ connect-IsSound a fd c h e z
    ] in
    (
      r.0,
      ap
            (λ s. elim s as (λ _. Option Connector) [
              | disconnected ↦ elim (c.connect_) [ false ↦ some c | true ↦ connect a fd c ]
              | connecting_ ↦ none
              | connected ↦ none
            ])
            e
          ∙ r.1,
      r.2,
    )
