-- ===== src/Http/Context/Terminates.antt =====
-- The loop of `parseRequest` ends from the states in which the server calls it, and from no other.
use duo_duo.Base.{
  ℕ, zero, suc, ◌<◌, ◌≡◌, refl, Bool, true, false, length, arith, inl, inr, Option-cases,
}
use duo_duo.Http.Bytes.{Bytes, find_byte, find_crlf}
use duo_duo.Http.Bytes.Find.{find_crlf-shorter}
use duo_duo.Http.Request.{Request, add_header}
use duo_duo.Http.Context.{ParseState, Context, Run, process_request_line, parse_loop, parse_request}

abbrev pub is_ready : ParseState → Bool
is_ready ParseState.expect_request_line = true
is_ready ParseState.expect_headers = true
is_ready ParseState.expect_body = false
is_ready ParseState.got_all = false

abbrev pub finished : Run → Bool
finished Run.unfinished = false
finished Run.asserted = true
finished (Run.returned ok ctx left) = true

abbrev pub at : ParseState → Request → Context
at s r = record { state = s; request = r }

-- More rounds than bytes: the result does not depend on how many.
pub parse_loop-fuel :
    (fuel fuel' : ℕ) (s : ParseState) (r : Request) (buf : Bytes)
    → is_ready s ≡ true
    → length buf < fuel
    → length buf < fuel'
    → (parse_loop fuel (at s r) buf ≡ parse_loop fuel' (at s r) buf)
      × (finished (parse_loop fuel (at s r) buf) ≡ true)
unfolding parse_loop
parse_loop-fuel zero fuel' s r buf h lt lt' = absurd (omega arith)
parse_loop-fuel (suc fuel) zero s r buf h lt lt' = absurd (omega arith)
parse_loop-fuel (suc fuel) (suc fuel') ParseState.expect_request_line r buf h lt lt' =
    elim (Option-cases (find_crlf buf)) [
      | inl e ↦ rw (e, parse_loop) (refl, refl)
      | inr ((line, after), e) ↦
          let short = find_crlf-shorter buf line after e in
          elim (Option-cases (process_request_line line r)) [
            | inl p ↦ rw (e, p, parse_loop) (refl, refl)
            | inr ((true, q), p) ↦
                rw (e, p, parse_loop)
                  (parse_loop-fuel fuel fuel' ParseState.expect_headers q after refl (omega arith)
                    (omega arith))
            | inr ((false, q), p) ↦ rw (e, p, parse_loop) (refl, refl)
          ]
    ]
parse_loop-fuel (suc fuel) (suc fuel') ParseState.expect_headers r buf h lt lt' =
    elim (Option-cases (find_crlf buf)) [
      | inl e ↦ rw (e, parse_loop) (refl, refl)
      | inr ((line, after), e) ↦
          let short = find_crlf-shorter buf line after e in
          elim (Option-cases (find_byte 58 line)) [
            | inl p ↦ rw (e, p, parse_loop) (refl, refl)
            | inr ((field, value), p) ↦
                rw (e, p, parse_loop)
                  (parse_loop-fuel fuel fuel' ParseState.expect_headers (add_header field value r)
                    after refl (omega arith) (omega arith))
          ]
    ]
parse_loop-fuel (suc fuel) (suc fuel') ParseState.expect_body r buf h lt lt' = cc
parse_loop-fuel (suc fuel) (suc fuel') ParseState.got_all r buf h lt lt' = cc

pub parse_loop-enough :
    (fuel : ℕ) (s : ParseState) (r : Request) (buf : Bytes)
    → is_ready s ≡ true
    → length buf < fuel
    → parse_loop fuel (at s r) buf ≡ parse_request (at s r) buf
unfolding parse_request
parse_loop-enough fuel s r buf h lt =
    (parse_loop-fuel fuel (suc (length buf)) s r buf h lt (omega arith)).0

-- From the request line or the headers the parser comes back, or fails its assertion, on any
-- bytes; and more rounds than bytes all give that same result.
pub parse_request-total :
    (ctx : Context) (buf : Bytes)
    → is_ready ctx.state ≡ true
    → (finished (parse_request ctx buf) ≡ true)
      × ((fuel : ℕ) → length buf < fuel → parse_loop fuel ctx buf ≡ parse_request ctx buf)
unfolding parse_request
parse_request-total ctx buf h = (
  (parse_loop-fuel (suc (length buf)) (suc (length buf)) ctx.state ctx.request buf h (omega arith)
      (omega arith)).1,
  λ fuel lt. parse_loop-enough fuel ctx.state ctx.request buf h lt,
)

spins :
    (fuel : ℕ) (s : ParseState) (r : Request) (buf : Bytes)
    → is_ready s ≡ false
    → parse_loop fuel (at s r) buf ≡ Run.unfinished
unfolding parse_loop
spins zero s r buf h = refl
spins (suc fuel) ParseState.expect_request_line r buf h = cc
spins (suc fuel) ParseState.expect_headers r buf h = cc
spins (suc fuel) ParseState.expect_body r buf h = spins fuel ParseState.expect_body r buf h
spins (suc fuel) ParseState.got_all r buf h = spins fuel ParseState.got_all r buf h

-- From the other two states no number of rounds ends the loop: a context whose request is
-- complete must be reset before the next call.
pub parse_loop-spins :
    (fuel : ℕ) (ctx : Context) (buf : Bytes)
    → is_ready ctx.state ≡ false
    → parse_loop fuel ctx buf ≡ Run.unfinished
parse_loop-spins fuel ctx buf h = spins fuel ctx.state ctx.request buf h
