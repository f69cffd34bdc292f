-- ===== src/Http/Server/Serves.antt =====
-- What a connection's peer sees of the server.
use duo_duo.Base.{
  ℕ, zero, suc, ◌<◌, ◌≡◌, ◌≢◌, ◌⊎◌, refl, sym, ap, Bool, true, false, List, [], ◌∷◌, ◌++◌, none,
  length, arith, inl, inr, Option-cases,
}
use duo_duo.Http.Bytes.{Bytes, find_byte, find_crlf}
use duo_duo.Http.Bytes.Find.{find_crlf-shorter}
use duo_duo.Http.Request.{Request, is_invalid, set_method, add_header}
use duo_duo.Http.Context.{
  ParseState, Context, Run, reset, process_request_line, parse_loop, parse_request,
}
use duo_duo.Http.Context.Terminates.{is_ready, at}
use duo_duo.Http.Context.Chunks.{resume, parse_request-append}
use duo_duo.Http.Server.{Action, Callback, Reply, bad_request, on_request, reply, on_message}

-- A context between requests has no method yet, and none has its request complete.
pub data IsFresh : Context → Type 0 where
  between :
      (r : Request) → is_invalid r.method ≡ true → IsFresh (at ParseState.expect_request_line r)
  within : (r : Request) → IsFresh (at ParseState.expect_headers r)

-- What parsing gives from such a context.
pub data Outcome : Run → Type 0 where
  waits : {ctx : Context} (left : Bytes) → IsFresh ctx → Outcome (Run.returned true ctx left)
  completes :
      (r : Request) (left : Bytes) → Outcome (Run.returned true (at ParseState.got_all r) left)
  bad :
      (r : Request) (left : Bytes)
      → Outcome (Run.returned false (at ParseState.expect_request_line r) left)

headers-Outcome :
    (fuel : ℕ) (r : Request) (buf : Bytes)
    → length buf < fuel
    → Outcome (parse_loop fuel (at ParseState.expect_headers r) buf)
unfolding parse_loop
headers-Outcome zero r buf lt = absurd (omega arith)
headers-Outcome (suc fuel) r buf lt = elim (Option-cases (find_crlf buf)) [
  | inl e ↦ rw (e, parse_loop) (Outcome.waits buf (IsFresh.within r))
  | inr ((line, after), e) ↦
      let short = find_crlf-shorter buf line after e in
      elim (Option-cases (find_byte 58 line)) [
        | inl p ↦ rw (e, p, parse_loop) (Outcome.completes r after)
        | inr ((field, value), p) ↦
            rw (e, p, parse_loop)
              (headers-Outcome fuel (add_header field value r) after (omega arith))
      ]
]

process_request_line-runs :
    (line : Bytes) (r : Request) → is_invalid r.method ≡ true → process_request_line line r ≢ none
unfolding process_request_line set_method
process_request_line-runs line r h e = elim (Option-cases (find_byte 32 line)) [
  | inl f ↦ ground arith
  | inr ((m, rest), f) ↦ ground arith
]

parse_request-Outcome :
    (ctx : Context) (buf : Bytes) → IsFresh ctx → Outcome (parse_request ctx buf)
unfolding parse_request parse_loop
parse_request-Outcome ctx buf (IsFresh.within r) =
    headers-Outcome (suc (length buf)) r buf (omega arith)
parse_request-Outcome ctx buf (IsFresh.between r h) = elim (Option-cases (find_crlf buf)) [
  | inl e ↦ rw (e, parse_request, parse_loop) (Outcome.waits buf (IsFresh.between r h))
  | inr ((line, after), e) ↦ elim (Option-cases (process_request_line line r)) [
    | inl p ↦ absurd (process_request_line-runs line r h p)
    | inr ((true, q), p) ↦
        rw (e, p, parse_request, parse_loop)
          (headers-Outcome (length buf) q after (omega (arith, find_crlf-shorter buf line after e)))
    | inr ((false, q), p) ↦ rw (e, p, parse_request, parse_loop) (Outcome.bad q buf)
  ]
]

-- From a fresh context, which a new connection has, the handler comes back on any bytes, without
-- an abort: either the context is fresh again, or the request was bad and all that is done is to
-- answer 400 and to shut the connection down.
pub on_message-handles :
    (callback : Callback) (ctx : Context) (buf : Bytes)
    → IsFresh ctx
    → (actions : List Action) × (ctx' : Context) × (left : Bytes) × (on_message callback ctx buf
        ≡ Reply.handled actions ctx' left)
      × (IsFresh ctx' ⊎ (actions ≡ Action.send bad_request ∷ Action.shutdown ∷ []))
unfolding on_message reply
on_message-handles callback ctx buf h =
    go (parse_request ctx buf) (parse_request-Outcome ctx buf h) refl
  where
    go :
        (run : Run)
        → Outcome run
        → parse_request ctx buf ≡ run
        → (actions : List Action) × (ctx' : Context) × (left : Bytes) × (on_message callback ctx buf
            ≡ Reply.handled actions ctx' left)
          × (IsFresh ctx' ⊎ (actions ≡ Action.send bad_request ∷ Action.shutdown ∷ []))
    go run (Outcome.waits left (IsFresh.between r f)) e = (
      [],
      at ParseState.expect_request_line r,
      left,
      rw (on_message, e, reply) refl,
      inl (IsFresh.between r f),
    )
    go run (Outcome.waits left (IsFresh.within r)) e = (
      [],
      at ParseState.expect_headers r,
      left,
      rw (on_message, e, reply) refl,
      inl (IsFresh.within r),
    )
    go run (Outcome.completes r left) e = (
      on_request callback r,
      reset,
      left,
      rw (on_message, e, reply) refl,
      inl (IsFresh.between reset.request refl),
    )
    go run (Outcome.bad r left) e = (
      Action.send bad_request ∷ Action.shutdown ∷ [],
      at ParseState.expect_request_line r,
      left,
      rw (on_message, e, reply) refl,
      inr refl,
    )

fresh-ready : {ctx : Context} → IsFresh ctx → is_ready ctx.state ≡ true
fresh-ready (IsFresh.between r h) = refl
fresh-ready (IsFresh.within r) = refl

abbrev run_of : Reply → Run
run_of (Reply.handled actions ctx left) = Run.returned true ctx left
run_of _ = Run.unfinished

abbrev ready_of : Reply → Bool
ready_of (Reply.handled actions ctx left) = is_ready ctx.state
ready_of _ = false

quiet :
    (callback : Callback) {run : Run} {ctx : Context} {left : Bytes}
    → Outcome run
    → reply callback run ≡ Reply.handled [] ctx left
    → (run ≡ Run.returned true ctx left) × (is_ready ctx.state ≡ true)
unfolding reply on_request
quiet callback (Outcome.waits left' (IsFresh.between r f)) h = (ap run_of h, sym (ap ready_of h))
quiet callback (Outcome.waits left' (IsFresh.within r)) h = (ap run_of h, sym (ap ready_of h))
quiet callback (Outcome.completes r left') h = cc
quiet callback (Outcome.bad r left') h = cc

-- From a fresh context, bytes that get no answer may as well have come together with those that
-- follow: the answers, the context and what is left are the same.
pub on_message-append :
    (callback : Callback) (ctx ctx' : Context) (xs ys left : Bytes)
    → IsFresh ctx
    → on_message callback ctx xs ≡ Reply.handled [] ctx' left
    → on_message callback ctx (xs ++ ys) ≡ on_message callback ctx' (left ++ ys)
unfolding on_message
on_message-append callback ctx ctx' xs ys left fresh h =
    let (e, ready) = quiet callback (parse_request-Outcome ctx xs fresh) h in
    rw (on_message, parse_request-append ctx xs ys (fresh-ready fresh), e, resume, ready) refl
