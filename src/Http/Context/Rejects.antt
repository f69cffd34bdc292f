-- ===== src/Http/Context/Rejects.antt =====
-- What a bad request line leaves behind.
use duo_duo.Base.{
  ℕ, zero, suc, ◌≡◌, ◌≢◌, refl, subst, Bool, true, false, ◌++◌, none, some, length, arith, inl, inr,
  Option-cases,
}
use duo_duo.Http.Bytes.{Bytes, find_byte, find_crlf}
use duo_duo.Http.Bytes.Find.{find_crlf-append}
use duo_duo.Http.Request.{Request, is_invalid, set_method, add_header}
use duo_duo.Http.Context.{
  ParseState, Context, Run, set_target, process_request_line, parse_loop, parse_request,
}
use duo_duo.Http.Context.Terminates.{at}
use duo_duo.Http.Context.Chunks.{line-refused}

-- The headers are never bad.
headers-never_bad :
    (fuel : ℕ) (r : Request) (buf : Bytes) (ctx : Context) (left : Bytes)
    → parse_loop fuel (at ParseState.expect_headers r) buf ≢ Run.returned false ctx left
unfolding parse_loop
headers-never_bad zero r buf ctx left h = cc
headers-never_bad (suc fuel) r buf ctx left h = elim (Option-cases (find_crlf buf)) [
  | inl e ↦ ground arith
  | inr ((line, after), e) ↦ elim (Option-cases (find_byte 58 line)) [
    | inl p ↦ ground arith
    | inr ((field, value), p) ↦
        headers-never_bad fuel (add_header field value r) after ctx left
          (rw (e, p, parse_loop) at h)
  ]
]

set_target-method : (target : Bytes) (r : Request) → (set_target target r).method ≡ r.method
unfolding set_target
set_target-method target r = elim (Option-cases (find_byte 63 target)) [
  | inl e ↦ rw (e, set_target) refl
  | inr ((p, q), e) ↦ rw (e, set_target) refl
]

-- A line that leaves a method behind has a blank, so that it fails the assertion the next time.
process_request_line-twice :
    (line : Bytes) (r q : Request) (ok : Bool)
    → is_invalid r.method ≡ true
    → process_request_line line r ≡ some (ok, q)
    → is_invalid q.method ≡ false
    → process_request_line line q ≡ none
unfolding process_request_line set_method
process_request_line-twice line r q ok hr h hq = elim (Option-cases (find_byte 32 line)) [
  | inl e ↦ ground arith
  | inr ((m, rest), e) ↦ rw (e, process_request_line, set_method, hq) refl
]

abbrev left_of : Bytes → Run → Bytes
left_of default (Run.returned ok ctx left) = left
left_of default _ = default

abbrev context_of : Context → Run → Context
context_of default (Run.returned ok ctx left) = ctx
context_of default _ = default

bad_again :
    (r q : Request) {buf line after : Bytes} {ctx : Context} {left : Bytes}
    → is_invalid r.method ≡ true
    → find_crlf buf ≡ some (line, after)
    → process_request_line line r ≡ some (false, q)
    → Run.returned false (at ParseState.expect_request_line q) buf ≡ Run.returned false ctx left
    → (left ≡ buf)
      × (is_invalid ctx.request.method ≡ false
          → (ys : Bytes) → parse_request ctx (left ++ ys) ≡ Run.asserted)
bad_again r q {buf} {line} {after} hr e p same =
    subst
      (λ out.
        (left_of buf out ≡ buf)
        × (is_invalid (context_of (at ParseState.expect_request_line q) out).request.method ≡ false
            → (ys : Bytes)
            → parse_request (context_of (at ParseState.expect_request_line q) out)
                (left_of buf out ++ ys)
              ≡ Run.asserted))
      same
      (
        refl,
        λ hq ys.
            line-refused q (buf ++ ys) (find_crlf-append buf ys line after e)
              (process_request_line-twice line r q false hr p hq),
      )

-- When the request line is bad nothing is consumed, and the context keeps the method. So if the
-- method was a known one, the next read fails the assertion of `setMethod`, whatever it brings.
pub parse_request-bad_again :
    (r : Request) (buf : Bytes) (ctx : Context) (left : Bytes)
    → is_invalid r.method ≡ true
    → parse_request (record { state = ParseState.expect_request_line; request = r }) buf
      ≡ Run.returned false ctx left
    → (left ≡ buf)
      × (is_invalid ctx.request.method ≡ false
          → (ys : Bytes) → parse_request ctx (left ++ ys) ≡ Run.asserted)
unfolding parse_request parse_loop
parse_request-bad_again r buf ctx left hr h = elim (Option-cases (find_crlf buf)) [
  | inl e ↦ absurd (cc (rw (e, parse_request, parse_loop) at h))
  | inr ((line, after), e) ↦ elim (Option-cases (process_request_line line r)) [
    | inl p ↦ absurd (cc (rw (e, p, parse_request, parse_loop) at h))
    | inr ((true, q), p) ↦ absurd (
        headers-never_bad (length buf) q after ctx left (rw (e, p, parse_request, parse_loop) at h))
    | inr ((false, q), p) ↦ bad_again r q hr e p (rw (e, p, parse_request, parse_loop) at h)
  ]
]
