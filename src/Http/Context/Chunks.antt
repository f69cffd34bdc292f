-- ===== src/Http/Context/Chunks.antt =====
-- How the bytes of a request are cut into reads does not matter.
use duo_duo.Base.{
  ℕ, zero, suc, ◌<◌, ◌≡◌, refl, ◌∙◌, if◌then◌else◌, true, false, none, some, ◌++◌, length, arith,
  inl, inr, Option-cases,
}
use duo_duo.Http.Bytes.{Bytes, find_byte, find_crlf}
use duo_duo.Http.Bytes.Find.{find_crlf-append, find_crlf-shorter}
use duo_duo.Http.Request.{Request, add_header}
use duo_duo.Http.Context.{ParseState, Context, Run, process_request_line, parse_loop, parse_request}
use duo_duo.Http.Context.Terminates.{is_ready, at, parse_loop-enough}

-- What the next read does with the bytes that are left and those that follow: the parser goes on
-- when its request is not complete, and else they wait.
abbrev pub resume : Run → Bytes → Run
resume Run.unfinished ys = Run.unfinished
resume Run.asserted ys = Run.asserted
resume (Run.returned false ctx left) ys = Run.returned false ctx (left ++ ys)
resume (Run.returned true ctx left) ys =
    if is_ready ctx.state
    then parse_request ctx (left ++ ys)
    else Run.returned true ctx (left ++ ys)

-- One line of each kind.
module _ (r : Request) (buf : Bytes) {line after : Bytes}
    (e : find_crlf buf ≡ some (line, after)) where
  pub line-refused :
      process_request_line line r ≡ none
      → parse_request (at ParseState.expect_request_line r) buf ≡ Run.asserted
  unfolding parse_request parse_loop
  line-refused p = rw (e, p, parse_request, parse_loop) refl

  pub line-bad :
      {q : Request}
      → process_request_line line r ≡ some (false, q)
      → parse_request (at ParseState.expect_request_line r) buf
        ≡ Run.returned false (at ParseState.expect_request_line q) buf
  unfolding parse_request parse_loop
  line-bad p = rw (e, p, parse_request, parse_loop) refl

  line-step :
      {q : Request}
      → process_request_line line r ≡ some (true, q)
      → parse_request (at ParseState.expect_request_line r) buf
        ≡ parse_loop (length buf) (at ParseState.expect_headers q) after
  unfolding parse_request parse_loop
  line-step p = rw (e, p, parse_request, parse_loop) refl

  pub line-good :
      {q : Request}
      → process_request_line line r ≡ some (true, q)
      → parse_request (at ParseState.expect_request_line r) buf
        ≡ parse_request (at ParseState.expect_headers q) after
  line-good {q} p =
      line-step p
      ∙ parse_loop-enough (length buf) ParseState.expect_headers q after refl
          (omega (arith, find_crlf-shorter buf line after e))

  pub header-end :
      find_byte 58 line ≡ none
      → parse_request (at ParseState.expect_headers r) buf
        ≡ Run.returned true (at ParseState.got_all r) after
  unfolding parse_request parse_loop
  header-end p = rw (e, p, parse_request, parse_loop) refl

  header-step :
      {field value : Bytes}
      → find_byte 58 line ≡ some (field, value)
      → parse_request (at ParseState.expect_headers r) buf
        ≡ parse_loop (length buf) (at ParseState.expect_headers (add_header field value r)) after
  unfolding parse_request parse_loop
  header-step p = rw (e, p, parse_request, parse_loop) refl

  pub header-good :
      {field value : Bytes}
      → find_byte 58 line ≡ some (field, value)
      → parse_request (at ParseState.expect_headers r) buf
        ≡ parse_request (at ParseState.expect_headers (add_header field value r)) after
  header-good {field} {value} p =
      header-step p
      ∙ parse_loop-enough (length buf) ParseState.expect_headers (add_header field value r) after
          refl (omega (arith, find_crlf-shorter buf line after e))

module _ (s : ParseState) (r : Request) (buf : Bytes) (e : find_crlf buf ≡ none) where
  pub line-waits : is_ready s ≡ true → parse_request (at s r) buf ≡ Run.returned true (at s r) buf
  unfolding parse_request parse_loop
  line-waits h =
      elim s
          as (λ s.
            is_ready s ≡ true → parse_request (at s r) buf ≡ Run.returned true (at s r) buf) [
              | ParseState.expect_request_line ↦ λ h. rw (e, parse_request, parse_loop) refl
              | ParseState.expect_headers ↦ λ h. rw (e, parse_request, parse_loop) refl
              | ParseState.expect_body ↦ λ h. cc
              | ParseState.got_all ↦ λ h. cc
            ]
        h

resume-loop :
    (fuel : ℕ) (s : ParseState) (r : Request) (xs ys : Bytes)
    → is_ready s ≡ true
    → length xs < fuel
    → parse_request (at s r) (xs ++ ys) ≡ resume (parse_loop fuel (at s r) xs) ys
unfolding parse_loop
resume-loop zero s r xs ys h lt = absurd (omega arith)
resume-loop (suc fuel) ParseState.expect_request_line r xs ys h lt =
    elim (Option-cases (find_crlf xs)) [
      | inl e ↦ rw (e, parse_loop, resume) refl
      | inr ((line, after), e) ↦
          let short = find_crlf-shorter xs line after e in
          let e' = find_crlf-append xs ys line after e in
          elim (Option-cases (process_request_line line r)) [
            | inl p ↦ rw (e, p, parse_loop, resume, line-refused r (xs ++ ys) e' p) refl
            | inr ((true, q), p) ↦
                rw (e, p, parse_loop, resume)
                  (line-good r (xs ++ ys) e' p
                    ∙ resume-loop fuel ParseState.expect_headers q after ys refl (omega arith))
            | inr ((false, q), p) ↦ rw (e, p, parse_loop, resume, line-bad r (xs ++ ys) e' p) refl
          ]
    ]
resume-loop (suc fuel) ParseState.expect_headers r xs ys h lt = elim (Option-cases (find_crlf xs)) [
  | inl e ↦ rw (e, parse_loop, resume) refl
  | inr ((line, after), e) ↦
      let short = find_crlf-shorter xs line after e in
      let e' = find_crlf-append xs ys line after e in
      elim (Option-cases (find_byte 58 line)) [
        | inl p ↦ rw (e, p, parse_loop, resume, header-end r (xs ++ ys) e' p) refl
        | inr ((field, value), p) ↦
            rw (e, p, parse_loop, resume)
              (header-good r (xs ++ ys) e' p
                ∙ resume-loop fuel ParseState.expect_headers (add_header field value r) after ys
                    refl (omega arith))
      ]
]
resume-loop (suc fuel) ParseState.expect_body r xs ys h lt = cc
resume-loop (suc fuel) ParseState.got_all r xs ys h lt = cc

pub parse_request-append :
    (ctx : Context) (xs ys : Bytes)
    → is_ready ctx.state ≡ true
    → parse_request ctx (xs ++ ys) ≡ resume (parse_request ctx xs) ys
parse_request-append ctx xs ys h =
    resume-loop (suc (length xs)) ctx.state ctx.request xs ys h (omega arith)
    ∙ rw (parse_loop-enough (suc (length xs)) ctx.state ctx.request xs h (omega arith)) refl
