-- ===== src/Http/Context.antt =====
-- http/HttpContext.h and http/HttpContext.cpp: the incremental parser of requests.
pub mod Terminates
pub mod Chunks
pub mod Format
pub mod Rejects
use duo_duo.Base.{
  ℕ, zero, suc, ◌∷◌, [], Bool, true, false, Option, none, some, length, ◌==◌, if◌then◌else◌,
  bytes_eq, take, drop,
}
use duo_duo.Http.Bytes.{Bytes, find_byte, find_crlf}
use duo_duo.Http.Request.{Request, Version, blank, set_method, add_header}

pub data ParseState : Type 0 where
  expect_request_line : ParseState
  expect_headers : ParseState
  expect_body : ParseState
  got_all : ParseState

pub record Context : Type 0 where
  pub state : ParseState
  pub request : Request

abbrev pub reset : Context
reset = record { state = ParseState.expect_request_line; request = blank }

-- "HTTP/1."
abbrev pub http1 : Bytes
http1 = 72 ∷ 84 ∷ 84 ∷ 80 ∷ 47 ∷ 49 ∷ 46 ∷ []

unfoldable pub read_version : Bytes → Option Version
read_version v =
    if length v == 8
    then (if bytes_eq (take 7 v) http1
        then (if bytes_eq (drop 7 v) (49 ∷ [])
            then some Version.http11
            else if bytes_eq (drop 7 v) (48 ∷ [])
            then some Version.http10
            else none)
        else none)
    else none

-- The path and the query, which keeps its question mark.
unfoldable pub set_target : Bytes → Request → Request
set_target target r = elim (find_byte 63 target) [
  | none ↦ record r { path = target }
  | some (path, query) ↦ record r { path = path; query = 63 ∷ query }
]

-- `none` is the failed assertion of `setMethod`.
unfoldable pub process_request_line : Bytes → Request → Option (Bool × Request)
process_request_line line r = elim (find_byte 32 line) [
  | none ↦ some (false, r)
  | some (m, rest) ↦ elim (set_method m r) [
    | none ↦ none
    | some (ok, r1) ↦
        if ok
        then elim (find_byte 32 rest) [
          | none ↦ some (false, r1)
          | some (target, version) ↦ elim (read_version version) [
            | none ↦ some (false, set_target target r1)
            | some v ↦ some (true, record (set_target target r1) { version = v })
          ]
        ]
        else some (false, r1)
  ]
]

-- The rounds may run out, or an assertion fail; else the result, the context and what is left.
pub data Run : Type 0 where
  unfinished : Run
  asserted : Run
  returned : Bool → Context → Bytes → Run

-- `parseRequest`: the loop, with the rounds left.
unfoldable pub parse_loop : ℕ → Context → Bytes → Run
parse_loop zero ctx buf = Run.unfinished
parse_loop (suc fuel) ctx buf = elim ctx.state [
  | ParseState.expect_request_line ↦ elim (find_crlf buf) [
    | none ↦ Run.returned true ctx buf
    | some (line, after) ↦ elim (process_request_line line ctx.request) [
      | none ↦ Run.asserted
      | some (ok, r) ↦
          if ok
          then parse_loop fuel (record { state = ParseState.expect_headers; request = r }) after
          else Run.returned false (record ctx { request = r }) buf
    ]
  ]
  | ParseState.expect_headers ↦ elim (find_crlf buf) [
    | none ↦ Run.returned true ctx buf
    | some (line, after) ↦ elim (find_byte 58 line) [
      | none ↦ Run.returned true (record ctx { state = ParseState.got_all }) after
      | some (field, value) ↦
          parse_loop fuel (record ctx { request = add_header field value ctx.request }) after
    ]
  ]
  | ParseState.expect_body ↦ parse_loop fuel ctx buf
  | ParseState.got_all ↦ parse_loop fuel ctx buf
]

-- A line end is two bytes long, so this many rounds are enough in the first two states.
unfoldable pub parse_request : Context → Bytes → Run
parse_request ctx buf = parse_loop (suc (length buf)) ctx buf
