-- ===== src/Http/Tests.antt =====
-- The theorems on HTTP at concrete inputs.
use duo_duo.Base.{
  ℕ, ◌<◌, ◌≡◌, ◌≢◌, ◌⊎◌, refl, true, false, List, [], ◌∷◌, ◌++◌, Option, some, bytes_eq, length,
  arith, map,
}
use duo_duo.Http.Bytes.{Bytes, find_byte, find_crlf, is_space, trim_left, trim_right}
use duo_duo.Http.Request.{
  Request, Headers, Method, Version, blank, is_invalid, method_of, set_method,
}
use duo_duo.Http.Context.{
  ParseState, Context, Run, reset, process_request_line, parse_loop, parse_request,
}
use duo_duo.Http.Context.Terminates.{at, finished, parse_request-total}
use duo_duo.Http.Context.Format.{
  IsTarget, AreHeaders, format_request, query_string, assign_all, parse_request-format,
}
use duo_duo.Http.Context.Rejects.{parse_request-bad_again}
use duo_duo.Http.Response.{Response, append_to_buffer}
use duo_duo.Http.Response.Frames.{
  read_head, status_line, connection_head, header_line, append_to_buffer-frames,
}
use duo_duo.Http.Server.{Action, Reply, default_http_callback, bad_request, reply, on_message}
use duo_duo.Http.Server.Serves.{IsFresh, on_message-handles, on_message-append}

-- "Host", "a", "/x" and "y"
abbrev host : Bytes
host = 72 ∷ 111 ∷ 115 ∷ 116 ∷ []

abbrev host_name : Bytes
host_name = 97 ∷ []

abbrev target : Bytes
target = 47 ∷ 120 ∷ []

abbrev question : Option Bytes
question = some (121 ∷ [])

abbrev one_header : Headers
one_header = (host, host_name) ∷ []

-- "GET /x", cut off.
abbrev cut_request : Bytes
cut_request = 71 ∷ 69 ∷ 84 ∷ 32 ∷ 47 ∷ 120 ∷ []

parse_request-total_example :
    (finished (parse_request reset cut_request) ≡ true)
    × ((fuel : ℕ)
        → length cut_request < fuel
        → parse_loop fuel reset cut_request ≡ parse_request reset cut_request)
parse_request-total_example = parse_request-total reset cut_request refl

target-IsTarget : IsTarget target question
target-IsTarget = record {
  path_cr = refl;
  path_space = refl;
  path_mark = refl;
  query_cr = refl;
  query_space = refl;
}

one_header-AreHeaders : AreHeaders one_header
unfolding trim_left trim_right is_space
one_header-AreHeaders = (refl, refl, refl, refl, tt)

known : Version.http11 ≢ Version.unknown
known e = cc

abbrev got : Request
got = record {
  method = Method.get;
  version = Version.http11;
  path = target;
  query = query_string question;
  headers = assign_all one_header [];
}

parse_request-format_example :
    parse_request reset
      (format_request Method.get target question Version.http11 one_header cut_request)
    ≡ Run.returned true (record { state = ParseState.got_all; request = got }) cut_request
parse_request-format_example =
    parse_request-format Method.get target question Version.http11 one_header cut_request refl known
      target-IsTarget one_header-AreHeaders

-- "GET /x" as a whole line.
abbrev bad_line : Bytes
bad_line = cut_request ++ 13 ∷ 10 ∷ []

bad_once :
    parse_request reset bad_line
    ≡ Run.returned false
        (at ParseState.expect_request_line (record blank { method = Method.get }))
        bad_line
unfolding parse_request parse_loop process_request_line find_crlf find_byte set_method method_of
    bytes_eq
bad_once = refl

parse_request-bad_again_example :
    (bad_line ≡ bad_line)
    × (is_invalid Method.get ≡ false
        → (ys : Bytes)
        → parse_request
            (at ParseState.expect_request_line (record blank { method = Method.get }))
            (bad_line ++ ys)
          ≡ Run.asserted)
parse_request-bad_again_example =
    parse_request-bad_again blank bad_line
      (at ParseState.expect_request_line (record blank { method = Method.get })) bad_line refl
      bad_once

abbrev greeting : Response
greeting = record {
  headers = one_header;
  status_code = 200;
  status_message = 79 ∷ 75 ∷ [];
  close_connection = false;
  body = 104 ∷ 105 ∷ [];
}

append_to_buffer-frames_example :
    read_head 5 (append_to_buffer greeting [])
    ≡ some (
      status_line greeting ∷ connection_head greeting (map header_line one_header),
      104 ∷ 105 ∷ [],
    )
append_to_buffer-frames_example =
    append_to_buffer-frames greeting refl (refl, refl, tt) (omega arith) (omega arith)

new_context-IsFresh : IsFresh reset
new_context-IsFresh = IsFresh.between blank refl

on_message-handles_example :
    (actions : List Action) × (ctx' : Context) × (left : Bytes) × (on_message default_http_callback
        reset bad_line
      ≡ Reply.handled actions ctx' left)
    × (IsFresh ctx' ⊎ (actions ≡ Action.send bad_request ∷ Action.shutdown ∷ []))
on_message-handles_example =
    on_message-handles default_http_callback reset bad_line new_context-IsFresh

waits_for_more :
    on_message default_http_callback reset cut_request ≡ Reply.handled [] reset cut_request
unfolding on_message reply parse_request parse_loop find_crlf
waits_for_more = refl

on_message-append_example :
    on_message default_http_callback reset (cut_request ++ 13 ∷ 10 ∷ [])
    ≡ on_message default_http_callback reset (cut_request ++ 13 ∷ 10 ∷ [])
on_message-append_example =
    on_message-append default_http_callback reset reset cut_request (13 ∷ 10 ∷ []) cut_request
      new_context-IsFresh waits_for_more
