-- ===== src/Http/Server.antt =====
-- http/HttpServer.cpp: what the server does with the bytes that a connection has received. The
-- callback that the application sets is a parameter.
pub mod Serves
use duo_duo.Base.{
  ℕ, Bool, true, false, not, ◌&&◌, ◌||◌, List, [], ◌∷◌, ◌++◌, bytes_eq, if◌then◌else◌,
}
use duo_duo.Http.Bytes.{Bytes}
use duo_duo.Http.Request.{Request, Version, get_header}
use duo_duo.Http.Context.{ParseState, Context, Run, reset, parse_request}
use duo_duo.Http.Response.{
  Response, new_response, append_to_buffer, connection_field, close_value, keep_alive_value,
}

-- The calls on the connection.
pub data Action : Type 0 where
  send : Bytes → Action
  shutdown : Action

abbrev pub Callback : Type 0
Callback = Request → Response → Response

-- "Not Found"
abbrev pub not_found : Bytes
not_found = 78 ∷ 111 ∷ 116 ∷ 32 ∷ 70 ∷ 111 ∷ 117 ∷ 110 ∷ 100 ∷ []

abbrev pub default_http_callback : Callback
default_http_callback req r = record r {
  status_code = 404;
  status_message = not_found;
  close_connection = true;
}

abbrev pub is_http10 : Version → Bool
is_http10 Version.http10 = true
is_http10 _ = false

unfoldable pub wants_close : Request → Bool
wants_close req =
    let connection = get_header req.headers connection_field in
    bytes_eq connection close_value
    || (is_http10 req.version && not (bytes_eq connection keep_alive_value))

unfoldable pub on_request : Callback → Request → List Action
on_request callback req =
    let response = callback req (new_response (wants_close req)) in
    Action.send (append_to_buffer response [])
    ∷ (if response.close_connection then Action.shutdown ∷ [] else [])

-- "HTTP/1.1 400 Bad Request\r\n\r\n"
abbrev pub bad_request : Bytes
bad_request =
    72 ∷ 84 ∷ 84 ∷ 80 ∷ 47 ∷ 49 ∷ 46 ∷ 49 ∷ 32 ∷ 52 ∷ 48 ∷ 48 ∷ 32 ∷ 66 ∷ 97 ∷ 100 ∷ 32 ∷ 82 ∷ 101
    ∷ 113 ∷ 117 ∷ 101 ∷ 115 ∷ 116 ∷ 13 ∷ 10 ∷ 13 ∷ 10 ∷ []

abbrev pub got_all : Context → Bool
got_all ctx = elim ctx.state [ ParseState.got_all ↦ true | _ ↦ false ]

-- The handler never comes back, the program aborts, or the calls, the context and what is left.
pub data Reply : Type 0 where
  spins : Reply
  aborts : Reply
  handled : List Action → Context → Bytes → Reply

unfoldable pub reply : Callback → Run → Reply
reply callback Run.unfinished = Reply.spins
reply callback Run.asserted = Reply.aborts
reply callback (Run.returned ok ctx left) =
    let refusal = if ok then [] else Action.send bad_request ∷ Action.shutdown ∷ [] in
    if got_all ctx
    then Reply.handled (refusal ++ on_request callback ctx.request) reset left
    else Reply.handled refusal ctx left

unfoldable pub on_message : Callback → Context → Bytes → Reply
on_message callback ctx buf = reply callback (parse_request ctx buf)
