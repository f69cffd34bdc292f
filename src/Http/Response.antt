-- ===== src/Http/Response.antt =====
-- http/HttpResponse.h and http/HttpResponse.cpp. A `snprintf` into 32 bytes keeps 31 of them.
pub mod Frames
use duo_duo.Base.{
  ℕ, zero, suc, ◌+◌, ◌/◌, ◌%◌, Bool, true, false, List, [], ◌∷◌, ◌++◌, length, take, ltb,
  if◌then◌else◌,
}
use duo_duo.Http.Bytes.{Bytes}
use duo_duo.Http.Request.{Headers, assign}

pub record Response : Type 0 where
  pub headers : Headers
  pub status_code : ℕ
  pub status_message : Bytes
  pub close_connection : Bool
  pub body : Bytes

abbrev pub new_response : Bool → Response
new_response close = record {
  headers = [];
  status_code = 0;
  status_message = [];
  close_connection = close;
  body = [];
}

abbrev pub add_response_header : Bytes → Bytes → Response → Response
add_response_header key value r = record r { headers = assign key value r.headers }

-- `setContentType`, for the field "Content-Type".
abbrev pub set_content_type : Bytes → Response → Response
set_content_type type =
    add_response_header (67 ∷ 111 ∷ 110 ∷ 116 ∷ 101 ∷ 110 ∷ 116 ∷ 45 ∷ 84 ∷ 121 ∷ 112 ∷ 101 ∷ [])
      type

-- The decimal digits of a number before those that are there, with the rounds left; a number has
-- no more digits than one more than itself.
unfoldable pub digits : ℕ → ℕ → Bytes → Bytes
digits zero n acc = acc
digits (suc fuel) n acc =
    let more = digits fuel (n / 10) ((48 + n % 10) ∷ acc) in
    if ltb n 10 then (48 + n % 10) ∷ acc else more

unfoldable pub decimal : ℕ → Bytes
decimal n = digits (suc n) n []

abbrev pub crlf : Bytes
crlf = 13 ∷ 10 ∷ []

-- "HTTP/1.1 "
abbrev pub http11_blank : Bytes
http11_blank = 72 ∷ 84 ∷ 84 ∷ 80 ∷ 47 ∷ 49 ∷ 46 ∷ 49 ∷ 32 ∷ []

-- "Connection"
abbrev pub connection_field : Bytes
connection_field = 67 ∷ 111 ∷ 110 ∷ 110 ∷ 101 ∷ 99 ∷ 116 ∷ 105 ∷ 111 ∷ 110 ∷ []

-- "close"
abbrev pub close_value : Bytes
close_value = 99 ∷ 108 ∷ 111 ∷ 115 ∷ 101 ∷ []

-- "Keep-Alive"
abbrev pub keep_alive_value : Bytes
keep_alive_value = 75 ∷ 101 ∷ 101 ∷ 112 ∷ 45 ∷ 65 ∷ 108 ∷ 105 ∷ 118 ∷ 101 ∷ []

-- "Content-Length: "
abbrev pub content_length_blank : Bytes
content_length_blank =
    67 ∷ 111 ∷ 110 ∷ 116 ∷ 101 ∷ 110 ∷ 116 ∷ 45 ∷ 76 ∷ 101 ∷ 110 ∷ 103 ∷ 116 ∷ 104 ∷ 58 ∷ 32 ∷ []

-- The first `snprintf`, and the second.
unfoldable pub status_start : ℕ → Bytes
status_start code = take 31 (http11_blank ++ (decimal code ++ 32 ∷ []))

unfoldable pub content_length : ℕ → Bytes
content_length size = take 31 (content_length_blank ++ (decimal size ++ crlf))

unfoldable pub connection_lines : Response → Bytes → Bytes
connection_lines r rest =
    if r.close_connection
    then (connection_field ++ 58 ∷ 32 ∷ close_value) ++ (crlf ++ rest)
    else content_length (length r.body)
      ++ ((connection_field ++ 58 ∷ 32 ∷ keep_alive_value) ++ (crlf ++ rest))

unfoldable pub header_lines : Headers → Bytes → Bytes
header_lines [] rest = rest
header_lines ((f, v) ∷ hs) rest = (f ++ 58 ∷ 32 ∷ v) ++ (crlf ++ header_lines hs rest)

-- `appendToBuffer`, for the bytes that the buffer holds.
unfoldable pub append_to_buffer : Response → Bytes → Bytes
append_to_buffer r output =
    output
    ++ ((status_start r.status_code ++ r.status_message)
        ++ (crlf ++ connection_lines r (header_lines r.headers (crlf ++ r.body))))
