-- ===== src/Http/Context/Format.antt =====
-- A request written out is read back.
use duo_duo.Base.{
  ℕ, ◌≡◌, ◌≢◌, refl, ap₂, ◌∙◌, true, false, ◌&&◌, [], ◌∷◌, ◌++◌, Option, none, some, arith,
  bytes_eq,
}
use duo_duo.Http.Bytes.{Bytes, find_byte, trim_left, trim_right, is_space}
use duo_duo.Http.Bytes.Find.{avoids, find_byte-avoids, find_byte-none, find_crlf-avoids}
use duo_duo.Http.Request.{
  Request, Headers, Method, Version, blank, assign, method_string, is_invalid, set_method,
  add_header,
}
use duo_duo.Http.Request.Headers.{method_of-method_string}
use duo_duo.Http.Context.{
  ParseState, Run, reset, http1, read_version, set_target, process_request_line, parse_request,
}
use duo_duo.Http.Context.Terminates.{at}
use duo_duo.Http.Context.Chunks.{line-good, header-good, header-end}

abbrev pub version_string : Version → Bytes
version_string Version.unknown = []
version_string Version.http10 = http1 ++ 48 ∷ []
version_string Version.http11 = http1 ++ 49 ∷ []

-- The query with its question mark.
abbrev pub query_string : Option Bytes → Bytes
query_string none = []
query_string (some q) = 63 ∷ q

abbrev pub request_line : Method → Bytes → Option Bytes → Version → Bytes
request_line m path query v =
    method_string m ++ (32 ∷ ((path ++ query_string query) ++ (32 ∷ version_string v)))

abbrev pub format_headers : Headers → Bytes → Bytes
format_headers [] rest = 13 ∷ 10 ∷ rest
format_headers ((f, v) ∷ hs) rest = (f ++ 58 ∷ 32 ∷ v) ++ 13 ∷ 10 ∷ format_headers hs rest

-- A request, before the bytes of the next.
abbrev pub format_request : Method → Bytes → Option Bytes → Version → Headers → Bytes → Bytes
format_request m path query v hs rest =
    request_line m path query v ++ 13 ∷ 10 ∷ format_headers hs rest

abbrev pub assign_all : Headers → Headers → Headers
assign_all [] acc = acc
assign_all ((f, v) ∷ hs) acc = assign_all hs (assign f v acc)

-- Neither a line end nor a blank in the target, and a question mark only before the query.
pub record IsTarget (path : Bytes) (query : Option Bytes) : Type 0 where
  pub path_cr : avoids 13 path ≡ true
  pub path_space : avoids 32 path ≡ true
  pub path_mark : avoids 63 path ≡ true
  pub query_cr : avoids 13 (query_string query) ≡ true
  pub query_space : avoids 32 (query_string query) ≡ true

-- No line end or colon in a field, no line end in a value, no blanks around it.
abbrev pub AreHeaders : Headers → Type 0
AreHeaders [] = Unit {0}
AreHeaders ((f, v) ∷ hs) =
    (avoids 13 f ≡ true)
    × (avoids 58 f ≡ true)
    × (avoids 13 v ≡ true)
    × (trim_right (trim_left v) ≡ v)
    × AreHeaders hs

pub avoids-append : (c : ℕ) (xs ys : Bytes) → avoids c (xs ++ ys) ≡ (avoids c xs && avoids c ys)
avoids-append c [] ys = refl
avoids-append c (x ∷ xs) ys = ground (arith, avoids-append c xs ys)

method_string-avoids :
    (m : Method) → (avoids 32 (method_string m) ≡ true) × (avoids 13 (method_string m) ≡ true)
method_string-avoids Method.invalid = (refl, refl)
method_string-avoids Method.get = (refl, refl)
method_string-avoids Method.post = (refl, refl)
method_string-avoids Method.head = (refl, refl)
method_string-avoids Method.put = (refl, refl)
method_string-avoids Method.delete = (refl, refl)

read_version-version_string :
    (v : Version) → v ≢ Version.unknown → read_version (version_string v) ≡ some v
unfolding read_version bytes_eq
read_version-version_string Version.unknown h = absurd (h refl)
read_version-version_string Version.http10 h = refl
read_version-version_string Version.http11 h = refl

version_string-avoids : (v : Version) → avoids 13 (version_string v) ≡ true
version_string-avoids Version.unknown = refl
version_string-avoids Version.http10 = refl
version_string-avoids Version.http11 = refl

append-nil_right : (xs : Bytes) → xs ++ [] ≡ xs
append-nil_right [] = refl
append-nil_right (x ∷ xs) = rw (append-nil_right xs) refl

set_target-split :
    (path : Bytes) (query : Option Bytes) (r : Request)
    → avoids 63 path ≡ true
    → r.query ≡ []
    → set_target (path ++ query_string query) r
      ≡ record r { path = path; query = query_string query }
unfolding set_target
set_target-split path none r h e =
    let z : find_byte 63 (path ++ []) ≡ none =
      rw (append-nil_right path) (find_byte-none 63 path h) in
    rw (set_target, z) (ap₂ (λ p q. record r { path = p; query = q }) (append-nil_right path) e)
set_target-split path (some q) r h e = rw (find_byte-avoids 63 path q h, set_target) refl

set_method-method_string :
    (m : Method)
    → is_invalid m ≡ false
    → set_method (method_string m) blank ≡ some (true, record blank { method = m })
unfolding set_method
set_method-method_string m h = rw (method_of-method_string m, h) refl

process_request_line-format :
    {m : Method} {path : Bytes} {query : Option Bytes} {v : Version}
    → is_invalid m ≡ false
    → v ≢ Version.unknown
    → IsTarget path query
    → process_request_line (request_line m path query v) blank
      ≡ some (
        true,
        record { method = m; version = v; path = path; query = query_string query; headers = [] },
      )
unfolding process_request_line
process_request_line-format {m} {path} {query} {v} hm hv ht =
    rw
      (
        process_request_line,
        find_byte-avoids 32 (method_string m)
            ((path ++ query_string query) ++ (32 ∷ version_string v)) (method_string-avoids m).0,
        set_method-method_string m hm,
        find_byte-avoids 32 (path ++ query_string query) (version_string v) target,
        read_version-version_string v hv,
        set_target-split path query (record blank { method = m }) ht.path_mark refl,
      )
      refl
  where
    target : avoids 32 (path ++ query_string query) ≡ true
    target = rw (avoids-append 32 path (query_string query), ht.path_space, ht.query_space) refl

add_header-trimmed :
    (f v : Bytes) (r : Request)
    → trim_right (trim_left v) ≡ v
    → add_header f (32 ∷ v) r ≡ record r { headers = assign f v r.headers }
unfolding add_header trim_left is_space
add_header-trimmed f v r h = rw h refl

parse-format_headers :
    (hs : Headers) (r : Request) (rest : Bytes)
    → AreHeaders hs
    → parse_request (at ParseState.expect_headers r) (format_headers hs rest)
      ≡ Run.returned true
          (at ParseState.got_all (record r { headers = assign_all hs r.headers }))
          rest
parse-format_headers [] r rest h =
    header-end r (13 ∷ 10 ∷ rest) (find_crlf-avoids [] rest refl) (find_byte-none 58 [] refl)
parse-format_headers ((f, v) ∷ hs) r rest h =
    header-good r ((f ++ 58 ∷ 32 ∷ v) ++ 13 ∷ 10 ∷ format_headers hs rest)
      (find_crlf-avoids (f ++ 58 ∷ 32 ∷ v) (format_headers hs rest) line)
      (find_byte-avoids 58 f (32 ∷ v) h.1)
    ∙ rw (add_header-trimmed f v r h.3)
        (parse-format_headers hs (record r { headers = assign f v r.headers }) rest h.4)
  where
    line : avoids 13 (f ++ 58 ∷ 32 ∷ v) ≡ true
    line = rw (avoids-append 13 f (58 ∷ 32 ∷ v), h.0, h.2) refl

-- A well-formed request that is written out is read back whole: its method, version, path and
-- query, its headers in the order in which they are assigned, and the bytes after it are left.
pub parse_request-format :
    (m : Method) (path : Bytes) (query : Option Bytes) (v : Version) (hs : Headers) (rest : Bytes)
    → is_invalid m ≡ false
    → v ≢ Version.unknown
    → IsTarget path query
    → AreHeaders hs
    → parse_request reset (format_request m path query v hs rest)
      ≡ Run.returned true
          (record {
            state = ParseState.got_all;
            request = record {
              method = m;
              version = v;
              path = path;
              query = query_string query;
              headers = assign_all hs [];
            };
          })
          rest
parse_request-format m path query v hs rest hm hv ht hh =
    line-good blank (format_request m path query v hs rest)
      (find_crlf-avoids (request_line m path query v) (format_headers hs rest) line)
      (process_request_line-format hm hv ht)
    ∙ parse-format_headers hs _ rest hh
  where
    target : avoids 13 (path ++ query_string query) ≡ true
    target = rw (avoids-append 13 path (query_string query), ht.path_cr, ht.query_cr) refl

    line : avoids 13 (request_line m path query v) ≡ true
    line =
        rw
          (
            avoids-append 13 (method_string m)
                (32 ∷ ((path ++ query_string query) ++ (32 ∷ version_string v))),
            (method_string-avoids m).1,
            avoids-append 13 (path ++ query_string query) (32 ∷ version_string v),
            target,
            version_string-avoids v,
          )
          refl
