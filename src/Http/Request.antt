-- ===== src/Http/Request.antt =====
-- http/HttpRequest.h. A `std::map` is the list of its entries in the order of the keys.
pub mod Headers
use duo_duo.Base.{
  Bool, true, false, not, List, [], ◌∷◌, Option, none, some, if◌then◌else◌, bytes_eq,
}
use duo_duo.Http.Bytes.{Bytes, trim_left, trim_right, bytes_ltb}

pub data Method : Type 0 where
  invalid : Method
  get : Method
  post : Method
  head : Method
  put : Method
  delete : Method

pub data Version : Type 0 where
  unknown : Version
  http10 : Version
  http11 : Version

abbrev pub Headers : Type 0
Headers = List (Bytes × Bytes)

pub record Request : Type 0 where
  pub method : Method
  pub version : Version
  pub path : Bytes
  pub query : Bytes
  pub headers : Headers

abbrev pub blank : Request
blank = record {
  method = Method.invalid;
  version = Version.unknown;
  path = [];
  query = [];
  headers = [];
}

-- `headers_[field] = value`
unfoldable pub assign : Bytes → Bytes → Headers → Headers
assign field value [] = (field, value) ∷ []
assign field value ((f, v) ∷ hs) =
    let rest = assign field value hs in
    if bytes_eq f field
    then (f, value) ∷ hs
    else if bytes_ltb field f
    then (field, value) ∷ (f, v) ∷ hs
    else (f, v) ∷ rest

-- `find` on the map; a missing field is an empty value.
unfoldable pub get_header : Headers → Bytes → Bytes
get_header [] field = []
get_header ((f, v) ∷ hs) field = if bytes_eq f field then v else get_header hs field

abbrev pub is_invalid : Method → Bool
is_invalid Method.invalid = true
is_invalid _ = false

-- "GET", "POST", "HEAD", "PUT", "DELETE" and "UNKNOWN"
abbrev pub method_string : Method → Bytes
method_string Method.get = 71 ∷ 69 ∷ 84 ∷ []
method_string Method.post = 80 ∷ 79 ∷ 83 ∷ 84 ∷ []
method_string Method.head = 72 ∷ 69 ∷ 65 ∷ 68 ∷ []
method_string Method.put = 80 ∷ 85 ∷ 84 ∷ []
method_string Method.delete = 68 ∷ 69 ∷ 76 ∷ 69 ∷ 84 ∷ 69 ∷ []
method_string Method.invalid = 85 ∷ 78 ∷ 75 ∷ 78 ∷ 79 ∷ 87 ∷ 78 ∷ []

-- The comparisons of `setMethod`.
unfoldable pub method_of : Bytes → Method
method_of m =
    if bytes_eq m (71 ∷ 69 ∷ 84 ∷ [])
    then Method.get
    else if bytes_eq m (80 ∷ 79 ∷ 83 ∷ 84 ∷ [])
    then Method.post
    else if bytes_eq m (72 ∷ 69 ∷ 65 ∷ 68 ∷ [])
    then Method.head
    else if bytes_eq m (80 ∷ 85 ∷ 84 ∷ [])
    then Method.put
    else if bytes_eq m (68 ∷ 69 ∷ 76 ∷ 69 ∷ 84 ∷ 69 ∷ [])
    then Method.delete
    else Method.invalid

-- `none` is the failed assertion that no method was set before.
unfoldable pub set_method : Bytes → Request → Option (Bool × Request)
set_method m r =
    if is_invalid r.method
    then some (not (is_invalid (method_of m)), record r { method = method_of m })
    else none

-- The field, and what follows the colon.
unfoldable pub add_header : Bytes → Bytes → Request → Request
add_header field value r = record r {
  headers = assign field (trim_right (trim_left value)) r.headers;
}
