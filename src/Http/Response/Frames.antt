-- ===== src/Http/Response/Frames.antt =====
-- What a client that reads a response line by line finds in it.
use duo_duo.Base.{
  ℕ, zero, suc, ◌+◌, ◌-◌, ◌*◌, ◌/◌, ◌%◌, ◌^◌, ◌<◌, ◌≤◌, ◌≡◌, refl, ap, ◌∙◌, true, List, [], ◌∷◌,
  ◌++◌, append_assoc, Option, none, some, arith, length, length-append, take, ltb, if◌then◌else◌,
  Bool-cases, inl, inr, map,
}
use duo_duo.Http.Bytes.{Bytes, find_crlf}
use duo_duo.Http.Bytes.Find.{avoids, find_crlf-avoids}
use duo_duo.Http.Request.{Headers}
use duo_duo.Http.Context.Format.{avoids-append}
use duo_duo.Http.Response.{
  Response, digits, decimal, crlf, http11_blank, connection_field, close_value, keep_alive_value,
  content_length_blank, status_start, content_length, connection_lines, header_lines,
  append_to_buffer,
}

-- The number that decimal digits stand for, after those of another number.
abbrev pub value_from : ℕ → Bytes → ℕ
value_from a [] = a
value_from a (x ∷ xs) = value_from (a * 10 + (x - 48)) xs

digits-value :
    (fuel n : ℕ) (acc : Bytes) → n < fuel → value_from 0 (digits fuel n acc) ≡ value_from n acc
unfolding digits
digits-value zero n acc h = absurd (omega arith)
digits-value (suc fuel) n acc h = elim (Bool-cases (ltb n 10)) [
  | inl e ↦ rw (digits, e) (ap (λ k. value_from k acc) (ground arith))
  | inr e ↦
      rw (digits, e)
        (digits-value fuel (n / 10) ((48 + n % 10) ∷ acc) (ground arith)
          ∙ ap (λ k. value_from k acc) (omega arith))
]

-- The decimal digits of a number stand for it.
pub decimal-value : (n : ℕ) → value_from 0 (decimal n) ≡ n
unfolding decimal
decimal-value n = digits-value (suc n) n [] (omega arith)

digits-length :
    (fuel k n : ℕ) (acc : Bytes) → n < 10 ^ suc k → length (digits fuel n acc) ≤ length acc + suc k
unfolding digits
digits-length zero k n acc h = omega arith
digits-length (suc fuel) zero n acc h = ground arith
digits-length (suc fuel) (suc k) n acc h =
    let rest = digits-length fuel k (n / 10) ((48 + n % 10) ∷ acc) (omega arith) in ground arith

digits-avoids :
    (fuel n : ℕ) (acc : Bytes) → avoids 13 acc ≡ true → avoids 13 (digits fuel n acc) ≡ true
unfolding digits
digits-avoids zero n acc h = h
digits-avoids (suc fuel) n acc h =
    let here : avoids 13 ((48 + n % 10) ∷ acc) ≡ true = ground arith in
    let rest = digits-avoids fuel (n / 10) ((48 + n % 10) ∷ acc) here in ground arith

take-all : (n : ℕ) (xs : Bytes) → length xs ≤ n → take n xs ≡ xs
take-all zero [] h = refl
take-all zero (x ∷ xs) h = absurd (omega arith)
take-all (suc n) [] h = refl
take-all (suc n) (x ∷ xs) h = ap (λ ys. x ∷ ys) (take-all n xs (omega arith))

-- A reader of lines up to an empty one, with the lines left to read.
unfoldable pub read_head : ℕ → Bytes → Option (List Bytes × Bytes)
read_head zero bs = none
read_head (suc fuel) bs = elim (find_crlf bs) [
  | none ↦ none
  | some ([], rest) ↦ some ([], rest)
  | some (x ∷ line, rest) ↦ elim (read_head fuel rest) [
    | none ↦ none
    | some (lines, body) ↦ some ((x ∷ line) ∷ lines, body)
  ]
]

read_head-line :
    (fuel x : ℕ) (line rest : Bytes) {lines : List Bytes} {body : Bytes}
    → avoids 13 (x ∷ line) ≡ true
    → read_head fuel rest ≡ some (lines, body)
    → read_head (suc fuel) ((x ∷ line) ++ (crlf ++ rest)) ≡ some ((x ∷ line) ∷ lines, body)
unfolding read_head
read_head-line fuel x line rest h more =
    rw (read_head, find_crlf-avoids (x ∷ line) rest h, more) refl

-- Headers without a line end inside.
abbrev pub AreClean : Headers → Type 0
AreClean [] = Unit {0}
AreClean ((f, v) ∷ hs) = (avoids 13 f ≡ true) × (avoids 13 v ≡ true) × AreClean hs

abbrev pub header_line : Bytes × Bytes → Bytes
header_line (f, v) = f ++ 58 ∷ 32 ∷ v

header_line-avoids :
    (f v : Bytes) → avoids 13 f ≡ true → avoids 13 v ≡ true → avoids 13 (header_line (f, v)) ≡ true
header_line-avoids f v hf hv = rw (avoids-append 13 f (58 ∷ 32 ∷ v), hf, hv) refl

read_head-headers :
    (fuel : ℕ) (hs : Headers) (body : Bytes)
    → length hs < fuel
    → AreClean hs
    → read_head fuel (header_lines hs (crlf ++ body)) ≡ some (map header_line hs, body)
unfolding header_lines read_head
read_head-headers zero hs body lt h = absurd (omega arith)
read_head-headers (suc fuel) [] body lt h = refl_head
  where
    refl_head : read_head (suc fuel) (crlf ++ body) ≡ some ([], body)
    refl_head = rw (read_head, find_crlf-avoids [] body refl) refl
read_head-headers (suc fuel) (([], v) ∷ hs) body lt h =
    read_head-line fuel 58 (32 ∷ v) _ (header_line-avoids [] v h.0 h.1)
      (read_head-headers fuel hs body (omega arith) h.2)
read_head-headers (suc fuel) ((x ∷ f, v) ∷ hs) body lt h =
    read_head-line fuel x (f ++ 58 ∷ 32 ∷ v) _ (header_line-avoids (x ∷ f) v h.0 h.1)
      (read_head-headers fuel hs body (omega arith) h.2)

decimal-length : (k n : ℕ) → n < 10 ^ suc k → length (decimal n) ≤ suc k
unfolding decimal
decimal-length k n h = omega (arith, digits-length (suc n) k n [] h)

decimal-avoids : (n : ℕ) → avoids 13 (decimal n) ≡ true
unfolding decimal
decimal-avoids n = digits-avoids (suc n) n [] refl

status_start-whole :
    (code : ℕ) → code < 10 ^ 10 → status_start code ≡ http11_blank ++ (decimal code ++ 32 ∷ [])
unfolding status_start
status_start-whole code h =
    take-all 31 _ (omega (arith, length-append (decimal code) (32 ∷ []), decimal-length 9 code h))

content_length-whole :
    (size : ℕ)
    → size < 10 ^ 13
    → content_length size ≡ content_length_blank ++ (decimal size ++ crlf)
unfolding content_length
content_length-whole size h =
    take-all 31 _ (omega (arith, length-append (decimal size) crlf, decimal-length 12 size h))

abbrev pub status_line : Response → Bytes
status_line r = (http11_blank ++ (decimal r.status_code ++ 32 ∷ [])) ++ r.status_message

abbrev pub connection_head : Response → List Bytes → List Bytes
connection_head r lines =
    if r.close_connection
    then (connection_field ++ 58 ∷ 32 ∷ close_value) ∷ lines
    else (content_length_blank ++ decimal (length r.body))
      ∷ (connection_field ++ 58 ∷ 32 ∷ keep_alive_value)
      ∷ lines

status_line-avoids :
    (r : Response) → avoids 13 r.status_message ≡ true → avoids 13 (status_line r) ≡ true
status_line-avoids r h =
    rw
      (
        avoids-append 13 (decimal r.status_code ++ 32 ∷ []) r.status_message,
        avoids-append 13 (decimal r.status_code) (32 ∷ []),
        decimal-avoids r.status_code,
        h,
      )
      refl

length_line-avoids : (n : ℕ) → avoids 13 (content_length_blank ++ decimal n) ≡ true
length_line-avoids n = rw (decimal-avoids n) refl

read_head-connection :
    (r : Response) (fuel : ℕ) (rest : Bytes) {lines : List Bytes} {body : Bytes}
    → length r.body < 10 ^ 13
    → read_head fuel rest ≡ some (lines, body)
    → read_head (suc fuel) rest ≡ some (lines, body)
    → read_head (suc (suc fuel)) (connection_lines r rest) ≡ some (connection_head r lines, body)
unfolding connection_lines
read_head-connection r fuel rest h more more' = elim (Bool-cases r.close_connection) [
  | inl e ↦ rw (connection_lines, e) (read_head-line (suc fuel) 67 _ rest refl more')
  | inr e ↦
      rw
        (
          connection_lines,
          e,
          content_length-whole (length r.body) h,
          append_assoc (content_length_blank ++ decimal (length r.body)) crlf
              ((connection_field ++ 58 ∷ 32 ∷ keep_alive_value) ++ (crlf ++ rest)),
        )
        (read_head-line (suc fuel) 67 _ _ (length_line-avoids (length r.body))
          (read_head-line fuel 67 _ rest refl more))
]

-- A response whose message and headers have no line end, a status below 10^10 and a body below
-- 10^13 bytes is read back line by line: the status line, whether the connection closes or else how
-- long the body is, the headers in the order of their fields, and after the empty line the body.
pub append_to_buffer-frames :
    (r : Response)
    → avoids 13 r.status_message ≡ true
    → AreClean r.headers
    → r.status_code < 10 ^ 10
    → length r.body < 10 ^ 13
    → read_head (suc (suc (suc (suc (length r.headers))))) (append_to_buffer r [])
      ≡ some (status_line r ∷ connection_head r (map header_line r.headers), r.body)
unfolding append_to_buffer
append_to_buffer-frames r hm hh hc hb =
    let head = read_head-headers (suc (length r.headers)) r.headers r.body (omega arith) hh in
    let head' =
      read_head-headers (suc (suc (length r.headers))) r.headers r.body (omega arith) hh in
    rw (append_to_buffer, status_start-whole r.status_code hc)
      (read_head-line (suc (suc (suc (length r.headers)))) 72 _ _ (status_line-avoids r hm) (
        read_head-connection r (suc (length r.headers)) (header_lines r.headers (crlf ++ r.body)) hb
          head head'))
