-- ===== src/Http/Bytes.antt =====
-- Byte strings as http/HttpContext.cpp and buffer/Buffer.h search and cut them.
pub mod Find
use duo_duo.Base.{
  ℕ, Bool, true, false, ◌&&◌, ◌||◌, List, [], ◌∷◌, Option, none, some, ltb, leb, ◌==◌,
  if◌then◌else◌,
}

abbrev pub Bytes : Type 0
Bytes = List ℕ

-- `std::find`: what stands before the byte and what stands after it.
unfoldable pub find_byte : ℕ → Bytes → Option (Bytes × Bytes)
find_byte c [] = none
find_byte c (x ∷ xs) =
    if x == c
    then some ([], xs)
    else elim (find_byte c xs) [ none ↦ none | some (before, after) ↦ some (x ∷ before, after) ]

-- `Buffer::findCRLF`, with what stands before the two bytes and what stands after them.
unfoldable pub find_crlf : Bytes → Option (Bytes × Bytes)
find_crlf [] = none
find_crlf (x ∷ []) = none
find_crlf (x ∷ y ∷ xs) =
    let rest = find_crlf (y ∷ xs) in
    if (x == 13) && (y == 10)
    then some ([], xs)
    else elim rest [ none ↦ none | some (line, after) ↦ some (x ∷ line, after) ]

-- `isspace`, in the C locale.
unfoldable pub is_space : ℕ → Bool
is_space c = (c == 32) || (leb 9 c && leb c 13)

-- The two loops of `addHeader`.
unfoldable pub trim_left : Bytes → Bytes
trim_left [] = []
trim_left (x ∷ xs) = if is_space x then trim_left xs else x ∷ xs

unfoldable pub trim_right : Bytes → Bytes
trim_right [] = []
trim_right (x ∷ xs) = elim (trim_right xs) [
  | [] ↦ if is_space x then [] else x ∷ []
  | y ∷ ys ↦ x ∷ y ∷ ys
]

-- `std::string::compare(...) < 0`, the order of the maps of headers.
unfoldable pub bytes_ltb : Bytes → Bytes → Bool
bytes_ltb [] [] = false
bytes_ltb [] (y ∷ ys) = true
bytes_ltb (x ∷ xs) [] = false
bytes_ltb (x ∷ xs) (y ∷ ys) = ltb x y || ((x == y) && bytes_ltb xs ys)
