-- ===== src/Http/Bytes/Find.antt =====
-- Searching a byte string: what is found, and that later bytes do not change it.
use duo_duo.Base.{
  ℕ, ◌+◌, ◌≤◌, ◌≡◌, refl, Bool, true, not, ◌&&◌, [], ◌∷◌, ◌++◌, none, some, ◌==◌, length, arith,
  inl, inr, Option-cases,
}
use duo_duo.Http.Bytes.{Bytes, find_byte, find_crlf}

-- The byte does not occur.
abbrev pub avoids : ℕ → Bytes → Bool
avoids c [] = true
avoids c (x ∷ xs) = not (x == c) && avoids c xs

pub find_byte-avoids :
    (c : ℕ) (xs ys : Bytes) → avoids c xs ≡ true → find_byte c (xs ++ c ∷ ys) ≡ some (xs, ys)
unfolding find_byte
find_byte-avoids c [] ys h = ground arith
find_byte-avoids c (x ∷ xs) ys h = ground (arith, find_byte-avoids c xs ys)

pub find_byte-none : (c : ℕ) (xs : Bytes) → avoids c xs ≡ true → find_byte c xs ≡ none
unfolding find_byte
find_byte-none c [] h = refl
find_byte-none c (x ∷ xs) h = ground (arith, find_byte-none c xs)

pub find_crlf-avoids :
    (xs ys : Bytes) → avoids 13 xs ≡ true → find_crlf (xs ++ 13 ∷ 10 ∷ ys) ≡ some (xs, ys)
unfolding find_crlf
find_crlf-avoids [] ys h = refl
find_crlf-avoids (x ∷ []) ys h = ground arith
find_crlf-avoids (x ∷ y ∷ xs) ys h = ground (arith, find_crlf-avoids (y ∷ xs) ys)

-- The line that is found stands before the first line end.
pub find_crlf-split :
    (xs line after : Bytes) → find_crlf xs ≡ some (line, after) → xs ≡ line ++ 13 ∷ 10 ∷ after
unfolding find_crlf
find_crlf-split [] line after h = cc
find_crlf-split (x ∷ []) line after h = cc
find_crlf-split (x ∷ y ∷ xs) line after h = elim (Option-cases (find_crlf (y ∷ xs))) [
  | inl e ↦ ground arith
  | inr ((l, a), e) ↦ let s = find_crlf-split (y ∷ xs) l a e in ground arith
]

pub find_crlf-shorter :
    (xs line after : Bytes) → find_crlf xs ≡ some (line, after) → length after + 2 ≤ length xs
unfolding find_crlf
find_crlf-shorter [] line after h = cc
find_crlf-shorter (x ∷ []) line after h = cc
find_crlf-shorter (x ∷ y ∷ xs) line after h = elim (Option-cases (find_crlf (y ∷ xs))) [
  | inl e ↦ ground arith
  | inr ((l, a), e) ↦ let s = find_crlf-shorter (y ∷ xs) l a e in ground arith
]

-- Bytes that arrive later do not change the first line.
pub find_crlf-append :
    (xs ys line after : Bytes)
    → find_crlf xs ≡ some (line, after)
    → find_crlf (xs ++ ys) ≡ some (line, after ++ ys)
unfolding find_crlf
find_crlf-append [] ys line after h = cc
find_crlf-append (x ∷ []) ys line after h = cc
find_crlf-append (x ∷ y ∷ xs) ys line after h = elim (Option-cases (find_crlf (y ∷ xs))) [
  | inl e ↦ ground arith
  | inr ((l, a), e) ↦ let s = find_crlf-append (y ∷ xs) ys l a e in ground arith
]
