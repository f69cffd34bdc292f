-- ===== src/Http/Request/Headers.antt =====
-- The map of headers: what is assigned is found again, and nothing else changes.
use duo_duo.Base.{
  ◌≡◌, ◌≢◌, refl, false, [], ◌∷◌, arith, bytes_eq, bytes_eq_refl, bytes_eq_iff, inl, inr,
  Bool-cases,
}
use duo_duo.Http.Bytes.{Bytes}
use duo_duo.Http.Request.{Headers, assign, get_header, Method, method_of, method_string}

pub bytes_eq-ne : (f g : Bytes) → f ≢ g → bytes_eq f g ≡ false
bytes_eq-ne f g h = elim (Bool-cases (bytes_eq f g)) [
  | inl e ↦ absurd (h ((bytes_eq_iff f g).0 e))
  | inr e ↦ e
]

get_header-assign_self : (hs : Headers) (f v : Bytes) → get_header (assign f v hs) f ≡ v
unfolding get_header assign
get_header-assign_self [] f v = ground (arith, bytes_eq_refl f)
get_header-assign_self ((g, w) ∷ hs) f v =
    ground (arith, bytes_eq_refl f, get_header-assign_self hs f v)

get_header-assign_ne :
    (hs : Headers) (f v g : Bytes) → f ≢ g → get_header (assign f v hs) g ≡ get_header hs g
unfolding get_header assign
get_header-assign_ne [] f v g h = ground (arith, bytes_eq-ne f g h)
get_header-assign_ne ((k, w) ∷ hs) f v g h = elim (Bool-cases (bytes_eq k f)) [
  | inl e ↦ let s = (bytes_eq_iff k f).0 e in ground (arith, bytes_eq-ne f g h)
  | inr e ↦ ground (arith, bytes_eq-ne f g h, get_header-assign_ne hs f v g h)
]

-- A header that is assigned is found with its new value, and every other field is found as before.
pub get_header-assign :
    (hs : Headers) (f v : Bytes)
    → (get_header (assign f v hs) f ≡ v)
      × ((g : Bytes) → f ≢ g → get_header (assign f v hs) g ≡ get_header hs g)
get_header-assign hs f v = (get_header-assign_self hs f v, λ g h. get_header-assign_ne hs f v g h)

-- The method's name is read back as the method, the invalid one's included.
pub method_of-method_string : (m : Method) → method_of (method_string m) ≡ m
unfolding method_of bytes_eq
method_of-method_string Method.invalid = refl
method_of-method_string Method.get = refl
method_of-method_string Method.post = refl
method_of-method_string Method.head = refl
method_of-method_string Method.put = refl
method_of-method_string Method.delete = refl
