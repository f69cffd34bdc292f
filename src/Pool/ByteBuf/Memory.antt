-- ===== src/Pool/ByteBuf/Memory.antt =====
-- Reading and copying bytes.
use duo_duo.Base.{
  ℕ, zero, suc, ◌+◌, ◌-◌, ◌≤◌, ◌<◌, ◌≡◌, refl, ap, ap₂, ◌∙◌, List, [], ◌∷◌, ◌++◌, length,
  length-set, get_or, set, get_or-set_self, get_or-set_ne, arith, drop,
}
use duo_duo.Pool.ByteBuf.{read, copy}

pub length-read : (n at : ℕ) (m : List ℕ) → length (read n at m) ≡ n
unfolding read
length-read zero at m = refl
length-read (suc n) at m = ap suc (length-read n (at + 1) m)

pub get_or-read :
    (n at : ℕ) (m : List ℕ) (i : ℕ) → i < n → get_or (read n at m) i 0 ≡ get_or m (at + i) 0
unfolding read
get_or-read zero at m i h = absurd (omega arith)
get_or-read (suc n) at m zero h = ap (λ k. get_or m k 0) (omega arith)
get_or-read (suc n) at m (suc i) h =
    get_or-read n (at + 1) m i (omega arith) ∙ ap (λ k. get_or m k 0) (omega arith)

-- Two reads of as many bytes agree when the memories do there.
pub read-ext :
    (n p q : ℕ) (m m' : List ℕ)
    → ((i : ℕ) → i < n → get_or m (p + i) 0 ≡ get_or m' (q + i) 0)
    → read n p m ≡ read n q m'
unfolding read
read-ext zero p q m m' h = refl
read-ext (suc n) p q m m' h =
    ap₂ (λ x xs. x ∷ xs) (here (h 0 (omega arith)))
      (read-ext n (p + 1) (q + 1) m m' (λ i lt. there i (h (i + 1) (omega arith))))
  where
    here : get_or m (p + 0) 0 ≡ get_or m' (q + 0) 0 → get_or m p 0 ≡ get_or m' q 0
    here e = ap (λ k. get_or m k 0) (omega arith) ∙ e ∙ ap (λ k. get_or m' k 0) (omega arith)

    there :
        (i : ℕ)
        → get_or m (p + (i + 1)) 0 ≡ get_or m' (q + (i + 1)) 0
        → get_or m (p + 1 + i) 0 ≡ get_or m' (q + 1 + i) 0
    there i e = ap (λ k. get_or m k 0) (omega arith) ∙ e ∙ ap (λ k. get_or m' k 0) (omega arith)

pub read-append : (a b p : ℕ) (m : List ℕ) → read (a + b) p m ≡ read a p m ++ read b (p + a) m
unfolding read
read-append zero b p m = ap₂ (λ n q. read n q m) (omega arith) (omega arith)
read-append (suc a) b p m =
    ap (λ n. read n p m) (let e : suc a + b ≡ suc (a + b) = omega arith in e)
    ∙ ap (λ xs. get_or m p 0 ∷ xs)
        (read-append a b (p + 1) m ∙ ap (λ q. read a (p + 1) m ++ read b q m) (omega arith))

-- A list is what is read where its elements stand.
pub read-whole :
    (ds : List ℕ) (p : ℕ) (m : List ℕ)
    → ((i : ℕ) → i < length ds → get_or m (p + i) 0 ≡ get_or ds i 0)
    → read (length ds) p m ≡ ds
unfolding read
read-whole [] p m h = refl
read-whole (d ∷ ds) p m h =
    ap₂ (λ x xs. x ∷ xs) (ap (λ k. get_or m k 0) (omega arith) ∙ h 0 (omega arith))
      (read-whole ds (p + 1) m
        (λ i lt. ap (λ k. get_or m k 0) (omega arith) ∙ h (suc i) (omega arith)))

pub read-drop : (n k p : ℕ) (m : List ℕ) → drop k (read n p m) ≡ read (n - k) (p + k) m
unfolding read
read-drop n zero p m = ap₂ (λ n q. read n q m) (omega arith) (omega arith)
read-drop zero (suc k) p m =
    ap (λ n. read n (p + suc k) m) (let e : 0 ≡ 0 - suc k = omega arith in e)
read-drop (suc n) (suc k) p m =
    read-drop n k (p + 1) m ∙ ap₂ (λ n q. read n q m) (omega arith) (omega arith)

pub length-copy : (ds : List ℕ) (p : ℕ) (m : List ℕ) → length (copy ds p m) ≡ length m
unfolding copy
length-copy [] p m = refl
length-copy (d ∷ ds) p m = length-copy ds (p + 1) (set m p d) ∙ length-set m p d

pub copy-outside :
    (ds : List ℕ) (p : ℕ) (m : List ℕ) (j : ℕ) → j < p → get_or (copy ds p m) j 0 ≡ get_or m j 0
unfolding copy
copy-outside [] p m j h = refl
copy-outside (d ∷ ds) p m j h =
    copy-outside ds (p + 1) (set m p d) j (omega arith)
    ∙ get_or-set_ne m p j d 0 (λ e. omega (arith, e))

pub copy-inside :
    (ds : List ℕ) (p : ℕ) (m : List ℕ) (i : ℕ)
    → p + length ds ≤ length m
    → i < length ds
    → get_or (copy ds p m) (p + i) 0 ≡ get_or ds i 0
unfolding copy
copy-inside [] p m i fits h = absurd (omega arith)
copy-inside (d ∷ ds) p m zero fits h =
    copy-outside ds (p + 1) (set m p d) (p + 0) (omega arith)
    ∙ ap (λ k. get_or (set m p d) k 0) (omega arith)
    ∙ get_or-set_self m p d 0 (omega arith)
copy-inside (d ∷ ds) p m (suc i) fits h =
    ap (λ k. get_or (copy ds (p + 1) (set m p d)) k 0)
      (let e : p + suc i ≡ p + 1 + i = omega arith in e)
    ∙ copy-inside ds (p + 1) (set m p d) i (omega (arith, length-set m p d)) (omega arith)
