-- ===== src/Pool/Chunk/Layout.antt =====
-- The pages of a chunk as a row of runs, available or in use: what the map and the queues of a
-- chunk should then hold.
use duo_duo.Base.{
  ℕ, ◌+◌, ◌-◌, ◌≤◌, ◌<◌, ◌≡◌, ◌⊎◌, inl, inr, refl, ap, ◌∙◌, subst, Bool-cases, ◌^◌, Bool, true,
  false, ◌&&◌, ◌||◌, List, [], ◌∷◌, ◌++◌, Option, none, some, ltb, ◌==◌, if◌then◌else◌, arith,
}
use duo_duo.Pool.Handle.{calculate_run_offset, calculate_run_pages, is_used, is_subpage}

pub data Run : Type 0 where
  used : ℕ → Run
  free : ℕ → ℕ → Run

abbrev pub Layout : Type 0
Layout = List Run

abbrev pub size : Run → ℕ
size (used n) = n
size (free n h) = n

unfoldable pub pages : Layout → ℕ
pages [] = 0
pages (r ∷ L) = size r + pages L

unfoldable pub free_pages : Layout → ℕ
free_pages [] = 0
free_pages (used n ∷ L) = free_pages L
free_pages (free n h ∷ L) = n + free_pages L

-- A handle that names the available run at a page.
pub record Names (h o n : ℕ) : Type 0 where
  pub offset : calculate_run_offset h ≡ o
  pub pages : calculate_run_pages h ≡ n
  pub unused : is_used h ≡ false
  pub whole : is_subpage h ≡ false
  pub positive : h < 2 ^ 63

-- No run is empty, and the handles of the available ones are theirs.
unfoldable pub IsTiled : ℕ → Layout → Type 0
IsTiled o [] = Unit {0}
IsTiled o (used n ∷ L) = (0 < n) × IsTiled (o + n) L
IsTiled o (free n h ∷ L) = (0 < n) × Names h o n × IsTiled (o + n) L

-- No two available runs are neighbours; the flag says whether one stands just before.
unfoldable pub IsMerged : Bool → Layout → Type 0
IsMerged b [] = Unit {0}
IsMerged b (used n ∷ L) = IsMerged false L
IsMerged b (free n h ∷ L) = (b ≡ false) × IsMerged true L

unfoldable pub ends_free : Bool → Layout → Bool
ends_free b [] = b
ends_free b (used n ∷ L) = ends_free false L
ends_free b (free n h ∷ L) = ends_free true L

-- The map has an available run at its first page and at its last one.
abbrev pub run_edge : ℕ → Run → ℕ → Option ℕ
run_edge o (used n) k = none
run_edge o (free n h) k = if (k == o) || (k == o + n - 1) then some h else none

unfoldable pub edge : ℕ → Layout → ℕ → Option ℕ
edge o [] k = none
edge o (r ∷ L) k =
    let rest = edge (o + size r) L k in if ltb k (o + size r) then run_edge o r k else rest

module _ (class_ : ℕ → ℕ) where
  -- How often the queue of a page class should hold a handle.
  abbrev pub run_filed : Run → ℕ → ℕ → ℕ
  run_filed (used n) i h = 0
  run_filed (free n g) i h = if (class_ n == i) && (h == g) then 1 else 0

  unfoldable pub filed : Layout → ℕ → ℕ → ℕ
  filed [] i h = 0
  filed (r ∷ L) i h = run_filed r i h + filed L i h

  pub filed-append : (L M : Layout) (i h : ℕ) → filed (L ++ M) i h ≡ filed L i h + filed M i h
  unfolding filed
  filed-append [] M i h = omega arith
  filed-append (r ∷ L) M i h = omega (arith, filed-append L M i h)

  -- What a queue should hold is a run of the layout.
  pub filed-found :
      (L : Layout) (i h : ℕ)
      → 0 < filed L i h
      → (before : Layout) × (n : ℕ) × (after : Layout) × (L ≡ before ++ free n h ∷ after)
        × (class_ n ≡ i)
  unfolding filed
  filed-found [] i h p = absurd (omega arith)
  filed-found (used n ∷ L) i h p =
      let (b, m, a, e, f) = filed-found L i h (omega arith) in
      (used n ∷ b, m, a, ap (λ t. used n ∷ t) e, f)
  filed-found (free n g ∷ L) i h p = elim (Bool-cases ((class_ n == i) && (h == g))) [
    | inl t ↦ let e : h ≡ g = ground arith in ([], n, L, rw e refl, ground arith)
    | inr t ↦
        let (b, m, a, e, f) = filed-found L i h (ground arith) in
        (free n g ∷ b, m, a, ap (λ t. free n g ∷ t) e, f)
  ]

pub pages-append : (L M : Layout) → pages (L ++ M) ≡ pages L + pages M
unfolding pages
pages-append [] M = omega arith
pages-append (r ∷ L) M = omega (arith, pages-append L M)

pub free_pages-append : (L M : Layout) → free_pages (L ++ M) ≡ free_pages L + free_pages M
unfolding free_pages
free_pages-append [] M = omega arith
free_pages-append (used n ∷ L) M = free_pages-append L M
free_pages-append (free n h ∷ L) M = omega (arith, free_pages-append L M)

pub free-le-pages : (L : Layout) → free_pages L ≤ pages L
unfolding free_pages pages
free-le-pages [] = omega arith
free-le-pages (used n ∷ L) = omega (arith, free-le-pages L)
free-le-pages (free n h ∷ L) = omega (arith, free-le-pages L)

pub IsTiled-append :
    (o : ℕ) (L M : Layout) → IsTiled o L → IsTiled (o + pages L) M → IsTiled o (L ++ M)
unfolding IsTiled pages
IsTiled-append o [] M t u = subst (λ k. IsTiled k M) (omega arith) u
IsTiled-append o (used n ∷ L) M (p, t) u =
    (p, IsTiled-append (o + n) L M t (subst (λ k. IsTiled k M) (omega arith) u))
IsTiled-append o (free n h ∷ L) M (p, q, t) u =
    (p, q, IsTiled-append (o + n) L M t (subst (λ k. IsTiled k M) (omega arith) u))

pub IsTiled-split :
    (o : ℕ) (L M : Layout) → IsTiled o (L ++ M) → IsTiled o L × IsTiled (o + pages L) M
unfolding IsTiled pages
IsTiled-split o [] M t = (tt, subst (λ k. IsTiled k M) (omega arith) t)
IsTiled-split o (used n ∷ L) M (p, t) =
    let (a, b) = IsTiled-split (o + n) L M t in ((p, a), subst (λ k. IsTiled k M) (omega arith) b)
IsTiled-split o (free n h ∷ L) M (p, q, t) =
    let (a, b) = IsTiled-split (o + n) L M t in
    ((p, q, a), subst (λ k. IsTiled k M) (omega arith) b)

pub IsMerged-append :
    (b : Bool) (L M : Layout) → IsMerged b L → IsMerged (ends_free b L) M → IsMerged b (L ++ M)
unfolding IsMerged ends_free
IsMerged-append b [] M t u = u
IsMerged-append b (used n ∷ L) M t u = IsMerged-append false L M t u
IsMerged-append b (free n h ∷ L) M (p, t) u = (p, IsMerged-append true L M t u)

pub IsMerged-split :
    (b : Bool) (L M : Layout) → IsMerged b (L ++ M) → IsMerged b L × IsMerged (ends_free b L) M
unfolding IsMerged ends_free
IsMerged-split b [] M t = (tt, t)
IsMerged-split b (used n ∷ L) M t = IsMerged-split false L M t
IsMerged-split b (free n h ∷ L) M (p, t) = let (a, c) = IsMerged-split true L M t in ((p, a), c)

-- Just after an available run there can be less.
pub IsMerged-false : (b : Bool) (L : Layout) → IsMerged b L → IsMerged false L
unfolding IsMerged
IsMerged-false b [] t = tt
IsMerged-false b (used n ∷ L) t = t
IsMerged-false b (free n h ∷ L) (p, t) = (refl, t)

pub ends_free-append :
    (b : Bool) (L M : Layout) → ends_free b (L ++ M) ≡ ends_free (ends_free b L) M
unfolding ends_free
ends_free-append b [] M = refl
ends_free-append b (used n ∷ L) M = ends_free-append false L M
ends_free-append b (free n h ∷ L) M = ends_free-append true L M

-- A layout that ends with an available run.
pub ends_free-last :
    (b : Bool) (L : Layout)
    → ends_free b L ≡ true
    → (b ≡ true) × (L ≡ [])
      ⊎ ((before : Layout) × (n : ℕ) × (h : ℕ) × (L ≡ before ++ free n h ∷ []))
unfolding ends_free
ends_free-last b [] e = inl (e, refl)
ends_free-last b (used n ∷ L) e = elim (ends_free-last false L e) [
  | inl (f, g) ↦ absurd (cc)
  | inr (w, m, h, f) ↦ inr (used n ∷ w, m, h, ap (λ t. used n ∷ t) f)
]
ends_free-last b (free n g ∷ L) e = elim (ends_free-last true L e) [
  | inl (f, k) ↦ inr ([], n, g, ap (λ t. free n g ∷ t) k)
  | inr (w, m, h, f) ↦ inr (free n g ∷ w, m, h, ap (λ t. free n g ∷ t) f)
]

pub edge-append :
    (o : ℕ) (L M : Layout) (k : ℕ)
    → o ≤ k
    → edge o (L ++ M) k ≡ (if ltb k (o + pages L) then edge o L k else edge (o + pages L) M k)
unfolding edge pages
edge-append o [] M k h =
    let e : o + 0 ≡ o = omega arith in
    let f : ltb k (o + 0) ≡ false = ground arith in rw (f, e) refl
edge-append o (r ∷ L) M k h =
    let e : o + (size r + pages L) ≡ o + size r + pages L = omega arith in
    elim (Bool-cases (ltb k (o + size r))) [
      | inl t ↦ let u : ltb k (o + size r + pages L) ≡ true = ground arith in rw (t, e, u) refl
      | inr t ↦ rw (t, e) (edge-append (o + size r) L M k (ground arith))
    ]

-- The map at a page, by what lies before, at and after a run.
pub edge-middle :
    (L : Layout) (r : Run) (M : Layout) (k : ℕ)
    → edge 0 (L ++ r ∷ M) k ≡ (
        if ltb k (pages L)
        then edge 0 L k
        else (if ltb k (pages L + size r)
            then run_edge (pages L) r k
            else edge (pages L + size r) M k))
unfolding edge
edge-middle L r M k =
    let e : 0 + pages L ≡ pages L = omega arith in
    edge-append 0 L (r ∷ M) k (omega arith) ∙ rw e refl
