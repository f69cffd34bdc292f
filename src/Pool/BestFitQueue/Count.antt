-- ===== src/Pool/BestFitQueue/Count.antt =====
-- What a queue of runs holds, as the number of times that it holds a handle.
use duo_duo.Base.{
  ℕ, ◌+◌, ◌-◌, ◌<◌, ◌≡◌, refl, List, [], ◌∷◌, some, true, false, ◌==◌, if◌then◌else◌, arith,
}
use duo_duo.Pool.BestFitQueue.{empty, least, top, remove, pop}

abbrev pub count : ℕ → List ℕ → ℕ
count x [] = 0
count x (y ∷ q) = (if x == y then 1 else 0) + count x q

pub count-remove :
    (x y : ℕ) (q : List ℕ) → count x (remove y q) ≡ count x q - (if x == y then 1 else 0)
count-remove x y [] = ground arith
count-remove x y (z ∷ q) = ground (arith, count-remove x y q)

least-mem : (x : ℕ) (q : List ℕ) → 0 < count (least x q) (x ∷ q)
least-mem x [] = ground arith
least-mem x (y ∷ q) = ground (arith, least-mem y q)

-- What is first in a queue is in it, and `pop` takes it out.
pub top-count :
    (q : List ℕ)
    → empty q ≡ false
    → (h : ℕ) × (top q ≡ some h) × (pop q ≡ remove h q) × (0 < count h q)
unfolding pop
top-count [] e = absurd (cc)
top-count (x ∷ q) e = (least x q, refl, refl, least-mem x q)

pub empty-count : (q : List ℕ) → empty q ≡ true → (h : ℕ) → count h q ≡ 0
empty-count [] e h = refl
empty-count (x ∷ q) e h = absurd (cc)
