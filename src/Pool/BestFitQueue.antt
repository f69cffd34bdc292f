-- ===== src/Pool/BestFitQueue.antt =====
-- buffer/BestFitQueue.h: the available runs of one page class, the least handle first. The heap
-- is the list of what it holds, and its front is the least.
pub mod Count
use duo_duo.Base.{ℕ, List, [], ◌∷◌, Option, none, some, Bool, true, false, min, ◌==◌, if◌then◌else◌}

abbrev pub empty : List ℕ → Bool
empty [] = true
empty (x ∷ q) = false

abbrev pub push : ℕ → List ℕ → List ℕ
push x q = x ∷ q

abbrev pub least : ℕ → List ℕ → ℕ
least x [] = x
least x (y ∷ q) = min x (least y q)

-- `top`; the front of an empty queue is `none`.
abbrev pub top : List ℕ → Option ℕ
top [] = none
top (x ∷ q) = some (least x q)

-- `remove`: the first that is equal.
abbrev pub remove : ℕ → List ℕ → List ℕ
remove x [] = []
remove x (y ∷ q) = if x == y then q else y ∷ remove x q

unfoldable pub pop : List ℕ → List ℕ
pop [] = []
pop (x ∷ q) = remove (least x q) (x ∷ q)
