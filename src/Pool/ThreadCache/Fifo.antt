-- ===== src/Pool/ThreadCache/Fifo.antt =====
-- MemoryRegionCache: what goes out of the cache of one size is what came in, in that order.
use duo_duo.Base.{
  ℕ, zero, suc, ◌+◌, ◌-◌, ◌*◌, ◌≡◌, refl, sym, ap, ap₂, ◌∙◌, List, [], ◌∷◌, ◌++◌, append_assoc,
  append-nil, take, drop, take-append-drop, none, some, arith, replicate,
}
use duo_duo.Pool.ThreadCache.{Entry, RegionCache, add_entry, take_entry, free_loop, trim_region}

-- A call of the cache of one size.
pub data Call : Type 0 where
  added : Entry → Call
  allocated : Call
  trimmed : Call

-- What goes out, to a buffer or to the arena, and the cache after it.
abbrev pub call : Call → RegionCache → List Entry × RegionCache
call (added e) c = ([], add_entry e c)
call allocated c = let (taken, d) = take_entry c in (elim taken [ none ↦ [] | some e ↦ e ∷ [] ], d)
call trimmed c = trim_region c

unfoldable pub calls : List Call → RegionCache → List Entry × RegionCache
calls [] c = ([], c)
calls (x ∷ xs) c = let (out, d) = call x c in let (more, e) = calls xs d in (out ++ more, e)

unfoldable pub came : List Call → List Entry
came [] = []
came (added e ∷ xs) = e ∷ came xs
came (allocated ∷ xs) = came xs
came (trimmed ∷ xs) = came xs

free_loop-take : (n : ℕ) (es : List Entry) → (free_loop n es).0 ≡ take n es
unfolding free_loop
free_loop-take zero es = refl
free_loop-take (suc n) [] = refl
free_loop-take (suc n) (e ∷ es) = ap (λ t. e ∷ t) (free_loop-take n es)

free_loop-drop : (n : ℕ) (es : List Entry) → (free_loop n es).1 ≡ drop n es
unfolding free_loop
free_loop-drop zero es = refl
free_loop-drop (suc n) [] = refl
free_loop-drop (suc n) (e ∷ es) = free_loop-drop n es

pub free_loop-append : (n : ℕ) (es : List Entry) → (free_loop n es).0 ++ (free_loop n es).1 ≡ es
free_loop-append n es =
    ap₂ (λ x y. x ++ y) (free_loop-take n es) (free_loop-drop n es) ∙ take-append-drop n es

-- One call: what goes out and what stays are what there was, with what came in at the end.
call-fifo :
    (x : Call) (c : RegionCache) → (call x c).0 ++ ((call x c).1).queue ≡ c.queue ++ came (x ∷ [])
unfolding trim_region came
call-fifo (added e) c = refl
call-fifo allocated c = taken c.queue refl
  where
    taken :
        (es : List Entry)
        → c.queue ≡ es
        → (call allocated (record c { queue = es })).0
            ++ ((call allocated (record c { queue = es })).1).queue
          ≡ es ++ []
    taken [] e = refl
    taken (x ∷ es) e = ap (λ q. x ∷ q) (sym (append-nil es))
call-fifo trimmed c = free_loop-append (c.size - c.allocations) c.queue ∙ sym (append-nil c.queue)

came-cons : (x : Call) (xs : List Call) → came (x ∷ xs) ≡ came (x ∷ []) ++ came xs
unfolding came
came-cons (added e) xs = refl
came-cons allocated xs = refl
came-cons trimmed xs = refl

-- For any calls of a cache of one size, in any order: what goes out of it, to buffers and to the
-- arena, and then what it still holds are what it held at first and then what was added, in that
-- order. So a run that is kept goes out once, and the one that waits longest goes first.
pub calls-fifo :
    (xs : List Call) (c : RegionCache)
    → (calls xs c).0 ++ ((calls xs c).1).queue ≡ c.queue ++ came xs
unfolding calls came
calls-fifo [] c = sym (append-nil c.queue)
calls-fifo (x ∷ xs) c =
    let out = (call x c).0 in
    let d = (call x c).1 in
    append_assoc out (calls xs d).0 ((calls xs d).1).queue
    ∙ ap (λ q. out ++ q) (calls-fifo xs d)
    ∙ sym (append_assoc out d.queue (came xs))
    ∙ ap (λ q. q ++ came xs) (call-fifo x c)
    ∙ append_assoc c.queue (came (x ∷ [])) (came xs)
    ∙ ap (λ q. c.queue ++ q) (sym (came-cons x xs))

take-nil : (n : ℕ) → take {A = Entry} n [] ≡ []
take-nil zero = refl
take-nil (suc n) = refl

drop-nil : (n : ℕ) → drop {A = Entry} n [] ≡ []
drop-nil zero = refl
drop-nil (suc n) = refl

take-drop : (m n : ℕ) (es : List Entry) → take m es ++ take n (drop m es) ≡ take (m + n) es
take-drop zero n es = ap (λ k. take k es) (omega arith)
take-drop (suc m) n [] = take-nil n ∙ sym (take-nil (suc m + n))
take-drop (suc m) n (e ∷ es) =
    ap (λ t. e ∷ t) (take-drop m n es)
    ∙ ap (λ k. take k (e ∷ es)) (let p : suc (m + n) ≡ suc m + n = omega arith in p)

drop-drop : (m n : ℕ) (es : List Entry) → drop n (drop m es) ≡ drop (m + n) es
drop-drop zero n es = ap (λ k. drop k es) (omega arith)
drop-drop (suc m) n [] = drop-nil n ∙ sym (drop-nil (suc m + n))
drop-drop (suc m) n (e ∷ es) =
    drop-drop m n es
    ∙ ap (λ k. drop k (e ∷ es)) (let p : suc (m + n) ≡ suc m + n = omega arith in p)

-- From a cache that gave nothing to a buffer since the last trim: any number of trims gives the
-- arena the oldest runs, as many for each trim as the cache has the size, and keeps the others. A
-- cache that is not used is empty after so many trims that times its size they reach its length.
pub trims-drain :
    (n : ℕ) (c : RegionCache)
    → c.allocations ≡ 0
    → ((calls (replicate n trimmed) c).0 ≡ take (n * c.size) c.queue)
      × (((calls (replicate n trimmed) c).1).queue ≡ drop (n * c.size) c.queue)
unfolding calls trim_region
trims-drain zero c h = (
  ap (λ k. take k c.queue) (let p : 0 ≡ 0 * c.size = omega arith in p),
  ap (λ k. drop k c.queue) (let p : 0 ≡ 0 * c.size = omega arith in p),
)
trims-drain (suc n) c h =
    let d = (trim_region c).1 in
    let (out, kept) = trims-drain n d refl in
    let s : c.size - c.allocations ≡ c.size = omega (arith, h) in
    let all : c.size + n * c.size ≡ suc n * c.size = omega arith in
    let freed : (free_loop (c.size - c.allocations) c.queue).0 ≡ take c.size c.queue =
      free_loop-take _ c.queue ∙ ap (λ k. take k c.queue) s in
    let rest : d.queue ≡ drop c.size c.queue =
      free_loop-drop _ c.queue ∙ ap (λ k. drop k c.queue) s in
    (
      ap₂ (λ x y. x ++ y) freed (out ∙ ap (λ q. take (n * c.size) q) rest)
          ∙ take-drop c.size (n * c.size) c.queue
          ∙ ap (λ k. take k c.queue) all,
      kept
          ∙ ap (λ q. drop (n * c.size) q) rest
          ∙ drop-drop c.size (n * c.size) c.queue
          ∙ ap (λ k. drop k c.queue) all,
    )
