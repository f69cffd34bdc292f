-- ===== src/Pool/ChunkList/Placed.antt =====
-- Each chunk stands in one list, which it knows, with its free bytes between the list's bounds.
use duo_duo.Base.{
  ℕ, ◌-◌, ◌≡◌, refl, ap, ◌∙◌, sym, subst, fun_ext, Bool, false, List, [], ◌∷◌, Option, none, some,
  ◌==◌, if◌then◌else◌, arith, Bool-cases, inl, inr,
}
use mathlib.Core.Option.{some-injective}
use duo_duo.Pool.Subpage.{unlink}
use duo_duo.Pool.BestFitQueue.Count.{count}
use duo_duo.Pool.Chunk.{Chunk, update}
use duo_duo.Pool.ChunkList.{Level, same, Lists, add0, remove}
use duo_duo.Pool.ChunkList.Thresholds.{IsBetween}

count-unlink : (m n : ℕ) (l : List ℕ) → count m (unlink n l) ≡ count m l - (if m == n then 1 else 0)
count-unlink m n [] = ground arith
count-unlink m n (k ∷ l) = ground (arith, count-unlink m n l)

abbrev pub is_home : Option Level → Level → Bool
is_home none q = false
is_home (some p) q = same p q

pub record IsPlaced (chunk_size : ℕ) (home : ℕ → Option Level) (s : Lists) : Type 0 where
  pub once : (q : Level) (m : ℕ) → count m (s.lists q) ≡ (if is_home (home m) q then 1 else 0)
  pub told : (m : ℕ) (q : Level) → home m ≡ some q → s.parent m ≡ q
  pub between :
      (m : ℕ) (q : Level) → home m ≡ some q → IsBetween chunk_size q (s.chunks m).free_bytes

module _ (chunk_size : ℕ) (home : ℕ → Option Level) (s : Lists) (n : ℕ) where
  abbrev pub with_chunk : Chunk → Lists
  with_chunk d = record s { chunks = update s.chunks n d }

  -- Taken out of its list, whatever has become of it.
  pub removed :
      (q : Level) (d : Chunk)
      → IsPlaced chunk_size home s
      → home n ≡ some q
      → IsPlaced chunk_size (update home n none) (remove q n (with_chunk d))
  removed q d v e = record {
    once = λ p m. ground (arith, v.once p m, v.once q m, count-unlink m n (s.lists q), e);
    told = λ m p h. elim (Bool-cases (m == n)) [
      | inl t ↦ absurd (let k : none ≡ some p = (let g = rw t at h in g) in cc)
      | inr t ↦ v.told m p (let g = rw t at h in g)
    ];
    between = λ m p h. elim (Bool-cases (m == n)) [
      | inl t ↦ absurd (let k : none ≡ some p = (let g = rw t at h in g) in cc)
      | inr t ↦ rw t (v.between m p (let g = rw t at h in g))
    ];
  }

  -- Put into a list for which it is right.
  pub added :
      (p : Level)
      → IsPlaced chunk_size home s
      → home n ≡ none
      → IsBetween chunk_size p (s.chunks n).free_bytes
      → IsPlaced chunk_size (update home n (some p)) (add0 p n s)
  added p v e b = record {
    once = λ q m. ground (arith, v.once q m, v.once p m, e);
    told = λ m q h. elim (Bool-cases (m == n)) [
      | inl t ↦ rw t (some-injective _ _ (let g = rw t at h in g))
      | inr t ↦ rw t (v.told m q (let g = rw t at h in g))
    ];
    between = λ m q h. elim (Bool-cases (m == n)) [
      | inl t ↦
          let same_ : m ≡ n = ground arith in
          subst (λ k. IsBetween chunk_size k (s.chunks m).free_bytes)
            (some-injective _ _ (let g = rw t at h in g))
            (subst (λ j. IsBetween chunk_size p (s.chunks j).free_bytes) (sym same_) b)
      | inr t ↦ v.between m q (let g = rw t at h in g)
    ];
  }

  pub kept :
      (q : Level) (d : Chunk)
      → IsPlaced chunk_size home s
      → home n ≡ some q
      → IsBetween chunk_size q d.free_bytes
      → IsPlaced chunk_size home (with_chunk d)
  kept q d v e b = record {
    once = v.once;
    told = v.told;
    between = λ m p h. elim (Bool-cases (m == n)) [
      | inl t ↦
          let same_ : m ≡ n = ground arith in
          rw t (
            subst (λ k. IsBetween chunk_size k d.free_bytes)
              (some-injective _ _ (sym e ∙ ap home (sym same_) ∙ h)) b)
      | inr t ↦ rw t (v.between m p h)
    ];
  }

-- Where a chunk is now does not depend on where it was.
pub update-update :
    {A : Type 0} (f : ℕ → A) (n : ℕ) (a b : A) → update (update f n a) n b ≡ update f n b
update-update f n a b = fun_ext λ m. ground arith

pub update_same : {A : Type 0} (f : ℕ → A) (n : ℕ) (a : A) → f n ≡ a → update f n a ≡ f
update_same f n a e = fun_ext λ m. elim (Bool-cases (m == n)) [
  | inl t ↦ let same_ : m ≡ n = ground arith in rw t (sym e ∙ ap f (sym same_))
  | inr t ↦ rw t refl
]
