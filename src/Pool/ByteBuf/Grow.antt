-- ===== src/Pool/ByteBuf/Grow.antt =====
-- A buffer that gets more room keeps its string.
use duo_duo.Base.{
  ℕ, ◌+◌, ◌-◌, ◌≤◌, ◌<◌, ◌≡◌, refl, ap, ◌∙◌, true, false, List, some, length, get_or, arith, min,
  ltb, leb, ◌==◌, Bool-cases, inl, inr,
}
use duo_duo.Pool.ByteBuf.{
  ByteBuf, Region, Arena, read, copy, contents, init, reallocate, capacity, ensure_writable,
}
use duo_duo.Pool.ByteBuf.Memory.{length-read, get_or-read, read-ext, length-copy, copy-inside}
use duo_duo.Pool.ByteBuf.Capacity.{calculate_new_capacity-bounds}

-- The indices are in order, and the buffer reads where it writes, inside the chunk.
pub record IsValid (b : ByteBuf) : Type 0 where
  pub direct : b.tmp_buf ≡ b.offset
  pub ordered : b.reader_index ≤ b.writer_index
  pub written : b.writer_index ≤ b.length_
  pub owned : b.length_ ≤ b.max_length
  pub bounded : b.length_ ≤ b.max_capacity
  pub inside : b.offset + b.max_length ≤ length b.memory

-- A buffer with more room and the same string.
pub record Grown (b c : ByteBuf) (room : ℕ) : Type 0 where
  pub valid : IsValid c
  pub same : contents c ≡ contents b
  pub reader : c.reader_index ≡ b.reader_index
  pub writer : c.writer_index ≡ b.writer_index
  pub maximum : c.max_capacity ≡ b.max_capacity
  pub enough : room ≤ c.length_

module _ (arena : Arena) {b : ByteBuf} (v : IsValid b) where
  moved : (n : ℕ) → ByteBuf
  moved n =
      let r = arena.allocate b.memory n in
      record (init r n b) { memory = copy (read b.length_ b.offset b.memory) r.offset r.memory }

  moved-Grown : (n : ℕ) → b.length_ < n → n ≤ b.max_capacity → Grown b (moved n) n
  unfolding contents moved
  moved-Grown n more fits = record {
    valid = record {
      direct = refl;
      ordered = v.ordered;
      written = omega (arith, v.written);
      owned = arena.roomy b.memory n;
      bounded = fits;
      inside =
          rw (length-copy (read b.length_ b.offset b.memory) r.offset r.memory)
            (arena.inside b.memory n);
    };
    same =
        read-ext (b.writer_index - b.reader_index) (r.offset + b.reader_index)
          (b.tmp_buf + b.reader_index) _ b.memory at_;
    reader = refl;
    writer = refl;
    maximum = refl;
    enough = omega arith;
  }
    where
      r : Region
      r = arena.allocate b.memory n

      old : List ℕ
      old = read b.length_ b.offset b.memory

      at_ :
          (i : ℕ)
          → i < b.writer_index - b.reader_index
          → get_or (copy old r.offset r.memory) (r.offset + b.reader_index + i) 0
            ≡ get_or b.memory (b.tmp_buf + b.reader_index + i) 0
      at_ i lt =
          let k = b.reader_index + i in
          let small : k < b.length_ = omega (arith, v.written) in
          let long = length-read b.length_ b.offset b.memory in
          let placed =
            copy-inside old r.offset r.memory k
              (omega (arith, long, arena.roomy b.memory n, arena.inside b.memory n))
              (omega (arith, long)) in
          ap (λ j. get_or (copy old r.offset r.memory) j 0) (omega arith)
          ∙ placed
          ∙ get_or-read b.length_ b.offset b.memory k small
          ∙ ap (λ j. get_or b.memory j 0) (omega (arith, v.direct))

  capacity-Grown :
      (n : ℕ)
      → b.length_ < n
      → n ≤ b.max_capacity
      → (c : ByteBuf) × (capacity arena n b ≡ some c) × Grown b c n
  unfolding capacity reallocate contents moved
  capacity-Grown n more fits =
      let ne : (n == b.length_) ≡ false = ground arith in
      let ne' : (b.length_ == n) ≡ false = ground arith in
      let ok : ltb b.max_capacity n ≡ false = ground arith in
      let up : ltb b.length_ n ≡ true = ground arith in
      let least : min b.length_ n ≡ b.length_ = omega arith in
      elim (Bool-cases (leb n b.max_length)) [
        | inl here ↦ (
          record b { length_ = n },
          rw (ne, ok, up, here) refl,
          record {
            valid = record {
              direct = v.direct;
              ordered = v.ordered;
              written = omega (arith, v.written);
              owned = ground arith;
              bounded = fits;
              inside = v.inside;
            };
            same = refl;
            reader = refl;
            writer = refl;
            maximum = refl;
            enough = omega arith;
          },
        )
        | inr away ↦ (moved n, rw (ne, ok, up, away, ne', least) refl, moved-Grown n more fits)
      ]

  pub ensure_writable-Grown :
      (n : ℕ)
      → b.writer_index + n ≤ b.max_capacity
      → (c : ByteBuf) × (ensure_writable arena n b ≡ some c) × Grown b c (b.writer_index + n)
  unfolding ensure_writable
  ensure_writable-Grown n fits =
      let ok : ltb b.max_capacity (b.writer_index + n) ≡ false = ground arith in
      elim (Bool-cases (ltb b.length_ (b.writer_index + n))) [
        | inl more ↦
            let short : leb n (b.length_ - b.writer_index) ≡ false = ground (arith, v.written) in
            let (m, e, lo, hi) =
              calculate_new_capacity-bounds (b.writer_index + n) b.max_capacity fits in
            let (c, done, g) = capacity-Grown m (ground arith) hi in
            (
              c,
              rw (ok, more, short, e) done,
              record {
                valid = g.valid;
                same = g.same;
                reader = g.reader;
                writer = g.writer;
                maximum = g.maximum;
                enough = omega (arith, g.enough, lo);
              },
            )
        | inr there ↦ (
          b,
          rw (ok, there) refl,
          record {
            valid = v;
            same = refl;
            reader = refl;
            writer = refl;
            maximum = refl;
            enough = ground arith;
          },
        )
      ]
