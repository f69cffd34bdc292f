-- ===== src/Pool/ByteBuf/Contents.antt =====
-- A buffer holds a string: writing appends to it, and retrieving takes from its front.
use duo_duo.Base.{
  ℕ, ◌+◌, ◌-◌, ◌≤◌, ◌≡◌, refl, ap, ap₂, ◌∙◌, false, List, [], ◌∷◌, ◌++◌, some, length, get_or,
  arith, ltb, Bool-cases, inl, inr,
}
use duo_duo.Pool.ByteBuf.{
  ByteBuf, readable_bytes, read, copy, contents, set_bytes, retrieve, retrieve_all,
  retrieve_as_string,
}
use duo_duo.Pool.ByteBuf.Memory.{
  length-read, read-ext, read-append, read-whole, length-copy, copy-outside, copy-inside,
}
use duo_duo.Pool.ByteBuf.Grow.{IsValid}

-- Writing behind the string.
abbrev pub after : ByteBuf → List ℕ → ByteBuf
after c bytes = record (set_bytes bytes c.writer_index c) {
  writer_index = c.writer_index + length bytes;
}

module _ {c : ByteBuf} (v : IsValid c) (bytes : List ℕ)
    (room : c.writer_index + length bytes ≤ c.length_) where
  pub after-IsValid : IsValid (after c bytes)
  after-IsValid = record {
    direct = v.direct;
    ordered = omega (arith, v.ordered);
    written = room;
    owned = v.owned;
    bounded = v.bounded;
    inside = rw (length-copy bytes (c.offset + c.writer_index) c.memory) v.inside;
  }

  pub after-contents : contents (after c bytes) ≡ contents c ++ bytes
  unfolding contents
  after-contents =
      ap (λ n. read n (c.tmp_buf + c.reader_index) m)
        (let e : c.writer_index + length bytes - c.reader_index
              ≡ c.writer_index - c.reader_index + length bytes =
            omega (arith, v.ordered) in
          e)
      ∙ read-append (c.writer_index - c.reader_index) (length bytes) (c.tmp_buf + c.reader_index) m
      ∙ ap₂ (λ xs ys. xs ++ ys)
          (read-ext (c.writer_index - c.reader_index) (c.tmp_buf + c.reader_index)
            (c.tmp_buf + c.reader_index) m c.memory
            (λ i lt.
              copy-outside bytes (c.offset + c.writer_index) c.memory
                (c.tmp_buf + c.reader_index + i) (omega (arith, v.direct, lt))))
          (read-whole bytes (c.tmp_buf + c.reader_index + (c.writer_index - c.reader_index)) m
            (λ i lt.
              ap (λ k. get_or m k 0)
                (let e : c.tmp_buf + c.reader_index + (c.writer_index - c.reader_index) + i
                      ≡ c.offset + c.writer_index + i =
                    omega (arith, v.direct, v.ordered) in
                  e)
              ∙ copy-inside bytes (c.offset + c.writer_index) c.memory i
                  (omega (arith, room, v.owned, v.inside)) lt))
    where
      m : List ℕ
      m = copy bytes (c.offset + c.writer_index) c.memory

-- Retrieving no more than there is drops just that many bytes from the front, and hands them out
-- as a string; and once all is retrieved both indices are 0 again.
pub retrieve_as_string-takes :
    (b : ByteBuf) (n : ℕ)
    → IsValid b
    → n ≤ readable_bytes b
    → (bytes : List ℕ) × (c : ByteBuf) × (retrieve_as_string n b ≡ some (bytes, c))
      × IsValid c
      × (contents b ≡ bytes ++ contents c)
      × (length bytes ≡ n)
      × (n ≡ readable_bytes b → (c.reader_index ≡ 0) × (c.writer_index ≡ 0))
unfolding retrieve_as_string retrieve contents read
retrieve_as_string-takes b n v h =
    let ok : ltb (b.writer_index - b.reader_index) n ≡ false = ground arith in
    elim (Bool-cases (ltb n (b.writer_index - b.reader_index))) [
      | inl part ↦ (
        read n at_ b.memory,
        record b { reader_index = b.reader_index + n },
        rw (retrieve_as_string, retrieve, ok, part) refl,
        record {
          direct = v.direct;
          ordered = ground (arith, v.ordered);
          written = v.written;
          owned = v.owned;
          bounded = v.bounded;
          inside = v.inside;
        },
        ap (λ k. read k at_ b.memory)
              (let e : b.writer_index - b.reader_index
                    ≡ n + (b.writer_index - (b.reader_index + n)) =
                  omega (arith, h) in
                e)
            ∙ read-append n (b.writer_index - (b.reader_index + n)) at_ b.memory
            ∙ ap
                (λ q.
                  read n at_ b.memory ++ read (b.writer_index - (b.reader_index + n)) q b.memory)
                (omega arith),
        length-read n at_ b.memory,
        λ e. absurd (ground arith),
      )
      | inr whole ↦
          let e : b.writer_index - b.reader_index ≡ n = ground arith in
          (
            read n at_ b.memory,
            retrieve_all b,
            rw (retrieve_as_string, retrieve, ok, whole) refl,
            record {
              direct = v.direct;
              ordered = omega arith;
              written = omega arith;
              owned = v.owned;
              bounded = v.bounded;
              inside = v.inside;
            },
            ap (λ k. read k at_ b.memory) e ∙ nothing_more (read n at_ b.memory),
            length-read n at_ b.memory,
            λ _. (refl, refl),
          )
    ]
  where
    at_ : ℕ
    at_ = b.tmp_buf + b.reader_index

    nothing_more : (xs : List ℕ) → xs ≡ xs ++ []
    nothing_more [] = refl
    nothing_more (x ∷ xs) = ap (λ ys. x ∷ ys) (nothing_more xs)
