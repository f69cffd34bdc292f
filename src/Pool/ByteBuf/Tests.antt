-- ===== src/Pool/ByteBuf/Tests.antt =====
-- The theorems on buffers at concrete inputs.
use duo_duo.Base.{
  ℕ, ◌≤◌, ◌≡◌, refl, List, [], ◌∷◌, ◌++◌, some, length, replicate, length-replicate, arith,
}
use duo_duo.Pool.ByteBuf.{
  ByteBuf, Arena, Region, readable_bytes, contents, calculate_new_capacity, retrieve_as_string,
}
use duo_duo.Pool.ByteBuf.Capacity.{calculate_new_capacity-bounds}
use duo_duo.Pool.ByteBuf.Grow.{IsValid}
use duo_duo.Pool.ByteBuf.Contents.{retrieve_as_string-takes}

-- An arena that gives just what is asked for, at the start of new memory.
exact_region : ℕ → Region
exact_region n = record { memory = replicate n 0; offset = 0; max_length = n }

abbrev exact : Arena
unfolding exact_region
exact = record {
  allocate = λ m n. exact_region n;
  roomy = λ m n. omega arith;
  inside = λ m n. omega (arith, length-replicate {A = ℕ} n 0);
}

-- Two bytes are written, and one of them is read; two more fit.
abbrev small : ByteBuf
small = record {
  memory = 9 ∷ 1 ∷ 2 ∷ 0 ∷ 0 ∷ 9 ∷ [];
  tmp_buf = 1;
  offset = 1;
  length_ = 4;
  max_length = 4;
  max_capacity = 100;
  reader_index = 1;
  writer_index = 2;
}

small-IsValid : IsValid small
small-IsValid = record {
  direct = refl;
  ordered = omega arith;
  written = omega arith;
  owned = omega arith;
  bounded = omega arith;
  inside = omega arith;
}

calculate_new_capacity-bounds_example :
    (r : ℕ) × (calculate_new_capacity 200 1000 ≡ some r) × (200 ≤ r) × (r ≤ 1000)
calculate_new_capacity-bounds_example = calculate_new_capacity-bounds 200 1000 (omega arith)

retrieve_as_string-takes_example :
    (bytes : List ℕ) × (c : ByteBuf) × (retrieve_as_string 1 small ≡ some (bytes, c))
    × IsValid c
    × (contents small ≡ bytes ++ contents c)
    × (length bytes ≡ 1)
    × (1 ≡ readable_bytes small → (c.reader_index ≡ 0) × (c.writer_index ≡ 0))
retrieve_as_string-takes_example = retrieve_as_string-takes small 1 small-IsValid (omega arith)
