-- ===== src/Pool/ByteBuf.antt =====
-- buffer/PoolByteBuf.h, buffer/PoolByteBuf.cpp and the growth rule of
-- buffer/PoolByteBufAllocator.cpp, with what buffer/Buffer.h makes of them. The memory of the
-- chunk is a list of bytes; a pointer into it is an index. `none` is a failed assertion or an
-- exception. Where the arena puts a buffer that has to move is an interface.
pub mod Memory
pub mod Capacity
pub mod Grow
pub mod Contents
pub mod ReadFd
mod Tests
use duo_duo.Base.{
  ℕ, zero, suc, ◌+◌, ◌-◌, ◌*◌, ◌/◌, ◌≤◌, ◌≡◌, Bool, true, false, ◌&&◌, ◌||◌, List, [], ◌∷◌, Option,
  none, some, length, get_or, set, min, take, drop, ltb, leb, ◌==◌, if◌then◌else◌,
}

pub record ByteBuf : Type 0 where
  pub memory : List ℕ
  pub tmp_buf : ℕ
  pub offset : ℕ
  pub length_ : ℕ
  pub max_length : ℕ
  pub max_capacity : ℕ
  pub reader_index : ℕ
  pub writer_index : ℕ

-- What `PoolChunk::initBuf` tells a buffer of its new place.
pub record Region : Type 0 where
  pub memory : List ℕ
  pub offset : ℕ
  pub max_length : ℕ

-- The arena's allocation of so many bytes, given the memory as it is: there is room for them, and
-- it lies inside the chunk.
pub record Arena : Type 0 where
  pub allocate : List ℕ → ℕ → Region
  pub roomy : (m : List ℕ) (n : ℕ) → n ≤ (allocate m n).max_length
  pub inside :
      (m : List ℕ) (n : ℕ)
      → (allocate m n).offset + (allocate m n).max_length ≤ length (allocate m n).memory

abbrev pub readable_bytes : ByteBuf → ℕ
readable_bytes b = b.writer_index - b.reader_index

abbrev pub writable_bytes : ByteBuf → ℕ
writable_bytes b = b.length_ - b.writer_index

-- `n` bytes from a pointer.
unfoldable pub read : ℕ → ℕ → List ℕ → List ℕ
read zero at m = []
read (suc n) at m = get_or m at 0 ∷ read n (at + 1) m

-- `std::copy` to a pointer.
unfoldable pub copy : List ℕ → ℕ → List ℕ → List ℕ
copy [] at m = m
copy (d ∷ ds) at m = copy ds (at + 1) (set m at d)

-- The bytes from `peek()` on.
unfoldable pub contents : ByteBuf → List ℕ
contents b = read (readable_bytes b) (b.tmp_buf + b.reader_index) b.memory

abbrev pub threshold : ℕ
threshold = 1048576 * 4

-- The doubling loop, with the rounds left.
unfoldable pub grow : ℕ → ℕ → ℕ → ℕ
grow zero new_capacity min_new = new_capacity
grow (suc fuel) new_capacity min_new =
    let more = grow fuel (new_capacity * 2) min_new in
    if ltb new_capacity min_new then more else new_capacity

-- Each round adds to the capacity, so as many rounds as bytes are enough.
unfoldable pub calculate_new_capacity : ℕ → ℕ → Option ℕ
calculate_new_capacity min_new max_capacity =
    if ltb max_capacity min_new
    then none
    else if min_new == threshold
    then some threshold
    else if ltb threshold min_new
    then (let whole = min_new / threshold * threshold in
        some (if ltb (max_capacity - threshold) whole then max_capacity else whole + threshold))
    else some (min (grow min_new 64 min_new) max_capacity)

abbrev pub trim_indices : ℕ → ByteBuf → ByteBuf
trim_indices new_capacity b =
    if ltb new_capacity b.writer_index
    then record b { reader_index = min b.reader_index new_capacity; writer_index = new_capacity }
    else b

-- `init0` without a cached buffer.
abbrev pub init : Region → ℕ → ByteBuf → ByteBuf
init r new_capacity b = record b {
  memory = r.memory;
  tmp_buf = r.offset;
  offset = r.offset;
  length_ = new_capacity;
  max_length = r.max_length;
}

abbrev pub set_bytes : List ℕ → ℕ → ByteBuf → ByteBuf
set_bytes bytes index b = record b { memory = copy bytes (b.offset + index) b.memory }

module _ (arena : Arena) where
  -- `PoolArena::reallocate`; giving the old run back does not touch the buffer.
  unfoldable pub reallocate : ℕ → ByteBuf → Option ByteBuf
  reallocate new_capacity b =
      if ltb b.max_capacity new_capacity
      then none
      else if b.length_ == new_capacity
      then some b
      else (let moved = init (arena.allocate b.memory new_capacity) new_capacity b in
          let trimmed =
            if ltb b.length_ new_capacity then moved else trim_indices new_capacity moved in
          some (record trimmed {
            memory =
                copy (read (min b.length_ new_capacity) b.offset b.memory) moved.offset
                  moved.memory;
          }))

  unfoldable pub capacity : ℕ → ByteBuf → Option ByteBuf
  capacity new_capacity b =
      if new_capacity == b.length_
      then some b
      else if ltb b.max_capacity new_capacity
      then none
      else if ltb b.length_ new_capacity
      then (if leb new_capacity b.max_length
          then some (record b { length_ = new_capacity })
          else reallocate new_capacity b)
      else if ltb (b.max_length / 2) new_capacity
          && (ltb 512 b.max_length || ltb (b.max_length - 16) new_capacity)
      then some (trim_indices new_capacity (record b { length_ = new_capacity }))
      else reallocate new_capacity b

  unfoldable pub ensure_writable : ℕ → ByteBuf → Option ByteBuf
  ensure_writable min_writable b =
      let target = b.writer_index + min_writable in
      if ltb b.max_capacity target
      then none
      else if ltb b.length_ target
      then (if leb min_writable (writable_bytes b)
          then capacity (b.writer_index + writable_bytes b) b
          else elim (calculate_new_capacity target b.max_capacity) [
            | none ↦ none
            | some n ↦ capacity n b
          ])
      else some b

  unfoldable pub write_bytes : List ℕ → ByteBuf → Option ByteBuf
  write_bytes bytes b = elim (ensure_writable (length bytes) b) [
    | none ↦ none
    | some c ↦
        some (record (set_bytes bytes c.writer_index c) {
          writer_index = c.writer_index + length bytes;
        })
  ]

module _ (arena : Arena) where
  -- `Buffer::readFd`, with the bytes that `readv` gives, or `none` for an error. What does not fit
  -- the buffer is in the extra one, and is written after the rest.
  unfoldable pub read_fd : Option (List ℕ) → ByteBuf → Option ByteBuf
  read_fd none b = some b
  read_fd (some bytes) b =
      let writable = writable_bytes b in
      if leb (length bytes) writable
      then some (record b {
        memory = copy bytes (b.tmp_buf + b.writer_index) b.memory;
        writer_index = b.writer_index + length bytes;
      })
      else write_bytes arena (drop writable bytes) (record b {
        memory = copy (take writable bytes) (b.tmp_buf + b.writer_index) b.memory;
        writer_index = b.length_;
      })

abbrev pub retrieve_all : ByteBuf → ByteBuf
retrieve_all b = record b { reader_index = 0; writer_index = 0 }

unfoldable pub retrieve : ℕ → ByteBuf → Option ByteBuf
retrieve n b =
    if ltb (readable_bytes b) n
    then none
    else if ltb n (readable_bytes b)
    then some (record b { reader_index = b.reader_index + n })
    else some (retrieve_all b)

unfoldable pub retrieve_as_string : ℕ → ByteBuf → Option (List ℕ × ByteBuf)
retrieve_as_string n b = elim (retrieve n b) [
  | none ↦ none
  | some c ↦ some (read n (b.tmp_buf + b.reader_index) b.memory, c)
]
