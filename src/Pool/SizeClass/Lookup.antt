-- ===== src/Pool/SizeClass/Lookup.antt =====
-- The lookups between a size, its class and its pages. A read past a table's end gives 0.
use duo_duo.Base.{
  ℕ, ◌+◌, ◌-◌, ◌*◌, ◌/◌, ◌%◌, ◌^◌, Bool, true, false, ◌&&◌, Option, none, some, bit_and, ltb, leb,
  ◌==◌, if◌then◌else◌, get_or,
}
use duo_duo.Pool.MathUtils.{log2}
use duo_duo.Pool.SizeClass.Rows.{SizeClass, log2_quantum, log2_size_class_group, shl}

-- `log2((size << 1) - 1)`
abbrev pub log2_up : ℕ → ℕ
log2_up size = log2 ((shl size 1 + 2 ^ 32 - 1) % 2 ^ 32)

-- `(size - 1 & -1 << log2delta) >> log2delta & 3`
abbrev pub slot : ℕ → ℕ → ℕ
slot size log2_delta =
    bit_and (bit_and (size - 1) (shl (2 ^ 32 - 1) log2_delta) / 2 ^ log2_delta)
      (shl 1 log2_size_class_group - 1)

-- The part of `size2sizeIdx` below its table.
unfoldable pub size2size_idx_compute : ℕ → ℕ
size2size_idx_compute size =
    let x = log2_up size in
    let shift =
      if ltb x (log2_quantum + log2_size_class_group + 1)
      then 0
      else x - (log2_size_class_group + log2_quantum) in
    let log2_delta =
      if ltb x (log2_size_class_group + log2_quantum + 1)
      then log2_quantum
      else x - log2_size_class_group - 1 in
    shl shift log2_size_class_group + slot size log2_delta

unfoldable pub size2size_idx : SizeClass → ℕ → ℕ
size2size_idx sc size =
    if size == 0
    then 0
    else if ltb sc.chunk_size size
    then sc.n_sizes
    else if leb size sc.search_max_size
    then get_or sc.size2idx_tab ((size - 1) / 2 ^ log2_quantum) 0
    else size2size_idx_compute size

unfoldable pub size_idx2size : SizeClass → ℕ → ℕ
size_idx2size sc i = get_or sc.size_idx2size_tab i 0

unfoldable pub size_idx2size_compute : ℕ → ℕ
size_idx2size_compute i =
    let group = i / 2 ^ log2_size_class_group in
    let mod' = bit_and i (shl 1 log2_size_class_group - 1) in
    let group_size =
      if group == 0 then 0 else shl (shl 1 (log2_quantum + log2_size_class_group - 1)) group in
    let shift = if group == 0 then 1 else group in
    group_size + shl (mod' + 1) (shift + log2_quantum - 1)

unfoldable pub page_idx2size : SizeClass → ℕ → ℕ
page_idx2size sc i = get_or sc.page_idx2size_tab i 0

unfoldable pub page_idx2size_compute : SizeClass → ℕ → ℕ
page_idx2size_compute sc i =
    let group = i / 2 ^ log2_size_class_group in
    let mod' = bit_and i (shl 1 log2_size_class_group - 1) in
    let group_size =
      if group == 0 then 0 else 2 ^ (sc.page_shifts + log2_size_class_group - 1) * 2 ^ group in
    let shift = if group == 0 then 1 else group in
    group_size + shl (mod' + 1) (shift + sc.page_shifts - 1)

unfoldable pub pages2page_idx_compute : SizeClass → ℕ → Bool → ℕ
pages2page_idx_compute sc pages floor =
    let page_size = shl pages sc.page_shifts in
    let x = log2_up page_size in
    let shift =
      if ltb x (log2_size_class_group + sc.page_shifts)
      then 0
      else x - (log2_size_class_group + sc.page_shifts) in
    let log2_delta =
      if ltb x (log2_size_class_group + sc.page_shifts + 1)
      then sc.page_shifts
      else x - log2_size_class_group - 1 in
    let page_idx = shl shift log2_size_class_group + slot page_size log2_delta in
    if ltb sc.chunk_size page_size
    then sc.n_p_sizes
    else if floor && ltb page_size (get_or sc.page_idx2size_tab page_idx 0)
    then page_idx - 1
    else page_idx

unfoldable pub page2page_idx : SizeClass → ℕ → ℕ
unfolding pages2page_idx_compute
page2page_idx sc pages = pages2page_idx_compute sc pages false

unfoldable pub page2page_idx_floor : SizeClass → ℕ → ℕ
unfolding pages2page_idx_compute
page2page_idx_floor sc pages = pages2page_idx_compute sc pages true

-- `size + delta_mask & ~delta_mask`
unfoldable pub normalize_size_compute : ℕ → ℕ
normalize_size_compute size =
    let x = log2_up size in
    let log2_delta =
      if ltb x (log2_size_class_group + log2_quantum + 1)
      then log2_quantum
      else x - log2_size_class_group - 1 in
    let delta_mask = shl 1 log2_delta - 1 in
    bit_and ((size + delta_mask) % 2 ^ 32) (2 ^ 32 - 1 - delta_mask)

-- `none`: the assertion in `normalizeSize` fails.
unfoldable pub normalize_size : SizeClass → ℕ → Option ℕ
normalize_size sc size =
    if size == 0
    then some (get_or sc.size_idx2size_tab 0 0)
    else if leb size sc.search_max_size
    then (let ret =
          get_or sc.size_idx2size_tab (get_or sc.size2idx_tab ((size - 1) / 2 ^ log2_quantum) 0)
            0 in
        if ret == normalize_size_compute size then some ret else none)
    else some (normalize_size_compute size)
