-- ===== src/Pool/SizeClass/Rows.antt =====
-- The constructor of `SizeClass`: the rows of the classes, then the three lookup tables.
use duo_duo.Base.{
  ℕ, zero, suc, ◌+◌, ◌-◌, ◌*◌, ◌%◌, ◌^◌, Bool, true, false, ◌&&◌, ◌||◌, List, [], ◌∷◌, ◌++◌, Option,
  none, some, bit_and, ltb, leb, ◌==◌, if◌then◌else◌, get_elem?, set, replicate,
}
use duo_duo.Pool.MathUtils.{log2, number_of_leading_zeros, narrow}

abbrev pub log2_size_class_group : ℕ
log2_size_class_group = 2

abbrev pub log2_max_search_size : ℕ
log2_max_search_size = 12

abbrev pub log2_quantum : ℕ
log2_quantum = 4

-- `a << k` on an `int`
abbrev pub shl : ℕ → ℕ → ℕ
shl a k = a * 2 ^ k % 2 ^ 32

-- One `unsigned short[7]` of `m_sizeClasses`; its yes and no are Booleans, and no search is 0.
pub record Row : Type 0 where
  pub index : ℕ
  pub log2_group : ℕ
  pub log2_delta : ℕ
  pub n_delta : ℕ
  pub is_multi_page_size : Bool
  pub is_subpage : Bool
  pub log2_delta_search : ℕ

pub record SizeClass : Type 0 where
  pub page_size : ℕ
  pub page_shifts : ℕ
  pub chunk_size : ℕ
  pub search_max_size : ℕ
  pub size_classes : List (Option Row)
  pub page_idx2size_tab : List ℕ
  pub size_idx2size_tab : List ℕ
  pub size2idx_tab : List ℕ
  pub n_sizes : ℕ
  pub n_subpages : ℕ
  pub n_p_sizes : ℕ
  pub small_max_size_idx : ℕ

row_size : Row → ℕ
row_size r = shl 1 r.log2_group + shl 1 r.log2_delta * r.n_delta

-- The row that `sizeClass(index, log2Group, log2Delta, nDelta)` writes.
size_class_row : SizeClass → ℕ → ℕ → ℕ → ℕ → Row
size_class_row sc index log2_group log2_delta n_delta =
    let size = shl 1 log2_group + shl 1 log2_delta * n_delta in
    let multi_page =
      leb sc.page_shifts log2_delta || (bit_and size (shl 1 sc.page_shifts - 1) == 0) in
    let log2_n_delta = if n_delta == 0 then 0 else log2 n_delta in
    let log2_size =
      if log2_n_delta + log2_delta == log2_group then log2_group + 1 else log2_group in
    let mark = ltb (shl 1 log2_n_delta) n_delta || (log2_size == log2_group) in
    let subpage = ltb log2_size (sc.page_shifts + log2_size_class_group) in
    let searched =
      ltb log2_size log2_max_search_size
      || ((log2_size == log2_max_search_size) && (if mark then false else true)) in
    record {
      index = index;
      log2_group = log2_group;
      log2_delta = log2_delta;
      n_delta = n_delta;
      is_multi_page_size = multi_page;
      is_subpage = subpage;
      log2_delta_search = if searched then log2_delta else 0;
    }

-- `sizeClass`: the row is stored, the counters follow its flags, and its size is returned.
size_class : SizeClass → ℕ → ℕ → ℕ → ℕ → SizeClass × ℕ
unfolding size_class_row row_size
size_class sc index log2_group log2_delta n_delta =
    let r = size_class_row sc index log2_group log2_delta n_delta in
    let size = row_size r in
    (
      record sc {
        size_classes = set sc.size_classes index (some r);
        n_p_sizes = if r.is_multi_page_size then sc.n_p_sizes + 1 else sc.n_p_sizes;
        n_subpages = if r.is_subpage then sc.n_subpages + 1 else sc.n_subpages;
        small_max_size_idx = if r.is_subpage then index else sc.small_max_size_idx;
        search_max_size = if r.log2_delta_search == 0 then sc.search_max_size else size;
      },
      size,
    )

-- What `sizeClasses` carries through its loops: the object, `index` and `size`.
abbrev Filling : Type 0
Filling = SizeClass × ℕ × ℕ

-- `while (nDelta < ndeltaLimit)`, with the rounds left
first_group : ℕ → ℕ → Filling → Filling
first_group zero n_delta f = f
first_group (suc left) n_delta (sc, index, size) =
    let (sc', size') = size_class sc index log2_quantum log2_quantum n_delta in
    first_group left (n_delta + 1) (sc', index + 1, size')

-- `while (nDelta <= ndeltaLimit && size < m_chunkSize)`
one_group : ℕ → ℕ → ℕ → ℕ → Filling → Filling
one_group zero log2_group log2_delta n_delta f = f
one_group (suc left) log2_group log2_delta n_delta (sc, index, size) =
    let rest =
      (let (sc', size') = size_class sc index log2_group log2_delta n_delta in
        one_group left log2_group log2_delta (n_delta + 1) (sc', index + 1, size')) in
    if ltb size sc.chunk_size then rest else (sc, index, size)

-- `while (size < m_chunkSize)`; `none` when the fuel runs out.
all_groups : ℕ → ℕ → ℕ → Filling → Option Filling
unfolding one_group
all_groups zero log2_group log2_delta f = none
all_groups (suc fuel) log2_group log2_delta (sc, index, size) =
    let rest =
      all_groups fuel (log2_group + 1) (log2_delta + 1)
        (one_group 4 log2_group log2_delta 1 (sc, index, size)) in
    if ltb size sc.chunk_size then rest else some (sc, index, size)

row_at : SizeClass → ℕ → Option Row
row_at sc i = elim (get_elem? sc.size_classes i) [ none ↦ none | some r ↦ r ]

-- `idx2SizeTab`: the sizes of all classes, and of those that are whole pages.
idx2size_tab : ℕ → ℕ → SizeClass → SizeClass
unfolding row_at row_size
idx2size_tab zero i sc = sc
idx2size_tab (suc left) i sc = idx2size_tab left (i + 1) (elim (row_at sc i) [
  | none ↦ sc
  | some r ↦ record sc {
    size_idx2size_tab = sc.size_idx2size_tab ++ (row_size r ∷ []);
    page_idx2size_tab =
        if r.is_multi_page_size
        then sc.page_idx2size_tab ++ (row_size r ∷ [])
        else sc.page_idx2size_tab;
  }
])

-- `while (size <= m_searchMaxSize && times--)`: the table, `idx` and `size` after it.
fill_class : ℕ → ℕ → ℕ → List ℕ × ℕ × ℕ → List ℕ × ℕ × ℕ
fill_class limit i zero (tab, idx, size) = (tab, idx, size)
fill_class limit i (suc times) (tab, idx, size) =
    let rest =
      fill_class limit i times (tab ++ (i ∷ []), idx + 1, shl (idx + 1 + 1) log2_quantum) in
    if leb size limit then rest else (tab, idx, size)

-- `for (int i = 0; size <= m_searchMaxSize; i++)`; `none` when the fuel runs out.
size2idx_tab : ℕ → SizeClass → ℕ → List ℕ × ℕ × ℕ → Option (List ℕ)
unfolding fill_class row_at
size2idx_tab zero sc i s = none
size2idx_tab (suc fuel) sc i (tab, idx, size) =
    let rest : Option (List ℕ) = elim (row_at sc i) [
      | none ↦ none
      | some r ↦
          size2idx_tab fuel sc (i + 1)
            (fill_class sc.search_max_size i (shl 1 (r.log2_delta - log2_quantum)) (tab, idx, size))
    ] in
    if leb size sc.search_max_size then rest else some tab

blank : ℕ → ℕ → ℕ → SizeClass
blank page_size page_shifts chunk_size = record {
  page_size = page_size;
  page_shifts = page_shifts;
  chunk_size = chunk_size;
  search_max_size = 0;
  size_classes = replicate ((log2 chunk_size + 1 - log2_quantum) * 4) none;
  page_idx2size_tab = [];
  size_idx2size_tab = [];
  size2idx_tab = [];
  n_sizes = 0;
  n_subpages = 0;
  n_p_sizes = 0;
  small_max_size_idx = 0;
}

-- The constructor. `none`: the assertion on `normalMaxSize`, the last size of the second loop, fails (or a loop needs more rounds
-- than an `int` has bits).
unfoldable pub init : ℕ → ℕ → ℕ → Option SizeClass
unfolding first_group all_groups size_class idx2size_tab size2idx_tab blank log2
    number_of_leading_zeros narrow
init page_size page_shifts chunk_size =
    elim (all_groups 32 (log2_quantum + log2_size_class_group) log2_quantum
      (first_group 4 0 (blank page_size page_shifts chunk_size, 0, 0))) [
        | none ↦ none
        | some (sc, index, size) ↦
            let sized = idx2size_tab index 0 (record sc { n_sizes = index }) in
            if ltb 4 index && (size == chunk_size)
            then elim (size2idx_tab 128 sized 0 ([], 0, 0)) [
              | none ↦ none
              | some tab ↦ some (record sized { size2idx_tab = tab })
            ]
            else none
      ]

-- The object that the allocator makes: pages of 8 KiB, chunks of 16 MiB.
abbrev pub page_size : ℕ
page_size = 8192

abbrev pub page_shifts : ℕ
page_shifts = 13

abbrev pub chunk_size : ℕ
chunk_size = 8192 * 2 ^ 11

or_blank : Option SizeClass → SizeClass
or_blank none = blank 0 0 0
or_blank (some sc) = sc

unfoldable pub pooled : SizeClass
unfolding or_blank init
pooled = or_blank (init page_size page_shifts chunk_size)
