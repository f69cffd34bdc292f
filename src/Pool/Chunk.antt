-- ===== src/Pool/Chunk.antt =====
-- buffer/PoolChunk.h and buffer/PoolChunk.cpp: a chunk of pages that hands out runs of pages and
-- subpages of elements. The queues of available runs are a function of the page class, the two
-- maps functions of a page. `none` outside an inner result is a failed assertion, or a loop out of
-- rounds; a handle of -1 is an inner `none`. The lock of a chunk makes each operation one step.
pub mod Layout
pub mod Laid
pub mod Split
pub mod Carve
pub mod TakeRun
pub mod AllocateRun
pub mod Collapse
pub mod FreeRun
pub mod New
pub mod GivesBack
pub mod Pooled
pub mod RunSize
pub mod GivesPlace
pub mod Tests
use duo_duo.Base.{
  ℕ, zero, suc, ◌+◌, ◌-◌, ◌*◌, ◌/◌, ◌^◌, Bool, true, false, not, ◌&&◌, ◌||◌, List, [], ◌∷◌, Option,
  none, some, length, ltb, leb, ◌==◌, if◌then◌else◌,
}
use duo_duo.Pool.BestFitQueue.{empty, push, top, remove, pop}
use duo_duo.Pool.Handle.{
  to_run_handle, calculate_run_offset, calculate_run_pages, calculate_run_size,
  calculate_bitmap_idx, is_used, is_run, is_subpage, clear_flags, mark_used,
}
use duo_duo.Pool.Subpage
use duo_duo.Pool.Subpage.{Subpage, Pool}

-- What a chunk asks of its arena: the lookups in the tables of sizes.
pub record ArenaSizes : Type 0 where
  pub n_p_sizes : ℕ
  pub small_max_size_idx : ℕ
  pub page2page_idx : ℕ → ℕ
  pub page2page_idx_floor : ℕ → ℕ
  pub size_idx2size : ℕ → ℕ
  pub size2size_idx : ℕ → ℕ

pub record Chunk : Type 0 where
  pub page_size : ℕ
  pub page_shifts : ℕ
  pub chunk_size : ℕ
  pub offset : ℕ
  pub free_bytes : ℕ
  pub runs_avail : ℕ → List ℕ
  pub runs_avail_map : ℕ → Option ℕ
  pub subpages : ℕ → Option Subpage
  pub cached_buffers : List ℕ

abbrev pub update {ℓ} : {A : Type ℓ} → (ℕ → A) → ℕ → A → ℕ → A
update f k v j = if j == k then v else f j

abbrev pub tail_page : ℕ → ℕ → ℕ
tail_page run_offset pages = run_offset + pages - 1

-- An insert into the map leaves an entry that is there.
abbrev pub insert_avail_run0 : ℕ → ℕ → Chunk → Chunk
insert_avail_run0 run_offset handle c = elim (c.runs_avail_map run_offset) [
  | some h ↦ c
  | none ↦ record c { runs_avail_map = update c.runs_avail_map run_offset (some handle) }
]

abbrev pub erase : ℕ → Chunk → Chunk
erase k c = record c { runs_avail_map = update c.runs_avail_map k none }

abbrev pub get_avail_run_by_offset : ℕ → Chunk → Option ℕ
get_avail_run_by_offset run_offset c = c.runs_avail_map run_offset

-- The entry at `runOffset - 1`; there is none at -1.
abbrev pub get_prev_run : ℕ → Chunk → Option ℕ
get_prev_run zero c = none
get_prev_run (suc o) c = get_avail_run_by_offset o c

-- The removal from the given queue and from the map.
unfoldable pub remove_from : ℕ → ℕ → Chunk → Chunk
remove_from i handle c =
    let o = calculate_run_offset handle in
    let pages = calculate_run_pages handle in
    let q = record c { runs_avail = update c.runs_avail i (remove handle (c.runs_avail i)) } in
    if ltb 1 pages then erase (tail_page o pages) (erase o q) else erase o q

-- The loop of `runBestFit`, with the rounds left.
abbrev pub first_filled : ℕ → ℕ → Chunk → Option ℕ
first_filled zero i c = none
first_filled (suc left) i c =
    let rest = first_filled left (suc i) c in if empty (c.runs_avail i) then rest else some i

-- The last part of `free`: the buffer pointer is kept for the next allocation.
abbrev pub cache_buffer : Option ℕ → Chunk → Chunk
cache_buffer none c = c
cache_buffer (some b) c =
    if ltb (length c.cached_buffers) 1023
    then record c { cached_buffers = b ∷ c.cached_buffers }
    else c

-- What `init` of a buffer is told.
pub record Place : Type 0 where
  pub handle : ℕ
  pub buffer : Option ℕ
  pub offset : ℕ
  pub length_ : ℕ
  pub max_length : ℕ

abbrev pub last_cached : Chunk → Option ℕ × Chunk
last_cached c = elim c.cached_buffers [
  | [] ↦ (none, c)
  | b ∷ bs ↦ (some b, record c { cached_buffers = bs })
]

-- An allocated subpage element: its subpage must be there and wide enough.
abbrev pub init_buf_with_subpage : Option ℕ → ℕ → ℕ → Chunk → Option Place
init_buf_with_subpage buffer handle req_capacity c =
    let o = calculate_run_offset handle in
    elim (c.subpages o) [
      | none ↦ none
      | some s ↦
          if s.dont_release && leb req_capacity s.elem_size
          then some (record {
            handle = handle;
            buffer = buffer;
            offset = o * 2 ^ c.page_shifts + calculate_bitmap_idx handle * s.elem_size + c.offset;
            length_ = req_capacity;
            max_length = s.elem_size;
          })
          else none
    ]

unfoldable pub init_buf : Option ℕ → ℕ → ℕ → Chunk → Option Place
init_buf buffer handle req_capacity c =
    if is_run handle
    then some (record {
      handle = handle;
      buffer = buffer;
      offset = calculate_run_offset handle * 2 ^ c.page_shifts;
      length_ = req_capacity;
      max_length = calculate_run_size c.page_shifts handle;
    })
    else init_buf_with_subpage buffer handle req_capacity c

unfoldable pub usage : Chunk → ℕ
usage c =
    if c.free_bytes == 0
    then 100
    else (let percentage = c.free_bytes * 100 / c.chunk_size in
        if percentage == 0 then 99 else 100 - percentage)

module _ (sizes : ArenaSizes) where
  unfoldable pub insert_avail_run : ℕ → ℕ → ℕ → Chunk → Chunk
  insert_avail_run run_offset pages handle c =
      let i = sizes.page2page_idx_floor pages in
      let q = record c { runs_avail = update c.runs_avail i (push handle (c.runs_avail i)) } in
      let first = insert_avail_run0 run_offset handle q in
      if ltb 1 pages then insert_avail_run0 (tail_page run_offset pages) handle first else first

  abbrev pub remove_avail_run : ℕ → Chunk → Chunk
  remove_avail_run handle c =
      remove_from (sizes.page2page_idx_floor (calculate_run_pages handle)) handle c

  -- The constructor of a chunk that is pooled.
  unfoldable pub new_chunk : ℕ → ℕ → ℕ → ℕ → Chunk
  new_chunk page_size page_shifts chunk_size offset =
      let pages = chunk_size / 2 ^ page_shifts in
      insert_avail_run 0 pages (pages * 2 ^ 34) (record {
        page_size = page_size;
        page_shifts = page_shifts;
        chunk_size = chunk_size;
        offset = offset;
        free_bytes = chunk_size;
        runs_avail = λ i. [];
        runs_avail_map = λ k. none;
        subpages = λ k. none;
        cached_buffers = [];
      })

  unfoldable pub run_best_fit : ℕ → Chunk → Option ℕ
  run_best_fit page_idx c =
      if c.free_bytes == c.chunk_size
      then some (sizes.n_p_sizes - 1)
      else first_filled (sizes.n_p_sizes - page_idx) page_idx c

  unfoldable pub split_large_run : ℕ → ℕ → Chunk → Option (ℕ × Chunk)
  split_large_run handle need_pages c =
      let total = calculate_run_pages handle in
      let remain = total - need_pages in
      let o = calculate_run_offset handle in
      if (need_pages == 0) || ltb total need_pages
      then none
      else if ltb 0 remain
      then some (
        to_run_handle o need_pages 1,
        insert_avail_run (o + need_pages) remain (to_run_handle (o + need_pages) remain 0) c,
      )
      else some (mark_used handle, c)

  -- What follows once a queue is found.
  unfoldable pub take_run : ℕ → ℕ → Chunk → Option (ℕ × Chunk)
  take_run pages i c = elim (top (c.runs_avail i)) [
    | none ↦ none
    | some handle ↦
        if is_used handle
        then none
        else (let popped = record c { runs_avail = update c.runs_avail i (pop (c.runs_avail i)) } in
            elim (split_large_run handle pages (remove_from i handle popped)) [
              | none ↦ none
              | some (h, d) ↦
                  some
                    (h, record d { free_bytes = d.free_bytes - calculate_run_size d.page_shifts h })
            ])
  ]

  unfoldable pub allocate_run : ℕ → Chunk → Option (Option ℕ × Chunk)
  allocate_run run_size c =
      let pages = run_size / 2 ^ c.page_shifts in
      elim (run_best_fit (sizes.page2page_idx pages) c) [
        | none ↦ some (none, c)
        | some i ↦ elim (take_run pages i c) [ none ↦ none | some (h, d) ↦ some (some h, d) ]
      ]

  -- The loops of `collapsePrev` and `collapseNext`, with the rounds left.
  unfoldable pub collapse_prev : ℕ → ℕ → Chunk → Option (ℕ × Chunk)
  collapse_prev zero handle c = none
  collapse_prev (suc left) handle c =
      let o = calculate_run_offset handle in
      let pages = calculate_run_pages handle in
      elim (get_prev_run o c) [
        | none ↦ some (handle, c)
        | some prev ↦
            let o' = calculate_run_offset prev in
            let pages' = calculate_run_pages prev in
            elim (not (prev == handle) && (pages' + o' == o)) [
              | true ↦
                  collapse_prev left (to_run_handle o' (pages' + pages) 0) (remove_avail_run prev c)
              | false ↦ some (handle, c)
            ]
      ]

  unfoldable pub collapse_next : ℕ → ℕ → Chunk → Option (ℕ × Chunk)
  collapse_next zero handle c = none
  collapse_next (suc left) handle c =
      let o = calculate_run_offset handle in
      let pages = calculate_run_pages handle in
      elim (get_avail_run_by_offset (o + pages) c) [
        | none ↦ some (handle, c)
        | some next ↦
            let o' = calculate_run_offset next in
            let pages' = calculate_run_pages next in
            elim (not (next == handle) && (pages + o == o')) [
              | true ↦
                  collapse_next left (to_run_handle o (pages' + pages) 0) (remove_avail_run next c)
              | false ↦ some (handle, c)
            ]
      ]

  -- Each round takes a run of the chunk, so a round more than there are pages is enough.
  unfoldable pub collapse_runs : ℕ → Chunk → Option (ℕ × Chunk)
  collapse_runs handle c =
      let rounds = suc (suc (c.chunk_size / 2 ^ c.page_shifts)) in
      elim (collapse_prev rounds handle c) [ none ↦ none | some (h, d) ↦ collapse_next rounds h d ]

  -- `free` from "free run" on.
  unfoldable pub free_run : ℕ → Option ℕ → Chunk → Option Chunk
  free_run handle buffer c = elim (collapse_runs handle c) [
    | none ↦ none
    | some (h, d) ↦
        let run = clear_flags h in
        let e = insert_avail_run (calculate_run_offset run) (calculate_run_pages run) run d in
        some (
          cache_buffer buffer (record e {
            free_bytes = e.free_bytes + calculate_run_pages handle * 2 ^ e.page_shifts;
          }))
  ]

  -- `heads` are the arena's lists of the subpages of each size.
  unfoldable pub free : ℕ → ℕ → Option ℕ → Chunk → (ℕ → Pool) → Option (Chunk × (ℕ → Pool))
  free handle norm_capacity buffer c heads =
      let i = sizes.size2size_idx norm_capacity in
      let o = calculate_run_offset handle in
      elim (is_subpage handle) [
        | false ↦ elim (free_run handle buffer c) [ none ↦ none | some d ↦ some (d, heads) ]
        | true ↦ elim (c.subpages o) [
          | none ↦ none
          | some s ↦ elim (s.dont_release) [
            | false ↦ none
            | true ↦ elim (Subpage.free s (heads i) (calculate_bitmap_idx handle)) [
              | none ↦ none
              | some (true, s', p) ↦
                  some (record c { subpages = update c.subpages o (some s') }, update heads i p)
              | some (false, s', p) ↦
                  if s'.dont_release
                  then none
                  else elim (free_run handle buffer
                      (record c { subpages = update c.subpages o none })) [
                        | none ↦ none
                        | some d ↦ some (d, update heads i p)
                      ]
            ]
          ]
        ]
      ]

  -- The first loop of `calculateRunSize`, after the first page, with the rounds left.
  unfoldable pub widen : ℕ → ℕ → ℕ → ℕ → ℕ → Option ℕ
  widen zero page_size elem_size max_elements run_size = none
  widen (suc left) page_size elem_size max_elements run_size =
      let n = run_size / elem_size in
      elim (ltb n max_elements && not (run_size == n * elem_size)) [
        | true ↦ widen left page_size elem_size max_elements (run_size + page_size)
        | false ↦ some run_size
      ]

  unfoldable pub narrow : ℕ → ℕ → ℕ → ℕ → ℕ → Option ℕ
  narrow zero page_size elem_size max_elements run_size = none
  narrow (suc left) page_size elem_size max_elements run_size =
      elim (ltb max_elements (run_size / elem_size)) [
        | true ↦ narrow left page_size elem_size max_elements (run_size - page_size)
        | false ↦ some run_size
      ]

  -- `calculateRunSize(sizeIdx)`; both loops have as many rounds as an element has bytes.
  unfoldable pub subpage_run_size : ℕ → Chunk → Option ℕ
  subpage_run_size size_idx c =
      let max_elements = 2 ^ (c.page_shifts - 4) in
      let elem_size = sizes.size_idx2size size_idx in
      elim (widen (suc elem_size) c.page_size elem_size max_elements c.page_size) [
        | none ↦ none
        | some wide ↦ elim (narrow (suc elem_size) c.page_size elem_size max_elements wide) [
          | none ↦ none
          | some run_size ↦
              if (run_size / elem_size == 0) || ltb c.chunk_size run_size || ltb run_size elem_size
              then none
              else some run_size
        ]
      ]

  -- A new subpage, known by the given number, in a run of its own; and its first element.
  unfoldable pub allocate_subpage :
      ℕ → ℕ → Chunk → (ℕ → Pool) → Option (Option ℕ × Chunk × (ℕ → Pool))
  allocate_subpage number size_idx c heads = elim (subpage_run_size size_idx c) [
    | none ↦ none
    | some run_size ↦ elim (allocate_run run_size c) [
      | none ↦ none
      | some (none, d) ↦ some (none, d, heads)
      | some (some run, d) ↦
          let o = calculate_run_offset run in
          elim (d.subpages o) [
            | some s ↦ none
            | none ↦
                elim (Subpage.init number (heads size_idx) d.page_shifts o
                  (calculate_run_size d.page_shifts run) (sizes.size_idx2size size_idx)) [
                    | none ↦ none
                    | some (s, p) ↦ elim (Subpage.allocate s p) [
                      | none ↦ none
                      | some (handle, s', p') ↦ some (
                        handle,
                        record d { subpages = update d.subpages o (some s') },
                        update heads size_idx p',
                      )
                    ]
                  ]
          ]
    ]
  ]

  -- `allocate`: small sizes by a new subpage, others by a run. No place is the result `false`.
  unfoldable pub allocate :
      ℕ → ℕ → ℕ → Chunk → (ℕ → Pool) → Option (Option Place × Chunk × (ℕ → Pool))
  allocate number req_capacity size_idx c heads =
      let got =
        if leb size_idx sizes.small_max_size_idx
        then allocate_subpage number size_idx c heads
        else elim (allocate_run (sizes.size_idx2size size_idx) c) [
          | none ↦ none
          | some (handle, d) ↦ some (handle, d, heads)
        ] in
      elim got [
        | none ↦ none
        | some (none, d, hs) ↦ some (none, d, hs)
        | some (some handle, d, hs) ↦
            if leb size_idx sizes.small_max_size_idx && not (is_subpage handle)
            then none
            else (let (buffer, e) = last_cached d in
                elim (init_buf buffer handle req_capacity e) [
                  | none ↦ none
                  | some place ↦ some (some place, e, hs)
                ])
      ]
