-- ===== src/Pool/ThreadCache.antt =====
-- buffer/PoolThreadCache.h and buffer/PoolThreadCache.cpp: the runs and elements that a thread has
-- given back and keeps for its next requests. A chunk is a number, as in the lists of chunks. What
-- a trim gives to the arena is part of the result, the oldest first. Sizes are below 2^31. The
-- recycler of the entries hands out blank objects. `none` outside an inner result is an exception.
pub mod Fifo
pub mod Weighs
mod Tests
use duo_duo.Base.{
  ℕ, zero, suc, ◌+◌, ◌-◌, ◌<◌, Bool, true, false, ◌&&◌, ◌||◌, List, [], ◌∷◌, ◌++◌, Option, none,
  some, get_elem?, set, replicate, min, ltb, leb, ◌==◌, if◌then◌else◌,
}
use duo_duo.Pool.MathUtils.{next_power_of_two}
use duo_duo.Pool.Handle.{is_subpage}
use duo_duo.Pool.SizeClass.{SizeClass, size2size_idx, size_idx2size}

pub data SizeClassType : Type 0 where
  small : SizeClassType
  normal : SizeClassType

pub record Entry : Type 0 where
  pub chunk : ℕ
  pub buffer : Option ℕ
  pub handle : ℕ
  pub norm_capacity : ℕ

-- `MemoryRegionCache`
pub record RegionCache : Type 0 where
  pub size : ℕ
  pub size_class_type : SizeClassType
  pub allocations : ℕ
  pub queue : List Entry

unfoldable pub new_region_cache : ℕ → SizeClassType → RegionCache
new_region_cache size t = record {
  size = next_power_of_two size;
  size_class_type = t;
  allocations = 0;
  queue = [];
}

abbrev pub add_entry : Entry → RegionCache → RegionCache
add_entry e c = record c { queue = c.queue ++ e ∷ [] }

-- `MemoryRegionCache::allocate`: the entry for which it calls `initBuf`.
abbrev pub take_entry : RegionCache → Option Entry × RegionCache
take_entry c = elim c.queue [
  | [] ↦ (none, c)
  | e ∷ es ↦ (some e, record c { allocations = c.allocations + 1; queue = es })
]

-- The loop of `MemoryRegionCache::free(freeNum)`: what it frees and what stays.
unfoldable pub free_loop : ℕ → List Entry → List Entry × List Entry
free_loop zero es = ([], es)
free_loop (suc n) [] = ([], [])
free_loop (suc n) (e ∷ es) = let (freed, rest) = free_loop n es in (e ∷ freed, rest)

unfoldable pub trim_region : RegionCache → List Entry × RegionCache
trim_region c =
    let (freed, rest) = free_loop (c.size - c.allocations) c.queue in
    (freed, record c { allocations = 0; queue = rest })

-- `PoolThreadCache::trim` of a vector of caches.
unfoldable pub trim_caches : List RegionCache → List Entry × List RegionCache
trim_caches [] = ([], [])
trim_caches (c ∷ cs) =
    let (freed, d) = trim_region c in let (more, ds) = trim_caches cs in (freed ++ more, d ∷ ds)

pub record ThreadCache : Type 0 where
  pub small_caches : List RegionCache
  pub normal_caches : List RegionCache
  pub allocations : ℕ
  pub free_sweep_allocation_threshold : ℕ

unfoldable pub trim : ThreadCache → List Entry × ThreadCache
trim tc =
    let (freed, ss) = trim_caches tc.small_caches in
    let (more, ns) = trim_caches tc.normal_caches in
    (freed ++ more, record tc { small_caches = ss; normal_caches = ns })

abbrev pub caches_of : SizeClassType → ThreadCache → List RegionCache
caches_of small tc = tc.small_caches
caches_of normal tc = tc.normal_caches

-- A write through the pointer that `cacheForSmall` or `cacheForNormal` gives.
abbrev pub store : SizeClassType → ℕ → RegionCache → ThreadCache → ThreadCache
store small i c tc = record tc { small_caches = set tc.small_caches i c }
store normal i c tc = record tc { normal_caches = set tc.normal_caches i c }

-- The part of `allocate` after the entry is taken: `++ m_allocations`, and the trim.
unfoldable pub sweep : ThreadCache → List Entry × ThreadCache
sweep tc =
    if leb tc.free_sweep_allocation_threshold (tc.allocations + 1)
    then trim (record tc { allocations = 0 })
    else ([], record tc { allocations = tc.allocations + 1 })

-- What `allocate` took for the buffer, what it gave to the arena, and the cache after it.
pub record Outcome : Type 0 where
  pub taken : Option Entry
  pub freed : List Entry
  pub after : ThreadCache

-- `allocate` of the cache at a place of the vector; there may be none.
unfoldable pub allocate_from : SizeClassType → Option ℕ → ThreadCache → Outcome
allocate_from t none tc = record { taken = none; freed = []; after = tc }
allocate_from t (some i) tc = elim (get_elem? (caches_of t tc) i) [
  | none ↦ record { taken = none; freed = []; after = tc }
  | some c ↦
      let (taken, d) = take_entry c in
      let (freed, after) = sweep (store t i d tc) in
      record { taken = taken; freed = freed; after = after }
]

-- `MemoryRegionCache::add` of the cache at a place; the Boolean is the result of the code's `add`.
unfoldable pub add_to : SizeClassType → Option ℕ → Entry → ThreadCache → Bool × ThreadCache
add_to t none e tc = (false, tc)
add_to t (some i) e tc = elim (get_elem? (caches_of t tc) i) [
  | none ↦ (false, tc)
  | some c ↦ (true, store t i (add_entry e c) tc)
]

abbrev pub get_size_class_type : ℕ → SizeClassType
get_size_class_type handle = if is_subpage handle then small else normal

module _ (sc : SizeClass) where
  -- The index of `cacheForSmall` and of `cacheForNormal`; a negative one is none, since it is
  -- compared with a size as an unsigned number.
  abbrev pub place_for : SizeClassType → ℕ → Option ℕ
  place_for small size_idx = some size_idx
  place_for normal size_idx =
      if ltb size_idx sc.n_subpages then none else some (size_idx - sc.n_subpages)

  -- `allocateSmall` and `allocateNormal`
  abbrev pub allocate : SizeClassType → ℕ → ThreadCache → Outcome
  allocate t size_idx tc = allocate_from t (place_for t size_idx) tc

  abbrev pub add : SizeClassType → Entry → ThreadCache → Bool × ThreadCache
  add t e tc = add_to t (place_for t (size2size_idx sc e.norm_capacity)) e tc

  -- `PoolArena::free` of a pooled chunk: what goes to `freeChunk`, since no cache takes it.
  abbrev pub arena_free : Entry → ThreadCache → List Entry × ThreadCache
  arena_free e tc =
      let (kept, after) = add (get_size_class_type e.handle) e tc in
      (if kept then [] else e ∷ [], after)

  abbrev pub create_subpage_caches : ℕ → ℕ → List RegionCache
  create_subpage_caches cache_size num_caches =
      if ltb 0 cache_size then replicate num_caches (new_region_cache cache_size small) else []

  -- The loop of `createNormalCaches` from an index on, with the rounds left.
  abbrev pub normal_caches_from : ℕ → ℕ → ℕ → ℕ → List RegionCache
  normal_caches_from zero i cache_size max_cache_size = []
  normal_caches_from (suc left) i cache_size max_cache_size =
      let more = normal_caches_from left (suc i) cache_size max_cache_size in
      if ltb i sc.n_sizes && leb (size_idx2size sc i) max_cache_size
      then new_region_cache cache_size normal ∷ more
      else []

  abbrev pub create_normal_caches : ℕ → ℕ → List RegionCache
  create_normal_caches cache_size max_cache_capacity =
      if ltb 0 cache_size && ltb 0 max_cache_capacity
      then normal_caches_from (sc.n_sizes - sc.n_subpages) sc.n_subpages cache_size
          (min sc.chunk_size max_cache_capacity)
      else []

  abbrev pub has_caches : List RegionCache → Bool
  has_caches [] = false
  has_caches (c ∷ cs) = true

  -- The constructor, for a thread that has an arena.
  unfoldable pub new_thread_cache : ℕ → ℕ → ℕ → ℕ → Option ThreadCache
  new_thread_cache small_cache_size normal_cache_size max_cache_capacity threshold =
      let ss = create_subpage_caches small_cache_size sc.n_subpages in
      let ns = create_normal_caches normal_cache_size max_cache_capacity in
      if (has_caches ss || has_caches ns) && ltb threshold 1
      then none
      else some (record {
        small_caches = ss;
        normal_caches = ns;
        allocations = 0;
        free_sweep_allocation_threshold = threshold;
      })
