-- ===== src/Pool/ThreadCache/Tests.antt =====
-- The theorems on the cache of a thread at concrete inputs.
use duo_duo.Base.{ℕ, ◌+◌, ◌*◌, ◌≡◌, refl, List, [], ◌∷◌, ◌++◌, none, take, drop, replicate}
use duo_duo.Pool.SizeClass.{pooled}
use duo_duo.Pool.ThreadCache.{small, Entry, RegionCache, ThreadCache}
use duo_duo.Pool.ThreadCache.Fifo.{
  Call, added, allocated, trimmed, calls, came, calls-fifo, trims-drain,
}
use duo_duo.Pool.ThreadCache.Weighs
use duo_duo.Pool.ThreadCache.Weighs.{
  Request, returned, weigh, held, serve_all, given, serve_all-weigh,
}

-- An element of 16 bytes: `is_used` and `is_subpage`, and its index.
abbrev element : ℕ → Entry
element i = record { chunk = 0; buffer = none; handle = 12884901888 + i; norm_capacity = 16 }

-- A cache of the size 2 that holds three elements.
abbrev three : RegionCache
three = record {
  size = 2;
  size_class_type = small;
  allocations = 0;
  queue = element 0 ∷ element 1 ∷ element 2 ∷ [];
}

abbrev some_calls : List Call
some_calls = allocated ∷ added (element 3) ∷ trimmed ∷ allocated ∷ []

calls-fifo_example :
    (calls some_calls three).0 ++ ((calls some_calls three).1).queue
    ≡ three.queue ++ came some_calls
calls-fifo_example = calls-fifo some_calls three

trims-drain_example :
    ((calls (replicate 2 trimmed) three).0 ≡ take (2 * three.size) three.queue)
    × (((calls (replicate 2 trimmed) three).1).queue ≡ drop (2 * three.size) three.queue)
trims-drain_example = trims-drain 2 three refl

-- A cache of a thread for the smallest size, swept at every second request.
abbrev thread : ThreadCache
thread = record {
  small_caches = three ∷ [];
  normal_caches = [];
  allocations = 0;
  free_sweep_allocation_threshold = 2;
}

abbrev requests : List Request
requests =
    Weighs.allocated small 0
    ∷ returned (element 3)
    ∷ returned (element 0)
    ∷ Weighs.allocated small 0
    ∷ Weighs.trimmed
    ∷ []

serve_all-weigh_example :
    weigh (λ e. e.handle) (serve_all pooled requests thread).0
      + held (λ e. e.handle) (serve_all pooled requests thread).1
    ≡ held (λ e. e.handle) thread + weigh (λ e. e.handle) (given pooled requests)
serve_all-weigh_example = serve_all-weigh pooled (λ e. e.handle) requests thread
