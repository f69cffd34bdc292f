-- ===== src/Pool/ThreadCache/Weighs.antt =====
-- PoolThreadCache: what is given to the cache of a thread is not lost and not handed out twice.
use duo_duo.Base.{
  ℕ, zero, suc, ◌+◌, ◌-◌, ◌≡◌, refl, sym, ap, ◌∙◌, Bool, true, false, List, [], ◌∷◌, ◌++◌, Option,
  none, some, arith, get_elem?, set, leb, if◌then◌else◌,
}
use mathlib.Core.Option.{some-injective}
use duo_duo.Pool.SizeClass.{SizeClass, size2size_idx}
use duo_duo.Pool.ThreadCache.{
  SizeClassType, small, normal, Entry, RegionCache, add_entry, take_entry, free_loop, trim_region,
  trim_caches, ThreadCache, trim, caches_of, store, sweep, Outcome, allocate_from, add_to,
  place_for, allocate, arena_free, get_size_class_type,
}
use duo_duo.Pool.ThreadCache.Fifo.{free_loop-append}

unfoldable pub weigh : (Entry → ℕ) → List Entry → ℕ
weigh w [] = 0
weigh w (e ∷ es) = w e + weigh w es

unfoldable pub weigh_caches : (Entry → ℕ) → List RegionCache → ℕ
weigh_caches w [] = 0
weigh_caches w (c ∷ cs) = weigh w c.queue + weigh_caches w cs

abbrev pub held : (Entry → ℕ) → ThreadCache → ℕ
held w tc = weigh_caches w tc.small_caches + weigh_caches w tc.normal_caches

pub data Request : Type 0 where
  returned : Entry → Request
  allocated : SizeClassType → ℕ → Request
  trimmed : Request

abbrev optional : Option Entry → List Entry
optional none = []
optional (some e) = e ∷ []

module _ (w : Entry → ℕ) where
  weigh-append : (es fs : List Entry) → weigh w (es ++ fs) ≡ weigh w es + weigh w fs
  unfolding weigh
  weigh-append [] fs = omega arith
  weigh-append (e ∷ es) fs = omega (arith, weigh-append es fs)

  weigh_caches-set :
      (cs : List RegionCache) (i : ℕ) (c d : RegionCache)
      → get_elem? cs i ≡ some c
      → weigh_caches w (set cs i d) + weigh w c.queue ≡ weigh_caches w cs + weigh w d.queue
  unfolding weigh_caches
  weigh_caches-set [] i c d e = absurd (cc)
  weigh_caches-set (x ∷ cs) zero c d e =
      omega (arith, ap (λ q. weigh w q.queue) (some-injective _ _ e))
  weigh_caches-set (x ∷ cs) (suc i) c d e = omega (arith, weigh_caches-set cs i c d e)

  held-store :
      (t : SizeClassType) (i : ℕ) (c d : RegionCache) (tc : ThreadCache)
      → get_elem? (caches_of t tc) i ≡ some c
      → held w (store t i d tc) + weigh w c.queue ≡ held w tc + weigh w d.queue
  held-store small i c d tc e = omega (arith, weigh_caches-set tc.small_caches i c d e)
  held-store normal i c d tc e = omega (arith, weigh_caches-set tc.normal_caches i c d e)

  trim_caches-weigh :
      (cs : List RegionCache)
      → weigh w (trim_caches cs).0 + weigh_caches w (trim_caches cs).1 ≡ weigh_caches w cs
  unfolding weigh_caches trim_caches trim_region weigh
  trim_caches-weigh [] = omega arith
  trim_caches-weigh (c ∷ cs) =
      let t = free_loop (c.size - c.allocations) c.queue in
      let one : weigh w t.0 + weigh w t.1 ≡ weigh w c.queue =
        sym (weigh-append t.0 t.1)
        ∙ ap (λ q. weigh w q) (free_loop-append (c.size - c.allocations) c.queue) in
      omega (arith, one, trim_caches-weigh cs, weigh-append t.0 (trim_caches cs).0)

  trim-weigh : (tc : ThreadCache) → weigh w (trim tc).0 + held w (trim tc).1 ≡ held w tc
  unfolding trim
  trim-weigh tc = omega (
    arith,
    trim_caches-weigh tc.small_caches,
    trim_caches-weigh tc.normal_caches,
    weigh-append (trim_caches tc.small_caches).0 (trim_caches tc.normal_caches).0,
  )

  sweep-weigh : (tc : ThreadCache) → weigh w (sweep tc).0 + held w (sweep tc).1 ≡ held w tc
  unfolding sweep weigh
  sweep-weigh tc =
      elim (leb tc.free_sweep_allocation_threshold (tc.allocations + 1))
        as (λ b.
          let t : List Entry × ThreadCache =
            (if b
              then trim (record tc { allocations = 0 })
              else ([], record tc { allocations = tc.allocations + 1 })) in
          weigh w t.0 + held w t.1 ≡ held w tc) [
            | true ↦ trim-weigh (record tc { allocations = 0 })
            | false ↦ omega arith
          ]

  take_entry-weigh :
      (es : List Entry) (c : RegionCache)
      → c.queue ≡ es
      → weigh w (optional (take_entry c).0) + weigh w ((take_entry c).1).queue ≡ weigh w es
  unfolding weigh
  take_entry-weigh [] c e = rw e (omega arith)
  take_entry-weigh (x ∷ es) c e = rw e (omega arith)

  -- What a request takes and gives to the arena, and what is held after it, is what was held.
  abbrev Fair : ThreadCache → Outcome → Type 0
  Fair tc o = weigh w (optional o.taken ++ o.freed) + held w o.after ≡ held w tc

  allocate_from-Fair :
      (t : SizeClassType) (place : Option ℕ) (tc : ThreadCache) → Fair tc (allocate_from t place tc)
  unfolding allocate_from weigh
  allocate_from-Fair t none tc = omega arith
  allocate_from-Fair t (some i) tc = found (get_elem? (caches_of t tc) i) refl
    where
      found :
          (o : Option RegionCache)
          → get_elem? (caches_of t tc) i ≡ o
          → Fair tc (elim o as (λ _. Outcome) [
            | none ↦ record { taken = none; freed = []; after = tc }
            | some c ↦
                let (taken, d) = take_entry c in
                let (freed, after) = sweep (store t i d tc) in
                record { taken = taken; freed = freed; after = after }
          ])
      found none e = omega arith
      found (some c) e =
          let d = (take_entry c).1 in
          omega (
            arith,
            take_entry-weigh c.queue c refl,
            held-store t i c d tc e,
            sweep-weigh (store t i d tc),
            weigh-append (optional (take_entry c).0) (sweep (store t i d tc)).0,
          )

  add_to-weigh :
      (t : SizeClassType) (place : Option ℕ) (x : Entry) (tc : ThreadCache)
      → let (kept, after) = add_to t place x tc in
        weigh w (if kept then [] else x ∷ []) + held w after ≡ w x + held w tc
  unfolding add_to weigh
  add_to-weigh t none x tc = omega arith
  add_to-weigh t (some i) x tc = found (get_elem? (caches_of t tc) i) refl
    where
      found :
          (o : Option RegionCache)
          → get_elem? (caches_of t tc) i ≡ o
          → let r : Bool × ThreadCache = elim o as (λ _. Bool × ThreadCache) [
            | none ↦ (false, tc)
            | some c ↦ (true, store t i (add_entry x c) tc)
          ] in
            weigh w (if r.0 then [] else x ∷ []) + held w r.1 ≡ w x + held w tc
      found none e = omega arith
      found (some c) e =
          omega (arith, held-store t i c (add_entry x c) tc e, weigh-append c.queue (x ∷ []))

module _ (sc : SizeClass) where
  -- What goes out to a buffer or to the arena, and the cache after the request.
  abbrev pub serve : Request → ThreadCache → List Entry × ThreadCache
  serve (returned e) tc = arena_free sc e tc
  serve (allocated t size_idx) tc =
      let o = allocate sc t size_idx tc in (optional o.taken ++ o.freed, o.after)
  serve trimmed tc = trim tc

  unfoldable pub serve_all : List Request → ThreadCache → List Entry × ThreadCache
  serve_all [] tc = ([], tc)
  serve_all (r ∷ rs) tc =
      let (out, t) = serve r tc in let (more, u) = serve_all rs t in (out ++ more, u)

  abbrev pub given : List Request → List Entry
  given [] = []
  given (returned e ∷ rs) = e ∷ given rs
  given (allocated t i ∷ rs) = given rs
  given (trimmed ∷ rs) = given rs

  serve-weigh :
      (w : Entry → ℕ) (r : Request) (tc : ThreadCache)
      → weigh w (serve r tc).0 + held w (serve r tc).1 ≡ held w tc + weigh w (given (r ∷ []))
  unfolding weigh
  serve-weigh w (returned e) tc =
      let t = get_size_class_type e.handle in
      omega (arith, add_to-weigh w t (place_for sc t (size2size_idx sc e.norm_capacity)) e tc)
  serve-weigh w (allocated t i) tc = omega (arith, allocate_from-Fair w t (place_for sc t i) tc)
  serve-weigh w trimmed tc = omega (arith, trim-weigh w tc)

  -- For any sequence of requests to the cache of a thread: however runs and elements are weighed,
  -- those that went to buffers or to the arena weigh, with those that it still holds, as much as
  -- those that it held at first with those that were given back to it. So each goes out as often as
  -- it came in or stays: none is lost, and none is handed out twice.
  pub serve_all-weigh :
      (w : Entry → ℕ) (rs : List Request) (tc : ThreadCache)
      → weigh w (serve_all rs tc).0 + held w (serve_all rs tc).1 ≡ held w tc + weigh w (given rs)
  unfolding serve_all weigh
  serve_all-weigh w [] tc = omega arith
  serve_all-weigh w (r ∷ rs) tc =
      let (out, t) = serve r tc in
      omega (
        arith,
        serve-weigh w r tc,
        serve_all-weigh w rs t,
        weigh-append w out (serve_all rs t).0,
        came r,
      )
    where
      came :
          (r : Request) → weigh w (given (r ∷ rs)) ≡ weigh w (given (r ∷ [])) + weigh w (given rs)
      came (returned e) = omega arith
      came (allocated t i) = omega arith
      came trimmed = omega arith
