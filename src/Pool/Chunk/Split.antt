-- ===== src/Pool/Chunk/Split.antt =====
-- A used run as two, and two as one: the map and the queues hold neither.
use duo_duo.Base.{
  ℕ, ◌+◌, ◌<◌, ◌≡◌, ◌∙◌, sym, subst, false, [], ◌∷◌, ◌++◌, append_assoc, none, ltb, if◌then◌else◌,
  arith, ◌-◌, ◌≤◌, ◌*◌, ◌^◌,
}
use duo_duo.Pool.Handle.{to_run_handle}
use duo_duo.Pool.Handle.Fields.{to_run_handle-fields, to_run_handle-sum}
use duo_duo.Pool.Chunk.{ArenaSizes, Chunk, insert_avail_run, remove_avail_run}
use duo_duo.Pool.Chunk.Layout.{
  Run, used, free, Layout, pages, free_pages, Names, IsTiled, IsMerged, edge, edge-middle, filed,
  filed-append, IsTiled-split, IsTiled-append, size, pages-append,
}
use duo_duo.Pool.Chunk.Laid.{IsLaid, insert-IsLaid, remove-IsLaid}

module _ (L : Layout) (a b : ℕ) (M : Layout) where
  edge-split : (k : ℕ) → edge 0 (L ++ used (a + b) ∷ M) k ≡ edge 0 (L ++ used a ∷ used b ∷ M) k
  unfolding edge
  edge-split k =
      let e : pages L + (a + b) ≡ pages L + a + b = omega arith in
      let one : edge 0 (L ++ used (a + b) ∷ M) k ≡ (
          if ltb k (pages L)
          then edge 0 L k
          else (if ltb k (pages L + a + b) then none else edge (pages L + a + b) M k)) =
        rw⁻¹ e (edge-middle L (used (a + b)) M k) in
      ground (arith, one, edge-middle L (used a) (used b ∷ M) k)

  split-IsTiled :
      IsTiled 0 (L ++ used (a + b) ∷ M) → 0 < a → 0 < b → IsTiled 0 (L ++ used a ∷ used b ∷ M)
  unfolding IsTiled
  split-IsTiled t pa pb =
      let (u, (_, v)) = IsTiled-split 0 L (used (a + b) ∷ M) t in
      IsTiled-append 0 L (used a ∷ used b ∷ M) u
        (pa, (pb, subst (λ k. IsTiled k M) (omega arith) v))

  join-IsTiled : IsTiled 0 (L ++ used a ∷ used b ∷ M) → IsTiled 0 (L ++ used (a + b) ∷ M)
  unfolding IsTiled
  join-IsTiled t =
      let (u, (pa, (pb, v))) = IsTiled-split 0 L (used a ∷ used b ∷ M) t in
      IsTiled-append 0 L (used (a + b) ∷ M) u
        (omega (arith, pa), subst (λ k. IsTiled k M) (omega arith) v)

  filed-split :
      (f : ℕ → ℕ) (i h : ℕ)
      → filed f (L ++ used (a + b) ∷ M) i h ≡ filed f (L ++ used a ∷ used b ∷ M) i h
  unfolding filed
  filed-split f i h =
      omega
        (arith, filed-append f L (used (a + b) ∷ M) i h, filed-append f L (used a ∷ used b ∷ M) i h)

  pub split-IsLaid :
      (sizes : ArenaSizes) (c : Chunk)
      → IsLaid sizes (L ++ used (a + b) ∷ M) c
      → 0 < a
      → 0 < b
      → IsLaid sizes (L ++ used a ∷ used b ∷ M) c
  split-IsLaid sizes c v pa pb = record {
    tiled = split-IsTiled v.tiled pa pb;
    edges = λ k. v.edges k ∙ edge-split k;
    queues = λ i h. v.queues i h ∙ filed-split sizes.page2page_idx_floor i h;
  }

  pub join-IsLaid :
      (sizes : ArenaSizes) (c : Chunk)
      → IsLaid sizes (L ++ used a ∷ used b ∷ M) c
      → IsLaid sizes (L ++ used (a + b) ∷ M) c
  join-IsLaid sizes c v = record {
    tiled = join-IsTiled v.tiled;
    edges = λ k. v.edges k ∙ sym (edge-split k);
    queues = λ i h. v.queues i h ∙ sym (filed-split sizes.page2page_idx_floor i h);
  }

module _ (L : Layout) (r : Run) where
  pages-snoc : pages (L ++ r ∷ []) ≡ pages L + size r
  unfolding pages
  pages-snoc = omega (arith, pages-append L (r ∷ []))

  -- The run after another comes in.
  pub insert_after-IsLaid :
      (sizes : ArenaSizes) (n h : ℕ) (M : Layout) (c : Chunk)
      → IsLaid sizes (L ++ r ∷ used n ∷ M) c
      → Names h (pages L + size r) n
      → IsLaid sizes (L ++ r ∷ free n h ∷ M) (insert_avail_run sizes (pages L + size r) n h c)
  insert_after-IsLaid sizes n h M c v m =
      let got =
        insert-IsLaid sizes (L ++ r ∷ []) n h M c
          (subst (λ K. IsLaid sizes K c) (sym (append_assoc L (r ∷ []) (used n ∷ M))) v)
          (subst (λ o. Names h o n) (sym pages-snoc) m) in
      subst (λ o. IsLaid sizes (L ++ r ∷ free n h ∷ M) (insert_avail_run sizes o n h c)) pages-snoc
        (subst (λ K. IsLaid sizes K (insert_avail_run sizes (pages (L ++ r ∷ [])) n h c))
          (append_assoc L (r ∷ []) (free n h ∷ M)) got)

  -- The run after another goes.
  pub remove_after-IsLaid :
      (sizes : ArenaSizes) (n h : ℕ) (M : Layout) (c : Chunk)
      → IsLaid sizes (L ++ r ∷ free n h ∷ M) c
      → IsLaid sizes (L ++ r ∷ used n ∷ M) (remove_avail_run sizes h c)
  remove_after-IsLaid sizes n h M c v =
      subst (λ K. IsLaid sizes K (remove_avail_run sizes h c))
        (append_assoc L (r ∷ []) (used n ∷ M))
        (remove-IsLaid sizes (L ++ r ∷ []) n h M c
          (subst (λ K. IsLaid sizes K c) (sym (append_assoc L (r ∷ []) (free n h ∷ M))) v))

-- A handle that is made for a run names it.
pub to_run_handle-Names : (o n : ℕ) → o < 2 ^ 14 → n < 2 ^ 15 → Names (to_run_handle o n 0) o n
to_run_handle-Names o n ho hn =
    let (f, p, u, w) = to_run_handle-fields o n 0 ho hn (omega arith) in
    record {
      offset = f;
      pages = p;
      unused = u;
      whole = w;
      positive = omega (arith, to_run_handle-sum o n 0 ho hn (omega arith));
    }

-- A chunk that agrees with a layout in all: its map and queues, the bytes that are free, and its
-- size, which the fields of a handle and an int can hold.
pub record IsValid (sizes : ArenaSizes) (L : Layout) (c : Chunk) : Type 0 where
  pub laid : IsLaid sizes L c
  pub merged : IsMerged false L
  pub bytes : c.free_bytes ≡ free_pages L * 2 ^ c.page_shifts
  pub whole : c.chunk_size ≡ pages L * 2 ^ c.page_shifts
  pub small : pages L < 2 ^ 14
  pub limit : c.chunk_size < 2 ^ 31

-- What the tables of sizes promise for runs of up to so many pages: a class for each, a run of a
-- class no less than that of a request serves it, and the last class is that of them all.
pub record IsPaged (sizes : ArenaSizes) (total : ℕ) : Type 0 where
  pub some_class : (n : ℕ) → 0 < n → n ≤ total → sizes.page2page_idx_floor n < sizes.n_p_sizes
  pub serves :
      (n m : ℕ)
      → 0 < n
      → 0 < m
      → n ≤ total
      → m ≤ total
      → sizes.page2page_idx n ≤ sizes.page2page_idx_floor m
      → n ≤ m
  pub last_class : sizes.page2page_idx_floor total ≡ sizes.n_p_sizes - 1
