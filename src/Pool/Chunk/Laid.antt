-- ===== src/Pool/Chunk/Laid.antt =====
-- A chunk whose map and queues hold the available runs of a layout, and how a run enters and
-- leaves them.
use duo_duo.Base.{
  ℕ, ◌+◌, ◌-◌, ◌≤◌, ◌<◌, ◌≡◌, ◌⊎◌, inl, inr, refl, ap, sym, subst, [], ◌∷◌, ◌++◌, none, ◌==◌, arith,
  Bool-cases,
}
use duo_duo.Pool.Handle.{calculate_run_offset}
use duo_duo.Pool.BestFitQueue.Count.{count, count-remove}
use duo_duo.Pool.Chunk.{ArenaSizes, Chunk, insert_avail_run, remove_from, remove_avail_run}
use duo_duo.Pool.Chunk.Layout.{
  Run, used, free, Layout, pages, Names, IsTiled, edge, edge-middle, filed, filed-append,
  IsTiled-split, IsTiled-append, size,
}

pub record IsLaid (sizes : ArenaSizes) (L : Layout) (c : Chunk) : Type 0 where
  pub tiled : IsTiled 0 L
  pub edges : (k : ℕ) → c.runs_avail_map k ≡ edge 0 L k
  pub queues : (i h : ℕ) → count h (c.runs_avail i) ≡ filed sizes.page2page_idx_floor L i h

-- One run in the middle takes another's place.
pub IsTiled-replace :
    (L : Layout) (r s : Run) (M : Layout)
    → size r ≡ size s
    → IsTiled 0 (L ++ r ∷ M)
    → (IsTiled (pages L + size r) M → IsTiled (pages L) (s ∷ M))
    → IsTiled 0 (L ++ s ∷ M)
unfolding IsTiled
IsTiled-replace L r s M e t f =
    let (a, b) = IsTiled-split 0 L (r ∷ M) t in
    let z : 0 + pages L ≡ pages L = omega arith in
    IsTiled-append 0 L (s ∷ M) a
      (subst (λ k. IsTiled k (s ∷ M)) (sym z) (f (tail _ r (subst (λ k. IsTiled k (r ∷ M)) z b))))
  where
    tail : (o : ℕ) (r : Run) → IsTiled o (r ∷ M) → IsTiled (o + size r) M
    tail o (used n) (p, t) = t
    tail o (free n h) (p, q, t) = t

-- A run in the middle is not empty.
pub middle_pos : (L : Layout) (n : ℕ) (M : Layout) → IsTiled 0 (L ++ used n ∷ M) → 0 < n
unfolding IsTiled
middle_pos L n M t = (IsTiled-split 0 L (used n ∷ M) t).1.0

pub middle_Names :
    (L : Layout) (n h : ℕ) (M : Layout)
    → IsTiled 0 (L ++ free n h ∷ M)
    → (0 < n) × Names h (pages L) n
unfolding IsTiled
middle_Names L n h M t =
    let (_, (p, q, _)) = IsTiled-split 0 L (free n h ∷ M) t in
    (p, subst (λ o. Names h o n) (omega arith) q)

-- A handle is in the queues for its own run only.
pub filed-absent :
    (f : ℕ → ℕ) (o : ℕ) (L : Layout) (i h : ℕ)
    → IsTiled o L
    → (calculate_run_offset h < o) ⊎ (o + pages L ≤ calculate_run_offset h)
    → filed f L i h ≡ 0
unfolding filed IsTiled pages
filed-absent f o [] i h t out = refl
filed-absent f o (used n ∷ L) i h (p, t) out = omega (
  arith,
  filed-absent f (o + n) L i h t
      (elim out [ inl a ↦ inl (omega arith) | inr a ↦ inr (omega arith) ]),
)
filed-absent f o (free n g ∷ L) i h (p, q, t) out =
    let ih =
      filed-absent f (o + n) L i h t
        (elim out [ inl a ↦ inl (omega arith) | inr a ↦ inr (omega arith) ]) in
    elim (Bool-cases (h == g)) [
      | inl e ↦
          let same : calculate_run_offset h ≡ calculate_run_offset g =
            ap calculate_run_offset (ground arith) in
          absurd (elim out [
            | inl a ↦ omega (arith, same, q.offset)
            | inr a ↦ omega (arith, same, q.offset, p)
          ])
      | inr e ↦ ground (arith, ih, e)
    ]

module _ (sizes : ArenaSizes) (L : Layout) (n h : ℕ) (M : Layout) (c : Chunk) where
  pub insert-IsLaid :
      IsLaid sizes (L ++ used n ∷ M) c
      → Names h (pages L) n
      → IsLaid sizes (L ++ free n h ∷ M) (insert_avail_run sizes (pages L) n h c)
  unfolding insert_avail_run filed
  insert-IsLaid v m =
      let pos = middle_pos L n M v.tiled in
      let first : c.runs_avail_map (pages L) ≡ none =
        ground (arith, v.edges (pages L), edge-middle L (used n) M (pages L)) in
      let last : c.runs_avail_map (pages L + n - 1) ≡ none =
        ground (arith, v.edges (pages L + n - 1), edge-middle L (used n) M (pages L + n - 1)) in
      record {
        tiled =
            IsTiled-replace L (used n) (free n h) M refl v.tiled
              (λ t. (unfold IsTiled in (pos, m, t)));
        edges = λ k. ground (
          arith,
          first,
          last,
          v.edges k,
          edge-middle L (used n) M k,
          edge-middle L (free n h) M k,
        );
        queues = λ i g. ground (
          arith,
          first,
          last,
          v.queues i g,
          filed-append sizes.page2page_idx_floor L (used n ∷ M) i g,
          filed-append sizes.page2page_idx_floor L (free n h ∷ M) i g,
        );
      }

  -- The map without a run: its two entries go.
  pub remove-edges :
      IsTiled 0 (L ++ free n h ∷ M)
      → ((k : ℕ) → c.runs_avail_map k ≡ edge 0 (L ++ free n h ∷ M) k)
      → (i k : ℕ) → (remove_from i h c).runs_avail_map k ≡ edge 0 (L ++ used n ∷ M) k
  unfolding remove_from
  remove-edges t e i k =
      let (pos, m) = middle_Names L n h M t in
      rw (m.offset, m.pages, remove_from)
        (ground (arith, pos, e k, edge-middle L (used n) M k, edge-middle L (free n h) M k))

  pub remove-IsTiled : IsTiled 0 (L ++ free n h ∷ M) → IsTiled 0 (L ++ used n ∷ M)
  unfolding IsTiled
  remove-IsTiled t =
      IsTiled-replace L (free n h) (used n) M refl t (λ u. ((middle_Names L n h M t).0, u))

  pub remove-IsLaid :
      IsLaid sizes (L ++ free n h ∷ M) c
      → IsLaid sizes (L ++ used n ∷ M) (remove_avail_run sizes h c)
  unfolding remove_from filed
  remove-IsLaid v =
      let (pos, m) = middle_Names L n h M v.tiled in
      record {
        tiled = remove-IsTiled v.tiled;
        edges = remove-edges v.tiled v.edges _;
        queues = λ i g.
            rw (m.offset, m.pages, remove_from)
              (ground (
                arith,
                v.queues i g,
                count-remove g h (c.runs_avail (sizes.page2page_idx_floor n)),
                filed-append sizes.page2page_idx_floor L (used n ∷ M) i g,
                filed-append sizes.page2page_idx_floor L (free n h ∷ M) i g,
              ));
      }
