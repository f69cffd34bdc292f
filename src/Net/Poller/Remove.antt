-- ===== src/Net/Poller/Remove.antt =====
-- A channel that is removed leaves nothing behind.
use duo_duo.Base.{ℕ, ◌≡◌, ◌≢◌, sym, ap, ◌∙◌, none, some, ◌==◌, if◌then◌else◌, arith, ℕ_discrete}
use mathlib.Core.Option.{some-injective}
use duo_duo.Net.Poller.{Index, Poller}
use duo_duo.Net.Poller.Valid.{IsValid, registered, IsOrderly}

-- The poller after a channel is gone.
pub record Gone (p p' : Poller) (c : ℕ) : Type 0 where
  pub objects :
      (j : ℕ)
      → p'.objects j ≡ (if j == c then record (p.objects c) { index = Index.new } else p.objects j)
  pub channels : (f : ℕ) → p'.channels f ≡ (if f == (p.objects c).fd then none else p.channels f)
  pub calls :
      (f : ℕ)
      → registered p'.calls f ≡ (if f == (p.objects c).fd then none else registered p.calls f)
  pub in_order : IsOrderly p'.calls

module _ {p p' : Poller} {c : ℕ} (v : IsValid p) (there : p.channels (p.objects c).fd ≡ some c)
    (g : Gone p p' c) where
  self : p'.objects c ≡ record (p.objects c) { index = Index.new }
  self = rw (g.objects c) (ground arith)

  other : (j : ℕ) → j ≢ c → p'.objects j ≡ p.objects j
  other j h = rw (g.objects j) (ground arith)

  other_live : (j : ℕ) → (p'.objects j).index ≢ Index.new → j ≢ c
  other_live j live e = live (ap (λ k. (p'.objects k).index) e ∙ ap (λ ch. ch.index) self)

  elsewhere :
      (j : ℕ) → j ≢ c → (p.objects j).index ≢ Index.new → (p.objects j).fd ≢ (p.objects c).fd
  elsewhere j h live same =
      h (some-injective _ _ (sym (v.listed j live) ∙ ap p.channels same ∙ there))

  Gone-named :
      (fd d : ℕ)
      → p'.channels fd ≡ some d
      → ((p'.objects d).fd ≡ fd) × ((p'.objects d).index ≢ Index.new)
  Gone-named fd d h = elim (ℕ_discrete fd (p.objects c).fd) [
    | yes same ↦ absurd (ground (arith, g.channels fd))
    | no ne ↦
        let h' : p.channels fd ≡ some d = ground (arith, g.channels fd) in
        let (f, live) = v.named fd d h' in
        let ne' : d ≢ c = (λ e. ne (sym f ∙ ap (λ k. (p.objects k).fd) e)) in
        rw (other d ne') (f, live)
  ]

  pub Gone-IsValid : IsValid p'
  Gone-IsValid = record {
    named = Gone-named;
    listed = λ d live.
        let ne = other_live d live in
        let live' : (p.objects d).index ≢ Index.new = rw (other d ne) at live in
        let apart = elsewhere d ne live' in
        rw (other d ne) (rw (g.channels (p.objects d).fd) (ground (arith, v.listed d live')));
    registers = λ d live.
        let ne = other_live d live in
        let live' : (p.objects d).index ≢ Index.new = rw (other d ne) at live in
        let apart = elsewhere d ne live' in
        rw (other d ne) (rw (g.calls (p.objects d).fd) (ground (arith, v.registers d live')));
    rest = λ fd h. ground (arith, g.channels fd, g.calls fd, v.rest fd);
    orderly = g.in_order;
  }
