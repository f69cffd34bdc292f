-- ===== src/Net/Poller/Valid.antt =====
-- What the poller has asked of epoll is what its channels want.
use duo_duo.Base.{
  ℕ, ◌≡◌, ◌≢◌, refl, sym, ap, List, [], ◌∷◌, Option, none, some, ◌==◌, if◌then◌else◌, arith, ◌⊎◌,
  inl, inr, ◌∙◌, subst, ℕ_discrete,
}
use mathlib.Core.Option.{some-injective}
use duo_duo.Net.Poller.{Index, Channel, Call, Poller}

-- The events that the calls have registered for a descriptor.
abbrev pub registered : List Call → ℕ → Option ℕ
registered [] fd = none
registered (Call.add f e ∷ calls) fd = if fd == f then some e else registered calls fd
registered (Call.modify f e ∷ calls) fd = if fd == f then some e else registered calls fd
registered (Call.delete f ∷ calls) fd = if fd == f then none else registered calls fd

-- A descriptor is added only when it is not registered, and changed or deleted only when it is:
-- no call fails for EEXIST or ENOENT.
abbrev pub IsOrderly : List Call → Type 0
IsOrderly [] = Unit {0}
IsOrderly (Call.add f e ∷ calls) = (registered calls f ≡ none) × IsOrderly calls
IsOrderly (Call.modify f e ∷ calls) = (registered calls f ≢ none) × IsOrderly calls
IsOrderly (Call.delete f ∷ calls) = (registered calls f ≢ none) × IsOrderly calls

-- The registration that a channel should have.
abbrev pub wanted : Channel → Option ℕ
wanted ch = elim ch.index [ Index.added ↦ some ch.events | _ ↦ none ]

pub record IsValid (p : Poller) : Type 0 where
  pub named :
      (fd c : ℕ)
      → p.channels fd ≡ some c
      → ((p.objects c).fd ≡ fd) × ((p.objects c).index ≢ Index.new)
  pub listed : (c : ℕ) → (p.objects c).index ≢ Index.new → p.channels (p.objects c).fd ≡ some c
  pub registers :
      (c : ℕ)
      → (p.objects c).index ≢ Index.new
      → registered p.calls (p.objects c).fd ≡ wanted (p.objects c)
  pub rest : (fd : ℕ) → p.channels fd ≡ none → registered p.calls fd ≡ none
  pub orderly : IsOrderly p.calls

-- The poller after a change of one channel, which stays or becomes registered.
pub record Change (p p' : Poller) (c : ℕ) (ch : Channel) : Type 0 where
  pub same_fd : ch.fd ≡ (p.objects c).fd
  pub kept : ch.index ≢ Index.new
  pub free : (p.channels ch.fd ≡ none) ⊎ (p.channels ch.fd ≡ some c)
  pub objects : (j : ℕ) → p'.objects j ≡ (if j == c then ch else p.objects j)
  pub channels : (f : ℕ) → p'.channels f ≡ (if f == ch.fd then some c else p.channels f)
  pub calls :
      (f : ℕ) → registered p'.calls f ≡ (if f == ch.fd then wanted ch else registered p.calls f)
  pub in_order : IsOrderly p'.calls

module _ {p p' : Poller} {c : ℕ} {ch : Channel} (v : IsValid p) (g : Change p p' c ch) where
  pub self : (p'.objects c) ≡ ch
  self = rw (g.objects c) (ground arith)

  pub other : (j : ℕ) → j ≢ c → p'.objects j ≡ p.objects j
  other j h = rw (g.objects j) (ground arith)

  elsewhere : (j : ℕ) → j ≢ c → (p.objects j).index ≢ Index.new → (p.objects j).fd ≢ ch.fd
  elsewhere j h live same =
      let l = v.listed j live in
      elim g.free [ inl e ↦ cc | inr e ↦ h (some-injective _ _ (sym l ∙ ap p.channels same ∙ e)) ]

  Change-named :
      (fd d : ℕ)
      → p'.channels fd ≡ some d
      → ((p'.objects d).fd ≡ fd) × ((p'.objects d).index ≢ Index.new)
  Change-named fd d h = elim (ℕ_discrete fd ch.fd) [
    | yes same ↦
        let e : c ≡ d = some-injective _ _ (ground (arith, g.channels fd)) in
        subst (λ d. ((p'.objects d).fd ≡ fd) × ((p'.objects d).index ≢ Index.new)) e
          (rw self (sym same, g.kept))
    | no ne ↦
        let h' : p.channels fd ≡ some d = ground (arith, g.channels fd) in
        let (f, live) = v.named fd d h' in
        let ne' : d ≢ c = (λ e. ne (sym f ∙ ap (λ k. (p.objects k).fd) e ∙ sym g.same_fd)) in
        rw (other d ne') (f, live)
  ]

  pub Change-IsValid : IsValid p'
  Change-IsValid = record {
    named = Change-named;
    listed = λ d live. elim (ℕ_discrete d c) [
      | yes e ↦
          (let live' : ch.index ≢ Index.new = g.kept in
            subst (λ d. p'.channels (p'.objects d).fd ≡ some d) (sym e)
              (rw self (rw (g.channels ch.fd) (ground arith))))
      | no ne ↦
          (let live' : (p.objects d).index ≢ Index.new = rw (other d ne) at live in
            let apart = elsewhere d ne live' in
            rw (other d ne) (rw (g.channels (p.objects d).fd) (ground (arith, v.listed d live'))))
    ];
    registers = λ d live. elim (ℕ_discrete d c) [
      | yes e ↦
          subst (λ d. registered p'.calls (p'.objects d).fd ≡ wanted (p'.objects d)) (sym e)
            (rw self (rw (g.calls ch.fd) (ground arith)))
      | no ne ↦
          (let live' : (p.objects d).index ≢ Index.new = rw (other d ne) at live in
            let apart = elsewhere d ne live' in
            rw (other d ne) (rw (g.calls (p.objects d).fd) (ground (arith, v.registers d live'))))
    ];
    rest = λ fd h. ground (arith, g.channels fd, g.calls fd, v.rest fd);
    orderly = g.in_order;
  }

pub Index-cases : (i : Index) → (i ≡ Index.new) ⊎ ((i ≡ Index.added) ⊎ (i ≡ Index.deleted))
Index-cases Index.new = inl refl
Index-cases Index.added = inr (inl refl)
Index-cases Index.deleted = inr (inr refl)
