-- ===== src/Pool/Handle/Flags.antt =====
-- Setting and clearing the flags of a handle leaves its run.
use duo_duo.Base.{
  ℕ, zero, suc, ◌-◌, ◌*◌, ◌/◌, ◌%◌, ◌^◌, ◌<◌, ◌≡◌, ◌∙◌, ap, sym, refl, false, true, ◌==◌, bit_and,
  bit_or, min, arith,
}
use duo_duo.Base.Bits.{bit_and_digit, bit_or_digit, bit_and-low, bit_or-shift, half-pow}
use duo_duo.Pool.Handle.Fields.{calculate_run_pages-eq, is_used-eq, is_subpage-eq}
use duo_duo.Pool.Handle.{
  calculate_run_offset, calculate_run_pages, is_used, is_subpage, clear_flags, mark_used,
}

div-bit_and : (k a b : ℕ) → bit_and a b / 2 ^ k ≡ bit_and (a / 2 ^ k) (b / 2 ^ k)
div-bit_and zero a b =
    let e : a / 2 ^ 0 ≡ a = omega arith in
    let f : b / 2 ^ 0 ≡ b = omega arith in rw (e, f) (omega arith)
div-bit_and (suc k) a b =
    let e : bit_and a b / 2 ≡ bit_and (a / 2) (b / 2) = omega (arith, bit_and_digit a b) in
    rw (half-pow (bit_and a b) k, half-pow a k, half-pow b k, e) (div-bit_and k (a / 2) (b / 2))

div-bit_or : (k a b : ℕ) → bit_or a b / 2 ^ k ≡ bit_or (a / 2 ^ k) (b / 2 ^ k)
div-bit_or zero a b =
    let e : a / 2 ^ 0 ≡ a = omega arith in
    let f : b / 2 ^ 0 ≡ b = omega arith in rw (e, f) (omega arith)
div-bit_or (suc k) a b =
    let e : bit_or a b / 2 ≡ bit_or (a / 2) (b / 2) = omega (arith, bit_or_digit a b) in
    rw (half-pow (bit_or a b) k, half-pow a k, half-pow b k, e) (div-bit_or k (a / 2) (b / 2))

-- A mask of all but one of the low 34 bits leaves what is above them.
masked : (h m : ℕ) → h < 2 ^ 64 → m / 2 ^ 34 ≡ 2 ^ 30 - 1 → bit_and h m / 2 ^ 34 ≡ h / 2 ^ 34
masked h m lt e =
    div-bit_and 34 h m ∙ ap (bit_and (h / 2 ^ 34)) e ∙ bit_and-low 30 (h / 2 ^ 34) ∙ omega arith

digit : (k h m : ℕ) → bit_and h m / 2 ^ k % 2 ≡ min (h / 2 ^ k % 2) (m / 2 ^ k % 2)
digit k h m =
    ap (λ n. n % 2) (div-bit_and k h m) ∙ omega (arith, bit_and_digit (h / 2 ^ k) (m / 2 ^ k))

bit_or-zero : (h : ℕ) → bit_or h 0 ≡ h
bit_or-zero h =
    let e : h * 2 ^ 0 ≡ h = omega arith in
    ap (λ n. bit_or n 0) (sym e) ∙ bit_or-shift 0 h 0 (omega arith) ∙ omega arith

pub same_run :
    (g h : ℕ)
    → g / 2 ^ 34 ≡ h / 2 ^ 34
    → (calculate_run_offset g ≡ calculate_run_offset h)
      × (calculate_run_pages g ≡ calculate_run_pages h)
unfolding calculate_run_offset
same_run g h e = (omega arith, omega (arith, calculate_run_pages-eq g, calculate_run_pages-eq h))

-- Cleared, a handle names the same run, which is neither used nor a subpage.
pub clear_flags-fields :
    (h : ℕ)
    → h < 2 ^ 63
    → let g = clear_flags h in
      (calculate_run_offset g ≡ calculate_run_offset h)
      × (calculate_run_pages g ≡ calculate_run_pages h)
      × (is_used g ≡ false)
      × (is_subpage g ≡ false)
      × (g < 2 ^ 63)
unfolding clear_flags
clear_flags-fields h lt =
    let g = bit_and h (2 ^ 64 - 1 - 2 ^ 33) in
    let e : g / 2 ^ 34 ≡ h / 2 ^ 34 = masked h (2 ^ 64 - 1 - 2 ^ 33) (omega arith) refl in
    let f : bit_and g (2 ^ 64 - 1 - 2 ^ 32) / 2 ^ 34 ≡ g / 2 ^ 34 =
      masked g (2 ^ 64 - 1 - 2 ^ 32) (omega (arith, e)) refl in
    let r = same_run (clear_flags h) h (f ∙ e) in
    let u : clear_flags h / 2 ^ 33 % 2 ≡ 0 =
      omega (arith, digit 33 g (2 ^ 64 - 1 - 2 ^ 32), digit 33 h (2 ^ 64 - 1 - 2 ^ 33)) in
    let s : clear_flags h / 2 ^ 32 % 2 ≡ 0 = omega (arith, digit 32 g (2 ^ 64 - 1 - 2 ^ 32)) in
    (
      r.0,
      r.1,
      is_used-eq _ ∙ ap (λ b. b == 1) u,
      is_subpage-eq _ ∙ ap (λ b. b == 1) s,
      omega (arith, e, f),
    )

-- Marked, it names the same run, which is used, and is as much a subpage as before.
pub mark_used-fields :
    (h : ℕ)
    → h < 2 ^ 63
    → let g = mark_used h in
      (calculate_run_offset g ≡ calculate_run_offset h)
      × (calculate_run_pages g ≡ calculate_run_pages h)
      × (is_used g ≡ true)
      × (is_subpage g ≡ is_subpage h)
unfolding mark_used
mark_used-fields h lt =
    let e : mark_used h / 2 ^ 34 ≡ h / 2 ^ 34 =
      div-bit_or 34 h (2 ^ 33) ∙ bit_or-zero (h / 2 ^ 34) in
    let r = same_run (mark_used h) h e in
    let u : mark_used h / 2 ^ 33 % 2 ≡ 1 =
      ap (λ n. n % 2) (div-bit_or 33 h (2 ^ 33)) ∙ omega (arith, bit_or_digit (h / 2 ^ 33) 1) in
    let s : mark_used h / 2 ^ 32 % 2 ≡ h / 2 ^ 32 % 2 =
      ap (λ n. n % 2) (div-bit_or 32 h (2 ^ 33)) ∙ omega (arith, bit_or_digit (h / 2 ^ 32) 2) in
    (
      r.0,
      r.1,
      is_used-eq _ ∙ ap (λ b. b == 1) u,
      is_subpage-eq _ ∙ ap (λ b. b == 1) s ∙ sym (is_subpage-eq h),
    )
