-- ===== src/Pool/Tests.antt =====
-- The theorems on the size classes at concrete inputs.
use duo_duo.Base.{ℕ, ◌<◌, ◌≤◌, arith}
use duo_duo.Pool.SizeClass.{pooled, size2size_idx, size_idx2size}
use duo_duo.Pool.SizeClass.Fit.{size2size_idx-fits}

size2size_idx-fits_example :
    let i = size2size_idx pooled 5000 in
    (i < 76) × (5000 ≤ size_idx2size pooled i) × ((j : ℕ) → j < i → size_idx2size pooled j < 5000)
size2size_idx-fits_example = size2size_idx-fits 5000 (omega arith) (omega arith)
