-- ===== src/Pool/SizeClass.antt =====
-- buffer/SizeClass.h and buffer/SizeClass.cpp: the jemalloc size classes and their lookup tables.
-- An `int` is written with its wrap modulo 2^32; the values here are not negative.
mod Rows
mod Lookup
pub mod Tables
mod Spread
mod Compute
pub mod Fit
pub mod Pages
pub use Rows.{
  Row, SizeClass, init, log2_quantum, log2_size_class_group, shl, page_size, page_shifts,
}
pub use Rows.{chunk_size}
unfoldable pub use Rows.{pooled}
unfoldable pub use Lookup.{
  size2size_idx, size_idx2size, size_idx2size_compute, page_idx2size, page_idx2size_compute,
  page2page_idx, page2page_idx_floor, pages2page_idx_compute, normalize_size,
  normalize_size_compute,
}
