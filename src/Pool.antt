-- ===== src/Pool.antt =====
-- The buffer pool of buffer/: size classes, chunks and their runs, subpages, buffers.
pub mod MathUtils
pub mod SizeClass
pub mod Handle
pub mod Subpage
pub mod BestFitQueue
pub mod Chunk
pub mod ChunkList
pub mod ThreadCache
pub mod Allocator
pub mod ByteBuf
mod Tests
