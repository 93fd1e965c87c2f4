-- ===== src/Alloc.antt =====
-- The space allocator, src/famfs_alloc.c, over the bitmap of src/bitmap.h.
pub mod Extent
pub mod Contiguous
pub mod Stats
pub mod Buckets
pub mod Param
pub mod Build
pub mod File
pub mod Strided
pub mod Taken
pub mod Choice
