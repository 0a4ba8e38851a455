-- ===== src/FreeList.antt =====
-- cri-archive-lib/src/cpk/free_list.rs: the 64 MB slab of 256 KB blocks and its bitmap.
-- `used: [u64; 4]` is read and written through a byte pointer only, so it is the list of its 32
-- bytes in memory order. Addresses and `usize` sums are numbers taken modulo 2 ^ 64.
pub mod Bitmap
pub mod Slab
pub mod Examples
