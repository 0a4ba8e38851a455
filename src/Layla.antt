-- ===== src/Layla.antt =====
-- cri-archive-lib/src/cpk/compress/layla.rs: the CriLAYLA decompressor.
-- The input and the output are two memories, functions from addresses to bytes; they do not overlap.
pub mod Cursor
pub mod Copy
pub mod Tokens
pub mod Decompress
pub mod Examples
