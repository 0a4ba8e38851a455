-- ===== src/Archive.antt =====
-- The writer and the reader together: what is written to an archive is what is read from it.
pub mod Ascii
pub mod Cells
pub mod Toc
pub mod Whole
pub mod Chunks
pub mod Files
pub mod Metadata
pub mod Rows
pub mod RoundTrip
pub mod Examples
