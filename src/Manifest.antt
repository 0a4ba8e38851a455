-- ===== src/Manifest.antt =====
-- cri-cpk-cli/src/manifest.rs: the text file beside an extracted archive. A string is the list of its
-- bytes.
pub mod Fields
pub mod Hash
pub mod Examples
