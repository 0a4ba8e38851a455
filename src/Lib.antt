-- ===== src/Lib.antt =====
-- cri-archive-lib: a reader and a writer of CRI CPK archives (cri-archive-lib/src).
--
-- The program's parts, and the files here that model them:
--   * cri-archive-lib/src/cpk/free_list.rs, the slab of buffers for decompression: FreeList/Bitmap
--     (`bit_on`, `bit_off`, `check_occupation`, with the byte steps of each) and FreeList/Slab
--     (`get_free_block_index`, `allocate`, `deallocate`, the drop of a node). FreeList/Slab/Pool adds
--     the nodes that are out, as a step relation of allocations and drops in any order.
--   * cri-archive-lib/src/cpk/compress/layla.rs, the CriLAYLA decompressor: Layla/Cursor (`read_1`,
--     `read_2`, `read_8`, `read_13`, `read_max_8`), Layla/Copy (the unrolled copy), Layla/Tokens (one
--     round of the loop) and Layla/Decompress (the loop). Their children named Single and Exact hold
--     the reference that each is compared with.
--   * cri-archive-lib/src/cpk/encrypt, the two XOR ciphers: Encrypt/Table and Encrypt/P5r.
--   * cri-archive-lib/src/cpk/header.rs, the chunks that hold tables: Header (`CpkChunkKind`,
--     `TableContainer::new`), together with `build_chunk` of the writer.
--   * cri-archive-lib/src/schema and `HighTable` of cpk/header.rs, the reader of @UTF tables: Schema/Header,
--     Schema/Columns, Schema/Rows, Schema/Values and Schema/Table (the guards on the sections, and the
--     look-ups by name). Schema/Names has the names that the writer and the reader use.
--   * cri-archive-lib/src/schema/strings.rs and `intern_string` of the writer: Strings.
--   * cri-archive-lib/src/cpk/writer.rs: Writer (the input, the profile and the errors), Writer/Align,
--     Writer/Order (`build_physical_order`), Writer/Layout (the offsets of `write_with_profile`), Writer/Itoc
--     (the rows of an ITOC), Writer/Utf (`UtfTableBuilder`: its pools and its bytes), Writer/Tables (the
--     header, the TOC and the ITOC), Writer/Output (the payloads with their padding) and Writer/Archive
--     (`write_with_profile` as a whole).
--   * cri-archive-lib/src/cpk/reader.rs and file.rs: Reader (`CpkFile::new`), Reader/Align, Reader/Itoc
--     (the merge of the rows and `materialize_itoc_rows`), Reader/Values (`collect_itoc_rows`),
--     Reader/Metadata (`parse_metadata`), Reader/Toc (`read_toc`) and Reader/Archive (`get_files`,
--     `read_packed_file` and `extract_file`).
--   * Utf puts the builder and the reader of tables together. Archive does so for the header
--     (Archive/Metadata), the TOC (Archive/Toc) and the ITOC (Archive/RoundTrip), and for a whole archive:
--     Archive/Whole has the chunks and the payloads at their offsets, on the side of the writer with
--     Writer/Archive/Planned and Writer/Archive/Head, and Archive/Files has what the reader gets of them.
--   * cri-cpk-cli/src/manifest.rs: Manifest/Fields (`encode_field`, `decode_field`) and Manifest/Hash.
--
-- State is passed on explicitly. The free list is a record of the address of its slab, the 32 bytes of
-- its bitmap and its lock; a node is a record of an address, a size and whether it has an owner.
-- Machine integers are numbers with their modulus written out. A decompressor's memory is a function
-- from addresses to bytes, the input and the output being apart, and an address below 0 is 0. A
-- stream of chunks is the list of the bytes that are left. Errors are the constructors of a data type
-- in a result; a message is not modelled. What other crates and the tests of UTF-8 do is an argument.
--
-- Fuel: the search of the free list has 257 rounds, one more than its last multiple can need. The loops
-- of the decompressor have one fuel; it is enough when it passes the address of the raw block
-- and the number of bytes to write together, since each token writes a byte and each group of a length
-- of eight ones comes down by a byte.
--
-- Not modelled: the files that payloads are read from, whose bytes are an argument of the writer; the
-- wrapper that takes a buffer for the decompressor, which is an argument of `extract_file`, as the decryptor is;
-- the lines of a manifest; the ACB reader; the command line. The writer begins with an empty output. The lock is that of one thread, since
-- every operation has the list to itself. The length of a table is an argument of the layout,
-- which Writer/Archive gives it; `usize` has 64 bits.
mod Base
pub mod FreeList
pub mod Layla
pub mod Encrypt
pub mod Header
pub mod Utf
pub mod Writer
pub mod Reader
pub mod Schema
pub mod Archive
pub mod Manifest
pub mod Strings
