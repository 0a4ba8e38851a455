-- ===== src/Writer/Archive.antt =====
-- `write_with_profile`: the tables, the layout, the chunks at their offsets, and the payloads.
-- The output is empty when the writer begins, and is the list of the bytes written so far.
pub mod Head
pub mod Planned
use cri_archive_lib.Base.{
  ℕ, ◌+◌, ◌-◌, ltb, leb, ◌==◌, if◌then◌else◌, Bool, true, false, not, length, replicate, take, drop,
  get_or, Option, none, some, List, [], ◌∷◌, ◌++◌,
}
use cri_archive_lib.Base.{Result, ok, ensure, map_err, ◌>>=◌, ◌>>◌}
use cri_archive_lib.Header.{CpkChunkKind, build_chunk}
use cri_archive_lib.Writer.{
  CpkInputFile, CpkIndexMode, has_toc, has_itoc, CpkWriterError, arithmetic_overflow,
  header_too_large, empty_input, too_many_files, CpkWriterProfile, CpkWriteReport,
}
use cri_archive_lib.Writer.Align.{validate_alignment}
use cri_archive_lib.Writer.Order.{build_physical_order}
use cri_archive_lib.Writer.Layout.{Layout, layout, engine_index_base, size_at}
use cri_archive_lib.Writer.Output.{OutputError, write_zeros, write_content}
use cri_archive_lib.Writer.Tables.{
  HeaderFields, build_toc_table, build_itoc_table, build_header_table,
}

abbrev pub copyright_marker_offset : ℕ
copyright_marker_offset = engine_index_base - 6

-- `(c)CRI`
abbrev pub copyright_marker : List ℕ
copyright_marker = 0x28 ∷ 0x63 ∷ 0x29 ∷ 0x43 ∷ 0x52 ∷ 0x49 ∷ []

-- A table that the mode has, or none.
abbrev pub optional_table :
    Bool → Result CpkWriterError (List ℕ) → Result CpkWriterError (Option (List ℕ))
optional_table true table = table >>= λ bytes. ok (some bytes)
optional_table false table = ok none

-- `map_or(0, |table| table.len())`
abbrev pub length_or_zero : Option (List ℕ) → ℕ
length_or_zero none = 0
length_or_zero (some bytes) = length bytes

-- `as_ref().map(|table| build_chunk(kind, table))`
abbrev pub optional_chunk : CpkChunkKind → Option (List ℕ) → Option (List ℕ)
optional_chunk kind none = none
optional_chunk kind (some table) = some (build_chunk kind table)

-- The offsets from the base of the index.
unfoldable pub relative_offsets : List ℕ → Result CpkWriterError (List ℕ)
relative_offsets [] = ok []
relative_offsets (offset ∷ offsets) =
    ensure (leb engine_index_base offset) arithmetic_overflow
    >> (relative_offsets offsets >>= λ rest. ok ((offset - engine_index_base) ∷ rest))

-- Bytes at an offset: behind zeros, or over what is written there. The position of the stream is the
-- end of the output, also after bytes that were written over others, where the source stands behind
-- those.
unfoldable pub write_at : ℕ → List ℕ → List ℕ → List ℕ
write_at offset bytes output =
    let current = length output in
    if ltb current offset
    then write_zeros (offset - current) output ++ bytes
    else (if ltb offset current
        then take offset output ++ (bytes ++ drop (offset + length bytes) output)
        else output ++ bytes)

abbrev pub write_optional : ℕ → Option (List ℕ) → List ℕ → List ℕ
write_optional offset none output = output
write_optional offset (some chunk) output = write_at offset chunk output

-- The checks at the beginning, and the order of the payloads.
unfoldable pub check_input : ℕ → List CpkInputFile → CpkIndexMode → Result CpkWriterError (List ℕ)
check_input alignment files mode =
    validate_alignment alignment
    >> (ensure (not (length files == 0)) empty_input
        >> (ensure (leb (length files) 0xffffffff) (too_many_files (length files))
            >> build_physical_order files mode))

-- The final tables, as long as those that were built for the layout.
pub record IndexTables : Type 0 where
  pub toc_table : Option (List ℕ)
  pub itoc_table : Option (List ℕ)

unfoldable pub build_index :
    List CpkInputFile → CpkWriterProfile → List ℕ → List ℕ → Result CpkWriterError IndexTables
build_index files profile order offsets =
    optional_table (has_toc profile.index_mode) (build_toc_table files offsets) >>= λ toc_table.
    optional_table (has_itoc profile.index_mode) (build_itoc_table files order profile.direct_itoc)
    >>= λ itoc_table. ok (record { toc_table = toc_table; itoc_table = itoc_table })

-- The layout for the lengths of the tables that are built first, and the final tables.
pub record Plan : Type 0 where
  pub places : Layout
  pub tables : IndexTables

-- `layout` begins with the checks that have passed here.
unfoldable pub plan : ℕ → List CpkInputFile → CpkWriterProfile → Result CpkWriterError Plan
plan alignment files profile = check_input alignment files profile.index_mode >>= λ order.
    build_index files profile order (replicate (length files) 0) >>= λ probe.
    layout alignment files profile.index_mode (length_or_zero probe.toc_table)
      (length_or_zero probe.itoc_table)
    >>= λ l.
        (if has_toc profile.index_mode then relative_offsets l.absolute_offsets else ok [])
        >>= λ offsets. build_index files profile order offsets >>= λ tables.
            ensure (length_or_zero probe.toc_table == length_or_zero tables.toc_table)
              arithmetic_overflow
            >> (ensure (length_or_zero probe.itoc_table == length_or_zero tables.itoc_table)
                  arithmetic_overflow
                >> ok (record { places = l; tables = tables }))

abbrev pub header_fields : ℕ → List CpkInputFile → Plan → HeaderFields
header_fields alignment files p = record {
  archive_size = p.places.archive_size;
  content_offset = p.places.content_offset;
  content_size = p.places.content_size;
  toc_offset = p.places.toc_offset;
  toc_size = length_or_zero (optional_chunk CpkChunkKind.toc p.tables.toc_table);
  itoc_offset = p.places.itoc_offset;
  itoc_size = length_or_zero (optional_chunk CpkChunkKind.itoc p.tables.itoc_table);
  alignment = alignment;
  file_count = length files;
}

-- The bytes up to the content.
unfoldable pub write_head : Plan → List ℕ → List ℕ
write_head p header_chunk =
    let marked =
      write_zeros (copyright_marker_offset - length header_chunk) header_chunk
      ++ copyright_marker in
    let toc =
      write_optional p.places.toc_offset (optional_chunk CpkChunkKind.toc p.tables.toc_table)
        marked in
    let itoc =
      write_optional p.places.itoc_offset (optional_chunk CpkChunkKind.itoc p.tables.itoc_table)
        toc in
    if ltb (length itoc) p.places.content_offset
    then write_zeros (p.places.content_offset - length itoc) itoc
    else itoc

pub data WriteError : Type 0 where
  writer : CpkWriterError → WriteError
  output : OutputError → WriteError

-- What is written, and the report.
pub record Written : Type 0 where
  pub bytes : List ℕ
  pub report : CpkWriteReport

-- `payload` gives the bytes that `write_file_payload` copies for the file at an index.
unfoldable pub write_with_profile :
    ℕ → List CpkInputFile → CpkWriterProfile → (ℕ → List ℕ) → Result WriteError Written
write_with_profile alignment files profile payload =
    map_err writer (plan alignment files profile) >>= λ p.
    map_err writer (build_header_table (header_fields alignment files p) profile) >>= λ table.
    let header_chunk = build_chunk CpkChunkKind.cpk table in
    ensure (leb (length header_chunk) copyright_marker_offset)
      (writer (header_too_large (length header_chunk)))
    >> (map_err output (
          write_content payload (size_at files) (λ i. get_or p.places.absolute_offsets i 0)
            p.places.archive_size p.places.physical_order (write_head p header_chunk))
        >>= λ bytes. ok (record {
          bytes = bytes;
          report = record {
            files = length files;
            toc_offset = p.places.toc_offset;
            itoc_offset = p.places.itoc_offset;
            content_offset = p.places.content_offset;
            archive_size = p.places.archive_size;
          };
        }))
