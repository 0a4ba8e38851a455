-- ===== src/Archive/Metadata.antt =====
-- The table in the first chunk, from the writer to the reader.
use cri_archive_lib.Base.{
  ℕ, ◌^◌, ◌<◌, ◌≡◌, refl, sym, arith, Bool, true, false, ◌&&◌, leb, ◌==◌, not, if◌then◌else◌, List,
  [], ◌∷◌, length, get_elem?, Str, All, AllPairs, some, ok,
}
use cri_archive_lib.Strings.{same_str}
use cri_archive_lib.Strings.RoundTrip.{IsPlain}
use cri_archive_lib.Schema.Names.{
  name_cpk_header, name_update_date_time, name_file_size, name_content_offset, name_content_size,
  name_toc_offset, name_toc_size, name_etoc_offset, name_etoc_size, name_itoc_offset,
  name_itoc_size, name_gtoc_offset, name_gtoc_size, name_files, name_version, name_revision,
  name_align, name_sorted, name_eid, name_enable_file_name, name_cpk_mode, name_codec,
  name_dpk_itoc, name_enable_toc_crc, name_enable_file_crc,
}
use cri_archive_lib.Schema.Table.{HighTable, open_table}
use cri_archive_lib.Writer.{CpkIndexMode, CpkWriterProfile, has_toc, has_itoc}
use cri_archive_lib.Writer
use cri_archive_lib.Writer.Itoc.{UtfValue}
use cri_archive_lib.Writer.Utf.{UtfTableBuilder}
use cri_archive_lib.Writer.Tables.{HeaderFields, header_columns, header_row, build_header_table}
use cri_archive_lib.Utf.{IsSized, Reads}
use cri_archive_lib.Utf.ReadBack.{IsReadBack}
use cri_archive_lib.Utf.Lookup.{first_column, u64_by_name-cell, AllPairs-length}
use cri_archive_lib.Utf.RoundTrip.{open_table-build}
use cri_archive_lib.Reader.Values.{try_u32}
use cri_archive_lib.Reader.Metadata.{CpkMetadata, try_u16, parse_metadata}
use cri_archive_lib.Archive.Ascii.{
  columns-IsPlain, strings-IsPlainValue, IsAscii, TakesAscii, IsAscii-IsPlain,
}
use cri_archive_lib.Archive.Cells.{try_u32-fits}

abbrev pub flag : Bool → ℕ
flag b = if b then 1 else 0

-- What the header says of an archive.
abbrev pub metadata_of : HeaderFields → CpkWriterProfile → CpkMetadata
metadata_of h profile = record {
  file_size = h.archive_size;
  content_offset = h.content_offset;
  content_size = h.content_size;
  toc_offset = h.toc_offset;
  toc_size = h.toc_size;
  itoc_offset = h.itoc_offset;
  itoc_size = h.itoc_size;
  etoc_offset = 0;
  etoc_size = 0;
  gtoc_offset = 0;
  gtoc_size = 0;
  version = profile.version;
  revision = profile.revision;
  align = h.alignment;
  sorted = false;
  eid = flag (has_itoc profile.index_mode && profile.direct_itoc);
  files = h.file_count;
  cpk_mode = Writer.cpk_mode profile.index_mode;
  enable_file_name = has_toc profile.index_mode;
  update_date_time = profile.update_date_time;
  codec = 0;
  dpk_itoc = 0;
  enable_toc_crc = false;
  enable_file_crc = false;
}

try_u16-fits : (v : ℕ) → v < 2 ^ 16 → try_u16 v ≡ some v
try_u16-fits v h = let t : leb v 0xffff ≡ true = ground arith in rw t refl

flag_fits : (b : Bool) → try_u16 (flag b) ≡ some (flag b)
flag_fits true = refl
flag_fits false = refl

flag_set : (b : Bool) → not (flag b == 0) ≡ b
flag_set true = refl
flag_set false = refl

mode_fits : (m : CpkIndexMode) → try_u32 (Writer.cpk_mode m) ≡ some (Writer.cpk_mode m)
mode_fits CpkIndexMode.toc = refl
mode_fits CpkIndexMode.itoc = refl
mode_fits CpkIndexMode.toc_and_itoc = refl

abbrev pub header_builder : HeaderFields → CpkWriterProfile → UtfTableBuilder
header_builder h profile = record {
  name = name_cpk_header;
  columns = header_columns;
  rows = header_row h profile ∷ [];
}

-- The numbers of a header that have fewer than 64 bits.
pub record HasWidths (h : HeaderFields) (profile : CpkWriterProfile) : Type 0 where
  pub version : profile.version < 2 ^ 16
  pub revision : profile.revision < 2 ^ 16
  pub alignment : h.alignment < 2 ^ 16
  pub file_count : h.file_count < 2 ^ 32

metadata_read :
    (h : HeaderFields) (profile : CpkWriterProfile) (bytes : List ℕ) (table : HighTable)
    → IsReadBack (header_builder h profile) bytes table
    → HasWidths h profile
    → parse_metadata table ≡ metadata_of h profile
unfolding parse_metadata header_row same_str
metadata_read h profile bytes table read w =
    let t = header_builder h profile in
    let row = header_row h profile in
    let at =
      λ (i : ℕ) (name : Str) (v : UtfValue) (e : get_elem? row i ≡ some v)
          (c : first_column name header_columns 0 ≡ some i).
        u64_by_name-cell t bytes table 0 i row name v read refl e c in
    rw
      (
        at 1 name_file_size (UtfValue.uint64 h.archive_size) refl refl,
        at 2 name_content_offset (UtfValue.uint64 h.content_offset) refl refl,
        at 3 name_content_size (UtfValue.uint64 h.content_size) refl refl,
        at 4 name_toc_offset (UtfValue.uint64 h.toc_offset) refl refl,
        at 5 name_toc_size (UtfValue.uint64 h.toc_size) refl refl,
        at 8 name_itoc_offset (UtfValue.uint64 h.itoc_offset) refl refl,
        at 9 name_itoc_size (UtfValue.uint64 h.itoc_size) refl refl,
        at 6 name_etoc_offset (UtfValue.uint64 0) refl refl,
        at 7 name_etoc_size (UtfValue.uint64 0) refl refl,
        at 10 name_gtoc_offset (UtfValue.uint64 0) refl refl,
        at 11 name_gtoc_size (UtfValue.uint64 0) refl refl,
        at 13 name_version (UtfValue.uint16 profile.version) refl refl,
        at 14 name_revision (UtfValue.uint16 profile.revision) refl refl,
        at 15 name_align (UtfValue.uint16 h.alignment) refl refl,
        at 16 name_sorted (UtfValue.uint16 0) refl refl,
        at 17 name_eid (UtfValue.uint16 (flag (has_itoc profile.index_mode && profile.direct_itoc)))
            refl refl,
        at 12 name_files (UtfValue.uint32 h.file_count) refl refl,
        at 19 name_cpk_mode (UtfValue.uint32 (Writer.cpk_mode profile.index_mode)) refl refl,
        at 18 name_enable_file_name (UtfValue.uint16 (flag (has_toc profile.index_mode))) refl refl,
        at 0 name_update_date_time (UtfValue.uint64 profile.update_date_time) refl refl,
        at 22 name_codec (UtfValue.uint32 0) refl refl,
        at 23 name_dpk_itoc (UtfValue.uint32 0) refl refl,
        at 24 name_enable_toc_crc (UtfValue.uint16 0) refl refl,
        at 25 name_enable_file_crc (UtfValue.uint16 0) refl refl,
        try_u16-fits profile.version w.version,
        try_u16-fits profile.revision w.revision,
        try_u16-fits h.alignment w.alignment,
        try_u32-fits h.file_count w.file_count,
        flag_fits (has_itoc profile.index_mode && profile.direct_itoc),
        mode_fits profile.index_mode,
        flag_set (has_toc profile.index_mode),
      )
      refl

-- A header whose texts are plain and whose numbers fit their types.
pub record IsProper (is_utf8 : Str → Bool) (decode_sjis : Str → Str) (h : HeaderFields)
    (profile : CpkWriterProfile) : Type 0 where
  pub tvers : IsPlain is_utf8 decode_sjis profile.tvers
  pub comment : IsPlain is_utf8 decode_sjis profile.comment
  pub numbers : All IsSized (header_row h profile)
  pub widths : HasWidths h profile

-- When the header table of an archive is built without an error in less than 4 GiB, from a profile
-- whose texts are plain and numbers that fit their types, with a UTF-8 test that takes ASCII, the
-- reader opens its bytes, the table has one row, and `parse_metadata` gives the offsets, sizes,
-- counts and flags that the writer put there.
pub parse_metadata-build :
    (is_utf8 : Str → Bool) (decode_sjis : Str → Str) (h : HeaderFields) (profile : CpkWriterProfile)
    (bytes : List ℕ)
    → TakesAscii is_utf8
    → IsProper is_utf8 decode_sjis h profile
    → build_header_table h profile ≡ ok bytes
    → length bytes < 2 ^ 32
    → (table : HighTable) × (open_table is_utf8 decode_sjis bytes ≡ ok table)
      × (length table.rows ≡ 1)
      × (parse_metadata table ≡ metadata_of h profile)
unfolding build_header_table header_row
parse_metadata-build is_utf8 decode_sjis h profile bytes ascii w e lt =
    let plain = λ (s : Str) (a : IsAscii s). IsAscii-IsPlain is_utf8 decode_sjis s ascii a in
    let t = header_builder h profile in
    let opened =
      open_table-build is_utf8 decode_sjis t bytes (ascii [] tt)
        (record {
          name = plain name_cpk_header (omega arith);
          columns = columns-IsPlain is_utf8 decode_sjis header_columns ascii refl;
          strings = (
            strings-IsPlainValue is_utf8 decode_sjis (header_row h profile)
                (w.tvers, (w.comment, tt)),
            tt,
          );
          numbers = (w.numbers, tt);
        })
        e lt in
    let table = opened.0 in
    (
      table,
      opened.1,
      sym (AllPairs-length (AllPairs (Reads table)) t.rows table.rows opened.2.rows),
      metadata_read h profile bytes table opened.2 w.widths,
    )
