-- ===== src/Archive/Toc.antt =====
-- A TOC that was written is read back as the files with their offsets.
use cri_archive_lib.Base.{ℕ, suc, ◌+◌, ◌^◌, ◌<◌, ◌≡◌, ◌≢◌, refl, sym, subst, arith, true, Bool}
use cri_archive_lib.Base.{
  List, [], ◌∷◌, if◌then◌else◌, ◌==◌, length, get_elem?, Str, All, AllPairs, none, some, ok,
  checked_add-fits,
}
use cri_archive_lib.Strings.{same_str}
use cri_archive_lib.Schema.Names.{
  name_file_name, name_file_size, name_file_offset, name_dir_name, name_extract_size, name_id,
  name_user_string, name_file_crc, name_cpk_toc_info,
}
use cri_archive_lib.Schema.Table.{HighTable, open_table}
use cri_archive_lib.Writer.{CpkInputFile}
use cri_archive_lib.Writer.Itoc.{UtfValue}
use cri_archive_lib.Writer.Utf.{UtfTableBuilder}
use cri_archive_lib.Writer.Tables.{toc_columns, toc_row, toc_rows, build_toc_table}
use cri_archive_lib.Utf.{Reads}
use cri_archive_lib.Utf.Built.{IsWritable}
use cri_archive_lib.Utf.ReadBack.{IsReadBack}
use cri_archive_lib.Utf.Lookup.{column_index-first_column, AllPairs-length}
use cri_archive_lib.Utf.RoundTrip.{open_table-build}
use cri_archive_lib.Reader.{CpkFile, new}
use cri_archive_lib.Reader.Toc.{
  TocColumns, engine_toc_file_base, toc_columns_of, read_toc_row, read_toc_rows, read_toc_table,
}
use cri_archive_lib.Archive.Cells.{
  text_or_empty, text_present, try_u32-fits, numeric_at-cell, string_at-cell, u32_in-cell,
}

-- The file that is read for one that was written with its offset: an extracted size of 0 stands
-- for the packed size.
abbrev pub file_of : CpkInputFile → ℕ → CpkFile
file_of f offset = record {
  directory = f.directory;
  file_name = f.file_name;
  file_offset = offset;
  absolute_offset = engine_toc_file_base + offset;
  file_size = f.size;
  extract_size = if f.extract_size == 0 then f.size else f.extract_size;
  id = some f.id;
  user_string = f.user_string;
  file_crc = none;
}

abbrev pub files_of : List CpkInputFile → List ℕ → List CpkFile
files_of [] offsets = []
files_of (f ∷ files) [] = []
files_of (f ∷ files) (o ∷ offsets) = file_of f o ∷ files_of files offsets

-- A file that has a name, with numbers of 32 bits.
pub record IsListed (f : CpkInputFile) : Type 0 where
  pub named : f.file_name ≢ []
  pub size : f.size < 2 ^ 32
  pub extract_size : f.extract_size < 2 ^ 32
  pub id : f.id < 2 ^ 32

abbrev written_toc_columns : TocColumns
written_toc_columns = record {
  file_name_col = 1;
  file_size_col = 2;
  file_offset_col = 4;
  dir_name_col = some 0;
  extract_size_col = some 3;
  id_col = some 5;
  user_string_col = some 6;
  file_crc_col = none;
}

abbrev pub toc_builder : Str → List CpkInputFile → List ℕ → UtfTableBuilder
toc_builder name files offsets = record {
  name = name;
  columns = toc_columns;
  rows = toc_rows files offsets;
}

module _ (name : Str) (all : List CpkInputFile) (at : List ℕ) (bytes : List ℕ) (table : HighTable)
    (h : IsReadBack (toc_builder name all at) bytes table) where
  columns-written : toc_columns_of table ≡ ok written_toc_columns
  unfolding toc_columns_of same_str
  columns-written =
      let t = toc_builder name all at in
      rw
        (
          column_index-first_column t bytes table name_file_name h,
          column_index-first_column t bytes table name_file_size h,
          column_index-first_column t bytes table name_file_offset h,
          column_index-first_column t bytes table name_dir_name h,
          column_index-first_column t bytes table name_extract_size h,
          column_index-first_column t bytes table name_id h,
          column_index-first_column t bytes table name_user_string h,
          column_index-first_column t bytes table name_file_crc h,
        )
        refl

  row-file_of :
      (r : ℕ) (f : CpkInputFile) (o : ℕ)
      → IsListed f
      → engine_toc_file_base + o < 2 ^ 64
      → get_elem? (toc_rows all at) r ≡ some (toc_row f o)
      → read_toc_row table written_toc_columns r ≡ ok (file_of f o)
  unfolding read_toc_row new
  row-file_of r f o l fits e =
      let t = toc_builder name all at in
      let row = toc_row f o in
      rw
        (
          string_at-cell t bytes table h r row e 1 f.file_name refl,
          string_at-cell t bytes table h r row e 0 f.directory refl,
          string_at-cell t bytes table h r row e 6 f.user_string refl,
          numeric_at-cell t bytes table h r row e 2 (UtfValue.uint32 f.size) refl,
          numeric_at-cell t bytes table h r row e 3 (UtfValue.uint32 f.extract_size) refl,
          numeric_at-cell t bytes table h r row e 4 (UtfValue.uint64 o) refl,
          u32_in-cell t bytes table h r row e 5 f.id l.id refl,
          text_present f.file_name l.named,
          text_or_empty f.directory,
          text_or_empty f.user_string,
          try_u32-fits f.size l.size,
          try_u32-fits f.extract_size l.extract_size,
          checked_add-fits engine_toc_file_base o fits,
        )
        refl

  rows-files_of :
      (files : List CpkInputFile) (offsets : List ℕ) (r : ℕ)
      → All IsListed files
      → All (λ (o : ℕ). engine_toc_file_base + o < 2 ^ 64) offsets
      → ((i : ℕ) (row : List UtfValue)
          → get_elem? (toc_rows files offsets) i ≡ some row
          → get_elem? (toc_rows all at) (r + i) ≡ some row)
      → read_toc_rows table written_toc_columns (length (toc_rows files offsets)) r
        ≡ ok (files_of files offsets)
  unfolding read_toc_rows toc_rows
  rows-files_of [] offsets r l fits e = refl
  rows-files_of (f ∷ files) [] r l fits e = refl
  rows-files_of (f ∷ files) (o ∷ offsets) r l fits e =
      let here : r + 0 ≡ r = omega arith in
      let first = row-file_of r f o l.0 fits.0 (
        subst (λ (n : ℕ). get_elem? (toc_rows all at) n ≡ some (toc_row f o)) here
          (e 0 (toc_row f o) refl)) in
      let rest = rows-files_of files offsets (suc r) l.1 fits.1 (λ i row g.
        let next : r + suc i ≡ suc r + i = omega arith in
        subst (λ (n : ℕ). get_elem? (toc_rows all at) n ≡ some row) next (e (suc i) row g)) in
      rw (first, rest) refl

-- When a TOC is built without an error in less than 4 GiB, with names and strings that are plain,
-- file names that are not empty and numbers of 32 bits, and the offsets fit 64 bits above the base
-- of the engine, the reader opens its bytes and lists the files in the order in which they came:
-- each with its directory, its name, its packed size, its identifier, its user string, its offset,
-- both relative and absolute, and its extracted size, or the packed size where that is 0.
pub read_toc-build :
    (is_utf8 : Str → Bool) (decode_sjis : Str → Str) (files : List CpkInputFile) (offsets : List ℕ)
    (bytes : List ℕ)
    → is_utf8 [] ≡ true
    → IsWritable is_utf8 decode_sjis (toc_builder name_cpk_toc_info files offsets)
    → All IsListed files
    → All (λ (o : ℕ). engine_toc_file_base + o < 2 ^ 64) offsets
    → build_toc_table files offsets ≡ ok bytes
    → length bytes < 2 ^ 32
    → (table : HighTable) × (open_table is_utf8 decode_sjis bytes ≡ ok table)
      × (read_toc_table table ≡ ok (files_of files offsets))
unfolding build_toc_table read_toc_table
read_toc-build is_utf8 decode_sjis files offsets bytes u w l fits e lt =
    let t = toc_builder name_cpk_toc_info files offsets in
    let opened = open_table-build is_utf8 decode_sjis t bytes u w e lt in
    let table = opened.0 in
    let h = opened.2 in
    let count = AllPairs-length (AllPairs (Reads table)) t.rows table.rows h.rows in
    let rows =
      rows-files_of name_cpk_toc_info files offsets bytes table h files offsets 0 l fits (λ i row g.
        let z : i ≡ 0 + i = omega arith in
        subst (λ (n : ℕ). get_elem? (toc_rows files offsets) n ≡ some row) z g) in
    (
      table,
      opened.1,
      rw (columns-written name_cpk_toc_info files offsets bytes table h, sym count, rows) refl,
    )
