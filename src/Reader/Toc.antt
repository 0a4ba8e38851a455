-- ===== src/Reader/Toc.antt =====
-- The rows of a TOC: `read_toc`, from the opened table on.
use cri_archive_lib.Base.{
  ℕ, zero, suc, Option, List, [], ◌∷◌, length, Result, ok, ok_or, ◌>>=◌, checked_add,
}
use cri_archive_lib.Schema.Names.{
  name_file_name, name_file_size, name_file_offset, name_dir_name, name_extract_size, name_id,
  name_user_string, name_file_crc,
}
use cri_archive_lib.Schema.Table.{HighTable, column_index}
use cri_archive_lib.Reader.{
  CpkReaderError, missing_file_name, missing_file_size, missing_file_offset, invalid_toc_column,
  file_too_large, CpkFile, new,
}
use cri_archive_lib.Reader.Values.{
  numeric_at, string_at, try_u32, unwrap_or, numeric_in, string_in, u32_in,
}

abbrev pub engine_toc_file_base : ℕ
engine_toc_file_base = 0x800

pub record TocColumns : Type 0 where
  pub file_name_col : ℕ
  pub file_size_col : ℕ
  pub file_offset_col : ℕ
  pub dir_name_col : Option ℕ
  pub extract_size_col : Option ℕ
  pub id_col : Option ℕ
  pub user_string_col : Option ℕ
  pub file_crc_col : Option ℕ

unfoldable pub toc_columns_of : HighTable → Result CpkReaderError TocColumns
toc_columns_of toc =
    ok_or (column_index toc name_file_name) (invalid_toc_column name_file_name) >>= λ file_name_col.
    ok_or (column_index toc name_file_size) (invalid_toc_column name_file_size) >>= λ file_size_col.
    ok_or (column_index toc name_file_offset) (invalid_toc_column name_file_offset)
    >>= λ file_offset_col. ok (record {
      file_name_col = file_name_col;
      file_size_col = file_size_col;
      file_offset_col = file_offset_col;
      dir_name_col = column_index toc name_dir_name;
      extract_size_col = column_index toc name_extract_size;
      id_col = column_index toc name_id;
      user_string_col = column_index toc name_user_string;
      file_crc_col = column_index toc name_file_crc;
    })

unfoldable pub read_toc_row : HighTable → TocColumns → ℕ → Result CpkReaderError CpkFile
read_toc_row toc c row =
    ok_or (string_at toc row c.file_name_col) missing_file_name >>= λ file_name.
    let directory = unwrap_or (string_in toc row c.dir_name_col) [] in
    let user_string = unwrap_or (string_in toc row c.user_string_col) [] in
    ok_or (numeric_at toc row c.file_size_col) missing_file_size >>= λ file_size_u64.
    ok_or (try_u32 file_size_u64) (file_too_large file_size_u64) >>= λ file_size.
    let extract_size_u64 = unwrap_or (numeric_in toc row c.extract_size_col) file_size_u64 in
    ok_or (try_u32 extract_size_u64) (file_too_large extract_size_u64) >>= λ extract_size.
    ok_or (numeric_at toc row c.file_offset_col) missing_file_offset >>= λ file_offset.
    ok_or (checked_add engine_toc_file_base file_offset) missing_file_offset >>= λ absolute_offset.
    ok (
      new directory file_name file_offset absolute_offset file_size extract_size
        (u32_in toc row c.id_col) user_string (u32_in toc row c.file_crc_col))

unfoldable pub read_toc_rows : HighTable → TocColumns → ℕ → ℕ → Result CpkReaderError (List CpkFile)
read_toc_rows toc c zero row = ok []
read_toc_rows toc c (suc n) row = read_toc_row toc c row >>= λ file.
    read_toc_rows toc c n (suc row) >>= λ files. ok (file ∷ files)

unfoldable pub read_toc_table : HighTable → Result CpkReaderError (List CpkFile)
read_toc_table toc = toc_columns_of toc >>= λ c. read_toc_rows toc c (length toc.rows) 0
