-- ===== src/Writer/Tables.antt =====
-- The tables that describe an archive: `build_header_table`, `build_toc_table` and `build_itoc_table`.
use cri_archive_lib.Base.{
  ℕ, Bool, true, false, if◌then◌else◌, ◌&&◌, List, [], ◌∷◌, Str, Result, ◌>>=◌,
}
use cri_archive_lib.Schema.Names.{
  name_update_date_time, name_file_size, name_content_offset, name_content_size, name_toc_offset,
  name_toc_size, name_etoc_offset, name_etoc_size, name_itoc_offset, name_itoc_size,
  name_gtoc_offset, name_gtoc_size, name_files, name_version, name_revision, name_align,
  name_sorted, name_eid, name_enable_file_name, name_cpk_mode, name_tvers, name_comment, name_codec,
  name_dpk_itoc, name_enable_toc_crc, name_enable_file_crc, name_dir_name, name_file_name,
  name_extract_size, name_file_offset, name_id, name_user_string, name_data_l, name_data_h,
  name_cpk_header, name_cpk_toc_info, name_cpk_itoc_info, name_cpk_extend_id, name_cpk_itoc_l,
  name_cpk_itoc_h,
}
use cri_archive_lib.Writer.{
  CpkWriterError, CpkInputFile, CpkWriterProfile, has_toc, has_itoc, cpk_mode,
}
use cri_archive_lib.Writer.Itoc.{UtfValue, low_group, high_group, itoc_rows}
use cri_archive_lib.Writer.Utf.{UtfColumn, UtfType, uint16, uint32, uint64, string, data_bytes}
use cri_archive_lib.Writer.Utf.Build.{build}

-- `UtfColumn::new`
abbrev pub column : Str → UtfType → UtfColumn
column name value_type = record { name = name; value_type = value_type }

-- The arguments of `build_header_table` that are not the profile.
pub record HeaderFields : Type 0 where
  pub archive_size : ℕ
  pub content_offset : ℕ
  pub content_size : ℕ
  pub toc_offset : ℕ
  pub toc_size : ℕ
  pub itoc_offset : ℕ
  pub itoc_size : ℕ
  pub alignment : ℕ
  pub file_count : ℕ

abbrev pub header_columns : List UtfColumn
header_columns =
    column name_update_date_time uint64
    ∷ column name_file_size uint64
    ∷ column name_content_offset uint64
    ∷ column name_content_size uint64
    ∷ column name_toc_offset uint64
    ∷ column name_toc_size uint64
    ∷ column name_etoc_offset uint64
    ∷ column name_etoc_size uint64
    ∷ column name_itoc_offset uint64
    ∷ column name_itoc_size uint64
    ∷ column name_gtoc_offset uint64
    ∷ column name_gtoc_size uint64
    ∷ column name_files uint32
    ∷ column name_version uint16
    ∷ column name_revision uint16
    ∷ column name_align uint16
    ∷ column name_sorted uint16
    ∷ column name_eid uint16
    ∷ column name_enable_file_name uint16
    ∷ column name_cpk_mode uint32
    ∷ column name_tvers string
    ∷ column name_comment string
    ∷ column name_codec uint32
    ∷ column name_dpk_itoc uint32
    ∷ column name_enable_toc_crc uint16
    ∷ column name_enable_file_crc uint16
    ∷ []

unfoldable pub header_row : HeaderFields → CpkWriterProfile → List UtfValue
header_row h profile =
    UtfValue.uint64 profile.update_date_time
    ∷ UtfValue.uint64 h.archive_size
    ∷ UtfValue.uint64 h.content_offset
    ∷ UtfValue.uint64 h.content_size
    ∷ UtfValue.uint64 h.toc_offset
    ∷ UtfValue.uint64 h.toc_size
    ∷ UtfValue.uint64 0
    ∷ UtfValue.uint64 0
    ∷ UtfValue.uint64 h.itoc_offset
    ∷ UtfValue.uint64 h.itoc_size
    ∷ UtfValue.uint64 0
    ∷ UtfValue.uint64 0
    ∷ UtfValue.uint32 h.file_count
    ∷ UtfValue.uint16 profile.version
    ∷ UtfValue.uint16 profile.revision
    ∷ UtfValue.uint16 h.alignment
    ∷ UtfValue.uint16 0
    ∷ UtfValue.uint16 (if has_itoc profile.index_mode && profile.direct_itoc then 1 else 0)
    ∷ UtfValue.uint16 (if has_toc profile.index_mode then 1 else 0)
    ∷ UtfValue.uint32 (cpk_mode profile.index_mode)
    ∷ UtfValue.string profile.tvers
    ∷ UtfValue.string profile.comment
    ∷ UtfValue.uint32 0
    ∷ UtfValue.uint32 0
    ∷ UtfValue.uint16 0
    ∷ UtfValue.uint16 0
    ∷ []

unfoldable pub build_header_table : HeaderFields → CpkWriterProfile → Result CpkWriterError (List ℕ)
build_header_table h profile =
    build (record {
      name = name_cpk_header;
      columns = header_columns;
      rows = header_row h profile ∷ [];
    })

abbrev pub toc_columns : List UtfColumn
toc_columns =
    column name_dir_name string
    ∷ column name_file_name string
    ∷ column name_file_size uint32
    ∷ column name_extract_size uint32
    ∷ column name_file_offset uint64
    ∷ column name_id uint32
    ∷ column name_user_string string
    ∷ []

abbrev pub toc_row : CpkInputFile → ℕ → List UtfValue
toc_row file offset =
    UtfValue.string file.directory
    ∷ UtfValue.string file.file_name
    ∷ UtfValue.uint32 file.size
    ∷ UtfValue.uint32 file.extract_size
    ∷ UtfValue.uint64 offset
    ∷ UtfValue.uint32 file.id
    ∷ UtfValue.string file.user_string
    ∷ []

-- `files.iter().zip(offsets)`
unfoldable pub toc_rows : List CpkInputFile → List ℕ → List (List UtfValue)
toc_rows [] offsets = []
toc_rows (file ∷ files) [] = []
toc_rows (file ∷ files) (offset ∷ offsets) = toc_row file offset ∷ toc_rows files offsets

unfoldable pub build_toc_table : List CpkInputFile → List ℕ → Result CpkWriterError (List ℕ)
build_toc_table files offsets =
    build
      (record { name = name_cpk_toc_info; columns = toc_columns; rows = toc_rows files offsets })

abbrev pub itoc_columns : Bool → List UtfColumn
itoc_columns low_width =
    let size_type = if low_width then uint16 else uint32 in
    column name_id uint16
    ∷ column name_file_size size_type
    ∷ column name_extract_size size_type
    ∷ []

unfoldable pub build_itoc_rows :
    List CpkInputFile → List ℕ → Bool → Str → Result CpkWriterError (List ℕ)
build_itoc_rows files indices low_width table_name = itoc_rows files indices low_width >>= λ rows.
    build (record { name = table_name; columns = itoc_columns low_width; rows = rows })

-- The nested tables, in one row of the outer one.
unfoldable pub build_nested : List ℕ → List ℕ → Result CpkWriterError (List ℕ)
build_nested low high = build (record {
  name = name_cpk_itoc_info;
  columns = column name_data_l data_bytes ∷ column name_data_h data_bytes ∷ [];
  rows = (UtfValue.data_bytes low ∷ UtfValue.data_bytes high ∷ []) ∷ [];
})

unfoldable pub build_itoc_table : List CpkInputFile → List ℕ → Bool → Result CpkWriterError (List ℕ)
build_itoc_table files physical_order direct =
    if direct
    then build_itoc_rows files physical_order false name_cpk_extend_id
    else (build_itoc_rows files (low_group files physical_order) true name_cpk_itoc_l >>= λ low.
        build_itoc_rows files (high_group files physical_order) false name_cpk_itoc_h >>= λ high.
        build_nested low high)
