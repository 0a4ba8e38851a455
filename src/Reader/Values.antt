-- ===== src/Reader/Values.antt =====
-- The values of a table as the reader takes them, and `collect_itoc_rows`.
use cri_archive_lib.Base.{
  ℕ, zero, suc, leb, ◌==◌, if◌then◌else◌, Option, none, some, List, [], ◌∷◌, length, Str,
}
use cri_archive_lib.Base.{Result, ok, ok_or, ◌>>=◌}
use cri_archive_lib.Reader.{CpkReaderError, invalid_itoc, missing_file_size, file_too_large}
use cri_archive_lib.Reader.Itoc.{ItocRow}
use cri_archive_lib.Schema.Values.{RowValue, row_value_to_u64}
use cri_archive_lib.Schema.Names.{name_id, name_file_size, name_extract_size, name_file_crc}
use cri_archive_lib.Schema.Table.{HighTable, column_index, value}
use cri_archive_lib.Strings.{get_string}

unfoldable pub numeric_at : HighTable → ℕ → ℕ → Option ℕ
numeric_at table row column = elim (value table row column) [
  | none ↦ none
  | some v ↦ row_value_to_u64 v
]

-- Offset 0 is the null string.
abbrev pub string_of : HighTable → RowValue → Option Str
string_of table (RowValue.string offset) =
    if offset == 0 then none else get_string offset table.strings
string_of table v = none

unfoldable pub string_at : HighTable → ℕ → ℕ → Option Str
string_at table row column = elim (value table row column) [
  | none ↦ none
  | some v ↦ string_of table v
]

-- `u32::try_from`
abbrev pub try_u32 : ℕ → Option ℕ
try_u32 v = if leb v 0xffffffff then some v else none

abbrev pub unwrap_or {ℓ} : {A : Type ℓ} → Option A → A → A
unwrap_or none d = d
unwrap_or (some v) d = v

-- `col.and_then(|index| numeric_at(table, row, index))`
abbrev pub numeric_in : HighTable → ℕ → Option ℕ → Option ℕ
numeric_in table row none = none
numeric_in table row (some column) = numeric_at table row column

abbrev pub string_in : HighTable → ℕ → Option ℕ → Option Str
string_in table row none = none
string_in table row (some column) = string_at table row column

-- `and_then(|value| u32::try_from(value).ok())`
abbrev pub u32_of : Option ℕ → Option ℕ
u32_of none = none
u32_of (some v) = try_u32 v

abbrev pub u32_in : HighTable → ℕ → Option ℕ → Option ℕ
u32_in table row column = u32_of (numeric_in table row column)

-- The columns of ID, FileSize, ExtractSize and FileCrc.
pub record ItocColumns : Type 0 where
  pub id_col : ℕ
  pub file_size_col : ℕ
  pub extract_size_col : ℕ
  pub crc_col : Option ℕ

unfoldable pub itoc_columns_of : HighTable → ItocColumns
itoc_columns_of table = record {
  id_col = unwrap_or (column_index table name_id) 0;
  file_size_col = unwrap_or (column_index table name_file_size) 1;
  extract_size_col = unwrap_or (column_index table name_extract_size) 2;
  crc_col = column_index table name_file_crc;
}

unfoldable pub collect_row : HighTable → ItocColumns → ℕ → Result CpkReaderError ItocRow
collect_row table columns row =
    ok_or (numeric_at table row columns.id_col) invalid_itoc >>= λ id_u64.
    ok_or (try_u32 id_u64) invalid_itoc >>= λ id.
    ok_or (numeric_at table row columns.file_size_col) missing_file_size >>= λ file_size_u64.
    ok_or (try_u32 file_size_u64) (file_too_large file_size_u64) >>= λ file_size.
    let extract_size_u64 =
      unwrap_or (numeric_at table row columns.extract_size_col) file_size_u64 in
    ok_or (try_u32 extract_size_u64) (file_too_large extract_size_u64) >>= λ extract_size.
    ok (record {
      id = id;
      file_size = file_size;
      extract_size = extract_size;
      file_crc = u32_in table row columns.crc_col;
    })

-- The loop, from `row` on, with `n` rows left.
unfoldable pub collect_rows : HighTable → ItocColumns → ℕ → ℕ → Result CpkReaderError (List ItocRow)
collect_rows table columns zero row = ok []
collect_rows table columns (suc n) row = collect_row table columns row >>= λ r.
    collect_rows table columns n (suc row) >>= λ rs. ok (r ∷ rs)

unfoldable pub collect_itoc_rows : HighTable → Result CpkReaderError (List ItocRow)
collect_itoc_rows table = collect_rows table (itoc_columns_of table) (length table.rows) 0
