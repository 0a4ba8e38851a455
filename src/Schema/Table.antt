-- ===== src/Schema/Table.antt =====
-- `HighTable`: a table with its columns, its strings and its rows, and the look-ups in it.
use cri_archive_lib.Base.{ℕ, suc, ◌-◌, ◌==◌, ltb, leb, ◌||◌, if◌then◌else◌, Bool, false, not}
use cri_archive_lib.Base.{Option, none, some, List, [], ◌∷◌, length, take, drop, get_elem?, Str}
use cri_archive_lib.Base.{Result, ok, ok_or, ensure, map_err, ◌>>=◌, ◌>>◌, checked_add, checked_mul}
use cri_archive_lib.Encrypt.Table.{starts_with, utf_magic}
use cri_archive_lib.Strings.{Entry, get_string, same_str, parse_strings}
use cri_archive_lib.Schema.{
  SchemaError, invalid_table, size_overflow, truncated, invalid_sections, rows_overflow,
  rows_overlap_strings, columns_overlap_rows, schema_overflow, schema_exceeds_row_size, bad_strings,
}
use cri_archive_lib.Schema.Values.{RowValue, DataValue, row_value_to_u64}
use cri_archive_lib.Schema.Header.{
  TableHeader, header_size, size, encoding, rows_offset, string_pool_offset, data_pool_offset,
  column_count, row_size, row_count,
}
use cri_archive_lib.Schema.Header
use cri_archive_lib.Schema.Columns.{
  Column, new_list, contains, row_storage_flag, get_type, get_size,
}
use cri_archive_lib.Schema.Rows.{read_rows}

pub record HighTable : Type 0 where
  pub alloc : List ℕ
  pub header : TableHeader
  pub columns : List Column
  pub strings : List Entry
  pub rows : List (List RowValue)

-- The guards on the sections of the table.
unfoldable pub check_sections : TableHeader → ℕ → ℕ → Result SchemaError (Unit {0})
check_sections header declared_size alloc_len =
    ensure (leb declared_size alloc_len) truncated
    >> (ensure
          (not (
            ltb (rows_offset header) header_size
            || ltb (string_pool_offset header) (rows_offset header)
            || ltb (data_pool_offset header) (string_pool_offset header)
            || ltb declared_size (data_pool_offset header)))
          invalid_sections
        >> (ok_or (checked_mul (row_size header) (row_count header)) rows_overflow >>= λ rows_bytes.
            ok_or (checked_add (rows_offset header) rows_bytes) rows_overflow >>= λ rows_end.
            ensure (leb rows_end (string_pool_offset header)) rows_overlap_strings))

-- The bytes of a row that the columns take: the filter and the `try_fold`.
unfoldable pub row_width : List Column → ℕ → Result SchemaError ℕ
row_width [] total = ok total
row_width (c ∷ cs) total =
    if contains c.flag row_storage_flag
    then (ok_or (checked_add total (get_size (get_type c.flag))) schema_overflow >>= λ sum.
        row_width cs sum)
    else row_width cs total

module _ (is_utf8 : Str → Bool) (decode_sjis : Str → Str) where
  -- Columns, rows and strings of a table whose sections are right.
  unfoldable pub open_sections : TableHeader → List ℕ → Result SchemaError HighTable
  open_sections header alloc = new_list (column_count header) (drop header_size alloc) >>= λ cs.
      ensure (leb (length alloc - length cs.1) (rows_offset header)) columns_overlap_rows
      >> (row_width cs.0 0 >>= λ width.
          ensure (leb width (row_size header)) schema_exceeds_row_size
          >> (read_rows alloc (rows_offset header) (row_size header) cs.0 (row_count header) 0
              >>= λ rows.
                  map_err bad_strings (
                    parse_strings is_utf8 decode_sjis (encoding header) (
                      take (data_pool_offset header - string_pool_offset header)
                        (drop (string_pool_offset header) alloc)))
                  >>= λ strings. ok (record {
                    alloc = alloc;
                    header = header;
                    columns = cs.0;
                    strings = strings;
                    rows = rows;
                  })))

  unfoldable pub open_table : List ℕ → Result SchemaError HighTable
  open_table alloc =
      ensure (not (ltb (length alloc) header_size || not (starts_with alloc utf_magic)))
        invalid_table
      >> (let header = Header.new alloc in
          ok_or (checked_add (size header) 8) size_overflow >>= λ declared_size.
          check_sections header declared_size (length alloc)
          >> open_sections header
              (if ltb declared_size (length alloc) then take declared_size alloc else alloc))

abbrev pub is_named : Str → Option Str → Bool
is_named name none = false
is_named name (some s) = same_str s name

-- `position`, counted from `index` on.
unfoldable pub find_column : List Entry → Str → List Column → ℕ → Option ℕ
find_column strings name [] index = none
find_column strings name (c ∷ cs) index =
    let rest = find_column strings name cs (suc index) in
    if is_named name (get_string c.string_offset strings) then some index else rest

unfoldable pub column_index : HighTable → Str → Option ℕ
column_index t name = find_column t.strings name t.columns 0

-- The value of a field, or the default of its column where nothing is stored.
abbrev pub value_or_default : List Column → ℕ → RowValue → Option RowValue
value_or_default columns index RowValue.empty = elim (get_elem? columns index) [
  | none ↦ none
  | some c ↦ c.default
]
value_or_default columns index v = some v

unfoldable pub value : HighTable → ℕ → ℕ → Option RowValue
value t row_index index = elim (get_elem? t.rows row_index) [
  | none ↦ none
  | some row ↦ elim (get_elem? row index) [
    | none ↦ none
    | some v ↦ value_or_default t.columns index v
  ]
]

unfoldable pub value_by_name : HighTable → ℕ → Str → Option RowValue
value_by_name t row_index name = elim (column_index t name) [
  | none ↦ none
  | some index ↦ value t row_index index
]

unfoldable pub u64_by_name : HighTable → ℕ → Str → Option ℕ
u64_by_name t row_index name = elim (value_by_name t row_index name) [
  | none ↦ none
  | some v ↦ row_value_to_u64 v
]

-- `alloc.get(start..end)`
unfoldable pub data_slice : HighTable → DataValue → Option (List ℕ)
data_slice t v = elim (checked_add (data_pool_offset t.header) v.offset) [
  | none ↦ none
  | some start ↦ elim (checked_add start v.length) [
    | none ↦ none
    | some stop ↦
        if leb stop (length t.alloc) then some (take (stop - start) (drop start t.alloc)) else none
  ]
]

abbrev pub data_of : HighTable → RowValue → Option (List ℕ)
data_of t (RowValue.data_value v) = if v.length == 0 then none else data_slice t v
data_of t v = none

unfoldable pub data_by_name : HighTable → ℕ → Str → Option (List ℕ)
data_by_name t row_index name = elim (value_by_name t row_index name) [
  | none ↦ none
  | some v ↦ data_of t v
]
