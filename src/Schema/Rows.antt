-- ===== src/Schema/Rows.antt =====
-- The rows of a table: `create_row` and `Row::new_list`.
use cri_archive_lib.Base.{ℕ, zero, suc, if◌then◌else◌, Bool, true, false, List, [], ◌∷◌, drop}
use cri_archive_lib.Base.{Result, ok, ok_or, ensure, not, ◌>>=◌, ◌>>◌, checked_add, checked_mul}
use cri_archive_lib.Schema.{SchemaError, unsupported_type, row_offset_overflow, read_exact}
use cri_archive_lib.Schema.Values.{RowValue}
use cri_archive_lib.Schema.Columns.{
  Column, ColumnType, get_type, get_size, contains, row_storage_flag, row_value,
}

abbrev pub is_invalid : ColumnType → Bool
is_invalid ColumnType.invalid = true
is_invalid t = false

-- One field: nothing is stored for a column without row storage.
unfoldable pub read_field : Column → List ℕ → Result SchemaError (RowValue × List ℕ)
read_field c stream =
    ensure (not (is_invalid (get_type c.flag))) unsupported_type
    >> (if contains c.flag row_storage_flag
        then (read_exact (get_size (get_type c.flag)) stream >>= λ r.
            ok (row_value (get_type c.flag) r.0, r.1))
        else ok (RowValue.empty, stream))

unfoldable pub create_row : List Column → List ℕ → Result SchemaError (List RowValue)
create_row [] stream = ok []
create_row (c ∷ cs) stream =
    read_field c stream >>= λ v. create_row cs v.1 >>= λ row. ok (v.0 ∷ row)

-- `new_list` from the row `row_index` on, with `n` rows left; each row is read where RowSize puts it.
unfoldable pub read_rows :
    List ℕ → ℕ → ℕ → List Column → ℕ → ℕ → Result SchemaError (List (List RowValue))
read_rows alloc rows_offset row_size columns zero row_index = ok []
read_rows alloc rows_offset row_size columns (suc n) row_index =
    ok_or (checked_mul row_index row_size) row_offset_overflow >>= λ offset.
    ok_or (checked_add rows_offset offset) row_offset_overflow >>= λ row_position.
    create_row columns (drop row_position alloc) >>= λ row.
    read_rows alloc rows_offset row_size columns n (suc row_index) >>= λ rows. ok (row ∷ rows)
