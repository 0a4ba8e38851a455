-- ===== src/Utf/RoundTrip.antt =====
-- A table that was built is opened, with the columns and the values that were written.
use native.Mathlib.Nat.{mul_comm}
use cri_archive_lib.Base.{
  ℕ, ◌+◌, ◌-◌, ◌*◌, ◌^◌, ◌<◌, ◌≡◌, refl, sym, ◌∙◌, ap, ap₂, subst, arith, Bool, true, leb, le→ltb,
}
use cri_archive_lib.Base.{
  List, [], ◌++◌, length, take, take-append, drop, length-drop, get_elem?, Str, some, ok,
  checked_add-fits,
}
use cri_archive_lib.Encrypt.Table.{starts_with, utf_magic}
use cri_archive_lib.Strings.RoundTrip.{entries}
use cri_archive_lib.Schema.Values.{RowValue}
use cri_archive_lib.Schema.Header.{TableHeader, header_size, data_pool_offset}
use cri_archive_lib.Schema.Header
use cri_archive_lib.Schema.Columns.{new_list}
use cri_archive_lib.Schema.Rows.{read_rows}
use cri_archive_lib.Schema.Table.{HighTable, open_sections, open_table}
use cri_archive_lib.Writer.Utf.{UtfTableBuilder, row_size_of}
use cri_archive_lib.Writer.Utf.Build.{column_bytes, build}
use cri_archive_lib.Utf.{columns_for}
use cri_archive_lib.Utf.Columns.{new_list-column_bytes}
use cri_archive_lib.Utf.Interned.{find_value-get_string, parse_strings-entries}
use cri_archive_lib.Utf.Built.{IsWritable, IsBuilt, Splits, build-IsBuilt, IsBuilt-Splits, widths}
use cri_archive_lib.Utf.ReadBack.{IsReadBack, Names-AllPairs, rows-Reads}
use cri_archive_lib.Utf.Fields.{rows_bytes-read_rows}
use cri_archive_lib.Utf.Sections.{
  IsHeader, header_bytes-IsHeader, header_bytes_magic, check_sections_pass, row_width-columns_for,
}

module _ (is_utf8 : Str → Bool) (decode_sjis : Str → Str) where
  -- The table that is opened.
  abbrev opened :
      (t : UtfTableBuilder) (bytes : List ℕ)
      → IsBuilt is_utf8 decode_sjis t bytes
      → List (List RowValue)
      → HighTable
  opened t bytes b rows = record {
    alloc = bytes;
    header = Header.new bytes;
    columns = columns_for t.columns b.pools.column_name_offsets;
    strings = entries 0 b.filled.sound.strings;
    rows = rows;
  }

  open_sections-opened :
      (t : UtfTableBuilder) (bytes : List ℕ) (b : IsBuilt is_utf8 decode_sjis t bytes)
      (rows : List (List RowValue))
      → Splits is_utf8 decode_sjis t bytes b
      → IsHeader t b.places (Header.new bytes)
      → read_rows bytes b.places.rows_start
          (row_size_of t.columns)
          (columns_for t.columns b.pools.column_name_offsets)
          (length t.rows)
          0
        ≡ ok rows
      → open_sections is_utf8 decode_sjis (Header.new bytes) bytes ≡ ok (opened t bytes b rows)
  unfolding open_sections
  open_sections-opened t bytes b rows s h e =
      let strings = b.pools.strings.pool in
      let fields = b.pools.data_pool.bytes in
      let rest = b.rows ++ (strings ++ fields) in
      let columns =
        ap (new_list (length t.columns)) s.columns
        ∙ new_list-column_bytes t.columns b.pools.column_name_offsets rest b.filled.count
            b.filled.bound in
      let width =
        row_width-columns_for t.columns b.pools.column_name_offsets 0 b.filled.count
          (omega (arith, b.row_bound)) in
      let left : length bytes - b.places.rows_start ≡ length rest =
        sym (length-drop b.places.rows_start bytes) ∙ ap length s.rows in
      let before : leb (length bytes - length rest) b.places.rows_start ≡ true =
        ground (arith, left) in
      let fit : leb (0 + row_size_of t.columns) (row_size_of t.columns) ≡ true = ground arith in
      let size : b.places.data_pool_start - b.places.string_pool_start ≡ length strings =
        omega (arith, b.laid.data_start) in
      let pool : take (length strings) (drop b.places.string_pool_start bytes) ≡ strings =
        ap (take (length strings)) s.strings ∙ take-append strings fields in
      let parsed = parse_strings-entries is_utf8 decode_sjis b.pools.strings b.filled.sound in
      rw
        (
          h.column_count, h.rows_offset, h.row_size, h.row_count, h.encoding, h.data_pool_offset,
          h.string_pool_offset, columns, before, width, fit, e, size, pool, parsed,
        )
        refl

  open_table-opened :
      (t : UtfTableBuilder) (bytes : List ℕ) (b : IsBuilt is_utf8 decode_sjis t bytes)
      (rows : List (List RowValue))
      → length bytes < 2 ^ 32
      → starts_with bytes utf_magic ≡ true
      → Splits is_utf8 decode_sjis t bytes b
      → IsHeader t b.places (Header.new bytes)
      → open_sections is_utf8 decode_sjis (Header.new bytes) bytes ≡ ok (opened t bytes b rows)
      → open_table is_utf8 decode_sjis bytes ≡ ok (opened t bytes b rows)
  unfolding open_table
  open_table-opened t bytes b rows lt magic s h e =
      let size = b.places.table_size_field in
      let laid = b.laid in
      let n : size + 8 ≡ length bytes =
        omega (arith, s.total, laid.rows, laid.strings, laid.data_start, laid.size_field) in
      let add = checked_add-fits size 8 (omega (arith, n)) in
      let long =
        le→ltb (length bytes) header_size
          (omega (arith, s.total, laid.rows, laid.strings, laid.data_start)) in
      let exact = le→ltb (size + 8) (length bytes) (omega (arith, n)) in
      let area = mul_comm (row_size_of t.columns) (length t.rows) in
      let pass =
        check_sections_pass (Header.new bytes) (size + 8) (length bytes)
          (omega (arith, h.rows_offset, laid.rows))
          (omega (
            arith,
            h.rows_offset,
            ap₂ ◌*◌ h.row_size h.row_count,
            h.string_pool_offset,
            laid.strings,
          ))
          (omega (arith, h.string_pool_offset, h.data_pool_offset, laid.data_start))
          (omega (arith, h.data_pool_offset, s.total, n)) (omega (arith, n)) (omega (arith, n)) in
      rw (long, magic, h.size, add, pass, exact, e) refl

  -- When a table is built without an error, its names and strings are plain, that is without a
  -- zero byte and valid as UTF-8, as is the empty string, its numbers fit their types, and it
  -- takes less than 4 GiB, the reader opens the bytes: each column has its name and its type, and
  -- each field of each row reads as the value that was written, a string by its offset in the
  -- string pool and the bytes of a data field by their place in the data pool.
  pub open_table-build :
      (t : UtfTableBuilder) (bytes : List ℕ)
      → is_utf8 [] ≡ true
      → IsWritable is_utf8 decode_sjis t
      → build t ≡ ok bytes
      → length bytes < 2 ^ 32
      → (table : HighTable) × (open_table is_utf8 decode_sjis bytes ≡ ok table)
        × IsReadBack t bytes table
  open_table-build t bytes u w e lt =
      let b = build-IsBuilt is_utf8 decode_sjis t bytes u w e in
      let s = IsBuilt-Splits is_utf8 decode_sjis t bytes b w in
      let rest =
        column_bytes t.columns b.pools.column_name_offsets
        ++ (b.rows ++ (b.pools.strings.pool ++ b.pools.data_pool.bytes)) in
      let h =
        subst (λ (x : List ℕ). IsHeader t b.places (Header.new x)) (sym b.whole)
          (header_bytes-IsHeader t b.pools b.places rest
            (widths is_utf8 decode_sjis t bytes b s lt)) in
      let magic =
        ap (λ (x : List ℕ). starts_with x utf_magic) b.whole
        ∙ header_bytes_magic t b.pools b.places rest in
      let area = mul_comm (row_size_of t.columns) (length t.rows) in
      let zero_row : b.places.rows_start ≡ b.places.rows_start + 0 * row_size_of t.columns =
        omega arith in
      let read =
        rows_bytes-read_rows t.rows b.pools b.filled.sound.bounded b.filled.placed bytes
          b.places.rows_start 0 t.rows t.columns b.pools.column_name_offsets b.rows
          (b.pools.strings.pool ++ b.pools.data_pool.bytes) b.filled.count b.checked w.numbers
          (λ i row g.
            let z : i ≡ 0 + i = omega arith in subst (λ (n : ℕ). get_elem? t.rows n ≡ some row) z g)
          b.written (omega (arith, area, s.total, b.laid.strings, b.laid.data_start))
          (ap (λ (n : ℕ). drop n bytes) (sym zero_row) ∙ s.rows) in
      let table = opened t bytes b read.0 in
      (
        table,
        open_table-opened t bytes b read.0 lt magic s h
            (open_sections-opened t bytes b read.0 s h read.1),
        record {
          alloc = refl;
          columns =
              Names-AllPairs is_utf8 decode_sjis table b.pools.strings b.filled.sound refl t.columns
                b.pools.column_name_offsets b.filled.found;
          rows =
              rows-Reads is_utf8 decode_sjis table b.pools b.filled.sound refl b.filled.null
                b.places.data_pool_start h.data_pool_offset s.data_bytes (sym s.total)
                (omega (arith, lt)) t.rows read.0 read.2;
          null_string =
              find_value-get_string is_utf8 decode_sjis [] 0 b.pools.strings b.filled.sound
                b.filled.null;
        },
      )
