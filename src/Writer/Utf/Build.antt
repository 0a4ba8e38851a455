-- ===== src/Writer/Utf/Build.antt =====
-- `build`: the guards, the pools, the sections of the table and its bytes.
use cri_archive_lib.Base.{ℕ, suc, ◌-◌, ◌^◌, leb, ltb, List, [], ◌∷◌, ◌++◌, length, bit_or}
use cri_archive_lib.Base.{Result, ok, ok_or, ensure, ◌>>=◌, ◌>>◌, checked_add, checked_mul}
use cri_archive_lib.Base.Bytes.{to_be}
use cri_archive_lib.Strings.{Pool, find_value, intern_string}
use cri_archive_lib.Writer.{CpkWriterError, arithmetic_overflow}
use cri_archive_lib.Writer.Itoc.{UtfValue}
use cri_archive_lib.Writer.Utf.{UtfColumn, UtfTableBuilder, type_code, row_size_of, check_rows}
use cri_archive_lib.Writer.Utf.Pools.{
  DataPool, null_pool, empty_data, intern_names, intern_rows, place_rows,
}

-- What the loops over the strings and the data fields leave.
pub record Pools : Type 0 where
  pub table_name_offset : ℕ
  pub column_name_offsets : List ℕ
  pub strings : Pool
  pub data_pool : DataPool

unfoldable pub fill_pools : UtfTableBuilder → Result CpkWriterError Pools
fill_pools t = intern_string t.name null_pool >>= λ name. intern_names t.columns name.1 >>= λ names.
    intern_rows t.rows names.1 >>= λ strings. place_rows 0 t.rows empty_data >>= λ data_pool.
    ok (record {
      table_name_offset = name.0;
      column_name_offsets = names.0;
      strings = strings;
      data_pool = data_pool;
    })

-- Where the sections of the table begin, and the field of its size.
pub record Sections : Type 0 where
  pub rows_start : ℕ
  pub string_pool_start : ℕ
  pub data_pool_start : ℕ
  pub table_size_field : ℕ

unfoldable pub sections : UtfTableBuilder → Pools → Result CpkWriterError Sections
sections t p = ok_or (checked_mul (length t.columns) 5) arithmetic_overflow >>= λ columns_bytes.
    ok_or (checked_add 0x20 columns_bytes) arithmetic_overflow >>= λ rows_start.
    ok_or (checked_mul (row_size_of t.columns) (length t.rows)) arithmetic_overflow
    >>= λ rows_bytes.
        ok_or (checked_add rows_start rows_bytes) arithmetic_overflow >>= λ string_pool_start.
        ok_or (checked_add string_pool_start (length p.strings.pool)) arithmetic_overflow
        >>= λ data_pool_start.
            ok_or (checked_add data_pool_start (length p.data_pool.bytes)) arithmetic_overflow
            >>= λ total_size.
                ensure (leb 8 total_size) arithmetic_overflow
                >> (ensure (ltb (total_size - 8) (2 ^ 32)) arithmetic_overflow
                    >> ok (record {
                      rows_start = rows_start;
                      string_pool_start = string_pool_start;
                      data_pool_start = data_pool_start;
                      table_size_field = total_size - 8;
                    }))

-- The 32 bytes of the header: the mark, the size, the encoding, the offsets and the counts.
unfoldable pub header_bytes : UtfTableBuilder → Pools → Sections → List ℕ
header_bytes t p s =
    (0x40 ∷ 0x55 ∷ 0x54 ∷ 0x46 ∷ [])
    ++ (to_be 4 s.table_size_field
        ++ (0
            ∷ 1
            ∷ (to_be 2 (s.rows_start - 8)
                ++ (to_be 4 (s.string_pool_start - 8)
                    ++ (to_be 4 (s.data_pool_start - 8)
                        ++ (to_be 4 p.table_name_offset
                            ++ (to_be 2 (length t.columns)
                                ++ (to_be 2 (row_size_of t.columns)
                                    ++ to_be 4 (length t.rows)))))))))

-- A column has its name and is stored in each row.
unfoldable pub column_bytes : List UtfColumn → List ℕ → List ℕ
column_bytes [] offsets = []
column_bytes (c ∷ cs) [] = []
column_bytes (c ∷ cs) (o ∷ os) =
    bit_or 0x50 (type_code c.value_type) ∷ (to_be 4 o ++ column_bytes cs os)

unfoldable pub value_bytes : Pools → ℕ → ℕ → UtfValue → Result CpkWriterError (List ℕ)
value_bytes p r c (UtfValue.uint16 v) = ok (to_be 2 v)
value_bytes p r c (UtfValue.uint32 v) = ok (to_be 4 v)
value_bytes p r c (UtfValue.uint64 v) = ok (to_be 8 v)
value_bytes p r c (UtfValue.string s) =
    ok_or (find_value s p.strings.offsets) arithmetic_overflow >>= λ offset. ok (to_be 4 offset)
value_bytes p r c (UtfValue.data_bytes v) =
    ok_or (p.data_pool.locations r c) arithmetic_overflow >>= λ l.
    ok (to_be 4 l.offset ++ to_be 4 l.length)

unfoldable pub row_bytes : Pools → ℕ → ℕ → List UtfValue → Result CpkWriterError (List ℕ)
row_bytes p r c [] = ok []
row_bytes p r c (v ∷ vs) =
    value_bytes p r c v >>= λ bytes. row_bytes p r (suc c) vs >>= λ rest. ok (bytes ++ rest)

unfoldable pub rows_bytes : Pools → ℕ → List (List UtfValue) → Result CpkWriterError (List ℕ)
rows_bytes p r [] = ok []
rows_bytes p r (row ∷ rows) =
    row_bytes p r 0 row >>= λ bytes. rows_bytes p (suc r) rows >>= λ rest. ok (bytes ++ rest)

-- The output, with the `try_from` of each offset.
unfoldable pub write_table : UtfTableBuilder → Pools → Sections → Result CpkWriterError (List ℕ)
write_table t p s =
    ensure (ltb (s.rows_start - 8) (2 ^ 16)) arithmetic_overflow
    >> (ensure (ltb (s.string_pool_start - 8) (2 ^ 32)) arithmetic_overflow
        >> (ensure (ltb (s.data_pool_start - 8) (2 ^ 32)) arithmetic_overflow
            >> (rows_bytes p 0 t.rows >>= λ rows. ok (
                header_bytes t p s
                ++ (column_bytes t.columns p.column_name_offsets
                    ++ (rows ++ (p.strings.pool ++ p.data_pool.bytes)))))))

unfoldable pub build : UtfTableBuilder → Result CpkWriterError (List ℕ)
build t =
    ensure (leb (length t.columns) 0xffff) arithmetic_overflow
    >> (ensure (leb (length t.rows) 0xffffffff) arithmetic_overflow
        >> (ensure (leb (row_size_of t.columns) 0xffff) arithmetic_overflow
            >> (check_rows t.columns t.rows
                >> (fill_pools t >>= λ p. sections t p >>= λ s. write_table t p s))))
