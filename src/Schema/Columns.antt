-- ===== src/Schema/Columns.antt =====
-- The columns of a table: their type and flags in one byte, and `Column::new_list`.
use cri_archive_lib.Base.{
  ℕ, zero, suc, ◌^◌, ◌==◌, if◌then◌else◌, Bool, Option, none, some, List, [], ◌∷◌, get_or, take,
  drop, bit_and,
}
use cri_archive_lib.Base.{Result, ok, ensure, not, ◌>>=◌, ◌>>◌}
use cri_archive_lib.Base.Bytes.{from_be}
use cri_archive_lib.Schema.{SchemaError, unsupported_type, read_exact}
use cri_archive_lib.Schema.Values.{RowValue}

pub data ColumnType : Type 0 where
  byte sbyte uint16 int16 uint32 int32 uint64 int64 single double string : ColumnType
  data_type guid invalid : ColumnType

unfoldable pub get_size : ColumnType → ℕ
get_size byte = 1
get_size sbyte = 1
get_size uint16 = 2
get_size int16 = 2
get_size uint32 = 4
get_size int32 = 4
get_size single = 4
get_size string = 4
get_size uint64 = 8
get_size int64 = 8
get_size double = 8
get_size data_type = 8
get_size guid = 16
get_size invalid = 0

abbrev pub type_mask : ℕ
type_mask = 0xf

-- `get_type` of a `ColumnValue`; the codes are 0 to 12 in this order.
unfoldable pub get_type : ℕ → ColumnType
get_type value =
    get_or
      (byte ∷ sbyte ∷ uint16 ∷ int16 ∷ uint32 ∷ int32 ∷ uint64 ∷ int64 ∷ single ∷ double ∷ string
        ∷ data_type ∷ guid ∷ [])
      (bit_and value type_mask) invalid

abbrev pub name_flag : ℕ
name_flag = 2 ^ 4

abbrev pub default_value_flag : ℕ
default_value_flag = 2 ^ 5

abbrev pub row_storage_flag : ℕ
row_storage_flag = 2 ^ 6

-- `get_flags().contains(flag)`, where `get_flags` keeps the bits above the type.
unfoldable pub contains : ℕ → ℕ → Bool
contains value flag = bit_and (bit_and value 0xf0) flag == flag

-- `row_value`: the value in the first bytes of the buffer.
unfoldable pub row_value : ColumnType → List ℕ → RowValue
row_value byte slice = RowValue.byte (get_or slice 0 0)
row_value sbyte slice = RowValue.sbyte (get_or slice 0 0)
row_value uint16 slice = RowValue.uint16 (from_be (take 2 slice))
row_value int16 slice = RowValue.int16 (from_be (take 2 slice))
row_value uint32 slice = RowValue.uint32 (from_be (take 4 slice))
row_value int32 slice = RowValue.int32 (from_be (take 4 slice))
row_value single slice = RowValue.single (from_be (take 4 slice))
row_value string slice = RowValue.string (from_be (take 4 slice))
row_value uint64 slice = RowValue.uint64 (from_be (take 8 slice))
row_value int64 slice = RowValue.int64 (from_be (take 8 slice))
row_value double slice = RowValue.double (from_be (take 8 slice))
row_value data_type slice =
    RowValue.data_value
      (record { offset = from_be (take 4 slice); length = from_be (take 4 (drop 4 slice)) })
row_value guid slice =
    RowValue.guid (from_be (take 4 slice)) (from_be (take 4 (drop 4 slice)))
      (from_be (take 4 (drop 8 slice))) (from_be (take 4 (drop 12 slice)))
row_value invalid slice = RowValue.empty

pub record Column : Type 0 where
  pub flag : ℕ
  pub string_offset : ℕ
  pub default : Option RowValue

-- The name, when there is one, and `u32::MAX` otherwise.
unfoldable pub read_name : ℕ → List ℕ → Result SchemaError (ℕ × List ℕ)
read_name flag stream =
    if contains flag name_flag
    then (read_exact 4 stream >>= λ r. ok (from_be r.0, r.1))
    else ok (0xffffffff, stream)

unfoldable pub read_default : ℕ → List ℕ → Result SchemaError (Option RowValue × List ℕ)
read_default flag stream =
    if contains flag default_value_flag
    then (ensure (not (get_size (get_type flag) == 0)) unsupported_type
        >> (read_exact (get_size (get_type flag)) stream >>= λ r.
            ok (some (row_value (get_type flag) r.0), r.1)))
    else ok (none, stream)

-- One round of the loop of `new_list`.
unfoldable pub read_column : List ℕ → Result SchemaError (Column × List ℕ)
read_column stream = read_exact 1 stream >>= λ f.
    let flag = get_or f.0 0 0 in
    read_name flag f.1 >>= λ name. read_default flag name.1 >>= λ default.
    ok (record { flag = flag; string_offset = name.0; default = default.0 }, default.1)

-- `new_list`, from the bytes behind the header on: the columns and what is left.
unfoldable pub new_list : ℕ → List ℕ → Result SchemaError (List Column × List ℕ)
new_list zero stream = ok ([], stream)
new_list (suc n) stream = read_column stream >>= λ c. new_list n c.1 >>= λ cs. ok (c.0 ∷ cs.0, cs.1)
