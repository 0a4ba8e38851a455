-- ===== src/Schema/Values.antt =====
-- `RowValue` and `row_value_to_u64`. A signed value and a floating-point value are given by their bits.
use cri_archive_lib.Base.{ℕ, ◌^◌, ltb, if◌then◌else◌, Option, none, some}

pub record DataValue : Type 0 where
  pub offset : ℕ
  pub length : ℕ

pub data RowValue : Type 0 where
  empty : RowValue
  byte sbyte uint16 int16 uint32 int32 uint64 int64 single double string : ℕ → RowValue
  data_value : DataValue → RowValue
  guid : ℕ → ℕ → ℕ → ℕ → RowValue

-- A signed value that is not negative.
abbrev pub unsigned_part : ℕ → ℕ → Option ℕ
unsigned_part bits v = if ltb v (2 ^ bits) then some v else none

unfoldable pub row_value_to_u64 : RowValue → Option ℕ
row_value_to_u64 (byte v) = some v
row_value_to_u64 (sbyte v) = unsigned_part 7 v
row_value_to_u64 (uint16 v) = some v
row_value_to_u64 (int16 v) = unsigned_part 15 v
row_value_to_u64 (uint32 v) = some v
row_value_to_u64 (int32 v) = unsigned_part 31 v
row_value_to_u64 (uint64 v) = some v
row_value_to_u64 (int64 v) = unsigned_part 63 v
row_value_to_u64 v = none
