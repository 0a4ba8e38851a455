-- ===== src/Writer/Utf.antt =====
-- `UtfTableBuilder`: the bytes of an @UTF table from its name, its columns and its rows.
pub mod Pools
pub mod Build
use cri_archive_lib.Base.{ℕ, zero, suc, ◌+◌, ◌==◌, Bool, List, [], ◌∷◌, length, Str}
use cri_archive_lib.Base.{Result, ok, err, ensure, ◌>>=◌, ◌>>◌}
use cri_archive_lib.Writer.{CpkWriterError, arithmetic_overflow}
use cri_archive_lib.Writer.Itoc.{UtfValue}

pub data UtfType : Type 0 where
  uint16 uint32 uint64 string data_bytes : UtfType

-- The discriminants.
unfoldable pub type_code : UtfType → ℕ
type_code uint16 = 2
type_code uint32 = 4
type_code uint64 = 6
type_code string = 10
type_code data_bytes = 11

unfoldable pub size : UtfType → ℕ
size uint16 = 2
size uint32 = 4
size string = 4
size uint64 = 8
size data_bytes = 8

pub record UtfColumn : Type 0 where
  pub name : Str
  pub value_type : UtfType

unfoldable pub value_type : UtfValue → UtfType
value_type (UtfValue.uint16 v) = uint16
value_type (UtfValue.uint32 v) = uint32
value_type (UtfValue.uint64 v) = uint64
value_type (UtfValue.string s) = string
value_type (UtfValue.data_bytes bytes) = data_bytes

pub record UtfTableBuilder : Type 0 where
  pub name : Str
  pub columns : List UtfColumn
  pub rows : List (List UtfValue)

-- The sum of the sizes of the columns.
unfoldable pub row_size_of : List UtfColumn → ℕ
row_size_of [] = 0
row_size_of (c ∷ cs) = size c.value_type + row_size_of cs

-- The loop over `row.iter().zip(columns)`.
unfoldable pub check_values : List UtfValue → List UtfColumn → Result CpkWriterError (Unit {0})
check_values [] cs = ok tt
check_values (v ∷ vs) [] = ok tt
check_values (v ∷ vs) (c ∷ cs) =
    ensure (type_code (value_type v) == type_code c.value_type) arithmetic_overflow
    >> check_values vs cs

unfoldable pub check_rows : List UtfColumn → List (List UtfValue) → Result CpkWriterError (Unit {0})
check_rows cs [] = ok tt
check_rows cs (row ∷ rows) =
    ensure (length row == length cs) arithmetic_overflow
    >> (check_values row cs >> check_rows cs rows)
