-- ===== src/Utf.antt =====
-- @UTF tables from the writer to the reader: what `build` writes (Writer/Utf), `HighTable` reads
-- (Schema/Table).
pub mod Columns
pub mod Interned
pub mod Placed
pub mod Fields
pub mod Sections
pub mod Built
pub mod ReadBack
pub mod RoundTrip
pub mod Lookup
pub mod Examples
use cri_archive_lib.Base.{
  ℕ, ◌+◌, ◌^◌, ◌<◌, ◌≡◌, bit_or, Option, none, some, List, [], ◌∷◌, length, Str,
}
use cri_archive_lib.Strings.{get_string}
use cri_archive_lib.Schema.Values.{RowValue, DataValue}
use cri_archive_lib.Schema.Columns.{Column}
use cri_archive_lib.Schema.Table.{HighTable, data_slice}
use cri_archive_lib.Writer.Itoc.{UtfValue}
use cri_archive_lib.Writer.Utf.{UtfColumn, UtfType, type_code}

-- The column that a reader finds for one that was written, with its name at `o`.
abbrev pub column_for : UtfType → ℕ → Column
column_for t o = record { flag = bit_or 0x50 (type_code t); string_offset = o; default = none }

abbrev pub columns_for : List UtfColumn → List ℕ → List Column
columns_for [] os = []
columns_for (c ∷ cs) [] = []
columns_for (c ∷ cs) (o ∷ os) = column_for c.value_type o ∷ columns_for cs os

-- The numbers that a value of the type can hold.
abbrev pub IsSized : UtfValue → Type 0
IsSized (UtfValue.uint16 v) = v < 2 ^ 16
IsSized (UtfValue.uint32 v) = v < 2 ^ 32
IsSized (UtfValue.uint64 v) = v < 2 ^ 64
IsSized v = Unit

-- What a reader of the table `t` gets for a value that was written.
abbrev pub Reads : HighTable → UtfValue → RowValue → Type 0
Reads t (UtfValue.uint16 v) found = found ≡ RowValue.uint16 v
Reads t (UtfValue.uint32 v) found = found ≡ RowValue.uint32 v
Reads t (UtfValue.uint64 v) found = found ≡ RowValue.uint64 v
Reads t (UtfValue.string s) found =
    (o : ℕ) × (found ≡ RowValue.string o) × (get_string o t.strings ≡ some s) × (s ≡ [] → o ≡ 0)
Reads t (UtfValue.data_bytes v) found =
    (d : DataValue) × (found ≡ RowValue.data_value d)
    × (d.length ≡ length v)
    × (data_slice t d ≡ some v)
