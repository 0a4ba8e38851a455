-- ===== src/Utf/Examples.antt =====
-- A table with a value of each type, written and read.
use cri_archive_lib.Base.{
  ℕ, zero, suc, ◌≡◌, refl, arith, Bool, true, List, [], ◌∷◌, Str, none, some, some-inj, ok, ap, ◌∙◌,
  get_or,
}
use cri_archive_lib.Schema.Table.{HighTable, open_table, u64_by_name, data_by_name}
use cri_archive_lib.Writer.Itoc.{UtfValue}
use cri_archive_lib.Writer.Utf.{UtfColumn, UtfTableBuilder, uint16, string, data_bytes}
use cri_archive_lib.Writer.Utf.{check_rows, check_values, type_code, value_type, size, row_size_of}
use cri_archive_lib.Writer.Utf.Pools.{
  intern_names, intern_rows, intern_row, intern_value, place_rows, place_row, place_value,
}
use cri_archive_lib.Writer.Utf.Build.{
  build, write_table, fill_pools, sections, header_bytes, column_bytes, rows_bytes, row_bytes,
  value_bytes,
}
use cri_archive_lib.Strings.{intern_string, find_value, same_str}
use cri_archive_lib.Utf.Built.{IsWritable}
use cri_archive_lib.Utf.ReadBack.{IsReadBack}
use cri_archive_lib.Utf.RoundTrip.{open_table-build}
use cri_archive_lib.Utf.Lookup.{IsFirst, by_name-build}

abbrev all_utf8 : Str → Bool
all_utf8 s = true

abbrev as_it_is : Str → Str
as_it_is s = s

abbrev sample : UtfTableBuilder
sample = record {
  name = 0x54 ∷ [];
  columns =
      record { name = 0x61 ∷ []; value_type = uint16 }
      ∷ record { name = 0x62 ∷ []; value_type = string }
      ∷ record { name = 0x63 ∷ []; value_type = data_bytes }
      ∷ [];
  rows =
      (UtfValue.uint16 0x1234 ∷ UtfValue.string (0x78 ∷ []) ∷ UtfValue.data_bytes (7 ∷ 8 ∷ []) ∷ [])
      ∷ (UtfValue.uint16 5 ∷ UtfValue.string [] ∷ UtfValue.data_bytes (9 ∷ []) ∷ [])
      ∷ [];
}

abbrev sample_bytes : List ℕ
sample_bytes =
    64 ∷ 85 ∷ 84 ∷ 70 ∷ 0 ∷ 0 ∷ 0 ∷ 81 ∷ 0 ∷ 1 ∷ 0 ∷ 39 ∷ 0 ∷ 0 ∷ 0 ∷ 67 ∷ 0 ∷ 0 ∷ 0 ∷ 78 ∷ 0 ∷ 0
    ∷ 0 ∷ 1 ∷ 0 ∷ 3 ∷ 0 ∷ 14 ∷ 0 ∷ 0 ∷ 0 ∷ 2 ∷ 82 ∷ 0 ∷ 0 ∷ 0 ∷ 3 ∷ 90 ∷ 0 ∷ 0 ∷ 0 ∷ 5 ∷ 91 ∷ 0 ∷ 0
    ∷ 0 ∷ 7 ∷ 18 ∷ 52 ∷ 0 ∷ 0 ∷ 0 ∷ 9 ∷ 0 ∷ 0 ∷ 0 ∷ 0 ∷ 0 ∷ 0 ∷ 0 ∷ 2 ∷ 0 ∷ 5 ∷ 0 ∷ 0 ∷ 0 ∷ 0 ∷ 0
    ∷ 0 ∷ 0 ∷ 2 ∷ 0 ∷ 0 ∷ 0 ∷ 1 ∷ 0 ∷ 84 ∷ 0 ∷ 97 ∷ 0 ∷ 98 ∷ 0 ∷ 99 ∷ 0 ∷ 120 ∷ 0 ∷ 7 ∷ 8 ∷ 9 ∷ []

sample_built : build sample ≡ ok sample_bytes
unfolding build write_table check_rows check_values type_code value_type size row_size_of fill_pools
    intern_string intern_names intern_rows intern_row intern_value find_value same_str place_rows
    place_row place_value sections header_bytes column_bytes rows_bytes row_bytes value_bytes
sample_built = refl

sample-IsWritable : IsWritable all_utf8 as_it_is sample
sample-IsWritable = record {
  name = ((omega arith, tt), refl);
  columns =
      (((omega arith, tt), refl), (((omega arith, tt), refl), (((omega arith, tt), refl), tt)));
  strings = ((tt, (((omega arith, tt), refl), (tt, tt))), ((tt, ((tt, refl), (tt, tt))), tt));
  numbers = ((omega arith, (tt, (tt, tt))), ((omega arith, (tt, (tt, tt))), tt));
}

first_byte : {x y : ℕ} → x ∷ [] ≡ y ∷ [] → x ≡ y
first_byte e = ap (λ (s : Str). get_or s 0 0) e

IsFirst-c : IsFirst sample.columns 2 (0x63 ∷ [])
IsFirst-c zero d lt e same =
    let n : 0x61 ≡ 0x63 = first_byte (ap (λ (x : UtfColumn). x.name) (some-inj e) ∙ same) in
    absurd (omega (arith, n))
IsFirst-c (suc zero) d lt e same =
    let n : 0x62 ≡ 0x63 = first_byte (ap (λ (x : UtfColumn). x.name) (some-inj e) ∙ same) in
    absurd (omega (arith, n))
IsFirst-c (suc (suc j)) d lt e same = absurd (omega arith)

open_table-build_example :
    (table : HighTable) × (open_table all_utf8 as_it_is sample_bytes ≡ ok table)
    × IsReadBack sample sample_bytes table
open_table-build_example =
    open_table-build all_utf8 as_it_is sample sample_bytes refl sample-IsWritable sample_built
      (omega arith)

by_name-build_example :
    (table : HighTable) × (open_table all_utf8 as_it_is sample_bytes ≡ ok table)
    × (u64_by_name table 1 (0x63 ∷ []) ≡ none)
    × (data_by_name table 1 (0x63 ∷ []) ≡ some (9 ∷ []))
by_name-build_example =
    by_name-build all_utf8 as_it_is sample sample_bytes 1 2
      (UtfValue.uint16 5 ∷ UtfValue.string [] ∷ UtfValue.data_bytes (9 ∷ []) ∷ [])
      (record { name = 0x63 ∷ []; value_type = data_bytes }) (UtfValue.data_bytes (9 ∷ [])) refl
      sample-IsWritable sample_built (omega arith) refl refl refl IsFirst-c
