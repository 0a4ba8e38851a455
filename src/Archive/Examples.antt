-- ===== src/Archive/Examples.antt =====
-- A small archive of two files, with a TOC and an ITOC.
use cri_archive_lib.Base.{ℕ, zero, suc, ◌+◌, ◌-◌, ◌^◌, ◌≡◌, refl, arith, List, [], ◌∷◌, length, All}
use cri_archive_lib.Base.{ltb, if◌then◌else◌, none, some, ok, err}
use cri_archive_lib.Base.Sort.{IsAscending, insert, sort_by_key}
use cri_archive_lib.Writer.{CpkInputFile, toc_and_itoc, arithmetic_overflow}
use cri_archive_lib.Writer.Align.{validate_alignment, align_up, align_up-round, round}
use cri_archive_lib.Reader.Align
use cri_archive_lib.Reader.Itoc.Offsets.{align_up-agree}
use cri_archive_lib.Writer.Order.{id_at, check_ids, build_physical_order}
use cri_archive_lib.Writer.Order.Permutation.{
  IsPermutation, build_physical_order-IsPermutation, IsIdentified, build_physical_order_iff,
}
use cri_archive_lib.Base.{◌↔◌}
use cri_archive_lib.Writer.Order.Ascending.{build_physical_order-IsAscending}
use cri_archive_lib.Writer.Layout.{
  chunk_size, place_table, place_files, place_content, Layout, layout,
}
use cri_archive_lib.Writer.Layout.Offsets.{IsPacked, sizes_of}
use cri_archive_lib.Writer.Layout.Packed.{in_order}
use cri_archive_lib.Writer.Layout.Whole.{IsLayout, layout-IsLayout, layout-IsPacked}
use cri_archive_lib.Base.{take, drop, replicate, length-replicate}
use cri_archive_lib.Writer.Layout.{size_at}
use cri_archive_lib.Writer.Output.{write_content}
use cri_archive_lib.Writer.Output.Whole.{offset_at, write_content-layout}
use cri_archive_lib.Writer.Itoc.{low_group, high_group, itoc_row, itoc_rows}
use cri_archive_lib.Reader.{CpkFile}
use cri_archive_lib.Writer.Tables.{
  build_itoc_table, build_itoc_rows, build_nested, build_toc_table, toc_rows, toc_columns,
}
use cri_archive_lib.Writer.Utf.{check_rows, check_values, type_code, value_type, size, row_size_of}
use cri_archive_lib.Writer.Utf.Pools.{
  intern_names, intern_rows, intern_row, intern_value, place_rows, place_row, place_value,
}
use cri_archive_lib.Writer.Utf.Build.{
  build, write_table, fill_pools, sections, header_bytes, column_bytes, rows_bytes, row_bytes,
  value_bytes,
}
use cri_archive_lib.Strings.{intern_string, find_value, same_str}
use cri_archive_lib.Schema.Table.{HighTable, open_table}
use cri_archive_lib.Reader.Archive.{read_itoc_table}
use cri_archive_lib.Base.{ap}
use cri_archive_lib.Strings.RoundTrip.{IsPlain}
use cri_archive_lib.Schema.Names.{name_cpk_toc_info}
use cri_archive_lib.Reader.Toc.{read_toc_table}
use cri_archive_lib.Utf.Built.{IsWritable}
use cri_archive_lib.Archive.Ascii.{columns-IsPlain, IsAscii, IsAscii-IsPlain}
use cri_archive_lib.Archive.Toc.{IsListed, toc_builder, files_of, read_toc-build}
use cri_archive_lib.Archive.RoundTrip.{IsIndexed, read_itoc-layout}
use cri_archive_lib.Base.{Str, Bool, false, true}
use cri_archive_lib.Archive.Rows.{HasSizes}

abbrev input_file : ℕ → ℕ → CpkInputFile
input_file id size = record {
  directory = [];
  file_name = 0x61 ∷ [];
  source_path = 0x62 ∷ [];
  size = size;
  extract_size = size;
  id = id;
  user_string = [];
  raw_payload = none;
}

-- One for DataH, with the greater identifier, and one for DataL.
abbrev two_files : List CpkInputFile
two_files = input_file 9 0x12345 ∷ input_file 4 100 ∷ []

abbrev two_layout : Layout
two_layout = record {
  physical_order = 1 ∷ 0 ∷ [];
  toc_offset = 0x800;
  itoc_offset = 0x1000;
  content_offset = 0x1800;
  absolute_offsets = 0x2000 ∷ 0x1800 ∷ [];
  archive_size = 0x14800;
  content_size = 0x13000;
}

two_order : build_physical_order two_files toc_and_itoc ≡ ok (1 ∷ 0 ∷ [])
unfolding build_physical_order check_ids id_at sort_by_key insert
two_order = refl

two_layout_given : layout 0x800 two_files toc_and_itoc 300 200 ≡ ok two_layout
unfolding layout validate_alignment build_physical_order check_ids id_at sort_by_key insert
    place_table chunk_size align_up place_content place_files
two_layout_given = refl

build_physical_order-IsPermutation_example : IsPermutation (length two_files) (1 ∷ 0 ∷ [])
build_physical_order-IsPermutation_example =
    build_physical_order-IsPermutation two_files toc_and_itoc (1 ∷ 0 ∷ []) two_order

build_physical_order_iff_example :
    ((order : List ℕ) × (build_physical_order two_files toc_and_itoc ≡ ok order))
    ↔ IsIdentified two_files
build_physical_order_iff_example = build_physical_order_iff two_files toc_and_itoc refl

order-IsAscending_example : IsAscending (id_at two_files) (1 ∷ 0 ∷ [])
order-IsAscending_example =
    build_physical_order-IsAscending two_files toc_and_itoc (1 ∷ 0 ∷ []) refl two_order

layout-IsLayout_example : IsLayout 0x800 two_files toc_and_itoc 300 200 two_layout
layout-IsLayout_example =
    layout-IsLayout 0x800 two_files toc_and_itoc 300 200 two_layout two_layout_given

layout-IsPacked_example :
    IsPacked 0x800 two_layout.content_offset two_layout.archive_size
      (in_order two_layout)
      (sizes_of two_files two_layout.physical_order)
layout-IsPacked_example =
    layout-IsPacked 0x800 two_files toc_and_itoc 300 200 two_layout two_layout_given

two_files-HasSizes : (i : ℕ) → HasSizes two_files i
two_files-HasSizes zero = (omega arith, omega arith)
two_files-HasSizes (suc zero) = (omega arith, omega arith)
two_files-HasSizes (suc (suc i)) = (omega arith, omega arith)

abbrev pub all_utf8 : Str → Bool
all_utf8 s = true

abbrev pub as_it_is : Str → Str
as_it_is s = s

-- The bytes of the standard ITOC of the two files.
abbrev itoc_bytes : List ℕ
itoc_bytes =
    64 ∷ 85 ∷ 84 ∷ 70 ∷ 0 ∷ 0 ∷ 0 ∷ 253 ∷ 0 ∷ 1 ∷ 0 ∷ 34 ∷ 0 ∷ 0 ∷ 0 ∷ 50 ∷ 0 ∷ 0 ∷ 0 ∷ 75 ∷ 0 ∷ 0
    ∷ 0 ∷ 1 ∷ 0 ∷ 2 ∷ 0 ∷ 16 ∷ 0 ∷ 0 ∷ 0 ∷ 1 ∷ 91 ∷ 0 ∷ 0 ∷ 0 ∷ 13 ∷ 91 ∷ 0 ∷ 0 ∷ 0 ∷ 19 ∷ 0 ∷ 0 ∷ 0
    ∷ 0 ∷ 0 ∷ 0 ∷ 0 ∷ 87 ∷ 0 ∷ 0 ∷ 0 ∷ 87 ∷ 0 ∷ 0 ∷ 0 ∷ 91 ∷ 0 ∷ 67 ∷ 112 ∷ 107 ∷ 73 ∷ 116 ∷ 111
    ∷ 99 ∷ 73 ∷ 110 ∷ 102 ∷ 111 ∷ 0 ∷ 68 ∷ 97 ∷ 116 ∷ 97 ∷ 76 ∷ 0 ∷ 68 ∷ 97 ∷ 116 ∷ 97 ∷ 72 ∷ 0 ∷ 64
    ∷ 85 ∷ 84 ∷ 70 ∷ 0 ∷ 0 ∷ 0 ∷ 79 ∷ 0 ∷ 1 ∷ 0 ∷ 39 ∷ 0 ∷ 0 ∷ 0 ∷ 45 ∷ 0 ∷ 0 ∷ 0 ∷ 79 ∷ 0 ∷ 0 ∷ 0
    ∷ 1 ∷ 0 ∷ 3 ∷ 0 ∷ 6 ∷ 0 ∷ 0 ∷ 0 ∷ 1 ∷ 82 ∷ 0 ∷ 0 ∷ 0 ∷ 10 ∷ 82 ∷ 0 ∷ 0 ∷ 0 ∷ 13 ∷ 82 ∷ 0 ∷ 0 ∷ 0
    ∷ 22 ∷ 0 ∷ 4 ∷ 0 ∷ 100 ∷ 0 ∷ 100 ∷ 0 ∷ 67 ∷ 112 ∷ 107 ∷ 73 ∷ 116 ∷ 111 ∷ 99 ∷ 76 ∷ 0 ∷ 73 ∷ 68
    ∷ 0 ∷ 70 ∷ 105 ∷ 108 ∷ 101 ∷ 83 ∷ 105 ∷ 122 ∷ 101 ∷ 0 ∷ 69 ∷ 120 ∷ 116 ∷ 114 ∷ 97 ∷ 99 ∷ 116
    ∷ 83 ∷ 105 ∷ 122 ∷ 101 ∷ 0 ∷ 64 ∷ 85 ∷ 84 ∷ 70 ∷ 0 ∷ 0 ∷ 0 ∷ 83 ∷ 0 ∷ 1 ∷ 0 ∷ 39 ∷ 0 ∷ 0 ∷ 0
    ∷ 49 ∷ 0 ∷ 0 ∷ 0 ∷ 83 ∷ 0 ∷ 0 ∷ 0 ∷ 1 ∷ 0 ∷ 3 ∷ 0 ∷ 10 ∷ 0 ∷ 0 ∷ 0 ∷ 1 ∷ 82 ∷ 0 ∷ 0 ∷ 0 ∷ 10
    ∷ 84 ∷ 0 ∷ 0 ∷ 0 ∷ 13 ∷ 84 ∷ 0 ∷ 0 ∷ 0 ∷ 22 ∷ 0 ∷ 9 ∷ 0 ∷ 1 ∷ 35 ∷ 69 ∷ 0 ∷ 1 ∷ 35 ∷ 69 ∷ 0 ∷ 67
    ∷ 112 ∷ 107 ∷ 73 ∷ 116 ∷ 111 ∷ 99 ∷ 72 ∷ 0 ∷ 73 ∷ 68 ∷ 0 ∷ 70 ∷ 105 ∷ 108 ∷ 101 ∷ 83 ∷ 105 ∷ 122
    ∷ 101 ∷ 0 ∷ 69 ∷ 120 ∷ 116 ∷ 114 ∷ 97 ∷ 99 ∷ 116 ∷ 83 ∷ 105 ∷ 122 ∷ 101 ∷ 0 ∷ []

itoc_built : build_itoc_table two_files (1 ∷ 0 ∷ []) false ≡ ok itoc_bytes
unfolding build_itoc_table build_itoc_rows build_nested low_group high_group itoc_row itoc_rows
    id_at build write_table check_rows check_values type_code value_type size row_size_of fill_pools
    intern_string intern_names intern_rows intern_row intern_value find_value same_str place_rows
    place_row place_value sections header_bytes column_bytes rows_bytes row_bytes value_bytes
itoc_built = refl

read_itoc-layout_example :
    (table : HighTable) × (open_table all_utf8 as_it_is itoc_bytes ≡ ok table)
    × (fs : List CpkFile) × (read_itoc_table all_utf8 as_it_is 0x1800 0x800 0 table ≡ ok fs)
    × IsIndexed two_files two_layout fs
read_itoc-layout_example =
    read_itoc-layout all_utf8 as_it_is (λ s h. refl) 0x800 two_files toc_and_itoc 300 200 two_layout
      false itoc_bytes refl two_files-HasSizes two_layout_given itoc_built (omega arith)

align_up-round_example :
    align_up 5 (2 ^ 3)
    ≡ (if ltb (5 + (2 ^ 3 - 1)) (2 ^ 64) then ok (round (2 ^ 3) 5) else err arithmetic_overflow)
align_up-round_example = align_up-round 3 5 (omega arith)

align_up-agree_example : cri_archive_lib.Reader.Align.align_up 5 (2 ^ 3) ≡ some 8
unfolding align_up
align_up-agree_example = align_up-agree 3 5 8 (omega arith) refl

abbrev filled : ℕ → List ℕ
filled i = replicate (size_at two_files i) 7

write_content_example :
    (out : List ℕ) × (write_content filled
        (size_at two_files)
        (offset_at two_layout)
        0x14800
        (1 ∷ 0 ∷ [])
        (1 ∷ 2 ∷ [])
      ≡ ok out)
    × (length out ≡ 0x14800)
    × All
        (λ i. take (size_at two_files i) (drop (offset_at two_layout i) out) ≡ filled i)
        (1 ∷ 0 ∷ [])
write_content_example =
    write_content-layout 0x800 two_files toc_and_itoc 300 200 two_layout filled (1 ∷ 2 ∷ [])
      two_layout_given (λ i. length-replicate (size_at two_files i) 7) (omega arith)

pub plain : (s : Str) → IsAscii s → IsPlain all_utf8 as_it_is s
plain s h = IsAscii-IsPlain all_utf8 as_it_is s (λ v g. refl) h

-- A TOC of one file in a directory.
abbrev listed : CpkInputFile
listed = record (input_file 3 10) { directory = 0x64 ∷ []; user_string = 0x75 ∷ [] }

abbrev toc_bytes : List ℕ
toc_bytes =
    64 ∷ 85 ∷ 84 ∷ 70 ∷ 0 ∷ 0 ∷ 0 ∷ 172 ∷ 0 ∷ 1 ∷ 0 ∷ 59 ∷ 0 ∷ 0 ∷ 0 ∷ 91 ∷ 0 ∷ 0 ∷ 0 ∷ 172 ∷ 0 ∷ 0
    ∷ 0 ∷ 1 ∷ 0 ∷ 7 ∷ 0 ∷ 32 ∷ 0 ∷ 0 ∷ 0 ∷ 1 ∷ 90 ∷ 0 ∷ 0 ∷ 0 ∷ 12 ∷ 90 ∷ 0 ∷ 0 ∷ 0 ∷ 20 ∷ 84 ∷ 0
    ∷ 0 ∷ 0 ∷ 29 ∷ 84 ∷ 0 ∷ 0 ∷ 0 ∷ 38 ∷ 86 ∷ 0 ∷ 0 ∷ 0 ∷ 50 ∷ 84 ∷ 0 ∷ 0 ∷ 0 ∷ 61 ∷ 90 ∷ 0 ∷ 0 ∷ 0
    ∷ 64 ∷ 0 ∷ 0 ∷ 0 ∷ 75 ∷ 0 ∷ 0 ∷ 0 ∷ 77 ∷ 0 ∷ 0 ∷ 0 ∷ 10 ∷ 0 ∷ 0 ∷ 0 ∷ 10 ∷ 0 ∷ 0 ∷ 0 ∷ 0 ∷ 0 ∷ 0
    ∷ 0 ∷ 64 ∷ 0 ∷ 0 ∷ 0 ∷ 3 ∷ 0 ∷ 0 ∷ 0 ∷ 79 ∷ 0 ∷ 67 ∷ 112 ∷ 107 ∷ 84 ∷ 111 ∷ 99 ∷ 73 ∷ 110 ∷ 102
    ∷ 111 ∷ 0 ∷ 68 ∷ 105 ∷ 114 ∷ 78 ∷ 97 ∷ 109 ∷ 101 ∷ 0 ∷ 70 ∷ 105 ∷ 108 ∷ 101 ∷ 78 ∷ 97 ∷ 109
    ∷ 101 ∷ 0 ∷ 70 ∷ 105 ∷ 108 ∷ 101 ∷ 83 ∷ 105 ∷ 122 ∷ 101 ∷ 0 ∷ 69 ∷ 120 ∷ 116 ∷ 114 ∷ 97 ∷ 99
    ∷ 116 ∷ 83 ∷ 105 ∷ 122 ∷ 101 ∷ 0 ∷ 70 ∷ 105 ∷ 108 ∷ 101 ∷ 79 ∷ 102 ∷ 102 ∷ 115 ∷ 101 ∷ 116 ∷ 0
    ∷ 73 ∷ 68 ∷ 0 ∷ 85 ∷ 115 ∷ 101 ∷ 114 ∷ 83 ∷ 116 ∷ 114 ∷ 105 ∷ 110 ∷ 103 ∷ 0 ∷ 100 ∷ 0 ∷ 97 ∷ 0
    ∷ 117 ∷ 0 ∷ []

toc_built : build_toc_table (listed ∷ []) (0x40 ∷ []) ≡ ok toc_bytes
unfolding build_toc_table toc_rows build write_table check_rows check_values type_code value_type
    size row_size_of fill_pools intern_string intern_names intern_rows intern_row intern_value
    find_value same_str place_rows place_row place_value sections header_bytes column_bytes
    rows_bytes row_bytes value_bytes
toc_built = refl

toc-IsWritable :
    IsWritable all_utf8 as_it_is (toc_builder name_cpk_toc_info (listed ∷ []) (0x40 ∷ []))
unfolding toc_rows
toc-IsWritable = record {
  name = plain name_cpk_toc_info (omega arith);
  columns = columns-IsPlain all_utf8 as_it_is toc_columns (λ s h. refl) refl;
  strings = (
    (
      plain listed.directory (omega arith),
      (
        plain listed.file_name (omega arith),
        (tt, (tt, (tt, (tt, (plain listed.user_string (omega arith), tt))))),
      ),
    ),
    tt,
  );
  numbers = ((tt, (tt, (omega arith, (omega arith, (omega arith, (omega arith, (tt, tt))))))), tt);
}

listed-IsListed : IsListed listed
listed-IsListed = record {
  named = λ e. absurd (omega (arith, ap length e));
  size = omega arith;
  extract_size = omega arith;
  id = omega arith;
}

read_toc-build_example :
    (table : HighTable) × (open_table all_utf8 as_it_is toc_bytes ≡ ok table)
    × (read_toc_table table ≡ ok (files_of (listed ∷ []) (0x40 ∷ [])))
read_toc-build_example =
    read_toc-build all_utf8 as_it_is (listed ∷ []) (0x40 ∷ []) toc_bytes refl toc-IsWritable
      (listed-IsListed, tt) (omega arith, tt) toc_built (omega arith)
