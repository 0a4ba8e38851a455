-- ===== src/Archive/Files/Examples.antt =====
-- Whole archives of one file.
use cri_archive_lib.Base.{
  ℕ, ◌^◌, ◌<◌, ◌≡◌, refl, arith, List, [], ◌∷◌, length, All, Bool, true, false, Result, ok, err,
  some, none, replicate,
}
use cri_archive_lib.Writer.{CpkInputFile, CpkIndexMode, CpkWriterProfile, toc, itoc}
use cri_archive_lib.Writer.Archive.{
  Plan, plan, check_input, build_index, relative_offsets, Written, write_with_profile, write_at,
  write_head, header_fields,
}
use cri_archive_lib.Writer.Align.{validate_alignment, align_up}
use cri_archive_lib.Writer.Order.{id_at, check_ids, build_physical_order}
use cri_archive_lib.Writer.Layout.{
  chunk_size, place_table, place_files, place_content, layout, size_at,
}
use cri_archive_lib.Writer.Itoc.{UtfValue, itoc_row, itoc_rows}
use cri_archive_lib.Writer.Tables.{
  build_header_table, header_row, build_itoc_table, build_itoc_rows, build_toc_table, toc_rows,
}
use cri_archive_lib.Writer.Utf.{check_rows, check_values, type_code, value_type, size, row_size_of}
use cri_archive_lib.Writer.Utf.Pools.{
  intern_names, intern_rows, intern_row, intern_value, place_rows, place_row, place_value,
}
use cri_archive_lib.Writer.Utf.Build.{
  build, write_table, fill_pools, sections, header_bytes, column_bytes, rows_bytes, row_bytes,
  value_bytes,
}
use cri_archive_lib.Strings.{intern_string, find_value, same_str}
use cri_archive_lib.Base.Sort.{insert, sort_by_key}
use cri_archive_lib.Base.{
  ltb, if◌then◌else◌, Bool-cases, inl, inr, map, get_elem?, length-replicate, subst, some-inj, ap,
}
use cri_archive_lib.Header.{magic, build_chunk}
use cri_archive_lib.Writer.Archive.{WriteError}
use cri_archive_lib.Writer.Output.{write_content, write_payloads, write_zeros, zeros_loop}
use cri_archive_lib.Utf.{IsSized}
use cri_archive_lib.Reader.{CpkFile}
use cri_archive_lib.Reader.Archive.{CpkReader, get_files, read_packed_file}
use cri_archive_lib.Archive.Toc.{IsListed}
use cri_archive_lib.Header.{CpkChunkKind}
use cri_archive_lib.Writer.Archive.Head.{length-build_chunk}
use cri_archive_lib.Schema.Table.{HighTable, open_table}
use cri_archive_lib.Reader.Metadata.{parse_metadata}
use cri_archive_lib.Archive.Metadata.{metadata_of, parse_metadata-build}
use cri_archive_lib.Archive.Whole.{whole-IsWritten, IsArchivable, IsArchive}
use cri_archive_lib.Archive.Examples.{all_utf8, as_it_is, plain}
use cri_archive_lib.Archive.Files.{IsExtracted, fresh, opened}
use cri_archive_lib.Archive.Files.Toc.{get_files-write}
use cri_archive_lib.Archive.Files.Itoc.{get_files-itoc}

abbrev one_file : CpkInputFile
one_file = record {
  directory = 0x64 ∷ [];
  file_name = 0x61 ∷ [];
  source_path = 0x62 ∷ [];
  size = 10;
  extract_size = 10;
  id = 3;
  user_string = [];
  raw_payload = none;
}

abbrev profile_of : CpkIndexMode → CpkWriterProfile
profile_of mode = record {
  index_mode = mode;
  direct_itoc = true;
  version = 7;
  revision = 14;
  update_date_time = 1;
  tvers = 0x74 ∷ [];
  comment = [];
}

abbrev toc_plan : Plan
toc_plan = record {
  places = record {
    physical_order = 0 ∷ [];
    toc_offset = 2048;
    itoc_offset = 0;
    content_offset = 2304;
    absolute_offsets = 2304 ∷ [];
    archive_size = 2368;
    content_size = 64;
  };
  tables = record {
    toc_table = some (
        64 ∷ 85 ∷ 84 ∷ 70 ∷ 0 ∷ 0 ∷ 0 ∷ 170 ∷ 0 ∷ 1 ∷ 0 ∷ 59 ∷ 0 ∷ 0 ∷ 0 ∷ 91 ∷ 0 ∷ 0 ∷ 0 ∷ 170 ∷ 0
        ∷ 0 ∷ 0 ∷ 1 ∷ 0 ∷ 7 ∷ 0 ∷ 32 ∷ 0 ∷ 0 ∷ 0 ∷ 1 ∷ 90 ∷ 0 ∷ 0 ∷ 0 ∷ 12 ∷ 90 ∷ 0 ∷ 0 ∷ 0 ∷ 20
        ∷ 84 ∷ 0 ∷ 0 ∷ 0 ∷ 29 ∷ 84 ∷ 0 ∷ 0 ∷ 0 ∷ 38 ∷ 86 ∷ 0 ∷ 0 ∷ 0 ∷ 50 ∷ 84 ∷ 0 ∷ 0 ∷ 0 ∷ 61 ∷ 90
        ∷ 0 ∷ 0 ∷ 0 ∷ 64 ∷ 0 ∷ 0 ∷ 0 ∷ 75 ∷ 0 ∷ 0 ∷ 0 ∷ 77 ∷ 0 ∷ 0 ∷ 0 ∷ 10 ∷ 0 ∷ 0 ∷ 0 ∷ 10 ∷ 0 ∷ 0
        ∷ 0 ∷ 0 ∷ 0 ∷ 0 ∷ 1 ∷ 0 ∷ 0 ∷ 0 ∷ 0 ∷ 3 ∷ 0 ∷ 0 ∷ 0 ∷ 0 ∷ 0 ∷ 67 ∷ 112 ∷ 107 ∷ 84 ∷ 111 ∷ 99
        ∷ 73 ∷ 110 ∷ 102 ∷ 111 ∷ 0 ∷ 68 ∷ 105 ∷ 114 ∷ 78 ∷ 97 ∷ 109 ∷ 101 ∷ 0 ∷ 70 ∷ 105 ∷ 108 ∷ 101
        ∷ 78 ∷ 97 ∷ 109 ∷ 101 ∷ 0 ∷ 70 ∷ 105 ∷ 108 ∷ 101 ∷ 83 ∷ 105 ∷ 122 ∷ 101 ∷ 0 ∷ 69 ∷ 120 ∷ 116
        ∷ 114 ∷ 97 ∷ 99 ∷ 116 ∷ 83 ∷ 105 ∷ 122 ∷ 101 ∷ 0 ∷ 70 ∷ 105 ∷ 108 ∷ 101 ∷ 79 ∷ 102 ∷ 102
        ∷ 115 ∷ 101 ∷ 116 ∷ 0 ∷ 73 ∷ 68 ∷ 0 ∷ 85 ∷ 115 ∷ 101 ∷ 114 ∷ 83 ∷ 116 ∷ 114 ∷ 105 ∷ 110
        ∷ 103 ∷ 0 ∷ 100 ∷ 0 ∷ 97 ∷ 0 ∷ []);
    itoc_table = none;
  };
}

abbrev itoc_plan : Plan
itoc_plan = record {
  places = record {
    physical_order = 0 ∷ [];
    toc_offset = 0;
    itoc_offset = 2048;
    content_offset = 2176;
    absolute_offsets = 2176 ∷ [];
    archive_size = 2240;
    content_size = 64;
  };
  tables = record {
    toc_table = none;
    itoc_table = some (
        64 ∷ 85 ∷ 84 ∷ 70 ∷ 0 ∷ 0 ∷ 0 ∷ 86 ∷ 0 ∷ 1 ∷ 0 ∷ 39 ∷ 0 ∷ 0 ∷ 0 ∷ 49 ∷ 0 ∷ 0 ∷ 0 ∷ 86 ∷ 0
        ∷ 0 ∷ 0 ∷ 1 ∷ 0 ∷ 3 ∷ 0 ∷ 10 ∷ 0 ∷ 0 ∷ 0 ∷ 1 ∷ 82 ∷ 0 ∷ 0 ∷ 0 ∷ 13 ∷ 84 ∷ 0 ∷ 0 ∷ 0 ∷ 16
        ∷ 84 ∷ 0 ∷ 0 ∷ 0 ∷ 25 ∷ 0 ∷ 3 ∷ 0 ∷ 0 ∷ 0 ∷ 10 ∷ 0 ∷ 0 ∷ 0 ∷ 10 ∷ 0 ∷ 67 ∷ 112 ∷ 107 ∷ 69
        ∷ 120 ∷ 116 ∷ 101 ∷ 110 ∷ 100 ∷ 73 ∷ 100 ∷ 0 ∷ 73 ∷ 68 ∷ 0 ∷ 70 ∷ 105 ∷ 108 ∷ 101 ∷ 83 ∷ 105
        ∷ 122 ∷ 101 ∷ 0 ∷ 69 ∷ 120 ∷ 116 ∷ 114 ∷ 97 ∷ 99 ∷ 116 ∷ 83 ∷ 105 ∷ 122 ∷ 101 ∷ 0 ∷ []);
  };
}

abbrev payload : ℕ → List ℕ
payload i = replicate (size_at (one_file ∷ []) i) 7

-- What is written, if it is.
abbrev written_of : Result WriteError Written → Written
written_of (ok w) = w
written_of (err e) = record {
  bytes = [];
  report = record {
    files = 0;
    toc_offset = 0;
    itoc_offset = 0;
    content_offset = 0;
    archive_size = 0;
  };
}

abbrev run : CpkIndexMode → Result WriteError Written
run mode = write_with_profile 0x40 (one_file ∷ []) (profile_of mode) payload

both_planned :
    (plan 0x40 (one_file ∷ []) (profile_of toc) ≡ ok toc_plan)
    × (plan 0x40 (one_file ∷ []) (profile_of itoc) ≡ ok itoc_plan)
unfolding plan check_input validate_alignment build_physical_order check_ids id_at sort_by_key
    insert build_index relative_offsets layout place_table chunk_size align_up place_content
    place_files build_toc_table toc_rows build_itoc_table build_itoc_rows itoc_rows itoc_row build
    write_table check_rows check_values type_code value_type size row_size_of fill_pools
    intern_string intern_names intern_rows intern_row intern_value find_value same_str place_rows
    place_row place_value sections header_bytes column_bytes rows_bytes row_bytes value_bytes
both_planned = (refl, refl)

both_written : (run toc ≡ ok (written_of (run toc))) × (run itoc ≡ ok (written_of (run itoc)))
unfolding write_with_profile write_at write_head write_content write_payloads write_zeros zeros_loop
    magic build_chunk build_header_table header_row plan check_input validate_alignment
    build_physical_order check_ids id_at sort_by_key insert build_index relative_offsets layout
    place_table chunk_size align_up place_content place_files build_toc_table toc_rows
    build_itoc_table build_itoc_rows itoc_rows itoc_row build write_table check_rows check_values
    type_code value_type size row_size_of fill_pools intern_string intern_names intern_rows
    intern_row intern_value find_value same_str place_rows place_row place_value sections
    header_bytes column_bytes rows_bytes row_bytes value_bytes
both_written = (refl, refl)

one_listed : IsListed one_file
one_listed = record {
  named = λ e. absurd (omega (arith, ap length e));
  size = omega arith;
  extract_size = omega arith;
  id = omega arith;
}

abbrev HasArchivable : CpkIndexMode → Plan → Type 0
HasArchivable mode p = IsArchivable all_utf8 as_it_is 0x40 (one_file ∷ []) (profile_of mode) p

one_proper :
    (mode : CpkIndexMode) (p : Plan)
    → All IsSized (header_row (header_fields 0x40 (one_file ∷ []) p) (profile_of mode))
    → ((bytes : List ℕ) → p.tables.toc_table ≡ some bytes → length bytes < 2 ^ 32)
    → ((bytes : List ℕ) → p.tables.itoc_table ≡ some bytes → length bytes < 2 ^ 32)
    → HasArchivable mode p
one_proper mode p sized toc_small itoc_small = record {
  header = record {
    tvers = plain (0x74 ∷ []) (omega arith);
    comment = plain [] (omega arith);
    numbers = sized;
    widths = record {
      version = omega arith;
      revision = omega arith;
      alignment = omega arith;
      file_count = omega arith;
    };
  };
  directories = (plain (0x64 ∷ []) (omega arith), tt);
  file_names = (plain (0x61 ∷ []) (omega arith), tt);
  user_strings = (plain [] (omega arith), tt);
  listed = (one_listed, tt);
  toc_small = toc_small;
  itoc_small = itoc_small;
}

some_small :
    (bytes : List ℕ)
    → length bytes < 2 ^ 32
    → (found : List ℕ) → some bytes ≡ some found
    → length found < 2 ^ 32
some_small bytes lt found e = subst (λ (b : List ℕ). length b < 2 ^ 32) (some-inj e) lt

abbrev is_sized : UtfValue → Bool
is_sized (UtfValue.uint16 v) = ltb v (2 ^ 16)
is_sized (UtfValue.uint32 v) = ltb v (2 ^ 32)
is_sized (UtfValue.uint64 v) = ltb v (2 ^ 64)
is_sized v = true

abbrev are_sized : List UtfValue → Bool
are_sized [] = true
are_sized (v ∷ row) = if is_sized v then are_sized row else false

is_sized-IsSized : (v : UtfValue) → is_sized v ≡ true → IsSized v
is_sized-IsSized (UtfValue.uint16 v) h = ground arith
is_sized-IsSized (UtfValue.uint32 v) h = ground arith
is_sized-IsSized (UtfValue.uint64 v) h = ground arith
is_sized-IsSized (UtfValue.string v) h = tt
is_sized-IsSized (UtfValue.data_bytes v) h = tt

are_sized-IsSized : (row : List UtfValue) → are_sized row ≡ true → All IsSized row
are_sized-IsSized [] h = tt
are_sized-IsSized (v ∷ row) h = elim (Bool-cases (is_sized v)) [
  | inl e ↦ (is_sized-IsSized v e, are_sized-IsSized row (rw e at h))
  | inr e ↦ let k : false ≡ true = rw e at h in cc
]

toc_plan-IsSized :
    All IsSized (header_row (header_fields 0x40 (one_file ∷ []) toc_plan) (profile_of toc))
unfolding header_row build_chunk magic
toc_plan-IsSized =
    are_sized-IsSized (header_row (header_fields 0x40 (one_file ∷ []) toc_plan) (profile_of toc))
      refl

itoc_plan-IsSized :
    All IsSized (header_row (header_fields 0x40 (one_file ∷ []) itoc_plan) (profile_of itoc))
unfolding header_row build_chunk magic
itoc_plan-IsSized =
    are_sized-IsSized (header_row (header_fields 0x40 (one_file ∷ []) itoc_plan) (profile_of itoc))
      refl

abbrev Archive : CpkIndexMode → Plan → Type 0
Archive mode p =
    IsArchive all_utf8 as_it_is 0x40 (one_file ∷ []) (profile_of mode) payload p
      (written_of (run mode))

one_toc : Archive toc toc_plan
one_toc = record {
  ascii = λ s h. refl;
  planned = both_planned.0;
  proper =
      one_proper toc toc_plan toc_plan-IsSized (λ bytes e. some_small _ (omega arith) bytes e)
        (λ bytes e. cc);
  same = λ i. length-replicate (size_at (one_file ∷ []) i) 7;
  written = both_written.0;
}

one_itoc : Archive itoc itoc_plan
one_itoc = record {
  ascii = λ s h. refl;
  planned = both_planned.1;
  proper =
      one_proper itoc itoc_plan itoc_plan-IsSized (λ bytes e. cc)
        (λ bytes e. some_small _ (omega arith) bytes e);
  same = λ i. length-replicate (size_at (one_file ∷ []) i) 7;
  written = both_written.1;
}

abbrev toc_reader : CpkReader
toc_reader = opened 0x40 (one_file ∷ []) (profile_of toc) toc_plan (written_of (run toc))

abbrev itoc_reader : CpkReader
itoc_reader = opened 0x40 (one_file ∷ []) (profile_of itoc) itoc_plan (written_of (run itoc))

get_files-write_example :
    (fs : List CpkFile) × (get_files all_utf8 as_it_is (fresh (written_of (run toc)))
      ≡ (toc_reader, ok fs))
    × ((i : ℕ) (input : CpkInputFile)
        → get_elem? (one_file ∷ []) i ≡ some input
        → (f : CpkFile) × (get_elem? fs i ≡ some f) × IsExtracted toc_reader (payload i) input f)
get_files-write_example = get_files-write one_toc refl

get_files-itoc_example :
    (fs : List CpkFile) × (get_files all_utf8 as_it_is (fresh (written_of (run itoc)))
      ≡ (itoc_reader, ok fs))
    × (map (λ f. f.id) fs ≡ map (λ i. some (id_at (one_file ∷ []) i)) (0 ∷ []))
    × (map (read_packed_file itoc_reader) fs ≡ map (λ i. ok (payload i)) (0 ∷ []))
get_files-itoc_example = get_files-itoc one_itoc refl

parse_metadata-build_example :
    (table : HighTable) × (open_table all_utf8 as_it_is (whole-IsWritten one_toc).table ≡ ok table)
    × (length table.rows ≡ 1)
    × (parse_metadata table
        ≡ metadata_of (header_fields 0x40 (one_file ∷ []) toc_plan) (profile_of toc))
unfolding magic
parse_metadata-build_example =
    let written = whole-IsWritten one_toc in
    parse_metadata-build all_utf8 as_it_is (header_fields 0x40 (one_file ∷ []) toc_plan)
      (profile_of toc) written.table one_toc.ascii one_toc.proper.header written.built
      (omega (arith, length-build_chunk CpkChunkKind.cpk written.table refl, written.small))
