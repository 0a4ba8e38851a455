-- ===== src/Writer/Layout.antt =====
-- The offsets that `write_with_profile` gives to the tables and to the files.
pub mod Offsets
pub mod Packed
pub mod Whole
use cri_archive_lib.Base.{
  ℕ, zero, suc, ◌+◌, ◌-◌, ◌^◌, Bool, true, false, ltb, leb, ◌==◌, ◌&&◌, if◌then◌else◌, get_or, set,
  length, map,
}
use cri_archive_lib.Base.{
  Option, none, some, List, [], ◌∷◌, Result, ok, err, ok_or, ensure, checked_add, ◌>>=◌, ◌>>◌,
  replicate, not,
}
use cri_archive_lib.Writer.{
  CpkInputFile, CpkIndexMode, has_toc, has_itoc, CpkWriterError, arithmetic_overflow, empty_input,
  too_many_files, itoc_content_offset_too_large,
}
use cri_archive_lib.Writer.Align.{align_up, validate_alignment}
use cri_archive_lib.Writer.Order.{build_physical_order}

abbrev pub engine_index_base : ℕ
engine_index_base = 0x800

abbrev pub cpk_chunk_header_size : ℕ
cpk_chunk_header_size = 0x10

-- `chunk_size`, of a table of `len` bytes.
unfoldable pub chunk_size : ℕ → Result CpkWriterError ℕ
chunk_size len = ok_or (checked_add cpk_chunk_header_size len) arithmetic_overflow

-- Where a table stands, and where the next thing may.
pub record Slot : Type 0 where
  pub offset : ℕ
  pub next : ℕ

-- One `if let Some(table) = ..` of the layout; `len` is the length of the table.
unfoldable pub place_table : Option ℕ → ℕ → ℕ → Result CpkWriterError Slot
place_table none alignment cursor = ok (record { offset = 0; next = cursor })
place_table (some len) alignment cursor = chunk_size len >>= λ size.
    ok_or (checked_add cursor size) arithmetic_overflow >>= λ end.
    align_up end alignment >>= λ next. ok (record { offset = cursor; next = next })

-- `files[index].size`
abbrev pub size_at : List CpkInputFile → ℕ → ℕ
size_at files i = get_or (map (λ f. f.size) files) i 0

pub record Placed : Type 0 where
  pub absolute_offsets : List ℕ
  pub absolute_cursor : ℕ

-- `for &index in &physical_order`, over the indices that are left.
unfoldable pub place_files :
    ℕ → List CpkInputFile → List ℕ → List ℕ → ℕ → Result CpkWriterError Placed
place_files alignment files [] offsets cursor =
    ok (record { absolute_offsets = offsets; absolute_cursor = cursor })
place_files alignment files (index ∷ order) offsets cursor =
    ok_or (checked_add cursor (size_at files index)) arithmetic_overflow >>= λ end.
    align_up end alignment >>= λ next.
    place_files alignment files order (set offsets index cursor) next

pub record Layout : Type 0 where
  pub physical_order : List ℕ
  pub toc_offset : ℕ
  pub itoc_offset : ℕ
  pub content_offset : ℕ
  pub absolute_offsets : List ℕ
  pub archive_size : ℕ
  pub content_size : ℕ

-- The length of a table, if the mode has it.
abbrev pub table_len : Bool → ℕ → Option ℕ
table_len has len = if has then some len else none

-- The files, behind the tables.
unfoldable pub place_content :
    ℕ → List CpkInputFile → CpkIndexMode → List ℕ → Slot → Slot → Result CpkWriterError Layout
place_content alignment files mode order toc itoc =
    align_up itoc.next alignment >>= λ content_offset.
    ensure (not (has_itoc mode && ltb (2 ^ 32 - 1) content_offset))
      (itoc_content_offset_too_large content_offset)
    >> (place_files alignment files order (replicate (length files) 0) content_offset >>= λ placed.
        ensure (leb content_offset placed.absolute_cursor) arithmetic_overflow
        >> ok (record {
          physical_order = order;
          toc_offset = toc.offset;
          itoc_offset = itoc.offset;
          content_offset = content_offset;
          absolute_offsets = placed.absolute_offsets;
          archive_size = placed.absolute_cursor;
          content_size = placed.absolute_cursor - content_offset;
        }))

-- From the checks of the input to the size of the content; `toc_len` and `itoc_len` are the lengths of
-- the tables that `build_toc_table` and `build_itoc_table` give.
unfoldable pub layout : ℕ → List CpkInputFile → CpkIndexMode → ℕ → ℕ → Result CpkWriterError Layout
layout alignment files mode toc_len itoc_len =
    validate_alignment alignment
    >> (ensure (not (length files == 0)) empty_input
        >> (ensure (ltb (length files) (2 ^ 32)) (too_many_files (length files))
            >> (build_physical_order files mode >>= λ order.
                place_table (table_len (has_toc mode) toc_len) alignment engine_index_base
                >>= λ toc.
                    place_table (table_len (has_itoc mode) itoc_len) alignment toc.next >>= λ itoc.
                    place_content alignment files mode order toc itoc)))
