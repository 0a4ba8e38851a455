-- ===== src/Reader/Itoc.antt =====
-- The rows of an ITOC: merged by identifier, checked, and given the offsets that the engine computes.
pub mod Offsets
use cri_archive_lib.Base.{
  ℕ, zero, suc, ◌+◌, ◌-◌, ◌*◌, ◌/◌, ◌%◌, ◌==◌, ◌||◌, if◌then◌else◌, Bool, true, false, max, leb,
}
use cri_archive_lib.Base.{
  Option, none, some, List, [], ◌∷◌, ◌++◌, Str, Result, ok, err, ok_or, checked_add, ensure, ◌>>=◌,
  ◌>>◌, not,
}
use cri_archive_lib.Base.Sort.{sort_by_key}
use cri_archive_lib.Reader.{CpkReaderError, missing_file_offset, invalid_itoc, CpkFile, new}
use cri_archive_lib.Reader.Align.{align_up}

pub record ItocRow : Type 0 where
  pub id : ℕ
  pub file_size : ℕ
  pub extract_size : ℕ
  pub file_crc : Option ℕ

-- The decimal digits of a number, at least `width` of them, before `tail`.
pub decimal : ℕ → ℕ → ℕ → Str → Str
decimal zero width n tail = tail
decimal (suc fuel) width n tail =
    let rest = decimal fuel (width - 1) (n / 10) ((0x30 + n % 10) ∷ tail) in
    if (n == 0) then (if width == 0 then tail else rest) else rest

-- `format!("{:05}.bin", id)`; a number of 32 bits has at most ten digits.
abbrev pub bin_name : ℕ → Str
bin_name id = decimal 10 5 id (0x2e ∷ 0x62 ∷ 0x69 ∷ 0x6e ∷ [])

-- The rows that are left, with the offset that they start at.
pub materialize : ℕ → ℕ → List ItocRow → ℕ → Result CpkReaderError (List CpkFile)
materialize content_offset alignment [] relative_offset = ok []
materialize content_offset alignment (row ∷ rows) relative_offset =
    ok_or (checked_add content_offset relative_offset) missing_file_offset >>= λ absolute_offset.
    ok_or (align_up row.file_size alignment) missing_file_offset >>= λ padded_size.
    ok_or (checked_add relative_offset padded_size) missing_file_offset >>= λ next.
    materialize content_offset alignment rows next >>= λ files. ok (
      new [] (bin_name row.id) relative_offset absolute_offset row.file_size row.extract_size
        (some row.id) [] row.file_crc
      ∷ files)

unfoldable pub materialize_itoc_rows : List ItocRow → ℕ → ℕ → Result CpkReaderError (List CpkFile)
materialize_itoc_rows rows content_offset alignment = materialize content_offset alignment rows 0

-- `rows.windows(2).any(|pair| pair[0].id == pair[1].id)`
unfoldable pub has_pair : List ItocRow → Bool
has_pair [] = false
has_pair (a ∷ []) = false
has_pair (a ∷ b ∷ rows) = a.id == b.id || has_pair (b ∷ rows)

-- The end of `read_itoc`, from the rows that were collected, of DataL and then of DataH.
unfoldable pub merge_rows : ℕ → ℕ → List ItocRow → Result CpkReaderError (List CpkFile)
merge_rows content_offset align rows =
    let sorted = sort_by_key (λ r. r.id) rows in
    ensure (not (has_pair sorted)) invalid_itoc
    >> materialize_itoc_rows sorted content_offset (max align 1)
