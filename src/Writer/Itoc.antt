-- ===== src/Writer/Itoc.antt =====
-- The rows of an ITOC: the loop of `build_itoc_rows`, and the two groups of `build_itoc_table`.
use cri_archive_lib.Base.{ℕ, Bool, leb, ◌&&◌, not, if◌then◌else◌, List, [], ◌∷◌, get_or, map}
use cri_archive_lib.Base.{Str, Result, ok, err, ◌>>=◌}
use cri_archive_lib.Base.Sort.{filter}
use cri_archive_lib.Writer.{CpkInputFile, CpkWriterError, itoc_id_too_large, arithmetic_overflow}
use cri_archive_lib.Writer.Order.{id_at}
use cri_archive_lib.Writer.Layout.{size_at}

pub data UtfValue : Type 0 where
  uint16 uint32 uint64 : ℕ → UtfValue
  string : Str → UtfValue
  data_bytes : List ℕ → UtfValue

-- `files[index].extract_size`
abbrev pub extract_size_at : List CpkInputFile → ℕ → ℕ
extract_size_at files i = get_or (map (λ f. f.extract_size) files) i 0

-- The test of a file that goes to DataL.
abbrev pub is_low : List CpkInputFile → ℕ → Bool
is_low files index = leb (size_at files index) 0xffff && leb (extract_size_at files index) 0xffff

unfoldable pub low_group : List CpkInputFile → List ℕ → List ℕ
low_group files physical_order = filter (is_low files) physical_order

unfoldable pub high_group : List CpkInputFile → List ℕ → List ℕ
high_group files physical_order = filter (λ index. not (is_low files index)) physical_order

-- `u16::try_from`
abbrev pub try_u16 : ℕ → CpkWriterError → Result CpkWriterError ℕ
try_u16 v e = if leb v 0xffff then ok v else err e

-- The row of one file.
unfoldable pub itoc_row : List CpkInputFile → Bool → ℕ → Result CpkWriterError (List UtfValue)
itoc_row files low_width index =
    try_u16 (id_at files index) (itoc_id_too_large (id_at files index)) >>= λ id.
    if low_width
    then (try_u16 (size_at files index) arithmetic_overflow >>= λ size.
        try_u16 (extract_size_at files index) arithmetic_overflow >>= λ extract_size.
        ok (uint16 id ∷ uint16 size ∷ uint16 extract_size ∷ []))
    else ok (uint16 id ∷ uint32 (size_at files index) ∷ uint32 (extract_size_at files index) ∷ [])

unfoldable pub itoc_rows :
    List CpkInputFile → List ℕ → Bool → Result CpkWriterError (List (List UtfValue))
itoc_rows files [] low_width = ok []
itoc_rows files (index ∷ indices) low_width = itoc_row files low_width index >>= λ row.
    itoc_rows files indices low_width >>= λ rows. ok (row ∷ rows)
