-- ===== src/Utf/Columns.antt =====
-- The columns of a table are read back as they were written.
use cri_archive_lib.Base.{
  ℕ, ◌*◌, ◌^◌, ◌<◌, ◌≡◌, refl, ◌∙◌, ap, arith, bit_or, List, [], ◌∷◌, ◌++◌, length, All, none,
}
use cri_archive_lib.Base.{ok, append_assoc, length-append}
use cri_archive_lib.Base.Bytes.{to_be, from_be, from_be-to_be, length-to_be}
use cri_archive_lib.Schema.{read_exact}
use cri_archive_lib.Schema.Columns.{read_column, read_name, read_default, new_list, contains}
use cri_archive_lib.Writer.Utf.{
  UtfColumn, UtfType, type_code, uint16, uint32, uint64, string, data_bytes,
}
use cri_archive_lib.Writer.Utf.Build.{column_bytes}
use cri_archive_lib.Utf.{column_for, columns_for}

read_column_raw :
    (t : UtfType) (o : ℕ) (rest : List ℕ)
    → read_column (bit_or 0x50 (type_code t) ∷ (to_be 4 o ++ rest))
      ≡ ok (
        record {
          flag = bit_or 0x50 (type_code t);
          string_offset = from_be (to_be 4 o);
          default = none;
        },
        rest,
      )
unfolding read_column read_name read_default read_exact contains type_code
read_column_raw uint16 o rest = refl
read_column_raw uint32 o rest = refl
read_column_raw uint64 o rest = refl
read_column_raw string o rest = refl
read_column_raw data_bytes o rest = refl

read_column-column_for :
    (t : UtfType) (o : ℕ) (rest : List ℕ)
    → o < 2 ^ 32
    → read_column (bit_or 0x50 (type_code t) ∷ (to_be 4 o ++ rest)) ≡ ok (column_for t o, rest)
read_column-column_for t o rest h =
    read_column_raw t o rest
    ∙ ap
        (λ (n : ℕ).
          ok (record { flag = bit_or 0x50 (type_code t); string_offset = n; default = none }, rest))
        (from_be-to_be 4 o (omega arith))

pub new_list-column_bytes :
    (cs : List UtfColumn) (os : List ℕ) (rest : List ℕ)
    → length os ≡ length cs
    → All (λ o. o < 2 ^ 32) os
    → new_list (length cs) (column_bytes cs os ++ rest) ≡ ok (columns_for cs os, rest)
unfolding new_list column_bytes
new_list-column_bytes [] os rest e h = refl
new_list-column_bytes (c ∷ cs) [] rest e h = absurd (omega arith)
new_list-column_bytes (c ∷ cs) (o ∷ os) rest e h =
    let head = read_column-column_for c.value_type o (column_bytes cs os ++ rest) h.0 in
    let ih = new_list-column_bytes cs os rest (omega arith) h.1 in
    rw (append_assoc (to_be 4 o) (column_bytes cs os) rest, head, ih) refl

pub length-column_bytes :
    (cs : List UtfColumn) (os : List ℕ)
    → length os ≡ length cs
    → length (column_bytes cs os) ≡ length cs * 5
unfolding column_bytes
length-column_bytes [] os e = refl
length-column_bytes (c ∷ cs) [] e = absurd (omega arith)
length-column_bytes (c ∷ cs) (o ∷ os) e = omega (
  arith,
  length-append (to_be 4 o) (column_bytes cs os),
  length-to_be 4 o,
  length-column_bytes cs os (omega arith),
)
