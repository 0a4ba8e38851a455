-- ===== src/Utf/Sections.antt =====
-- The header of a table that was built, and the guards of the reader on it.
use cri_archive_lib.Base.{
  ℕ, ◌+◌, ◌-◌, ◌*◌, ◌^◌, ◌<◌, ◌≤◌, ◌≡◌, refl, sym, ◌∙◌, ap, subst, arith, bit_or, true, ltb, leb,
  le→ltb,
}
use cri_archive_lib.Base.{
  List, [], ◌∷◌, ◌++◌, length, drop, drop-drop, drop-append, ok, ok_or, >>=-eq-ok, ok-inj,
  ok_or-inv, ensure-inv, checked_add, checked_add-inv, checked_add-fits, checked_mul,
  checked_mul-inv, checked_mul-fits,
}
use cri_archive_lib.Base.Bytes.{from_be-to_be}
use cri_archive_lib.Encrypt.Table.{starts_with, utf_magic}
use cri_archive_lib.Strings.{utf8}
use cri_archive_lib.Schema.Header.{
  TableHeader, header_size, size, encoding, from_code, rows_offset, string_pool_offset,
  data_pool_offset, column_count, row_size, row_count,
}
use cri_archive_lib.Schema.Header
use cri_archive_lib.Schema.Columns.{contains, row_storage_flag, get_type, get_size}
use cri_archive_lib.Schema.Table.{check_sections, row_width}
use cri_archive_lib.Writer.{arithmetic_overflow}
use cri_archive_lib.Writer.Utf.{
  UtfColumn, UtfType, UtfTableBuilder, type_code, uint16, uint32, uint64, string, data_bytes,
  row_size_of,
}
use cri_archive_lib.Writer.Utf
use cri_archive_lib.Writer.Utf.Build.{Pools, Sections, sections, header_bytes}
use cri_archive_lib.Utf.{columns_for}

-- Where the sections of a table begin.
pub record IsLaid (t : UtfTableBuilder) (p : Pools) (s : Sections) : Type 0 where
  pub rows : s.rows_start ≡ 0x20 + length t.columns * 5
  pub strings : s.string_pool_start ≡ s.rows_start + row_size_of t.columns * length t.rows
  pub data_start : s.data_pool_start ≡ s.string_pool_start + length p.strings.pool
  pub size_field : s.table_size_field ≡ s.data_pool_start + length p.data_pool.bytes - 8

pub sections-IsLaid :
    (t : UtfTableBuilder) (p : Pools) (s : Sections) → sections t p ≡ ok s → IsLaid t p s
unfolding sections
sections-IsLaid t p s e =
    let a = >>=-eq-ok (ok_or (checked_mul (length t.columns) 5) arithmetic_overflow) _ e in
    let a' = checked_mul-inv (length t.columns) 5 (ok_or-inv _ _ a.1) in
    let b = >>=-eq-ok (ok_or (checked_add 0x20 a.0) arithmetic_overflow) _ a.2 in
    let b' = checked_add-inv 0x20 a.0 (ok_or-inv _ _ b.1) in
    let c =
      >>=-eq-ok (ok_or (checked_mul (row_size_of t.columns) (length t.rows)) arithmetic_overflow) _
        b.2 in
    let c' = checked_mul-inv (row_size_of t.columns) (length t.rows) (ok_or-inv _ _ c.1) in
    let d = >>=-eq-ok (ok_or (checked_add b.0 c.0) arithmetic_overflow) _ c.2 in
    let d' = checked_add-inv b.0 c.0 (ok_or-inv _ _ d.1) in
    let f = >>=-eq-ok (ok_or (checked_add d.0 (length p.strings.pool)) arithmetic_overflow) _ d.2 in
    let f' = checked_add-inv d.0 (length p.strings.pool) (ok_or-inv _ _ f.1) in
    let g =
      >>=-eq-ok (ok_or (checked_add f.0 (length p.data_pool.bytes)) arithmetic_overflow) _ f.2 in
    let g' = checked_add-inv f.0 (length p.data_pool.bytes) (ok_or-inv _ _ g.1) in
    let h = ensure-inv (leb 8 g.0) arithmetic_overflow _ g.2 in
    let i = ensure-inv (ltb (g.0 - 8) (2 ^ 32)) arithmetic_overflow _ h.1 in
    subst (λ (x : Sections). IsLaid t p x) (ok-inj refl i.1)
      (record {
        rows = omega (arith, a'.0, b'.0);
        strings = omega (arith, c'.0, d'.0);
        data_start = f'.0;
        size_field = omega (arith, g'.0);
      })

-- The fields of the header, as the reader finds them.
pub record IsHeader (t : UtfTableBuilder) (s : Sections) (h : TableHeader) : Type 0 where
  pub size : size h ≡ s.table_size_field
  pub encoding : encoding h ≡ utf8
  pub rows_offset : rows_offset h ≡ s.rows_start
  pub string_pool_offset : string_pool_offset h ≡ s.string_pool_start
  pub data_pool_offset : data_pool_offset h ≡ s.data_pool_start
  pub column_count : column_count h ≡ length t.columns
  pub row_size : row_size h ≡ row_size_of t.columns
  pub row_count : row_count h ≡ length t.rows

-- The bounds under which each field has its number.
pub record HasWidths (t : UtfTableBuilder) (s : Sections) : Type 0 where
  pub size : s.table_size_field < 2 ^ 32
  pub rows : (8 ≤ s.rows_start) × (s.rows_start < 2 ^ 16 + 8)
  pub strings : (8 ≤ s.string_pool_start) × (s.string_pool_start < 2 ^ 32)
  pub data_start : (8 ≤ s.data_pool_start) × (s.data_pool_start < 2 ^ 32)
  pub columns : length t.columns < 2 ^ 16
  pub row_size : row_size_of t.columns < 2 ^ 16
  pub row_count : length t.rows < 2 ^ 32

pub header_bytes-IsHeader :
    (t : UtfTableBuilder) (p : Pools) (s : Sections) (rest : List ℕ)
    → HasWidths t s
    → IsHeader t s (Header.new (header_bytes t p s ++ rest))
unfolding header_bytes Header.new size encoding from_code rows_offset string_pool_offset
    data_pool_offset column_count row_size row_count
header_bytes-IsHeader t p s rest w = record {
  size = from_be-to_be 4 s.table_size_field (omega (arith, w.size));
  encoding = refl;
  rows_offset = omega (arith, from_be-to_be 2 (s.rows_start - 8) (omega (arith, w.rows)), w.rows);
  string_pool_offset =
      omega
        (arith, from_be-to_be 4 (s.string_pool_start - 8) (omega (arith, w.strings)), w.strings);
  data_pool_offset =
      omega (
        arith,
        from_be-to_be 4 (s.data_pool_start - 8) (omega (arith, w.data_start)),
        w.data_start,
      );
  column_count = from_be-to_be 2 (length t.columns) (omega (arith, w.columns));
  row_size = from_be-to_be 2 (row_size_of t.columns) (omega (arith, w.row_size));
  row_count = from_be-to_be 4 (length t.rows) (omega (arith, w.row_count));
}

pub length-header_bytes :
    (t : UtfTableBuilder) (p : Pools) (s : Sections) → length (header_bytes t p s) ≡ 0x20
unfolding header_bytes
length-header_bytes t p s = refl

pub header_bytes_magic :
    (t : UtfTableBuilder) (p : Pools) (s : Sections) (rest : List ℕ)
    → starts_with (header_bytes t p s ++ rest) utf_magic ≡ true
unfolding header_bytes starts_with
header_bytes_magic t p s rest = refl

-- Behind one part of a list stands the next.
pub drop_past :
    (alloc : List ℕ) (n m : ℕ) (xs ys : List ℕ)
    → drop n alloc ≡ xs ++ ys
    → m ≡ n + length xs
    → drop m alloc ≡ ys
drop_past alloc n m xs ys e f =
    ap (λ (k : ℕ). drop k alloc) f
    ∙ sym (drop-drop n (length xs) alloc)
    ∙ ap (drop (length xs)) e
    ∙ drop-append xs ys

-- The guards let sections through that stand one behind the other.
pub check_sections_pass :
    (h : TableHeader) (size len : ℕ)
    → header_size ≤ rows_offset h
    → rows_offset h + row_size h * row_count h ≤ string_pool_offset h
    → string_pool_offset h ≤ data_pool_offset h
    → data_pool_offset h ≤ size
    → size ≤ len
    → size < 2 ^ 64
    → check_sections h size len ≡ ok tt
unfolding check_sections
check_sections_pass h n len a b c d e f =
    let t₀ : leb n len ≡ true = ground arith in
    let t₁ = le→ltb (rows_offset h) header_size a in
    let t₂ = le→ltb (string_pool_offset h) (rows_offset h) (omega arith) in
    let t₃ = le→ltb (data_pool_offset h) (string_pool_offset h) c in
    let t₄ = le→ltb n (data_pool_offset h) d in
    let m = checked_mul-fits (row_size h) (row_count h) (omega arith) in
    let s = checked_add-fits (rows_offset h) (row_size h * row_count h) (omega arith) in
    let t₅ : leb (rows_offset h + row_size h * row_count h) (string_pool_offset h) ≡ true =
      ground arith in
    rw (t₀, t₁, t₂, t₃, t₄, m, s, t₅) refl

contains-row_storage : (t : UtfType) → contains (bit_or 0x50 (type_code t)) row_storage_flag ≡ true
unfolding contains type_code
contains-row_storage uint16 = refl
contains-row_storage uint32 = refl
contains-row_storage uint64 = refl
contains-row_storage string = refl
contains-row_storage data_bytes = refl

get_size-code : (t : UtfType) → get_size (get_type (bit_or 0x50 (type_code t))) ≡ Utf.size t
unfolding get_size get_type type_code Utf.size
get_size-code uint16 = refl
get_size-code uint32 = refl
get_size-code uint64 = refl
get_size-code string = refl
get_size-code data_bytes = refl

pub row_width-columns_for :
    (cs : List UtfColumn) (os : List ℕ) (total : ℕ)
    → length os ≡ length cs
    → total + row_size_of cs < 2 ^ 64
    → row_width (columns_for cs os) total ≡ ok (total + row_size_of cs)
unfolding row_width row_size_of
row_width-columns_for [] os total e h =
    let same : total ≡ total + 0 = omega arith in ap (λ (n : ℕ). ok n) same
row_width-columns_for (c ∷ cs) [] total e h = absurd (omega arith)
row_width-columns_for (c ∷ cs) (o ∷ os) total e h =
    let ih =
      row_width-columns_for cs os (total + Utf.size c.value_type) (omega arith) (omega arith) in
    let sum : total + Utf.size c.value_type + row_size_of cs
        ≡ total + (Utf.size c.value_type + row_size_of cs) =
      omega arith in
    rw
      (
        contains-row_storage c.value_type,
        get_size-code c.value_type,
        checked_add-fits total (Utf.size c.value_type) (omega arith),
      )
      (ih ∙ ap (λ (n : ℕ). ok n) sum)
