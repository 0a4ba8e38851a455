-- ===== src/Archive/Rows.antt =====
-- The rows of an ITOC, from the writer to the reader.
use cri_archive_lib.Base.{ℕ, suc, ◌+◌, ◌^◌, ◌≤◌, ◌<◌, ◌≡◌, refl, sym, ◌∙◌, ap, ap₂, arith, subst}
use cri_archive_lib.Base.{
  Bool, true, false, leb, ◌==◌, Bool-cases, inl, inr, map, List, [], ◌∷◌, ◌++◌, All, length,
  get_elem?, AllPairs, Str,
}
use cri_archive_lib.Base.{none, some, ok, >>=-eq-ok, ok-inj, map-append}
use cri_archive_lib.Base.Sort.{filter, sort_by_key, sort-map, sort-filter, IsAscending}
use cri_archive_lib.Strings.{same_str}
use cri_archive_lib.Schema.Names.{name_id, name_file_size, name_extract_size, name_file_crc}
use cri_archive_lib.Schema.Table.{HighTable}
use cri_archive_lib.Writer.{CpkInputFile, CpkWriterError, arithmetic_overflow, itoc_id_too_large}
use cri_archive_lib.Writer.Order.{id_at}
use cri_archive_lib.Writer.Layout.{size_at}
use cri_archive_lib.Writer.Itoc.{
  UtfValue, extract_size_at, is_low, low_group, high_group, try_u16, itoc_row, itoc_rows,
}
use cri_archive_lib.Writer.Utf.{UtfTableBuilder}
use cri_archive_lib.Writer.Tables.{itoc_columns}
use cri_archive_lib.Reader.Itoc.{ItocRow, has_pair}
use cri_archive_lib.Reader.Values.{
  ItocColumns, itoc_columns_of, collect_row, collect_rows, collect_itoc_rows,
}
use cri_archive_lib.Utf.{IsSized, Reads}
use cri_archive_lib.Utf.ReadBack.{IsReadBack}
use cri_archive_lib.Utf.Lookup.{number_of, column_index-first_column, AllPairs-length}
use cri_archive_lib.Archive.Cells.{numeric_at-cell, try_u32-fits}

-- The row that is read for the file at an index.
abbrev pub row_of : List CpkInputFile → ℕ → ItocRow
row_of files i = record {
  id = id_at files i;
  file_size = size_at files i;
  extract_size = extract_size_at files i;
  file_crc = none;
}

-- Sizes of 32 bits.
abbrev pub HasSizes : List CpkInputFile → ℕ → Type 0
HasSizes files i = (size_at files i < 2 ^ 32) × (extract_size_at files i < 2 ^ 32)

abbrev pub wide : Bool → ℕ → UtfValue
wide true v = UtfValue.uint16 v
wide false v = UtfValue.uint32 v

-- The row that is written for the file at an index.
abbrev pub cells : List CpkInputFile → Bool → ℕ → List UtfValue
cells files low_width i =
    UtfValue.uint16 (id_at files i)
    ∷ wide low_width (size_at files i)
    ∷ wide low_width (extract_size_at files i)
    ∷ []

try_u16-inv : (v : ℕ) (e : CpkWriterError) {r : ℕ} → try_u16 v e ≡ ok r → (r ≡ v) × (v ≤ 0xffff)
try_u16-inv v e h = elim (Bool-cases (leb v 0xffff)) [
  | inl t ↦ let h' = rw t at h in let le : v ≤ 0xffff = ground arith in (cc, le)
  | inr t ↦ let h' = rw t at h in cc
]

same_row :
    (f : ℕ → UtfValue) {x x' y y' z z' : ℕ}
    → x ≡ x'
    → y ≡ y'
    → z ≡ z'
    → ◌≡◌ {A = List UtfValue}
        (UtfValue.uint16 x ∷ f y ∷ f z ∷ [])
        (UtfValue.uint16 x' ∷ f y' ∷ f z' ∷ [])
same_row f p q r = rw (p, q, r) refl

abbrev written_itoc_columns : ItocColumns
written_itoc_columns = record {
  id_col = 0;
  file_size_col = 1;
  extract_size_col = 2;
  crc_col = none;
}

abbrev pub itoc_builder : Str → Bool → List (List UtfValue) → UtfTableBuilder
itoc_builder name low_width rows = record {
  name = name;
  columns = itoc_columns low_width;
  rows = rows;
}

module _ (files : List CpkInputFile) where
  -- What a row of the writer is: the cells of its file, whose numbers fit.
  itoc_row-cells :
      (low_width : Bool) (i : ℕ) {row : List UtfValue}
      → HasSizes files i
      → itoc_row files low_width i ≡ ok row
      → (row ≡ cells files low_width i)
        × (id_at files i ≤ 0xffff)
        × All IsSized (cells files low_width i)
  unfolding itoc_row
  itoc_row-cells true i {row} h e =
      let a = >>=-eq-ok (try_u16 (id_at files i) (itoc_id_too_large (id_at files i))) _ e in
      let b = >>=-eq-ok (try_u16 (size_at files i) arithmetic_overflow) _ a.2 in
      let c = >>=-eq-ok (try_u16 (extract_size_at files i) arithmetic_overflow) _ b.2 in
      let ia = try_u16-inv (id_at files i) (itoc_id_too_large (id_at files i)) a.1 in
      let ib = try_u16-inv (size_at files i) arithmetic_overflow b.1 in
      let ic = try_u16-inv (extract_size_at files i) arithmetic_overflow c.1 in
      (
        sym (ok-inj refl c.2) ∙ same_row UtfValue.uint16 ia.0 ib.0 ic.0,
        ia.1,
        (omega (arith, ia.1), (omega (arith, ib.1), (omega (arith, ic.1), tt))),
      )
  itoc_row-cells false i {row} h e =
      let a = >>=-eq-ok (try_u16 (id_at files i) (itoc_id_too_large (id_at files i))) _ e in
      let ia = try_u16-inv (id_at files i) (itoc_id_too_large (id_at files i)) a.1 in
      (
        sym (ok-inj refl a.2) ∙ same_row UtfValue.uint32 ia.0 refl refl,
        ia.1,
        (omega (arith, ia.1), (h.0, (h.1, tt))),
      )

  pub itoc_rows-cells :
      (low_width : Bool) (indices : List ℕ) {rows : List (List UtfValue)}
      → ((i : ℕ) → HasSizes files i)
      → itoc_rows files indices low_width ≡ ok rows
      → (rows ≡ map (cells files low_width) indices)
        × All (λ (i : ℕ). id_at files i ≤ 0xffff) indices
        × All (All IsSized) (map (cells files low_width) indices)
  unfolding itoc_rows
  itoc_rows-cells low_width [] h e = (sym (ok-inj refl e), tt, tt)
  itoc_rows-cells low_width (i ∷ indices) {rows} h e =
      let a = >>=-eq-ok (itoc_row files low_width i) _ e in
      let b = >>=-eq-ok (itoc_rows files indices low_width) _ a.2 in
      let first = itoc_row-cells low_width i (h i) a.1 in
      let rest = itoc_rows-cells low_width indices h b.1 in
      (sym (ok-inj refl b.2) ∙ ap₂ ◌∷◌ first.0 rest.0, (first.1, rest.1), (first.2, rest.2))

  module _ (name : Str) (low_width : Bool) (all : List ℕ) (bytes : List ℕ) (table : HighTable)
      (h : IsReadBack
        (itoc_builder name low_width (map (cells files low_width) all))
        bytes
        table) where
    columns-written : itoc_columns_of table ≡ written_itoc_columns
    unfolding itoc_columns_of same_str
    columns-written =
        let t = itoc_builder name low_width (map (cells files low_width) all) in
        rw
          (
            column_index-first_column t bytes table name_id h,
            column_index-first_column t bytes table name_file_size h,
            column_index-first_column t bytes table name_extract_size h,
            column_index-first_column t bytes table name_file_crc h,
          )
          refl

    number_wide : (v : ℕ) → number_of (wide low_width v) ≡ some v
    number_wide v = elim (Bool-cases low_width) [ inl e ↦ rw e refl | inr e ↦ rw e refl ]

    row-row_of :
        (r i : ℕ)
        → HasSizes files i
        → id_at files i ≤ 0xffff
        → get_elem? (map (cells files low_width) all) r ≡ some (cells files low_width i)
        → collect_row table written_itoc_columns r ≡ ok (row_of files i)
    unfolding collect_row
    row-row_of r i sizes id e =
        let t = itoc_builder name low_width (map (cells files low_width) all) in
        let row = cells files low_width i in
        let id_fits = try_u32-fits (id_at files i) (omega (arith, id)) in
        rw
          (
            numeric_at-cell t bytes table h r row e 0 (UtfValue.uint16 (id_at files i)) refl,
            numeric_at-cell t bytes table h r row e 1 (wide low_width (size_at files i)) refl,
            numeric_at-cell t bytes table h r row e 2 (wide low_width (extract_size_at files i))
                refl,
            number_wide (size_at files i),
            number_wide (extract_size_at files i),
            id_fits,
            try_u32-fits (size_at files i) sizes.0,
            try_u32-fits (extract_size_at files i) sizes.1,
          )
          refl

    rows-row_of :
        (indices : List ℕ) (r : ℕ)
        → ((i : ℕ) → HasSizes files i)
        → All (λ (i : ℕ). id_at files i ≤ 0xffff) indices
        → ((j : ℕ) (row : List UtfValue)
            → get_elem? (map (cells files low_width) indices) j ≡ some row
            → get_elem? (map (cells files low_width) all) (r + j) ≡ some row)
        → collect_rows table written_itoc_columns (length (map (cells files low_width) indices)) r
          ≡ ok (map (row_of files) indices)
    unfolding collect_rows
    rows-row_of [] r sizes ids e = refl
    rows-row_of (i ∷ indices) r sizes ids e =
        let here : r + 0 ≡ r = omega arith in
        let at =
          subst
            (λ (n : ℕ).
              get_elem? (map (cells files low_width) all) n ≡ some (cells files low_width i))
            here (e 0 (cells files low_width i) refl) in
        let first = row-row_of r i (sizes i) ids.0 at in
        let rest = rows-row_of indices (suc r) sizes ids.1 (λ j row g.
          let next : r + suc j ≡ suc r + j = omega arith in
          subst (λ (n : ℕ). get_elem? (map (cells files low_width) all) n ≡ some row) next
            (e (suc j) row g)) in
        rw (first, rest) refl

    pub collect_itoc_rows-cells :
        ((i : ℕ) → HasSizes files i)
        → All (λ (i : ℕ). id_at files i ≤ 0xffff) all
        → collect_itoc_rows table ≡ ok (map (row_of files) all)
    unfolding collect_itoc_rows
    collect_itoc_rows-cells sizes ids =
        let t = itoc_builder name low_width (map (cells files low_width) all) in
        let count = AllPairs-length (AllPairs (Reads table)) t.rows table.rows h.rows in
        let rows = rows-row_of all 0 sizes ids (λ j row g.
          let z : j ≡ 0 + j = omega arith in
          subst (λ (n : ℕ). get_elem? (map (cells files low_width) all) n ≡ some row) z g) in
        rw (columns-written, sym count, rows) refl

  -- The two groups, merged by identifier, are the files in the physical order.
  pub merged :
      (order : List ℕ)
      → IsAscending (id_at files) order
      → sort_by_key
          (λ r. r.id)
          (map (row_of files) (low_group files order)
            ++ map (row_of files) (high_group files order))
        ≡ map (row_of files) order
  unfolding low_group high_group
  merged order h =
      ap (sort_by_key (λ r. r.id)) (sym (map-append (row_of files) (filter (is_low files) order) _))
      ∙ sort-map (λ (r : ItocRow). r.id) (row_of files) _
      ∙ ap (map (row_of files)) (sort-filter (id_at files) (is_low files) order h)

  -- Growing identifiers have no two neighbours that are the same.
  pub no_pair :
      (order : List ℕ)
      → IsAscending (id_at files) order
      → has_pair (map (row_of files) order) ≡ false
  unfolding has_pair
  no_pair [] h = refl
  no_pair (i ∷ []) h = refl
  no_pair (i ∷ j ∷ order) h =
      let lt = h.0.0 in
      let t : (id_at files i == id_at files j) ≡ false = ground arith in
      rw t (no_pair (j ∷ order) h.1)
