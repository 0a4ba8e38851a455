-- ===== src/Archive/RoundTrip.antt =====
-- An ITOC that was written is read back with the offsets of the layout.
use native.Mathlib.Nat.{one-le-pow}
use cri_archive_lib.Base.{ℕ, ◌+◌, ◌%◌, ◌<◌, ◌≡◌, sym, ◌∙◌, ap, arith, subst, max}
use cri_archive_lib.Base.{
  Bool, true, false, leb, map, if◌then◌else◌, List, [], ◌∷◌, ◌++◌, length, Str, All, >>=-eq-ok,
  ensure-inv, refl, ◌^◌, ltb, ltb→lt,
}
use cri_archive_lib.Base.{some, ok, map-map}
use cri_archive_lib.Base.Sort.{IsAscending, sort_by_key, sort-map, sort-IsAscending}
use cri_archive_lib.Writer.{CpkInputFile, CpkIndexMode, has_itoc}
use cri_archive_lib.Writer.Order.{id_at}
use cri_archive_lib.Writer.Order.Ascending.{build_physical_order-IsAscending}
use cri_archive_lib.Writer.Layout.{Layout, layout}
use cri_archive_lib.Writer.Layout.Packed.{in_order}
use cri_archive_lib.Writer.Layout.Whole.{layout-IsLayout}
use cri_archive_lib.Writer.Layout.Offsets.{layout_offsets, Fits, sizes_of}
use cri_archive_lib.Writer.{arithmetic_overflow}
use cri_archive_lib.Writer.Itoc.{UtfValue, low_group, high_group, itoc_rows}
use cri_archive_lib.Strings.{intern_string}
use cri_archive_lib.Writer.Utf.{UtfTableBuilder, UtfColumn, check_rows, row_size_of, data_bytes}
use cri_archive_lib.Writer.Utf.Pools.{
  DataPool, null_pool, intern_names, intern_rows, place_rows, place_row, place_value, empty_data,
}
use cri_archive_lib.Writer.Utf.Build.{build, fill_pools}
use cri_archive_lib.Strings.{same_str}
use cri_archive_lib.Writer.Tables.{
  itoc_columns, column, build_itoc_rows, build_nested, build_itoc_table,
}
use cri_archive_lib.Strings.RoundTrip.{IsPlain}
use cri_archive_lib.Schema.Names.{
  name_data_l, name_data_h, name_cpk_itoc_l, name_cpk_itoc_h, name_cpk_itoc_info,
  name_cpk_extend_id,
}
use cri_archive_lib.Schema.Table.{HighTable, open_table}
use cri_archive_lib.Utf.Interned.{IsPlainValue}
use cri_archive_lib.Utf.Lookup.{bytes_of, data_by_name-cell}
use cri_archive_lib.Utf.RoundTrip.{open_table-build}
use cri_archive_lib.Reader.Values.{collect_itoc_rows}
use cri_archive_lib.Reader.Archive.{read_nested, read_itoc_table}
use cri_archive_lib.Archive.Ascii.{columns-IsPlain, IsAscii, TakesAscii, IsAscii-IsPlain}
use cri_archive_lib.Reader.{CpkFile}
use cri_archive_lib.Reader.Itoc.{ItocRow, merge_rows, materialize_itoc_rows}
use cri_archive_lib.Reader.Itoc.Offsets.{row_sizes, IsRead, materialize-IsRead}
use cri_archive_lib.Archive.Rows.{
  row_of, HasSizes, cells, itoc_builder, itoc_rows-cells, collect_itoc_rows-cells, merged, no_pair,
}

merge_written :
    (files : List CpkInputFile) (order : List ℕ) (a content : ℕ) (collected : List ItocRow)
    → 0 < a
    → content % a ≡ 0
    → IsAscending (id_at files) order
    → Fits a (sizes_of files order) content
    → sort_by_key (λ r. r.id) collected ≡ map (row_of files) order
    → (fs : List CpkFile) × (merge_rows content a collected ≡ ok fs)
      × IsRead a (map (row_of files) order) content fs
unfolding merge_rows materialize_itoc_rows
merge_written files order a content collected pos hc asc fits sorted =
    let rows = map (row_of files) order in
    let zero_offset : content + 0 ≡ content = omega arith in
    let same : max a 1 ≡ a = omega arith in
    let sizes : row_sizes rows ≡ sizes_of files order =
      map-map (λ (r : ItocRow). r.file_size) (row_of files) order in
    let r =
      materialize-IsRead a content rows 0 pos hc (rw zero_offset hc)
        (rw (zero_offset, sizes) fits) in
    (
      r.0,
      rw (sorted, no_pair files order asc, same) r.1,
      subst (λ c. IsRead a rows c r.0) zero_offset r.2,
    )

-- A table that is built has its data fields placed.
build-places :
    (t : UtfTableBuilder) (bytes : List ℕ)
    → build t ≡ ok bytes
    → (d : DataPool) × (place_rows 0 t.rows empty_data ≡ ok d)
unfolding build fill_pools
build-places t bytes e =
    let a = ensure-inv (leb (length t.columns) 0xffff) arithmetic_overflow _ e in
    let b = ensure-inv (leb (length t.rows) 0xffffffff) arithmetic_overflow _ a.1 in
    let c = ensure-inv (leb (row_size_of t.columns) 0xffff) arithmetic_overflow _ b.1 in
    let d = >>=-eq-ok (check_rows t.columns t.rows) _ c.1 in
    let p = >>=-eq-ok (fill_pools t) _ d.2 in
    let n = >>=-eq-ok (intern_string t.name null_pool) _ p.1 in
    let k = >>=-eq-ok (intern_names t.columns n.0.1) _ n.2 in
    let s = >>=-eq-ok (intern_rows t.rows k.0.1) _ k.2 in
    let q = >>=-eq-ok (place_rows 0 t.rows empty_data) _ s.2 in (q.0, q.1)

place_value_fits :
    (r c : ℕ) (v : List ℕ) (p q : DataPool)
    → place_value r c (UtfValue.data_bytes v) p ≡ ok q
    → length v < 2 ^ 32
unfolding place_value
place_value_fits r c v p q e =
    let a = ensure-inv (ltb (length p.bytes) (2 ^ 32)) arithmetic_overflow _ e in
    ltb→lt _ _ (ensure-inv (ltb (length v) (2 ^ 32)) arithmetic_overflow _ a.1).0

nested_bounds :
    (low high bytes : List ℕ)
    → build_nested low high ≡ ok bytes
    → (length low < 2 ^ 32) × (length high < 2 ^ 32)
unfolding build_nested place_rows place_row
nested_bounds low high bytes e =
    let fields = UtfValue.data_bytes low ∷ UtfValue.data_bytes high ∷ [] in
    let placed = build-places _ bytes e in
    let row = >>=-eq-ok (place_row 0 0 fields empty_data) _ placed.1 in
    let a = >>=-eq-ok (place_value 0 0 (UtfValue.data_bytes low) empty_data) _ row.1 in
    let b = >>=-eq-ok (place_value 0 1 (UtfValue.data_bytes high) a.0) _ a.2 in
    (place_value_fits 0 0 low empty_data a.0 a.1, place_value_fits 0 1 high a.0 b.0 b.1)

abbrev nested_columns : List UtfColumn
nested_columns = column name_data_l data_bytes ∷ column name_data_h data_bytes ∷ []

abbrev nested_builder : List ℕ → List ℕ → UtfTableBuilder
nested_builder low high = record {
  name = name_cpk_itoc_info;
  columns = nested_columns;
  rows = (UtfValue.data_bytes low ∷ UtfValue.data_bytes high ∷ []) ∷ [];
}

abbrev pub eid_of : Bool → ℕ
eid_of direct = if direct then 1 else 0

-- What is read for the files in the physical order of a layout.
pub record IsIndexed (files : List CpkInputFile) (l : Layout) (fs : List CpkFile) : Type 0 where
  pub absolute_offsets : map (λ f. f.absolute_offset) fs ≡ in_order l
  pub ids : map (λ f. f.id) fs ≡ map (λ i. some (id_at files i)) l.physical_order
  pub file_sizes : map (λ f. f.file_size) fs ≡ sizes_of files l.physical_order

module _ (is_utf8 : Str → Bool) (decode_sjis : Str → Str) (ascii : TakesAscii is_utf8) where
  plain : (s : Str) → IsAscii s → IsPlain is_utf8 decode_sjis s
  plain s h = IsAscii-IsPlain is_utf8 decode_sjis s ascii h

  cells-IsPlain :
      (files : List CpkInputFile) (low_width : Bool) (indices : List ℕ)
      → All (All (IsPlainValue is_utf8 decode_sjis)) (map (cells files low_width) indices)
  cells-IsPlain files low_width [] = tt
  cells-IsPlain files true (i ∷ indices) = ((tt, (tt, (tt, tt))), cells-IsPlain files true indices)
  cells-IsPlain files false (i ∷ indices) =
      ((tt, (tt, (tt, tt))), cells-IsPlain files false indices)

  -- The table of a group.
  group_read :
      (files : List CpkInputFile) (indices : List ℕ) (low_width : Bool) (name : Str)
      (bytes : List ℕ)
      → IsAscii name
      → ((i : ℕ) → HasSizes files i)
      → build_itoc_rows files indices low_width name ≡ ok bytes
      → length bytes < 2 ^ 32
      → (table : HighTable) × (open_table is_utf8 decode_sjis bytes ≡ ok table)
        × (collect_itoc_rows table ≡ ok (map (row_of files) indices))
  unfolding build_itoc_rows
  group_read files indices low_width name bytes named sizes e lt =
      let a = >>=-eq-ok (itoc_rows files indices low_width) _ e in
      let c = itoc_rows-cells files low_width indices sizes a.1 in
      let t = itoc_builder name low_width (map (cells files low_width) indices) in
      let built =
        subst (λ (rows : List (List UtfValue)). build (itoc_builder name low_width rows) ≡ ok bytes)
          c.0 a.2 in
      let opened =
        open_table-build is_utf8 decode_sjis t bytes (ascii [] tt)
          (record {
            name = plain name named;
            columns = columns-IsPlain is_utf8 decode_sjis (itoc_columns low_width) ascii refl;
            strings = cells-IsPlain files low_width indices;
            numbers = c.2;
          })
          built lt in
      (
        opened.0,
        opened.1,
        collect_itoc_rows-cells files name low_width indices bytes opened.0 opened.2 sizes c.1,
      )

  opened_ne_nil :
      (bytes : List ℕ) {table : HighTable}
      → open_table is_utf8 decode_sjis bytes ≡ ok table
      → bytes_of (UtfValue.data_bytes bytes) ≡ some bytes
  unfolding open_table
  opened_ne_nil [] h = cc
  opened_ne_nil (b ∷ bytes) h = refl

  -- The outer table of a standard ITOC.
  nested_read :
      (low high bytes : List ℕ) (low_table high_table : HighTable)
      (low_rows high_rows : List ItocRow)
      → build_nested low high ≡ ok bytes
      → length bytes < 2 ^ 32
      → open_table is_utf8 decode_sjis low ≡ ok low_table
      → open_table is_utf8 decode_sjis high ≡ ok high_table
      → collect_itoc_rows low_table ≡ ok low_rows
      → collect_itoc_rows high_table ≡ ok high_rows
      → (table : HighTable) × (open_table is_utf8 decode_sjis bytes ≡ ok table)
        × (read_nested is_utf8 decode_sjis table ≡ ok (low_rows ++ high_rows))
  unfolding build_nested read_nested same_str
  nested_read low high bytes low_table high_table low_rows high_rows e lt ol oh cl ch =
      let row = UtfValue.data_bytes low ∷ UtfValue.data_bytes high ∷ [] in
      let t = nested_builder low high in
      let opened =
        open_table-build is_utf8 decode_sjis t bytes (ascii [] tt)
          (record {
            name = plain name_cpk_itoc_info (omega arith);
            columns = columns-IsPlain is_utf8 decode_sjis nested_columns ascii refl;
            strings = ((tt, (tt, tt)), tt);
            numbers = ((tt, (tt, tt)), tt);
          })
          e lt in
      let table = opened.0 in
      let l =
        data_by_name-cell t bytes table 0 0 row name_data_l (UtfValue.data_bytes low) opened.2 refl
          refl refl in
      let h =
        data_by_name-cell t bytes table 0 1 row name_data_h (UtfValue.data_bytes high) opened.2 refl
          refl refl in
      (table, opened.1, rw (l, h, opened_ne_nil low ol, opened_ne_nil high oh, ol, oh, cl, ch) refl)

  -- The rows of a standard ITOC and of a direct one.
  standard_read :
      (files : List CpkInputFile) (order : List ℕ) (bytes : List ℕ)
      → ((i : ℕ) → HasSizes files i)
      → build_itoc_table files order false ≡ ok bytes
      → length bytes < 2 ^ 32
      → (table : HighTable) × (open_table is_utf8 decode_sjis bytes ≡ ok table)
        × (read_nested is_utf8 decode_sjis table
            ≡ ok (
                map (row_of files) (low_group files order)
                ++ map (row_of files) (high_group files order)))
  unfolding build_itoc_table
  standard_read files order bytes sizes e lt =
      let low = low_group files order in
      let high = high_group files order in
      let a = >>=-eq-ok (build_itoc_rows files low true name_cpk_itoc_l) _ e in
      let b = >>=-eq-ok (build_itoc_rows files high false name_cpk_itoc_h) _ a.2 in
      let bounds = nested_bounds a.0 b.0 bytes b.2 in
      let l = group_read files low true name_cpk_itoc_l a.0 (omega arith) sizes a.1 bounds.0 in
      let h = group_read files high false name_cpk_itoc_h b.0 (omega arith) sizes b.1 bounds.1 in
      nested_read a.0 b.0 bytes l.0 h.0 (map (row_of files) low) (map (row_of files) high) b.2 lt
        l.1 h.1 l.2 h.2

  merged_layout :
      (alignment : ℕ) (files : List CpkInputFile) (mode : CpkIndexMode) (toc_len itoc_len : ℕ)
      (l : Layout) (collected : List ItocRow)
      → has_itoc mode ≡ true
      → layout alignment files mode toc_len itoc_len ≡ ok l
      → (IsAscending (id_at files) l.physical_order
          → sort_by_key (λ r. r.id) collected ≡ map (row_of files) l.physical_order)
      → (fs : List CpkFile) × (merge_rows l.content_offset alignment collected ≡ ok fs)
        × IsIndexed files l fs
  merged_layout alignment files mode toc_len itoc_len l collected m e sorted =
      let w = layout-IsLayout alignment files mode toc_len itoc_len l e in
      let order = l.physical_order in
      let asc = build_physical_order-IsAscending files mode order m w.order in
      let pos : 0 < alignment = rw w.alignment_power.0 (one-le-pow w.exponent 2 (omega arith)) in
      let r =
        merge_written files order alignment l.content_offset collected pos w.content_aligned asc
          w.fits (sorted asc) in
      let sizes : row_sizes (map (row_of files) order) ≡ sizes_of files order =
        map-map (λ (r : ItocRow). r.file_size) (row_of files) order in
      let ids = map-map (λ (r : ItocRow). some r.id) (row_of files) order in
      (
        r.0,
        r.1,
        record {
          absolute_offsets =
              r.2.absolute_offsets
              ∙ ap (λ s. layout_offsets alignment s l.content_offset) sizes
              ∙ sym w.offsets;
          ids = r.2.ids ∙ ids;
          file_sizes = r.2.file_sizes ∙ sizes;
        },
      )

  -- When the mode has an ITOC, the UTF-8 test takes ASCII, the sizes are of 32 bits, the layout
  -- and the ITOC are built without an error, and the ITOC takes less than 4 GiB, the reader opens
  -- its bytes and gets one file for each one that was written, in the physical order: with its
  -- identifier, its packed size, and exactly the absolute offset at which the writer puts its
  -- payload. A direct ITOC is read with an EID of 1, a standard one with an EID of 0 through its
  -- two nested tables.
  pub read_itoc-layout :
      (alignment : ℕ) (files : List CpkInputFile) (mode : CpkIndexMode) (toc_len itoc_len : ℕ)
      (l : Layout) (direct : Bool) (bytes : List ℕ)
      → has_itoc mode ≡ true
      → ((i : ℕ) → HasSizes files i)
      → layout alignment files mode toc_len itoc_len ≡ ok l
      → build_itoc_table files l.physical_order direct ≡ ok bytes
      → length bytes < 2 ^ 32
      → (table : HighTable) × (open_table is_utf8 decode_sjis bytes ≡ ok table)
        × (fs : List CpkFile) × (read_itoc_table is_utf8 decode_sjis l.content_offset alignment
              (eid_of direct)
              table
            ≡ ok fs)
        × IsIndexed files l fs
  unfolding read_itoc_table build_itoc_table
  read_itoc-layout alignment files mode toc_len itoc_len l true bytes m h e built lt =
      let order = l.physical_order in
      let g = group_read files order false name_cpk_extend_id bytes (omega arith) h built lt in
      let r =
        merged_layout alignment files mode toc_len itoc_len l (map (row_of files) order) m e (λ asc.
          sort-map (λ (r : ItocRow). r.id) (row_of files) order
          ∙ ap (map (row_of files)) (sort-IsAscending (id_at files) order asc)) in
      (g.0, g.1, r.0, rw (g.2, r.1) refl, r.2)
  read_itoc-layout alignment files mode toc_len itoc_len l false bytes m h e built lt =
      let order = l.physical_order in
      let g = standard_read files order bytes h built lt in
      let r =
        merged_layout alignment files mode toc_len itoc_len l
          (map (row_of files) (low_group files order)
            ++ map (row_of files) (high_group files order))
          m e (merged files order) in
      (g.0, g.1, r.0, rw (g.2, r.1) refl, r.2)
