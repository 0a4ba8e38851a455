-- ===== src/Writer/Layout/Whole.antt =====
-- What `layout` promises when it returns.
use native.Mathlib.Nat.{one-le-pow}
use cri_archive_lib.Base.{ℕ, ◌-◌, ◌%◌, ◌^◌, ◌<◌, ◌≡◌, ◌∙◌, refl, sym, arith, subst}
use cri_archive_lib.Base.{true, ltb, leb, not, ◌&&◌, ◌==◌, length, All}
use cri_archive_lib.Base.{List, ok, >>=-eq-ok, ok-inj, ensure-inv}
use cri_archive_lib.Base.{replicate, length-replicate}
use cri_archive_lib.Writer.{
  CpkInputFile, CpkIndexMode, has_toc, has_itoc, arithmetic_overflow, empty_input, too_many_files,
  itoc_content_offset_too_large,
}
use cri_archive_lib.Writer.Align.{align_up, validate_alignment, validate_alignment-power}
use cri_archive_lib.Writer.Order.{build_physical_order}
use cri_archive_lib.Writer.Layout.{
  place_files, Slot, place_table, place_content, table_len, Layout, layout, engine_index_base,
}
use cri_archive_lib.Writer.Layout.Offsets.{
  Fits, IsPacked, sizes_of, place_files-Fits, place_files-offsets, place_files-length,
  layout_offsets, layout_end, layout_offsets-IsPacked, align_up-inv, round-le, round-mod,
}
use cri_archive_lib.Writer.Layout.Packed.{
  IsBehind, in_order, order-IsDistinct, place_table-IsBehind, IsBehind-le,
}

-- What is known of a layout: the physical order, the tables, the offsets of the files.
pub record IsLayout (alignment : ℕ) (files : List CpkInputFile) (mode : CpkIndexMode)
    (toc_len itoc_len : ℕ) (l : Layout) : Type 0 where
  pub exponent : ℕ
  pub alignment_power : (alignment ≡ 2 ^ exponent) × (exponent < 32)
  pub order : build_physical_order files mode ≡ ok l.physical_order
  pub itoc_start : ℕ
  pub toc_behind :
      IsBehind (table_len (has_toc mode) toc_len) engine_index_base l.toc_offset itoc_start
  pub itoc_behind :
      IsBehind (table_len (has_itoc mode) itoc_len) itoc_start l.itoc_offset l.content_offset
  pub content_aligned : l.content_offset % alignment ≡ 0
  pub within : not (has_itoc mode && ltb (2 ^ 32 - 1) l.content_offset) ≡ true
  pub fits : Fits alignment (sizes_of files l.physical_order) l.content_offset
  pub offsets :
      in_order l ≡ layout_offsets alignment (sizes_of files l.physical_order) l.content_offset
  pub lengths : length l.absolute_offsets ≡ length files
  pub end : l.archive_size ≡ layout_end alignment (sizes_of files l.physical_order) l.content_offset

content-IsLayout :
    (k : ℕ) (files : List CpkInputFile) (mode : CpkIndexMode) (toc_len itoc_len : ℕ)
    (order : List ℕ) (toc itoc : Slot) {l : Layout}
    → k < 32
    → build_physical_order files mode ≡ ok order
    → IsBehind (table_len (has_toc mode) toc_len) engine_index_base toc.offset toc.next
    → IsBehind (table_len (has_itoc mode) itoc_len) toc.next itoc.offset itoc.next
    → place_content (2 ^ k) files mode order toc itoc ≡ ok l
    → IsLayout (2 ^ k) files mode toc_len itoc_len l
unfolding place_content
content-IsLayout k files mode toc_len itoc_len order toc itoc small o bt bi h =
    let c = >>=-eq-ok (align_up itoc.next (2 ^ k)) _ h in
    let check =
      ensure-inv (not (has_itoc mode && ltb (2 ^ 32 - 1) c.0)) (itoc_content_offset_too_large c.0) _
        c.2 in
    let p =
      >>=-eq-ok (place_files (2 ^ k) files order (replicate (length files) 0) c.0) _ check.1 in
    let last = ensure-inv (leb c.0 p.0.absolute_cursor) arithmetic_overflow _ p.2 in
    let inv = align_up-inv k itoc.next small c.1 in
    let placed = order-IsDistinct files mode order o in
    let bound : All (λ i. i < length (replicate {A = ℕ} (length files) 0)) order =
      rw (length-replicate {A = ℕ} (length files) 0) placed.1 in
    let offsets =
      place_files-offsets k small files order (replicate {A = ℕ} (length files) 0) c.0 placed.0
        bound p.1 in
    let fits = place_files-Fits k small files order (replicate (length files) 0) c.0 p.1 in
    subst (IsLayout (2 ^ k) files mode toc_len itoc_len) (ok-inj refl last.1) (record {
      exponent = k;
      alignment_power = (refl, small);
      order = o;
      itoc_start = toc.next;
      toc_behind = bt;
      itoc_behind =
          IsBehind-le (table_len (has_itoc mode) itoc_len) toc.next itoc.offset itoc.next c.0
            (omega (arith, inv.0, round-le (2 ^ k) itoc.next)) bi;
      content_aligned = rw inv.0 (round-mod (2 ^ k) itoc.next (one-le-pow k 2 (omega arith)));
      within = check.0;
      fits = fits;
      offsets = offsets.0;
      lengths =
          place_files-length k small files order (replicate (length files) 0) c.0 p.1
          ∙ length-replicate {A = ℕ} (length files) 0;
      end = offsets.1;
    })

-- At a power of two.
layout_power :
    (k : ℕ) (files : List CpkInputFile) (mode : CpkIndexMode) (toc_len itoc_len : ℕ) {l : Layout}
    → k < 32
    → layout (2 ^ k) files mode toc_len itoc_len ≡ ok l
    → IsLayout (2 ^ k) files mode toc_len itoc_len l
unfolding layout
layout_power k files mode toc_len itoc_len small h =
    let a = >>=-eq-ok (validate_alignment (2 ^ k)) _ h in
    let nonempty = ensure-inv (not (length files == 0)) empty_input _ a.2 in
    let few =
      ensure-inv (ltb (length files) (2 ^ 32)) (too_many_files (length files)) _ nonempty.1 in
    let order = >>=-eq-ok (build_physical_order files mode) _ few.1 in
    let tlen = table_len (has_toc mode) toc_len in
    let ilen = table_len (has_itoc mode) itoc_len in
    let toc = >>=-eq-ok (place_table tlen (2 ^ k) engine_index_base) _ order.2 in
    let itoc = >>=-eq-ok (place_table ilen (2 ^ k) toc.0.next) _ toc.2 in
    content-IsLayout k files mode toc_len itoc_len order.0 toc.0 itoc.0 small order.1
      (place_table-IsBehind k tlen engine_index_base small toc.1)
      (place_table-IsBehind k ilen toc.0.next small itoc.1) itoc.2

layout-validated :
    (alignment : ℕ) (files : List CpkInputFile) (mode : CpkIndexMode) (toc_len itoc_len : ℕ)
    {l : Layout}
    → layout alignment files mode toc_len itoc_len ≡ ok l
    → validate_alignment alignment ≡ ok tt
unfolding layout
layout-validated alignment files mode toc_len itoc_len h =
    (>>=-eq-ok (validate_alignment alignment) _ h).1

-- A layout that is returned has a power of two for its alignment, the order of
-- `build_physical_order`, the tables one behind the other from 0x800 on, each with room for its
-- chunk, an aligned content offset behind them, of 32 bits if there is an ITOC, an offset for each
-- file, and in the physical order the offsets and the end that the padded sizes add up to.
pub layout-IsLayout :
    (alignment : ℕ) (files : List CpkInputFile) (mode : CpkIndexMode) (toc_len itoc_len : ℕ)
    (l : Layout)
    → layout alignment files mode toc_len itoc_len ≡ ok l
    → IsLayout alignment files mode toc_len itoc_len l
layout-IsLayout alignment files mode toc_len itoc_len l h =
    let power =
      validate_alignment-power alignment
        (layout-validated alignment files mode toc_len itoc_len h) in
    subst
      (λ a. layout a files mode toc_len itoc_len ≡ ok l → IsLayout a files mode toc_len itoc_len l)
      (sym power.2) (λ h. layout_power power.0 files mode toc_len itoc_len power.1 h) h

-- The payloads of a layout that is returned are packed between the content offset and the end of
-- the archive: each at a multiple of the alignment, none reaching into the next.
pub layout-IsPacked :
    (alignment : ℕ) (files : List CpkInputFile) (mode : CpkIndexMode) (toc_len itoc_len : ℕ)
    (l : Layout)
    → layout alignment files mode toc_len itoc_len ≡ ok l
    → IsPacked alignment l.content_offset l.archive_size
        (in_order l)
        (sizes_of files l.physical_order)
layout-IsPacked alignment files mode toc_len itoc_len l h =
    let w = layout-IsLayout alignment files mode toc_len itoc_len l h in
    let sizes = sizes_of files l.physical_order in
    let pos : 0 < alignment = rw w.alignment_power.0 (one-le-pow w.exponent 2 (omega arith)) in
    rw (w.offsets, w.end)
      (layout_offsets-IsPacked alignment sizes l.content_offset pos w.content_aligned)
