-- ===== src/Reader/Itoc/Offsets.antt =====
-- The offsets of `materialize_itoc_rows` as those of the writer's layout.
use cri_archive_lib.Base.{ℕ, ◌+◌, ◌-◌, ◌%◌, ◌^◌, ◌≤◌, ◌<◌, ◌≡◌, refl, ◌∙◌, ap, arith}
use cri_archive_lib.Base.{
  true, ltb, ◌==◌, if◌then◌else◌, map, List, [], ◌∷◌, some, ok, ok_or, checked_add,
}
use native.Mathlib.Nat.{one-le-pow}
use cri_archive_lib.Writer.Align
use cri_archive_lib.Writer.Align.{round}
use cri_archive_lib.Writer.Layout.Offsets.{layout_offsets, Fits, round-add, round-mod, align_up-inv}
use cri_archive_lib.Reader.{missing_file_offset, CpkFile, new}
use cri_archive_lib.Reader.Align.{align_up, align_up-some}
use cri_archive_lib.Reader.Itoc.{ItocRow, bin_name, materialize}

abbrev pub row_sizes : List ItocRow → List ℕ
row_sizes rows = map (λ r. r.file_size) rows

-- The size of a file after its extraction: a zero stands for the packed size.
abbrev pub extracted : ItocRow → ℕ
extracted r = if r.extract_size == 0 then r.file_size else r.extract_size

add_fits : (a b : ℕ) → a + b < 2 ^ 64 → ok_or (checked_add a b) missing_file_offset ≡ ok (a + b)
add_fits a b h = let t : ltb (a + b) (2 ^ 64) ≡ true = ground arith in rw t refl

round-most : (a v : ℕ) → 0 < a → round a v ≤ v + (a - 1)
round-most a v pos = ground arith

-- The files that are read from rows whose padded sizes do not overflow.
pub record IsRead (a : ℕ) (rows : List ItocRow) (start : ℕ) (files : List CpkFile) : Type 0 where
  pub absolute_offsets :
      map (λ f. f.absolute_offset) files ≡ layout_offsets a (row_sizes rows) start
  pub ids : map (λ f. f.id) files ≡ map (λ r. some r.id) rows
  pub file_sizes : map (λ f. f.file_size) files ≡ row_sizes rows
  pub extract_sizes : map (λ f. f.extract_size) files ≡ map extracted rows

pub materialize-IsRead :
    (a content : ℕ) (rows : List ItocRow) (relative : ℕ)
    → 0 < a
    → content % a ≡ 0
    → (content + relative) % a ≡ 0
    → Fits a (row_sizes rows) (content + relative)
    → (files : List CpkFile) × (materialize content a rows relative ≡ ok files)
      × IsRead a rows (content + relative) files
unfolding materialize new layout_offsets
materialize-IsRead a content [] relative pos hc hr fits = (
  [],
  refl,
  record { absolute_offsets = refl; ids = refl; file_sizes = refl; extract_sizes = refl },
)
materialize-IsRead a content (row ∷ rows) relative pos hc hr fits =
    let s = row.file_size in
    let up = round-add a (content + relative) s hr in
    let most = round-most a (content + relative + s) pos in
    let fits₀ = fits.0 in
    let small : round a s < 2 ^ 64 = omega (arith, up, most, fits₀) in
    let e₁ = add_fits content relative (omega (arith, fits.0)) in
    let e₂ = align_up-some s a pos small in
    let e₃ = add_fits relative (round a s) (omega (arith, up, most, fits₀)) in
    let here : content + (relative + round a s) ≡ round a (content + relative + s) =
      omega (arith, up) in
    let ih =
      materialize-IsRead a content rows (relative + round a s) pos hc
        (rw here (round-mod a (content + relative + s) pos)) (rw here fits.1) in
    let r = ih.2 in
    (
      new [] (bin_name row.id) relative (content + relative) s row.extract_size (some row.id) []
            row.file_crc
          ∷ ih.0,
      rw (e₁, e₂, e₃, ih.1) refl,
      record {
        absolute_offsets =
            ap (λ t. (content + relative) ∷ t)
              (r.absolute_offsets ∙ ap (layout_offsets a (row_sizes rows)) here);
        ids = ap (λ t. some row.id ∷ t) r.ids;
        file_sizes = ap (λ t. s ∷ t) r.file_sizes;
        extract_sizes = ap (λ t. extracted row ∷ t) r.extract_sizes;
      },
    )

-- Where `align_up` of the writer, with its mask, returns a result at a power of two below 2 ^ 32,
-- `align_up` of the reader, with its remainder, returns the same.
pub align_up-agree :
    (k value r : ℕ)
    → k < 32
    → cri_archive_lib.Writer.Align.align_up value (2 ^ k) ≡ ok r
    → align_up value (2 ^ k) ≡ some r
align_up-agree k value r small h =
    let inv = align_up-inv k value small h in
    let pos = one-le-pow k 2 (omega arith) in
    let most = round-most (2 ^ k) value pos in
    rw inv.0 (align_up-some value (2 ^ k) pos (omega (arith, most, inv.1)))
