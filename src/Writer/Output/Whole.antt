-- ===== src/Writer/Output/Whole.antt =====
-- What is written for a layout.
use cri_archive_lib.Base.{
  ℕ, ◌-◌, ◌≤◌, ◌≡◌, refl, sym, ◌∙◌, ap, arith, ltb, Bool-cases, inl, inr, [], append_assoc,
  >>=-eq-ok, ok-inj,
}
use cri_archive_lib.Base.{
  length, length-append, length-replicate, get_or, take, drop, All, List, ◌++◌, ok,
}
use cri_archive_lib.Writer.{CpkInputFile, CpkIndexMode}
use cri_archive_lib.Writer.Layout.{size_at, Layout, layout}
use cri_archive_lib.Writer.Layout.Whole.{layout-IsPacked}
use cri_archive_lib.Writer.Output.{write_payloads, write_content}
use cri_archive_lib.Writer.Output.Payloads.{
  zeros, pad-to, append-nil, write_zeros-zeros, extends, write_payloads-slices,
  write_payloads-returns,
}

-- `absolute_offsets[index]`
abbrev pub offset_at : Layout → ℕ → ℕ
offset_at l i = get_or l.absolute_offsets i 0

-- For a layout that is returned, an output that is no longer than the content offset, and payloads
-- that are as long as the sizes of their files, the rest of the archive is written without an
-- error, it ends at the size of the archive, and each file in the physical order has its payload
-- at its absolute offset.
pub write_content-layout :
    (alignment : ℕ) (files : List CpkInputFile) (mode : CpkIndexMode) (toc_len itoc_len : ℕ)
    (l : Layout) (payload : ℕ → List ℕ) (output : List ℕ)
    → layout alignment files mode toc_len itoc_len ≡ ok l
    → ((i : ℕ) → length (payload i) ≡ size_at files i)
    → length output ≤ l.content_offset
    → (out : List ℕ) × (write_content payload
          (size_at files)
          (offset_at l)
          l.archive_size
          l.physical_order
          output
        ≡ ok out)
      × (length out ≡ l.archive_size)
      × All (λ i. take (size_at files i) (drop (offset_at l i) out) ≡ payload i) l.physical_order
unfolding write_content
write_content-layout alignment files mode toc_len itoc_len l payload output h same le =
    let packed = layout-IsPacked alignment files mode toc_len itoc_len l h in
    let size = size_at files in
    let offset = offset_at l in
    let w =
      write_payloads-returns payload size offset alignment l.content_offset l.archive_size
        l.physical_order output same le packed in
    let tail = zeros (l.archive_size - length w.0) in
    let n = length-append w.0 tail in
    let z = length-replicate {A = ℕ} (l.archive_size - length w.0) 0 in
    (
      w.0 ++ tail,
      rw (w.1, pad-to l.archive_size w.0 w.2) refl,
      omega (arith, n, z, w.2),
      write_payloads-slices payload size offset l.physical_order output w.0 tail w.1,
    )

-- What is written is put behind what is there.
pub write_content-extends :
    (payload : ℕ → List ℕ) (size offset : ℕ → ℕ) (archive_size : ℕ) (order output : List ℕ)
    {out : List ℕ}
    → write_content payload size offset archive_size order output ≡ ok out
    → (more : List ℕ) × (out ≡ output ++ more)
unfolding write_content
write_content-extends payload size offset archive_size order output {out} h =
    let w = >>=-eq-ok (write_payloads payload size offset order output) _ h in
    let e = extends payload size offset order output w.1 in
    let pad = zeros (archive_size - length w.0) in
    let written : (more : List ℕ) × (w.0 ++ more ≡ out) =
      elim (Bool-cases (ltb (length w.0) archive_size)) [
        | inl t ↦ (
          pad,
          sym (write_zeros-zeros (archive_size - length w.0) w.0) ∙ ok-inj refl (rw t at w.2),
        )
        | inr t ↦ ([], append-nil w.0 ∙ ok-inj refl (rw t at w.2))
      ] in
    (
      e.0 ++ written.0,
      sym written.1 ∙ ap (λ (x : List ℕ). x ++ written.0) e.1 ∙ append_assoc output e.0 written.0,
    )
