-- ===== src/Reader/Align.antt =====
-- `align_up` of the reader, with a remainder where the writer has a mask.
use native.Mathlib.Nat.{mod-one}
use cri_archive_lib.Base.{
  ℕ, ◌+◌, ◌-◌, ◌%◌, ◌^◌, ◌<◌, ◌≡◌, refl, ◌∙◌, ap, arith, leb, ◌==◌, if◌then◌else◌,
}
use cri_archive_lib.Base.{true, Bool-cases, inl, inr, Option, some, checked_add, ltb}
use cri_archive_lib.Writer.Align.{round}

pub align_up : ℕ → ℕ → Option ℕ
align_up value alignment =
    let remainder = value % alignment in
    if leb alignment 1
    then some value
    else (if remainder == 0 then some value else checked_add value (alignment - remainder))

-- It rounds up where the result fits.
pub align_up-some :
    (value alignment : ℕ)
    → 0 < alignment
    → round alignment value < 2 ^ 64
    → align_up value alignment ≡ some (round alignment value)
unfolding align_up
align_up-some value alignment pos fits = elim (Bool-cases (leb alignment 1)) [
  | inl e ↦
      let one : alignment ≡ 1 = ground arith in
      let z : value % alignment ≡ 0 = ap (λ a. value % a) one ∙ mod-one value in
      let t : (value % alignment == 0) ≡ true = ground arith in rw (e, t) refl
  | inr e ↦ elim (Bool-cases (value % alignment == 0)) [
    | inl t ↦ rw (e, t) refl
    | inr t ↦
        let fits' : value + (alignment - value % alignment) < 2 ^ 64 = rw t at fits in
        let u : ltb (value + (alignment - value % alignment)) (2 ^ 64) ≡ true = ground arith in
        rw (e, t, u) refl
  ]
]
