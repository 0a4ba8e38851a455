-- ===== src/Layla/Tokens/Exact.antt =====
-- The reference for a token: plain reads bit by bit, the length as groups of bits, the copy as a loop
-- over single bytes.
use cri_archive_lib.Base.{ℕ, zero, suc, ◌+◌, ◌-◌, ◌^◌, ◌≤◌, ◌<◌, ◌≡◌, refl, ap, arith, ◌==◌}
use cri_archive_lib.Base.{
  if◌then◌else◌, Bool, true, false, Option, none, some, List, [], ◌∷◌, Bool-cases,
}
use cri_archive_lib.Base.{inl, inr, ◌⊎◌, subst, Option-cases, some-inj}
use cri_archive_lib.Layla.Cursor.{Cursor, Memory, Read}
use cri_archive_lib.Layla.Cursor.Single.{bits, read_bits-lt, bits-one}
use cri_archive_lib.Layla.Cursor.Thirteen.{read_13-bits}
use cri_archive_lib.Layla.Cursor.Reads.{read_8-bits, read_2-bits, read_max_8-bits}
use cri_archive_lib.Layla.Copy.{Output, output, poke, copy_block, copy_loop, copy_block-loop}
use cri_archive_lib.Layla.Tokens.{
  min_copy_length, found, long_length, read_length, Progress, copied, copy_token, raw_token, token,
}

abbrev pub head_or : ℕ → List ℕ → ℕ
head_or d [] = d
head_or d (w ∷ ws) = w

abbrev pub rest_of : List ℕ → List ℕ
rest_of [] = []
rest_of (w ∷ ws) = ws

-- Groups of bits of the given widths, then of 8, are added as long as a group is all ones.
unfoldable pub groups : ℕ → List ℕ → Memory → Cursor → ℕ → Option (Read ℕ)
groups zero widths mem c length = none
groups (suc fuel) widths mem c length =
    let width = head_or 8 widths in
    let r = bits width mem c in
    let rest = groups fuel (rest_of widths) mem r.cursor (length + r.value) in
    if r.value == 2 ^ width - 1 then rest else found (length + r.value) r.cursor

-- A copy: 13 bits of offset, the length, and the bytes one after the other.
abbrev pub copy_exact : ℕ → Memory → Cursor → Output → Option Progress
copy_exact fuel mem c o =
    let offset = bits 13 mem c in
    copied copy_loop
      (groups (suc (suc (suc fuel))) (2 ∷ 3 ∷ 5 ∷ []) mem offset.cursor min_copy_length)
      offset.value o

abbrev pub raw_exact : Memory → Cursor → Output → Progress
raw_exact mem c o =
    let r = bits 8 mem c in
    record { cursor = r.cursor; written = output (poke o.out o.pwrite r.value) (o.pwrite - 1) }

unfoldable pub token_exact : ℕ → Memory → Progress → Option Progress
token_exact fuel mem s =
    let flag = bits 1 mem s.cursor in
    if flag.value == 1
    then copy_exact fuel mem flag.cursor s.written
    else some (raw_exact mem flag.cursor s.written)

module _ (mem : Memory) (bytes : (a : ℕ) → mem a < 256) where
  long_length-groups :
      (fuel : ℕ) (c : Cursor) (length : ℕ)
      → c.bits_left < 8
      → long_length fuel mem c length ≡ groups fuel [] mem c length
  unfolding long_length groups
  long_length-groups zero c length h = refl
  long_length-groups (suc fuel) c length h = rw (
    read_8-bits mem c h bytes,
    long_length-groups fuel (bits 8 mem c).cursor _ (read_bits-lt 8 mem c 0 h),
  )

  -- On a memory of bytes and with less than a byte left over, the unrolled reads of a length give
  -- what groups of 2, 3, 5 and then 8 bits add up to, as long as a group is all ones.
  pub read_length-groups :
      (fuel : ℕ) (c : Cursor)
      → c.bits_left < 8
      → read_length fuel mem c
        ≡ groups (suc (suc (suc fuel))) (2 ∷ 3 ∷ 5 ∷ []) mem c min_copy_length
  unfolding read_length groups
  read_length-groups fuel c h =
      let c₂ = (bits 2 mem c).cursor in
      let h₂ : c₂.bits_left < 8 = read_bits-lt 2 mem c 0 h in
      let c₃ = (bits 3 mem c₂).cursor in
      let h₃ : c₃.bits_left < 8 = read_bits-lt 3 mem c₂ 0 h₂ in
      let h₅ : (bits 5 mem c₃).cursor.bits_left < 8 = read_bits-lt 5 mem c₃ 0 h₃ in
      rw (
        read_2-bits mem c h bytes,
        read_max_8-bits mem c₂ 3 h₂ (omega arith) (omega arith),
        read_max_8-bits mem c₃ 5 h₃ (omega arith) (omega arith),
        long_length-groups fuel (bits 5 mem c₃).cursor _ h₅,
      )

  -- Every length is at least three.
  pub groups-le :
      (fuel : ℕ) (widths : List ℕ) (c : Cursor) (length : ℕ) {r : Read ℕ}
      → c.bits_left < 8
      → groups fuel widths mem c length ≡ some r
      → (length ≤ r.value) × (r.cursor.bits_left < 8)
  unfolding groups
  groups-le zero widths c length h e = cc
  groups-le (suc fuel) widths c length {r} h e =
      let g = bits (head_or 8 widths) mem c in
      let h' = read_bits-lt (head_or 8 widths) mem c 0 h in
      elim (either (g.value == 2 ^ head_or 8 widths - 1) e) [
        | inl more ↦
            let ih = groups-le fuel (rest_of widths) g.cursor (length + g.value) h' more in
            (omega (arith, ih.0), ih.1)
        | inr last ↦
            let same : record { value = length + g.value; cursor = g.cursor } ≡ r = some-inj last in
            (
              omega (arith, ap (λ (t : Read ℕ). t.value) same),
              subst (λ (t : Read ℕ). t.cursor.bits_left < 8) same h',
            )
      ]
    where
      either :
          (b : Bool) {x y : Option (Read ℕ)}
          → (if b then x else y) ≡ some r
          → (x ≡ some r) ⊎ (y ≡ some r)
      either true e = inl e
      either false e = inr e

  copy_token-exact :
      (fuel : ℕ) (c : Cursor) (o : Output)
      → c.bits_left < 8
      → copy_token fuel mem c o ≡ copy_exact fuel mem c o
  unfolding copy_token copied
  copy_token-exact fuel c o h =
      let c' = (bits 13 mem c).cursor in
      let h' : c'.bits_left < 8 = read_bits-lt 13 mem c 0 h in
      rw (read_13-bits mem c h, read_length-groups fuel c' h')
        (by_length c' (bits 13 mem c).value h')
    where
      by_length :
          (c' : Cursor) (offset : ℕ)
          → c'.bits_left < 8
          → copied copy_block
              (groups (suc (suc (suc fuel))) (2 ∷ 3 ∷ 5 ∷ []) mem c' min_copy_length)
              offset
              o
            ≡ copied copy_loop
                (groups (suc (suc (suc fuel))) (2 ∷ 3 ∷ 5 ∷ []) mem c' min_copy_length)
                offset
                o
      by_length c' offset h' =
          elim (Option-cases
            (groups (suc (suc (suc fuel))) (2 ∷ 3 ∷ 5 ∷ []) mem c' min_copy_length)) [
              | inl e ↦ rw e
              | inr (r, e) ↦
                  let least =
                    groups-le (suc (suc (suc fuel))) (2 ∷ 3 ∷ 5 ∷ []) c' min_copy_length h' e in
                  rw (e, copy_block-loop r.value (offset + min_copy_length) o least.0)
            ]

  raw_token-exact :
      (c : Cursor) (o : Output) → c.bits_left < 8 → raw_token mem c o ≡ raw_exact mem c o
  unfolding raw_token
  raw_token-exact c o h = rw (read_8-bits mem c h bytes)

  -- On a memory of bytes and with less than a byte left over, a round of the loop reads and writes
  -- what the reference token does: a flag of one bit, then an offset of 13 bits, the length as
  -- groups of bits, and a copy byte by byte, or one raw byte.
  pub token-exact :
      (fuel : ℕ) (s : Progress) → s.cursor.bits_left < 8 → token fuel mem s ≡ token_exact fuel mem s
  unfolding token token_exact
  token-exact fuel s h =
      let flag = bits-one mem s.cursor in
      let h' : (bits 1 mem s.cursor).cursor.bits_left < 8 = read_bits-lt 1 mem s.cursor 0 h in
      rw (
        flag.0,
        flag.1,
        copy_token-exact fuel (bits 1 mem s.cursor).cursor s.written h',
        raw_token-exact (bits 1 mem s.cursor).cursor s.written h',
      )

  -- What is left of a byte behind a token.
  pub token_exact-lt :
      (fuel : ℕ) (s : Progress) {s' : Progress}
      → s.cursor.bits_left < 8
      → token_exact fuel mem s ≡ some s'
      → s'.cursor.bits_left < 8
  unfolding token_exact copied
  token_exact-lt fuel s h e =
      let c₁ = (bits 1 mem s.cursor).cursor in
      let h₁ : c₁.bits_left < 8 = read_bits-lt 1 mem s.cursor 0 h in
      elim (Bool-cases ((bits 1 mem s.cursor).value == 1)) [
        | inl t ↦ copy_exact-lt fuel c₁ s.written h₁ (rw t at e)
        | inr t ↦
            subst (λ s. s.cursor.bits_left < 8) (some-inj (rw t at e)) (read_bits-lt 8 mem c₁ 0 h₁)
      ]
    where
      copy_exact-lt :
          (fuel : ℕ) (c : Cursor) (o : Output) {s' : Progress}
          → c.bits_left < 8
          → copy_exact fuel mem c o ≡ some s'
          → s'.cursor.bits_left < 8
      copy_exact-lt fuel c o h e =
          let c' = (bits 13 mem c).cursor in
          let h' : c'.bits_left < 8 = read_bits-lt 13 mem c 0 h in
          elim (Option-cases
            (groups (suc (suc (suc fuel))) (2 ∷ 3 ∷ 5 ∷ []) mem c' min_copy_length)) [
              | inl f ↦ cc
              | inr (r, f) ↦
                  let d =
                    groups-le (suc (suc (suc fuel))) (2 ∷ 3 ∷ 5 ∷ []) c' min_copy_length h' f in
                  subst (λ s. s.cursor.bits_left < 8) (some-inj (rw f at e)) d.1
            ]
