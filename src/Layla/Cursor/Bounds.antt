-- ===== src/Layla/Cursor/Bounds.antt =====
-- Where the cursor goes: downwards, a byte for each eight bits, and not below address 0.
use cri_archive_lib.Base.{
  ℕ, zero, suc, ◌-◌, ◌≤◌, ◌<◌, ◌≡◌, refl, sym, ◌∙◌, ap, subst, arith, ◌==◌, ltb→lt,
}
use cri_archive_lib.Base.{ltb, true, inl, inr, Bool-cases}
use cri_archive_lib.Base.Table.{all_below, all_below_sound}
use cri_archive_lib.Layla.Cursor.{Cursor, at, Memory, Read, bit_mask, back_one, read_1, read_8}
use cri_archive_lib.Layla.Cursor.Single.{bits, read_bits}
use cri_archive_lib.Layla.Cursor.Reads.{read_8-bits}

back_one-le : (c : Cursor) → (back_one c).cdata ≤ c.cdata
unfolding back_one
back_one-le c = ground arith

-- No read goes up.
pub read_bits-le :
    (n : ℕ) (mem : Memory) (c : Cursor) (acc : ℕ) → (read_bits n mem c acc).cursor.cdata ≤ c.cdata
unfolding read_bits read_1
read_bits-le zero mem c acc = omega arith
read_bits-le (suc n) mem c acc =
    omega (arith, back_one-le c, read_bits-le n mem (read_1 mem c).cursor _)

read_8-cursor : (mem : Memory) (c : Cursor) → (read_8 mem c).cursor.cdata ≡ c.cdata - 1
unfolding read_8
read_8-cursor mem c = elim (Bool-cases (c.bits_left == 0)) [ inl e ↦ simp e | inr e ↦ simp e ]

bottom_table :
    all_below 8 (λ k. all_below 255 (λ b. ltb (read_8 (λ a. b) (at 0 k)).value 255)) ≡ true
unfolding read_8 all_below bit_mask
bottom_table = refl

read_8_bottom : (mem : Memory) (k : ℕ) → read_8 mem (at 0 k) ≡ read_8 (λ a. mem 0) (at 0 k)
unfolding read_8
read_8_bottom mem k = refl

module _ (mem : Memory) (bytes : (a : ℕ) → mem a < 256) where
  pub bits-step : (c : Cursor) → c.bits_left < 8 → (bits 8 mem c).cursor.cdata ≡ c.cdata - 1
  bits-step c h =
      ap (λ (r : Read ℕ). r.cursor.cdata) (sym (read_8-bits mem c h bytes)) ∙ read_8-cursor mem c

  -- A stream that has come down to address 0 reads the same bits over and over.
  pub bits-bottom :
      (c : Cursor) → c.bits_left < 8 → mem 0 < 255 → c.cdata ≡ 0 → (bits 8 mem c).value < 255
  bits-bottom c h low e =
      let t = all_below_sound 8 _ c.bits_left bottom_table h in
      let lt = ltb→lt _ _ (all_below_sound 255 _ (mem 0) t low) in
      subst (λ (r : Read ℕ). r.value < 255)
        (sym (read_8_bottom mem c.bits_left)
          ∙ ap (λ a. read_8 mem (at a c.bits_left)) (sym e)
          ∙ read_8-bits mem c h bytes)
        lt
